-- ===== src/Vhost.antt =====
-- internal/vhost: virtual hosts, which answer for a site from a directory or from another server.
pub mod Path
pub mod Parts
pub mod Url
pub mod Host
pub mod Local
pub mod Remote
pub mod Within
pub mod Ready
pub mod Loaded
pub mod Served
pub mod Stripped
mod Tests
