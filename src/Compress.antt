-- ===== src/Compress.antt =====
-- internal/compress/compress.go: which responses are compressed, and how.
pub mod Negotiate
pub mod Response
pub mod Weight
pub mod Accepts
pub mod Best
pub mod Choice
pub mod RoundTrip
mod Tests
