-- ===== src/Server.antt =====
-- internal/server.go and internal/utils/url.go: what a request is for, its session, the way of a
-- request through the handler, and redirects.
pub mod Params
pub mod Redirect
pub mod Session
pub mod Handler
pub mod Kept
pub mod Jars
pub mod Blocks
pub mod Passes
pub mod Forwards
pub mod Outgoing
pub mod Loops
pub mod Slots
pub mod Outbound
pub mod Attributes
pub mod Stripped
mod Tests
mod HandlerTests
mod OutboundTests
