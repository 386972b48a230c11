-- ===== src/Addon.antt =====
-- internal/addon: the addons and their parameters.
pub mod Params
pub mod Typed
pub mod Resolved
pub mod Rules
pub mod Matcher
pub mod Schedule
pub mod Cached
pub mod Stateless
pub mod Loader
pub mod Load
pub mod Accepted
pub mod Accepts
pub mod Valid
pub mod Compiled
pub mod Loads
mod Tests
mod LoadTests
