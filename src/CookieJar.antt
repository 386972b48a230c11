-- ===== src/CookieJar.antt =====
-- internal/cookiejar: the cookies of one session, and the jars of all sessions.
pub mod Matcher
pub mod Matches
pub mod Entry
pub mod Live
pub mod Jar
pub mod Find
pub mod Places
pub mod Oldest
pub mod Capacity
pub mod Add
pub mod Panic
pub mod Stored
pub mod Restore
pub mod Persist
pub mod Outcome
pub mod AddCookie
pub mod Sends
pub mod Expiry
pub mod Reach
mod Tests
