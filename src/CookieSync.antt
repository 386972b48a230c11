-- ===== src/CookieSync.antt =====
-- internal/cookie.go: the headers that carry cookies between the browser's script and the jar.
-- Base64, encoding/json and the parsing of Set-Cookie are parameters.
pub mod Headers
pub mod RoundTrip
mod Tests
