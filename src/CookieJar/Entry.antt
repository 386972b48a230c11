-- ===== src/CookieJar/Entry.antt =====
-- internal/cookiejar/jar.go: one cookie. Its times count nanoseconds, 0 being the zero time.
use cifera.Base.{
  ℕ, zero, suc, Bool, true, false, not, ◌&&◌, ◌∷◌, ◌++◌, ltb, ◌==◌, if◌then◌else◌, ℤ, pos, negsuc,
  ltb_ℤ, sub_time, seconds, Text,
}

-- http.Cookie
pub record HttpCookie : Type 0 where
  pub name : Text
  pub value : Text
  pub path : Text
  pub domain : Text
  pub expires : ℕ
  pub max_age : ℤ
  pub secure : Bool
  pub http_only : Bool
  pub same_site : ℕ

pub record CookieEntry : Type 0 where
  pub name : Text
  pub value : Text
  pub domain : Text
  pub path : Text
  pub expires : ℕ
  pub max_age : ℤ
  pub secure : Bool
  pub http_only : Bool
  pub same_site : ℕ
  pub created : ℕ
  pub host_only : Bool

abbrev pub is_zero : ℤ → Bool
is_zero (pos zero) = true
is_zero (pos (suc n)) = false
is_zero (negsuc n) = false

abbrev pub is_negative : ℤ → Bool
is_negative (pos n) = false
is_negative (negsuc n) = true

unfoldable pub is_session_cookie : CookieEntry → Bool
is_session_cookie e = e.expires == 0 && is_zero e.max_age

-- The lifetime of a positive Max-Age has passed.
unfoldable pub age_is_over : ℕ → ℕ → ℕ → Bool
age_is_over now created max_age = ltb_ℤ (seconds max_age) (sub_time now created)

date_is_over : ℕ → ℕ → Bool
date_is_over now expires = not (expires == 0) && ltb expires now

expired_by : ℕ → CookieEntry → ℤ → Bool
expired_by now e (pos (suc n)) = age_is_over now e.created (suc n)
expired_by now e (pos zero) = date_is_over now e.expires
expired_by now e (negsuc n) = date_is_over now e.expires

unfoldable pub is_expired : ℕ → CookieEntry → Bool
unfolding expired_by date_is_over
is_expired now e = if is_session_cookie e then false else expired_by now e e.max_age

-- The key of a cookie in its domain: name + "\x00" + path.
unfoldable pub cookie_key : Text → Text → Text
cookie_key name path = name ++ (0 ∷ path)
