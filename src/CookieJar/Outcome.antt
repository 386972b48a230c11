-- ===== src/CookieJar/Outcome.antt =====
-- internal/cookiejar/jar.go: the three ways of AddCookie.
use cifera.Base.{ℕ, ◌≡◌, inl, inr, true, false, Option, some, Text, Bool-cases}
use cifera.CookieJar.Entry.{HttpCookie, cookie_key, is_negative, is_expired}
use cifera.CookieJar.Jar.{Jar, remove_cookie, make_entry, put_entry, add_cookie}

-- The key of the entry that AddCookie builds.
abbrev pub key_of : ℕ → HttpCookie → Text → Text
key_of now c host = let e = make_entry now c host in cookie_key e.name e.path

module _ (now : ℕ) (j : Jar) (c : HttpCookie) (host : Text) where
  pub data Outcome : Option Jar → Type 0 where
    puts :
        {r : Option Jar}
        → is_negative c.max_age ≡ false
        → is_expired now (make_entry now c host) ≡ false
        → r ≡ put_entry j (make_entry now c host)
        → Outcome r
    ignores :
        {r : Option Jar}
        → is_negative c.max_age ≡ false
        → is_expired now (make_entry now c host) ≡ true
        → r ≡ some j
        → Outcome r
    deletes :
        {r : Option Jar}
        → is_negative c.max_age ≡ true
        → r ≡ some (remove_cookie j (make_entry now c host).domain (key_of now c host))
        → Outcome r

  pub add_cookie-Outcome : Outcome (add_cookie now j c host)
  unfolding add_cookie
  add_cookie-Outcome = elim (Bool-cases (is_negative c.max_age)) [
    | inl negative ↦ deletes negative (rw (negative, add_cookie))
    | inr other ↦ elim (Bool-cases (is_expired now (make_entry now c host))) [
      | inl old ↦ ignores other old (rw (other, old, add_cookie))
      | inr fresh ↦ puts other fresh (rw (other, fresh, add_cookie))
    ]
  ]
