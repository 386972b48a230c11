-- ===== src/CookieJar/AddCookie.antt =====
-- internal/cookiejar/jar.go: what AddCookie promises.
use cifera.Base.{
  ◌⊎◌, inl, inr, ℕ, ◌≡◌, ◌∙◌, sym, ◌↔◌, ite, Bool, true, false, false≢true, none, some, Text,
  text_dec,
}
use cifera.CookieJar.Entry.{HttpCookie, is_negative, is_expired}
use cifera.CookieJar.Live.{IsLive, is_expired-IsLive}
use cifera.CookieJar.Jar.{Jar, remove_cookie, make_entry, add_cookie}
use cifera.CookieJar.Find.{find, find-remove_cookie}
use cifera.CookieJar.Places.{IsValid}
use cifera.CookieJar.Restore.{at_dec}
use cifera.CookieJar.Stored.{Kept, find-put_entry, put_entry-Kept}
use cifera.CookieJar.Panic.{IsLastOfDomain, put_entry_panics_iff}
use cifera.CookieJar.Outcome.{key_of, puts, ignores, deletes, add_cookie-Outcome}

differ : {b : Bool} {B : Type 0} → b ≡ true → b ≡ false → B
differ p q = absurd (false≢true (sym q ∙ p))

module _ (now : ℕ) (j : Jar) (c : HttpCookie) (host : Text) where
  -- The jar that AddCookie leaves has the cookie at its place, and every other cookie as it was, but
  -- for the oldest one of a full jar.
  pub record IsStored (j' : Jar) : Type 0 where
    pub found :
        find j' (make_entry now c host).domain (key_of now c host) ≡ some (make_entry now c host)
    pub others :
        (d k : Text)
        → (((make_entry now c host).domain ≡ d) × (key_of now c host ≡ k)) ⊎ Kept j j' d k

  -- In a well-formed jar a cookie that is neither a deletion nor expired is found at its place when
  -- AddCookie returns, and every other cookie is as it was, but for one of a full jar that no other
  -- was created before.
  pub add_cookie_stores :
      (j' : Jar)
      → IsValid j
      → is_negative c.max_age ≡ false
      → IsLive now (make_entry now c host)
      → add_cookie now j c host ≡ some j'
      → IsStored j'
  add_cookie_stores j' v kept live h =
      let fresh = (is_expired-IsLive now (make_entry now c host)).1 live in
      elim (add_cookie-Outcome now j c host) [
        | puts _ _ e ↦
            let added = sym e ∙ h in
            record {
              found = find-put_entry j (make_entry now c host) j' added;
              others = λ d k. elim (at_dec d k (make_entry now c host)) [
                | yes here ↦ inl here
                | no other ↦ inr (put_entry-Kept j (make_entry now c host) j' added d k v other)
              ];
            }
        | ignores _ old _ ↦ differ old fresh
        | deletes negative _ ↦ differ negative kept
      ]

  -- AddCookie on a well-formed jar panics exactly for a new cookie to be stored in a full jar that
  -- evicts the only cookie of the same domain, which no other cookie of the jar was created before.
  pub add_cookie_panics_iff :
      IsValid j
      → (add_cookie now j c host ≡ none) ↔ (
          (is_negative c.max_age ≡ false)
          × IsLive now (make_entry now c host)
          × IsLastOfDomain j (make_entry now c host))
  add_cookie_panics_iff v =
      let alive = is_expired-IsLive now (make_entry now c host) in
      elim (add_cookie-Outcome now j c host) [
        | puts kept fresh e ↦ (
          λ h. (
            kept,
            alive.0 fresh,
            (put_entry_panics_iff j (make_entry now c host) v).0 (sym e ∙ h),
          ),
          λ (_, _, l). e ∙ (put_entry_panics_iff j (make_entry now c host) v).1 l,
        )
        | ignores _ old e ↦
            (λ h. absurd (cc (sym e ∙ h)), λ (_, live, _). differ old (alive.1 live))
        | deletes negative e ↦ (λ h. absurd (cc (sym e ∙ h)), λ (kept, _, _). differ negative kept)
      ]

  -- A negative Max-Age removes the cookie at its place and no other.
  pub add_cookie_deletes :
      is_negative c.max_age ≡ true
      → (j' : Jar) × (add_cookie now j c host ≡ some j')
        × ((d k : Text)
            → find j' d k
              ≡ ite
                  (text_dec (make_entry now c host).domain d)
                  (ite (text_dec (key_of now c host) k) none (find j d k))
                  (find j d k))
  add_cookie_deletes negative = elim (add_cookie-Outcome now j c host) [
    | puts kept _ _ ↦ differ negative kept
    | ignores kept _ _ ↦ differ negative kept
    | deletes _ e ↦ (
      remove_cookie j (make_entry now c host).domain (key_of now c host),
      e,
      find-remove_cookie j (make_entry now c host).domain (key_of now c host),
    )
  ]

  -- A cookie whose Expires has passed leaves the jar as it was, also where it has a cookie at the
  -- same place.
  pub add_cookie_expired :
      is_negative c.max_age ≡ false
      → is_expired now (make_entry now c host) ≡ true
      → add_cookie now j c host ≡ some j
  add_cookie_expired kept old = elim (add_cookie-Outcome now j c host) [
    | puts _ fresh _ ↦ differ old fresh
    | ignores _ _ e ↦ e
    | deletes negative _ ↦ differ negative kept
  ]
