-- ===== src/CookieJar/Persist.antt =====
-- internal/cookiejar/jar.go: what AllCookies hands out for storage, RestoreCookies brings back.
use cifera.Base.{
  ℕ, zero, suc, pos, negsuc, ◌≡◌, refl, ◌∙◌, ap, sym, subst, inl, inr, true, false, false≢true,
  List, map, Option, none, some, IsIn, IsIn-keep, IsIn-map, map-IsIn, Text, text_dec, lookup,
  lookup-All, arith, eq_of_some, Bool-cases, Option-cases, ℤ, if◌then◌else◌,
}
use cifera.CookieJar.Entry.{CookieEntry, is_expired}
use cifera.CookieJar.Jar.{
  Jar, Place, new_jar, places, is_persistent, all_cookies, restore_from, restore_cookies,
}
use cifera.CookieJar.Find.{find_in, find, find_in_of_lookup, find_in_of_none}
use cifera.CookieJar.Restore.{IsAt, restore_from_elsewhere, restore_from_found}
use cifera.CookieJar.Places.{IsValid, IsGood, IsFiled, places_sound, places_complete}

pub find-IsAt :
    (j : Jar) (d k : Text) (e : CookieEntry) → IsValid j → find j d k ≡ some e → IsAt d k e
unfolding find
find-IsAt j d k e v h = elim (Option-cases (lookup text_dec d j.cookies)) [
  | inl absent ↦ absurd (cc (sym h ∙ find_in_of_none d k j.cookies absent))
  | inr (es, found) ↦
      let here = sym (find_in_of_lookup d k es j.cookies found) ∙ h in
      let (u, a) = lookup-All text_dec IsGood d es j.cookies found v.good in
      let (key, dom) = lookup-All text_dec (IsFiled d) k e es here a in (dom, sym key)
]

pub none_some {ℓ} : {A B : Type ℓ} {a : A} {o : Option A} → o ≡ none → o ≡ some a → B
none_some p q = absurd (cc (sym p ∙ q))

-- What of a cookie survives storage.
abbrev pub persistent : ℕ → Option CookieEntry → Option CookieEntry
persistent now none = none
persistent now (some e) = if is_persistent now e then some e else none

pub stored_sound :
    (now : ℕ) (j : Jar) (d k : Text) (x : CookieEntry)
    → IsValid j
    → IsIn x (all_cookies now j)
    → IsAt d k x
    → (find j d k ≡ some x) × (is_persistent now x ≡ true)
unfolding all_cookies
stored_sound now j d k x v i at =
    let (m, lasts) =
      (IsIn-keep x (is_persistent now) (map (λ (p : Place). p.entry) (places j.cookies))).0 i in
    let (p, q, same) = IsIn-map (λ (p : Place). p.entry) x (places j.cookies) m in
    let found = places_sound j p v q ∙ ap some same in
    let (dom, key) = find-IsAt j p.domain p.key x v found in
    (
      subst (λ y. find j d y ≡ some x) (sym key ∙ at.1)
          (subst (λ y. find j y p.key ≡ some x) (sym dom ∙ at.0) found),
      lasts,
    )

pub stored_complete :
    (now : ℕ) (j : Jar) (d k : Text) (e : CookieEntry)
    → find j d k ≡ some e
    → is_persistent now e ≡ true
    → IsIn e (all_cookies now j)
unfolding all_cookies
stored_complete now j d k e h lasts =
    (IsIn-keep e (is_persistent now) (map (λ (p : Place). p.entry) (places j.cookies))).1 (
      map-IsIn (λ (p : Place). p.entry) e (record { domain = d; key = k; entry = e })
          (places j.cookies) (places_complete j d k e h) refl,
      lasts,
    )

persistent_live :
    (now : ℕ) (e : CookieEntry) → is_persistent now e ≡ true → is_expired now e ≡ false
unfolding is_persistent
persistent_live now e h = ground arith

pub find-new_jar : (size : ℤ) (d k : Text) → find_in (new_jar size).cookies d k ≡ none
unfolding new_jar find_in lookup
find-new_jar (pos zero) d k = refl
find-new_jar (pos (suc n)) d k = refl
find-new_jar (negsuc n) d k = refl

pub find-restore_cookies :
    (now : ℕ) (j : Jar) (es : List CookieEntry) (d k : Text)
    → find (restore_cookies now j es) d k ≡ find_in (restore_from now j.cookies es) d k
unfolding find restore_cookies
find-restore_cookies now j es d k = refl

-- A new jar into which the stored cookies of a well-formed jar are restored has exactly the
-- persistent ones: those that are neither expired nor session cookies.
pub find-restore_all :
    (now : ℕ) (j : Jar) (size : ℤ) (d k : Text)
    → IsValid j
    → find (restore_cookies now (new_jar size) (all_cookies now j)) d k
      ≡ persistent now (find j d k)
find-restore_all now j size d k v =
    let all = all_cookies now j in
    let start = (new_jar size).cookies in
    let restored = find-restore_cookies now (new_jar size) all d k in
    elim (Option-cases (find j d k)) [
      | inl absent ↦ rw absent (
          restored
          ∙ restore_from_elsewhere now d k start all
              (λ x i at. none_some absent (stored_sound now j d k x v i at).0)
          ∙ find-new_jar size d k)
      | inr (e, found) ↦
          let unique : (x : CookieEntry) → IsIn x all → IsAt d k x → x ≡ e =
            λ x i at. eq_of_some (sym (stored_sound now j d k x v i at).0 ∙ found) in
          elim (Bool-cases (is_persistent now e)) [
            | inl lasts ↦
                rw (found, lasts)
                  (restored
                    ∙ restore_from_found now d k e start all unique
                        (stored_complete now j d k e found lasts) (find-IsAt j d k e v found)
                        (persistent_live now e lasts))
            | inr drops ↦
                rw (found, drops)
                  (restored
                    ∙ restore_from_elsewhere now d k start all (λ x i at.
                      let (f, lasts) = stored_sound now j d k x v i at in
                      false≢true
                        (sym drops ∙ ap (is_persistent now) (eq_of_some (sym found ∙ f)) ∙ lasts))
                    ∙ find-new_jar size d k)
          ]
    ]
