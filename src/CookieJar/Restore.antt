-- ===== src/CookieJar/Restore.antt =====
-- internal/cookiejar/jar.go: what RestoreCookies leaves at one place.
use cifera.Base.{
  ℕ, ◌≡◌, refl, ◌∙◌, ap, sym, subst, ite, if_pos, if_neg, inl, inr, true, false, false≢true, List,
  [], ◌∷◌, some, IsIn, Text, text_dec, lookup, insert, lookup-insert, arith, Bool-cases,
  Option-cases,
}
use cifera.CookieJar.Entry.{CookieEntry, cookie_key, is_expired}
use cifera.CookieJar.Jar.{Cookies, restore_one, restore_from}
use cifera.CookieJar.Find.{find_in, find_in-insert, find_in_of_lookup, find_in_of_none}

-- The entry is filed at this place.
abbrev pub IsAt : Text → Text → CookieEntry → Type 0
IsAt d k e = (e.domain ≡ d) × (cookie_key e.name e.path ≡ k)

find_in-restore_one :
    (e : CookieEntry) (m : Cookies) (d k : Text)
    → find_in (restore_one e m) d k
      ≡ ite
          (text_dec e.domain d)
          (ite (text_dec (cookie_key e.name e.path) k) (some e) (find_in m d k))
          (find_in m d k)
unfolding restore_one lookup insert
find_in-restore_one e m d k =
    let key = cookie_key e.name e.path in
    elim (Option-cases (lookup text_dec e.domain m)) [
      | inl absent ↦
          rw (absent, restore_one)
            (ground (
              arith,
              find_in-insert e.domain k ((key, e) ∷ []) d m,
              find_in_of_none e.domain k m absent,
            ))
      | inr (es, found) ↦
          rw (found, restore_one)
            (ground (
              arith,
              find_in-insert e.domain k (insert text_dec key e es) d m,
              lookup-insert text_dec key k e es,
              find_in_of_lookup e.domain k es m found,
            ))
    ]

restore_one_here :
    (e : CookieEntry) (m : Cookies) (d k : Text)
    → IsAt d k e
    → find_in (restore_one e m) d k ≡ some e
restore_one_here e m d k (dom, key) =
    let old = find_in m d k in
    find_in-restore_one e m d k
    ∙ if_pos (text_dec e.domain d) dom (ite (text_dec (cookie_key e.name e.path) k) (some e) old)
        old
    ∙ if_pos (text_dec (cookie_key e.name e.path) k) key (some e) old

restore_one_elsewhere :
    (e : CookieEntry) (m : Cookies) (d k : Text)
    → ¬ (IsAt d k e)
    → find_in (restore_one e m) d k ≡ find_in m d k
restore_one_elsewhere e m d k other =
    let old = find_in m d k in
    let key = cookie_key e.name e.path in
    elim (text_dec e.domain d) [
      | no n ↦
          find_in-restore_one e m d k
          ∙ if_neg (text_dec e.domain d) n (ite (text_dec key k) (some e) old) old
      | yes p ↦
          find_in-restore_one e m d k
          ∙ if_pos (text_dec e.domain d) p (ite (text_dec key k) (some e) old) old
          ∙ if_neg (text_dec key k) (λ q. other (p, q)) (some e) old
    ]

pub at_dec : (d k : Text) (e : CookieEntry) → Dec (IsAt d k e)
at_dec d k e = elim (text_dec e.domain d) [
  | no n ↦ no (λ (p, _). n p)
  | yes p ↦ elim (text_dec (cookie_key e.name e.path) k) [
    | no n ↦ no (λ (_, q). n q)
    | yes q ↦ yes (p, q)
  ]
]

module _ (now : ℕ) (d k : Text) where
  pub restore_from_elsewhere :
      (m : Cookies) (l : List CookieEntry)
      → ((x : CookieEntry) → IsIn x l → ¬ (IsAt d k x))
      → find_in (restore_from now m l) d k ≡ find_in m d k
  unfolding restore_from
  restore_from_elsewhere m [] h = refl
  restore_from_elsewhere m (x ∷ l) h = elim (Bool-cases (is_expired now x)) [
    | inl old ↦ rw (old, restore_from) (restore_from_elsewhere m l (λ y i. h y (inr i)))
    | inr live ↦
        rw (live, restore_from)
          (restore_from_elsewhere (restore_one x m) l (λ y i. h y (inr i))
            ∙ restore_one_elsewhere x m d k (h x (inl refl)))
  ]

  module _ (e : CookieEntry) where
    restore_from_kept :
        (m : Cookies) (l : List CookieEntry)
        → ((x : CookieEntry) → IsIn x l → IsAt d k x → x ≡ e)
        → find_in m d k ≡ some e
        → find_in (restore_from now m l) d k ≡ some e
    unfolding restore_from
    restore_from_kept m [] h f = f
    restore_from_kept m (x ∷ l) h f = elim (Bool-cases (is_expired now x)) [
      | inl old ↦ rw (old, restore_from) (restore_from_kept m l (λ y i. h y (inr i)) f)
      | inr live ↦
          rw (live, restore_from)
            (restore_from_kept (restore_one x m) l (λ y i. h y (inr i))
              (elim (at_dec d k x) [
                | yes here ↦ restore_one_here x m d k here ∙ ap some (h x (inl refl) here)
                | no other ↦ restore_one_elsewhere x m d k other ∙ f
              ]))
    ]

    pub restore_from_found :
        (m : Cookies) (l : List CookieEntry)
        → ((x : CookieEntry) → IsIn x l → IsAt d k x → x ≡ e)
        → IsIn e l
        → IsAt d k e
        → is_expired now e ≡ false
        → find_in (restore_from now m l) d k ≡ some e
    unfolding restore_from
    restore_from_found m [] h i here live = absurd i
    restore_from_found m (x ∷ l) h (inl same) here live =
        rw (ap (is_expired now) same ∙ live, restore_from)
          (restore_from_kept (restore_one x m) l (λ y i. h y (inr i))
            (restore_one_here x m d k (subst (IsAt d k) (sym same) here) ∙ ap some same))
    restore_from_found m (x ∷ l) h (inr i) here live = elim (Bool-cases (is_expired now x)) [
      | inl old ↦ rw (old, restore_from) (restore_from_found m l (λ y i. h y (inr i)) i here live)
      | inr fresh ↦
          rw (fresh, restore_from)
            (restore_from_found (restore_one x m) l (λ y i. h y (inr i)) i here live)
    ]

    -- Where only an expired cookie is at a place, nothing is restored there.
    pub restore_from_expired :
        (m : Cookies) (l : List CookieEntry)
        → ((x : CookieEntry) → IsIn x l → IsAt d k x → x ≡ e)
        → is_expired now e ≡ true
        → find_in (restore_from now m l) d k ≡ find_in m d k
    unfolding restore_from
    restore_from_expired m [] h old = refl
    restore_from_expired m (x ∷ l) h old = elim (Bool-cases (is_expired now x)) [
      | inl gone ↦ rw (gone, restore_from) (restore_from_expired m l (λ y i. h y (inr i)) old)
      | inr live ↦
          rw (live, restore_from)
            (restore_from_expired (restore_one x m) l (λ y i. h y (inr i)) old
              ∙ restore_one_elsewhere x m d k
                  (λ here. false≢true (sym live ∙ ap (is_expired now) (h x (inl refl) here) ∙ old)))
    ]
