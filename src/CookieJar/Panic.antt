-- ===== src/CookieJar/Panic.antt =====
-- internal/cookiejar/jar.go: exactly when AddCookie panics.
use cifera.Base.{
  ◌≤◌, ◌≡◌, refl, ◌≢◌, ◌∙◌, ap, sym, subst, if_pos, if_neg, ◌⊎◌, ◌↔◌, inl, inr, Option, none, some,
  [], ◌∷◌, Text, text_dec, lookup, delete, lookup-insert, lookup-delete, lookup-All, IsDistinct,
  arith, Option-cases,
}
use cifera.CookieJar.Entry.{CookieEntry, cookie_key}
use cifera.CookieJar.Jar.{
  Entries, Cookies, Jar, Place, put_back, remove_from, remove_cookie, total_count, assign,
  ensure_domain, places, oldest_of, evict_if_needed, make_room, put_entry,
}
use cifera.CookieJar.Find.{find, has_key-find, assign_total, assign_panics, find_in_of_lookup}
use cifera.CookieJar.Places.{IsValid, IsGood, ensure_domain-IsValid}
use cifera.CookieJar.Capacity.{room, empty, victim}
use cifera.CookieJar.Oldest.{IsFirstCreated, oldest_of-IsFirstCreated}
use cifera.CookieJar.Add.{known, new, make_room-Room}

-- The jar is full, the cookie is new, and the cookie that the jar evicts, the one that was created
-- first, is the only one of the new cookie's domain.
pub record IsLastOfDomain (j : Jar) (e : CookieEntry) : Type 0 where
  pub is_new : find j e.domain (cookie_key e.name e.path) ≡ none
  pub full : j.max_size ≤ total_count j
  pub oldest : Place
  pub is_oldest : oldest_of (places j.cookies) ≡ some oldest
  pub first_created : IsFirstCreated j oldest
  pub same_domain : oldest.domain ≡ e.domain
  pub alone : lookup text_dec e.domain j.cookies ≡ some ((oldest.key, oldest.entry) ∷ [])

only_entry :
    (k : Text) (x : CookieEntry) (es : Entries)
    → IsDistinct es
    → lookup text_dec k es ≡ some x
    → delete text_dec k es ≡ []
    → es ≡ (k, x) ∷ []
unfolding lookup delete
only_entry k x [] u found gone = absurd (cc found)
only_entry k x ((k', x') ∷ []) u found gone = ground arith
only_entry k x ((k', x') ∷ (k2, x2) ∷ es) u found gone = ground arith

-- The map of a domain disappears exactly with its last cookie.
lookup-put_back :
    (d : Text) (es : Entries) (m : Cookies) → lookup text_dec d (put_back d es m) ≡ none → es ≡ []
unfolding put_back
lookup-put_back d [] m h = refl
lookup-put_back d (e ∷ es) m h =
    absurd (cc (sym (lookup-insert text_dec d d (e ∷ es) m ∙ if_pos (text_dec d d) refl _ _) ∙ h))

lookup-put_back_ne :
    (d d' : Text) (es : Entries) (m : Cookies)
    → d ≢ d'
    → lookup text_dec d' (put_back d es m) ≡ lookup text_dec d' m
unfolding put_back
lookup-put_back_ne d d' [] m n = lookup-delete text_dec d d' m ∙ if_neg (text_dec d d') n _ _
lookup-put_back_ne d d' (e ∷ es) m n =
    lookup-insert text_dec d d' (e ∷ es) m ∙ if_neg (text_dec d d') n _ _

lookup-remove_cookie_ne :
    (j : Jar) (d k d' : Text)
    → d ≢ d'
    → lookup text_dec d' (remove_cookie j d k).cookies ≡ lookup text_dec d' j.cookies
unfolding remove_cookie remove_from
lookup-remove_cookie_ne j d k d' n = elim (Option-cases (lookup text_dec d j.cookies)) [
  | inl absent ↦ rw (absent, remove_cookie, remove_from)
  | inr (es, found) ↦
      rw (found, remove_cookie, remove_from)
        (lookup-put_back_ne d d' (delete text_dec k es) j.cookies n)
]

lookup-put_back_nil : (d : Text) (m : Cookies) → lookup text_dec d (put_back d [] m) ≡ none
unfolding put_back
lookup-put_back_nil d m = lookup-delete text_dec d d m ∙ if_pos (text_dec d d) refl _ _

lookup-remove_cookie_self :
    (j : Jar) (d k : Text) (es : Entries)
    → lookup text_dec d j.cookies ≡ some es
    → (lookup text_dec d (remove_cookie j d k).cookies ≡ none) ↔ (delete text_dec k es ≡ [])
unfolding remove_cookie remove_from
lookup-remove_cookie_self j d k es found = (
  λ h.
      lookup-put_back d (delete text_dec k es) j.cookies
        (rw (found, remove_cookie, remove_from) at h),
  λ e. rw (found, remove_cookie, remove_from, e) (lookup-put_back_nil d j.cookies),
)

ensure_domain-lookup :
    (j : Jar) (d : Text)
    → (es : Entries) × (lookup text_dec d (ensure_domain d j).cookies ≡ some es)
      × ((ensure_domain d j ≡ j) ⊎ (es ≡ []))
unfolding ensure_domain
ensure_domain-lookup j d = elim (Option-cases (lookup text_dec d j.cookies)) [
  | inl absent ↦ (
    [],
    rw (absent, ensure_domain)
        (lookup-insert text_dec d d [] j.cookies ∙ if_pos (text_dec d d) refl _ _),
    inr refl,
  )
  | inr (es, found) ↦ (es, rw (found, ensure_domain) found, inl (rw (found, ensure_domain)))
]

lookup_of_panic :
    (j : Jar) (d k : Text) (e : CookieEntry)
    → assign d k e j ≡ none
    → lookup text_dec d j.cookies ≡ none
lookup_of_panic j d k e h = elim (Option-cases (lookup text_dec d j.cookies)) [
  | inl absent ↦ absent
  | inr (es, found) ↦ absurd (cc (sym (assign_total j d k e es found) ∙ h))
]

not_none {ℓ} : {A B : Type ℓ} {a : A} {o : Option A} → o ≡ some a → o ≡ none → B
not_none p q = absurd (cc (sym p ∙ q))

module _ (j : Jar) (e : CookieEntry) (v : IsValid j) where
  -- The map of the domain disappeared, so its only cookie was evicted.
  last_of_victim :
      (es : Entries) (p : Place)
      → lookup text_dec e.domain j.cookies ≡ some es
      → find j e.domain (cookie_key e.name e.path) ≡ none
      → j.max_size ≤ total_count j
      → oldest_of (places j.cookies) ≡ some p
      → find j p.domain p.key ≡ some p.entry
      → lookup text_dec e.domain (remove_cookie j p.domain p.key).cookies ≡ none
      → IsLastOfDomain j e
  unfolding find
  last_of_victim es p here absent full old found gone = elim (text_dec p.domain e.domain) [
    | no other ↦ not_none (lookup-remove_cookie_ne j p.domain p.key e.domain other ∙ here) gone
    | yes same ↦
        let at_p = ap (λ (d : Text). lookup text_dec d j.cookies) same ∙ here in
        let gone_p =
          ap (λ (d : Text). lookup text_dec d (remove_cookie j p.domain p.key).cookies) same
          ∙ gone in
        let u = (lookup-All text_dec IsGood e.domain es j.cookies here v.good).0 in
        record {
          is_new = absent;
          full = full;
          oldest = p;
          is_oldest = old;
          first_created = oldest_of-IsFirstCreated j p old;
          same_domain = same;
          alone =
              here
              ∙ ap some (
                  only_entry p.key p.entry es u
                    (sym (find_in_of_lookup p.domain p.key es j.cookies at_p) ∙ found)
                    ((lookup-remove_cookie_self j p.domain p.key es at_p).0 gone_p));
        }
  ]

ensure_domain_present :
    (j : Jar) (d : Text) (es : Entries)
    → lookup text_dec d j.cookies ≡ some es
    → ensure_domain d j ≡ j
unfolding ensure_domain
ensure_domain_present j d es h = rw (h, ensure_domain)

make_room_full :
    (d k : Text) (j : Jar) (p : Place)
    → find j d k ≡ none
    → j.max_size ≤ total_count j
    → oldest_of (places j.cookies) ≡ some p
    → make_room d k j ≡ remove_cookie j p.domain p.key
unfolding make_room evict_if_needed
make_room_full d k j p absent full old = rw ((has_key-find j d k).1 absent, old) (ground arith)

-- In a new domain every eviction leaves the (empty) map of the domain alone.
IsLastOfDomain-old_domain :
    (j : Jar) (e : CookieEntry) (es : Entries)
    → lookup text_dec e.domain (ensure_domain e.domain j).cookies ≡ some es
    → (ensure_domain e.domain j ≡ j) ⊎ (es ≡ [])
    → IsLastOfDomain (ensure_domain e.domain j) e
    → IsLastOfDomain j e
IsLastOfDomain-old_domain j e es here (inl same) l = subst (λ x. IsLastOfDomain x e) same l
IsLastOfDomain-old_domain j e es here (inr nil) l = absurd (cc (sym (here ∙ ap some nil) ∙ l.alone))

panic_sound : (j : Jar) (e : CookieEntry) → IsValid j → put_entry j e ≡ none → IsLastOfDomain j e
unfolding put_entry
panic_sound j e v h =
    let d = e.domain in
    let k = cookie_key e.name e.path in
    let j1 = ensure_domain d j in
    let v1 = ensure_domain-IsValid j d v in
    let (es, here, which) = ensure_domain-lookup j d in
    let gone = lookup_of_panic (make_room d k j1) d k e h in
    elim (make_room-Room d k j1 v1) [
      | known e0 found r ↦
          not_none here (sym (ap (λ (x : Jar). lookup text_dec d x.cookies) r) ∙ gone)
      | new absent ev ↦ elim ev [
        | room _ r ↦ not_none here (sym (ap (λ (x : Jar). lookup text_dec d x.cookies) r) ∙ gone)
        | empty _ r ↦ not_none here (sym (ap (λ (x : Jar). lookup text_dec d x.cookies) r) ∙ gone)
        | victim p full old found r ↦ IsLastOfDomain-old_domain j e es here which (
            last_of_victim j1 e v1 es p here absent full old found
              (sym (ap (λ (x : Jar). lookup text_dec d x.cookies) r) ∙ gone))
      ]
    ]

gone_self :
    (j : Jar) (e : CookieEntry) (l : IsLastOfDomain j e)
    → lookup text_dec e.domain (remove_cookie j l.oldest.domain l.oldest.key).cookies ≡ none
unfolding delete
gone_self j e l =
    let p = l.oldest in
    subst (λ d. lookup text_dec d (remove_cookie j p.domain p.key).cookies ≡ none) l.same_domain
      ((lookup-remove_cookie_self j p.domain p.key ((p.key, p.entry) ∷ [])
          (ap (λ (d : Text). lookup text_dec d j.cookies) l.same_domain ∙ l.alone)).1
        (if_pos (text_dec p.key p.key) refl _ _))

panic_complete : (j : Jar) (e : CookieEntry) → IsLastOfDomain j e → put_entry j e ≡ none
unfolding put_entry
panic_complete j e l =
    let d = e.domain in
    let k = cookie_key e.name e.path in
    let p = l.oldest in
    let same = ensure_domain_present j d ((p.key, p.entry) ∷ []) l.alone in
    rw same (
      rw (make_room_full d k j p l.is_new l.full l.is_oldest)
        (assign_panics (remove_cookie j p.domain p.key) d k e (gone_self j e l)))

-- AddCookie panics with a write into a nil map exactly when the jar is full, the cookie is new, and
-- the oldest cookie of the jar is the only one of its domain: evicting it removes the map of the
-- domain into which the new cookie is about to be written.
pub put_entry_panics_iff :
    (j : Jar) (e : CookieEntry) → IsValid j → (put_entry j e ≡ none) ↔ IsLastOfDomain j e
put_entry_panics_iff j e v = (panic_sound j e v, panic_complete j e)
