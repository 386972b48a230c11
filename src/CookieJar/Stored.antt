-- ===== src/CookieJar/Stored.antt =====
-- internal/cookiejar/jar.go: what AddCookie leaves in the jar.
use cifera.Base.{
  ◌≤◌, ◌≡◌, refl, ◌∙◌, ap, sym, subst, ite, if_pos, if_neg, ◌⊎◌, inl, inr, none, some, [], ◌∷◌,
  Text, text_dec, lookup, insert, arith, Option-cases,
}
use cifera.CookieJar.Entry.{CookieEntry, cookie_key}
use cifera.CookieJar.Jar.{
  Cookies, Jar, Place, remove_cookie, total_count, ensure_domain, places, in_domain, oldest_of,
  make_room, put_entry,
}
use cifera.CookieJar.Find.{find, find-remove_cookie, find-assign, find-ensure_domain}
use cifera.CookieJar.Places.{IsValid, ensure_domain-IsValid}
use cifera.CookieJar.Capacity.{total_count-ensure_domain, room, empty, victim}
use cifera.CookieJar.Oldest.{IsFirstCreated, oldest_of-IsFirstCreated}
use cifera.CookieJar.Add.{Room, known, new, make_room-Room, ensure_domain-max_size}

places-insert_absent :
    (d : Text) (m : Cookies)
    → lookup text_dec d m ≡ none
    → places (insert text_dec d [] m) ≡ places m
unfolding places in_domain insert lookup
places-insert_absent d [] h = refl
places-insert_absent d ((d', es) ∷ m) h = ground (arith, places-insert_absent d m)

places-ensure_domain : (j : Jar) (d : Text) → places (ensure_domain d j).cookies ≡ places j.cookies
unfolding ensure_domain
places-ensure_domain j d = elim (Option-cases (lookup text_dec d j.cookies)) [
  | inl absent ↦ rw (absent, ensure_domain) (places-insert_absent d j.cookies absent)
  | inr (es, found) ↦ rw (found, ensure_domain)
]

-- The jar was full, and this was the place of the cookie that it evicts: of all its cookies, the
-- one that was created first.
pub record IsVictim (j : Jar) (d k : Text) : Type 0 where
  pub full : j.max_size ≤ total_count j
  pub oldest : Place
  pub is_oldest : oldest_of (places j.cookies) ≡ some oldest
  pub first_created : IsFirstCreated j oldest
  pub domain : oldest.domain ≡ d
  pub key : oldest.key ≡ k

-- What became of the cookie at a place.
abbrev pub Kept : Jar → Jar → Text → Text → Type 0
Kept j j' d k = (find j' d k ≡ find j d k) ⊎ (IsVictim j d k × (find j' d k ≡ none))

removed-Kept :
    (j : Jar) (p : Place) (d k : Text)
    → j.max_size ≤ total_count j
    → oldest_of (places j.cookies) ≡ some p
    → Kept j (remove_cookie j p.domain p.key) d k
removed-Kept j p d k full old =
    let removed = find-remove_cookie j p.domain p.key d k in
    let in_domain_case = ite (text_dec p.key k) none (find j d k) in
    elim (text_dec p.domain d) [
      | no other ↦ inl (removed ∙ if_neg (text_dec p.domain d) other in_domain_case (find j d k))
      | yes same ↦
          let there = removed ∙ if_pos (text_dec p.domain d) same in_domain_case (find j d k) in
          elim (text_dec p.key k) [
            | no other ↦ inl (there ∙ if_neg (text_dec p.key k) other none (find j d k))
            | yes same_key ↦ inr (
              record {
                full = full;
                oldest = p;
                is_oldest = old;
                first_created = oldest_of-IsFirstCreated j p old;
                domain = same;
                key = same_key;
              },
              there ∙ if_pos (text_dec p.key k) same_key none (find j d k),
            )
          ]
    ]

room-Kept : {j j' : Jar} (d k d' k' : Text) → Room d k j j' → Kept j j' d' k'
room-Kept d k d' k' (known _ _ e) = inl (ap (λ (x : Jar). find x d' k') e)
room-Kept {j} d k d' k' (new _ ev) = elim ev [
  | room _ e ↦ inl (ap (λ (x : Jar). find x d' k') e)
  | empty _ e ↦ inl (ap (λ (x : Jar). find x d' k') e)
  | victim p full old _ e ↦ subst (λ x. Kept j x d' k') (sym e) (removed-Kept j p d' k' full old)
]

IsVictim-ensure_domain :
    (j : Jar) (x d k : Text) → IsVictim (ensure_domain x j) d k → IsVictim j d k
IsVictim-ensure_domain j x d k w = record {
  full = omega (arith, w.full, ensure_domain-max_size j x, total_count-ensure_domain j x);
  oldest = w.oldest;
  is_oldest = ap oldest_of (sym (places-ensure_domain j x)) ∙ w.is_oldest;
  first_created =
      oldest_of-IsFirstCreated j w.oldest
        (ap oldest_of (sym (places-ensure_domain j x)) ∙ w.is_oldest);
  domain = w.domain;
  key = w.key;
}

module _ (j : Jar) (e : CookieEntry) (j' : Jar) (added : put_entry j e ≡ some j') where
  find-put_entry_at :
      (d' k' : Text)
      → let k = cookie_key e.name e.path in
        find j' d' k'
        ≡ ite
            (text_dec e.domain d')
            (ite
              (text_dec k k')
              (some e)
              (find (make_room e.domain k (ensure_domain e.domain j)) d' k'))
            (find (make_room e.domain k (ensure_domain e.domain j)) d' k')
  unfolding put_entry
  find-put_entry_at d' k' =
      let k = cookie_key e.name e.path in
      find-assign (make_room e.domain k (ensure_domain e.domain j)) e.domain k e d' k' j' added

  -- The cookie that was put is found at its place.
  pub find-put_entry : find j' e.domain (cookie_key e.name e.path) ≡ some e
  find-put_entry =
      let k = cookie_key e.name e.path in
      let old = find (make_room e.domain k (ensure_domain e.domain j)) e.domain k in
      find-put_entry_at e.domain k
      ∙ if_pos (text_dec e.domain e.domain) refl (ite (text_dec k k) (some e) old) old
      ∙ if_pos (text_dec k k) refl (some e) old

  elsewhere :
      (d' k' : Text)
      → ¬ ((e.domain ≡ d') × (cookie_key e.name e.path ≡ k'))
      → let k = cookie_key e.name e.path in
        find j' d' k' ≡ find (make_room e.domain k (ensure_domain e.domain j)) d' k'
  elsewhere d' k' other =
      let k = cookie_key e.name e.path in
      let old = find (make_room e.domain k (ensure_domain e.domain j)) d' k' in
      elim (text_dec e.domain d') [
        | no n ↦
            find-put_entry_at d' k'
            ∙ if_neg (text_dec e.domain d') n (ite (text_dec k k') (some e) old) old
        | yes p ↦
            find-put_entry_at d' k'
            ∙ if_pos (text_dec e.domain d') p (ite (text_dec k k') (some e) old) old
            ∙ if_neg (text_dec k k') (λ q. other (p, q)) (some e) old
      ]

  -- Every other cookie is as before, but for the victim of a full jar.
  pub put_entry-Kept :
      (d' k' : Text)
      → IsValid j
      → ¬ ((e.domain ≡ d') × (cookie_key e.name e.path ≡ k'))
      → Kept j j' d' k'
  put_entry-Kept d' k' v other =
      let k = cookie_key e.name e.path in
      let j1 = ensure_domain e.domain j in
      let moved = elsewhere d' k' other in
      let same = find-ensure_domain j e.domain d' k' in
      elim (room-Kept e.domain k d' k'
        (make_room-Room e.domain k j1 (ensure_domain-IsValid j e.domain v))) [
          | inl kept ↦ inl (moved ∙ kept ∙ same)
          | inr (w, gone) ↦ inr (IsVictim-ensure_domain j e.domain d' k' w, moved ∙ gone)
        ]
