-- ===== src/CookieJar/Capacity.antt =====
-- internal/cookiejar/jar.go: the number of cookies in a jar.
use cifera.Base.{
  ◌+◌, ◌<◌, ◌≤◌, ◌≡◌, refl, ◌∙◌, ap, sym, ◌⊎◌, inl, inr, none, some, List, [], ◌∷◌, ◌++◌, IsIn,
  length, ltb, Text, text_dec, lookup, insert, delete, length-insert_present, length-delete_present,
  length-delete-le, length-insert-le, arith, eq_of_some, Bool-cases, Option-cases,
}
use cifera.CookieJar.Entry.{CookieEntry}
use cifera.CookieJar.Jar.{
  Entries, Cookies, Jar, Place, put_back, remove_from, remove_cookie, count_entries, total_count,
  assign, ensure_domain, places, in_domain, oldest_of, oldest_from, evict_if_needed, is_older,
}
use cifera.CookieJar.Find.{find, assign_inv, find_in_of_lookup, find_in_of_none}
use cifera.CookieJar.Places.{IsValid, places_sound}

pub count-insert_present :
    (d : Text) (es es0 : Entries) (m : Cookies)
    → lookup text_dec d m ≡ some es0
    → count_entries (insert text_dec d es m) + length es0 ≡ count_entries m + length es
unfolding count_entries insert lookup
count-insert_present d es es0 [] h = absurd (cc h)
count-insert_present d es es0 ((d', es') ∷ m) h = ground (arith, count-insert_present d es es0 m)

count-insert_absent :
    (d : Text) (es : Entries) (m : Cookies)
    → lookup text_dec d m ≡ none
    → count_entries (insert text_dec d es m) ≡ count_entries m + length es
unfolding count_entries insert lookup
count-insert_absent d es [] h = omega arith
count-insert_absent d es ((d', es') ∷ m) h = ground (arith, count-insert_absent d es m)

pub count-insert_le :
    (d : Text) (es : Entries) (m : Cookies)
    → count_entries (insert text_dec d es m) ≤ count_entries m + length es
unfolding count_entries insert
count-insert_le d es [] = omega arith
count-insert_le d es ((d', es') ∷ m) = ground (arith, count-insert_le d es m)

count-delete-le : (d : Text) (m : Cookies) → count_entries (delete text_dec d m) ≤ count_entries m
unfolding count_entries delete
count-delete-le d [] = omega arith
count-delete-le d ((d', es') ∷ m) = ground (arith, count-delete-le d m)

count-delete_present :
    (d : Text) (es0 : Entries) (m : Cookies)
    → lookup text_dec d m ≡ some es0
    → count_entries (delete text_dec d m) + length es0 ≤ count_entries m
unfolding count_entries delete lookup
count-delete_present d es0 [] h = absurd (cc h)
count-delete_present d es0 ((d', es') ∷ m) h =
    ground (arith, count-delete_present d es0 m, count-delete-le d m)

count-put_back :
    (d : Text) (es es0 : Entries) (m : Cookies)
    → lookup text_dec d m ≡ some es0
    → count_entries (put_back d es m) + length es0 ≤ count_entries m + length es
unfolding put_back
count-put_back d [] es0 m h = omega (arith, count-delete_present d es0 m h)
count-put_back d (e ∷ es) es0 m h = omega (arith, count-insert_present d (e ∷ es) es0 m h)

-- Removing a cookie never adds one, and a cookie that is found makes room for one.
pub total_count-remove_cookie-le :
    (j : Jar) (d k : Text) → total_count (remove_cookie j d k) ≤ total_count j
unfolding total_count remove_cookie remove_from
total_count-remove_cookie-le j d k = elim (Option-cases (lookup text_dec d j.cookies)) [
  | inl absent ↦ rw (absent, remove_from) (omega arith)
  | inr (es, found) ↦
      rw (found, remove_from)
        (omega (
          arith,
          count-put_back d (delete text_dec k es) es j.cookies found,
          length-delete-le text_dec k es,
        ))
]

pub total_count-remove_cookie_found :
    (j : Jar) (d k : Text) (e : CookieEntry)
    → find j d k ≡ some e
    → total_count (remove_cookie j d k) < total_count j
unfolding total_count remove_cookie remove_from find
total_count-remove_cookie_found j d k e h = elim (Option-cases (lookup text_dec d j.cookies)) [
  | inl absent ↦ absurd (cc (sym h ∙ find_in_of_none d k j.cookies absent))
  | inr (es, found) ↦
      rw (found, remove_from)
        (omega (
          arith,
          count-put_back d (delete text_dec k es) es j.cookies found,
          length-delete_present text_dec k e es
              (sym (find_in_of_lookup d k es j.cookies found) ∙ h),
        ))
]

pub total_count-ensure_domain :
    (j : Jar) (d : Text) → total_count (ensure_domain d j) ≡ total_count j
unfolding total_count ensure_domain
total_count-ensure_domain j d = elim (Option-cases (lookup text_dec d j.cookies)) [
  | inl absent ↦
      rw (absent, ensure_domain) (omega (arith, count-insert_absent d [] j.cookies absent))
  | inr (es, found) ↦ rw (found, ensure_domain)
]

module _ (j : Jar) (d k : Text) (e : CookieEntry) (j' : Jar) (h : assign d k e j ≡ some j') where
  pub total_count-assign-le : total_count j' ≤ total_count j + 1
  unfolding total_count
  total_count-assign-le =
      let (es, found, same) = assign_inv j d k e j' h in
      omega (
        arith,
        ap (λ (x : Jar). count_entries x.cookies) same,
        count-insert_present d (insert text_dec k e es) es j.cookies found,
        length-insert-le text_dec k e es,
      )

  pub total_count-assign_present :
      (e0 : CookieEntry) → find j d k ≡ some e0 → total_count j' ≡ total_count j
  unfolding total_count find
  total_count-assign_present e0 known =
      let (es, found, same) = assign_inv j d k e j' h in
      omega (
        arith,
        ap (λ (x : Jar). count_entries x.cookies) same,
        count-insert_present d (insert text_dec k e es) es j.cookies found,
        length-insert_present text_dec k e e0 es
            (sym (find_in_of_lookup d k es j.cookies found) ∙ known),
      )

oldest_from-IsIn : (p x : Place) (l : List Place) → oldest_from p l ≡ x → (p ≡ x) ⊎ IsIn x l
unfolding oldest_from
oldest_from-IsIn p x [] e = inl e
oldest_from-IsIn p x (q ∷ l) e = elim (Bool-cases (is_older q p)) [
  | inl older ↦ inr (oldest_from-IsIn q x l (rw (older, oldest_from) at e))
  | inr newer ↦ elim (oldest_from-IsIn p x l (rw (newer, oldest_from) at e)) [
    | inl first ↦ inl first
    | inr later ↦ inr (inr later)
  ]
]

pub oldest_of-IsIn : (p : Place) (l : List Place) → oldest_of l ≡ some p → IsIn p l
unfolding oldest_of
oldest_of-IsIn p [] h = absurd (cc h)
oldest_of-IsIn p (q ∷ l) h = oldest_from-IsIn q p l (eq_of_some h)

in_domain_empty : (d : Text) (es : Entries) → in_domain d es ≡ [] → length es ≡ 0
unfolding in_domain
in_domain_empty d [] h = refl
in_domain_empty d (e ∷ es) h = absurd (cc h)

append_empty {ℓ} : {A : Type ℓ} (xs ys : List A) → xs ++ ys ≡ [] → (xs ≡ []) × (ys ≡ [])
append_empty [] ys h = (refl, h)
append_empty (x ∷ xs) ys h = absurd (cc h)

count_of_no_places : (m : Cookies) → places m ≡ [] → count_entries m ≡ 0
unfolding places count_entries
count_of_no_places [] h = refl
count_of_no_places ((d, es) ∷ m) h =
    let (a, b) = append_empty (in_domain d es) (places m) h in
    omega (arith, in_domain_empty d es a, count_of_no_places m b)

oldest_of-none : (l : List Place) → oldest_of l ≡ none → l ≡ []
unfolding oldest_of
oldest_of-none [] h = refl
oldest_of-none (p ∷ l) h = absurd (cc h)

no_capacity : (j : Jar) → j.max_size ≤ total_count j → count_entries j.cookies ≡ 0 → j.max_size ≡ 0
unfolding total_count
no_capacity j h e = omega arith

-- The three ways of evictIfNeeded.
pub data Eviction (j : Jar) : Jar → Type 0 where
  room : {j' : Jar} → total_count j < j.max_size → j' ≡ j → Eviction j j'
  empty : {j' : Jar} → j.max_size ≡ 0 → j' ≡ j → Eviction j j'
  victim :
      {j' : Jar} (p : Place)
      → j.max_size ≤ total_count j
      → oldest_of (places j.cookies) ≡ some p
      → find j p.domain p.key ≡ some p.entry
      → j' ≡ remove_cookie j p.domain p.key
      → Eviction j j'

pub evict_if_needed-Eviction : (j : Jar) → IsValid j → Eviction j (evict_if_needed j)
unfolding evict_if_needed
evict_if_needed-Eviction j v = elim (Bool-cases (ltb (total_count j) j.max_size)) [
  | inl less ↦ room (ground arith) (rw (less, evict_if_needed))
  | inr full ↦ elim (Option-cases (oldest_of (places j.cookies))) [
    | inl nothing ↦
        empty
          (no_capacity j (ground arith)
            (count_of_no_places j.cookies (oldest_of-none (places j.cookies) nothing)))
          (rw (full, nothing, evict_if_needed))
    | inr (p, old) ↦
        victim p (ground arith) old (places_sound j p v (oldest_of-IsIn p (places j.cookies) old))
          (rw (full, old, evict_if_needed))
  ]
]
