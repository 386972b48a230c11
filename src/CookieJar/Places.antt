-- ===== src/CookieJar/Places.antt =====
-- internal/cookiejar/jar.go: the jar is well formed, and its loops visit exactly what it holds.
use cifera.Base.{
  ◌≡◌, ◌≢◌, ◌∙◌, sym, subst, if_pos, if_neg, inl, inr, some, [], ◌∷◌, All, IsIn, IsIn-append,
  append-IsIn_left, append-IsIn_right, Text, text_dec, lookup, insert, delete, IsFresh, IsDistinct,
  lookup_of_IsFresh, lookup-All, All-insert, All-delete, insert-IsDistinct, delete-IsDistinct,
  arith, Option-cases,
}
use cifera.CookieJar.Entry.{CookieEntry, cookie_key}
use cifera.CookieJar.Jar.{
  Entries, Cookies, Jar, Place, put_back, remove_from, remove_cookie, assign, ensure_domain, places,
  in_domain,
}
use cifera.CookieJar.Find.{find_in, find, assign_inv}

-- A cookie is filed under its own domain and key.
abbrev pub IsFiled : Text → Text × CookieEntry → Type 0
IsFiled d x = (x.0 ≡ cookie_key x.1.name x.1.path) × (x.1.domain ≡ d)

abbrev pub IsGood : Text × Entries → Type 0
IsGood x = IsDistinct x.1 × All (IsFiled x.0) x.1

-- No domain stands twice, no key stands twice in a domain, and every cookie is filed under its own.
pub record IsValid (j : Jar) : Type 0 where
  pub domains : IsDistinct j.cookies
  pub good : All IsGood j.cookies

in_domain_sound :
    (p : Place) (d : Text) (es : Entries)
    → IsDistinct es
    → IsIn p (in_domain d es)
    → (p.domain ≡ d) × (lookup text_dec p.key es ≡ some p.entry)
unfolding in_domain lookup
in_domain_sound p d [] u m = absurd m
in_domain_sound p d ((k, e) ∷ es) (f, u) (inl same) = ground arith
in_domain_sound p d ((k, e) ∷ es) (f, u) (inr m) =
    let (dom, found) = in_domain_sound p d es u m in
    (dom, ground (arith, lookup_of_IsFresh text_dec k es f, found))

in_domain_complete :
    (d k : Text) (e : CookieEntry) (es : Entries)
    → lookup text_dec k es ≡ some e
    → IsIn (record { domain = d; key = k; entry = e }) (in_domain d es)
unfolding in_domain lookup
in_domain_complete d k e [] h = absurd (cc h)
in_domain_complete d k e ((k', e') ∷ es) h = elim (text_dec k' k) [
  | yes same ↦ inl (ground arith)
  | no other ↦ inr (in_domain_complete d k e es (rw (if_neg _ other) at h))
]

pub in_domain_at : (p : Place) (d : Text) (es : Entries) → IsIn p (in_domain d es) → p.domain ≡ d
unfolding in_domain
in_domain_at p d [] m = absurd m
in_domain_at p d ((k, e) ∷ es) (inl same) = ground arith
in_domain_at p d ((k, e) ∷ es) (inr m) = in_domain_at p d es m

places_not_fresh :
    (p : Place) (d : Text) (m : Cookies) → IsFresh d m → IsIn p (places m) → p.domain ≢ d
unfolding places
places_not_fresh p d [] f i = absurd i
places_not_fresh p d ((d', es) ∷ m) (n, f) i = elim (IsIn-append p (in_domain d' es) (places m) i) [
  | inl here ↦ λ e. n (sym (in_domain_at p d' es here) ∙ e)
  | inr there ↦ places_not_fresh p d m f there
]

find_in-here :
    (d k d' : Text) (es : Entries) (m : Cookies)
    → d ≡ d'
    → find_in ((d, es) ∷ m) d' k ≡ lookup text_dec k es
unfolding find_in lookup
find_in-here d k d' es m e = rw (if_pos (text_dec d d') e (some es) (lookup text_dec d' m), find_in)

find_in-there :
    (d k d' : Text) (es : Entries) (m : Cookies)
    → d ≢ d'
    → find_in ((d, es) ∷ m) d' k ≡ find_in m d' k
unfolding find_in lookup
find_in-there d k d' es m n =
    rw (if_neg (text_dec d d') n (some es) (lookup text_dec d' m), find_in)

places_sound_in :
    (p : Place) (m : Cookies)
    → IsDistinct m
    → All IsGood m
    → IsIn p (places m)
    → find_in m p.domain p.key ≡ some p.entry
unfolding places find_in
places_sound_in p [] u g i = absurd i
places_sound_in p ((d, es) ∷ m) (f, u) (good, g) i =
    elim (IsIn-append p (in_domain d es) (places m) i) [
      | inl here ↦
          let (dom, found) = in_domain_sound p d es good.0 here in
          find_in-here d p.key p.domain es m (sym dom) ∙ found
      | inr there ↦
          find_in-there d p.key p.domain es m (λ e. places_not_fresh p d m f there (sym e))
          ∙ places_sound_in p m u g there
    ]

places_complete-IsIn :
    (d k : Text) (e : CookieEntry) (m : Cookies)
    → find_in m d k ≡ some e
    → IsIn (record { domain = d; key = k; entry = e }) (places m)
unfolding places find_in lookup
places_complete-IsIn d k e [] h = absurd (cc h)
places_complete-IsIn d k e ((d', es) ∷ m) h = elim (text_dec d' d) [
  | yes same ↦ append-IsIn_left _ (in_domain d' es) (places m) (
      subst (λ x. IsIn (record { domain = x; key = k; entry = e }) (in_domain d' es)) same
        (in_domain_complete d' k e es (sym (find_in-here d' k d es m same) ∙ h)))
  | no other ↦
      append-IsIn_right _ (in_domain d' es) (places m)
        (places_complete-IsIn d k e m (sym (find_in-there d' k d es m other) ∙ h))
]

-- The loops over a well-formed jar visit a cookie at a place exactly if it is found there.
pub places_sound :
    (j : Jar) (p : Place)
    → IsValid j
    → IsIn p (places j.cookies)
    → find j p.domain p.key ≡ some p.entry
unfolding find
places_sound j p v i = places_sound_in p j.cookies v.domains v.good i

pub places_complete :
    (j : Jar) (d k : Text) (e : CookieEntry)
    → find j d k ≡ some e
    → IsIn (record { domain = d; key = k; entry = e }) (places j.cookies)
unfolding find
places_complete j d k e h = places_complete-IsIn d k e j.cookies h

put_back-IsValid :
    (d : Text) (es : Entries) (m : Cookies)
    → IsDistinct m × All IsGood m
    → IsGood (d, es)
    → IsDistinct (put_back d es m) × All IsGood (put_back d es m)
unfolding put_back
put_back-IsValid d [] m (u, a) g =
    (delete-IsDistinct text_dec d m u, All-delete text_dec IsGood d m a)
put_back-IsValid d (e ∷ es) m (u, a) g =
    (insert-IsDistinct text_dec d (e ∷ es) m u, All-insert text_dec IsGood d (e ∷ es) m g a)

delete-IsGood : (d k : Text) (es : Entries) → IsGood (d, es) → IsGood (d, delete text_dec k es)
delete-IsGood d k es (u, a) =
    (delete-IsDistinct text_dec k es u, All-delete text_dec (IsFiled d) k es a)

pub remove_cookie-IsValid : (j : Jar) (d k : Text) → IsValid j → IsValid (remove_cookie j d k)
unfolding remove_cookie remove_from
remove_cookie-IsValid j d k v = elim (Option-cases (lookup text_dec d j.cookies)) [
  | inl absent ↦ rw (absent, remove_cookie, remove_from) v
  | inr (es, found) ↦
      let good = lookup-All text_dec IsGood d es j.cookies found v.good in
      let (u, a) =
        put_back-IsValid d (delete text_dec k es) j.cookies (v.domains, v.good)
          (delete-IsGood d k es good) in
      rw (found, remove_cookie, remove_from) (record { domains = u; good = a })
]

pub assign-IsValid :
    (j : Jar) (d k : Text) (e : CookieEntry) (j' : Jar)
    → IsValid j
    → IsFiled d (k, e)
    → assign d k e j ≡ some j'
    → IsValid j'
assign-IsValid j d k e j' v f h =
    let (es, found, same) = assign_inv j d k e j' h in
    let (u, a) = lookup-All text_dec IsGood d es j.cookies found v.good in
    let es' = insert text_dec k e es in
    let good : IsGood (d, es') =
      (insert-IsDistinct text_dec k e es u, All-insert text_dec (IsFiled d) k e es f a) in
    subst IsValid (sym same) (record {
      domains = insert-IsDistinct text_dec d es' j.cookies v.domains;
      good = All-insert text_dec IsGood d es' j.cookies good v.good;
    })

pub ensure_domain-IsValid : (j : Jar) (d : Text) → IsValid j → IsValid (ensure_domain d j)
unfolding ensure_domain
ensure_domain-IsValid j d v = elim (Option-cases (lookup text_dec d j.cookies)) [
  | inl absent ↦
      rw (absent, ensure_domain)
        (record {
          domains = insert-IsDistinct text_dec d [] j.cookies v.domains;
          good = All-insert text_dec IsGood d [] j.cookies (tt, tt) v.good;
        })
  | inr (es, found) ↦ rw (found, ensure_domain) v
]
