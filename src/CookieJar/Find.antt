-- ===== src/CookieJar/Find.antt =====
-- internal/cookiejar/jar.go: what stands in a jar, by domain and key.
use cifera.Base.{
  ◌≡◌, sym, ite, ◌↔◌, inl, inr, false, Option, none, some, [], ◌∷◌, Text, text_dec, lookup, insert,
  delete, lookup-insert, lookup-delete, arith, eq_of_some, Option-cases,
}
use cifera.CookieJar.Entry.{CookieEntry}
use cifera.CookieJar.Jar.{
  Entries, Cookies, Jar, put_back, remove_from, remove_cookie, assign, ensure_domain, has_key,
}

-- The cookie of a key in a domain.
unfoldable pub find_in : Cookies → Text → Text → Option CookieEntry
find_in m domain key = elim (lookup text_dec domain m) [
  | none ↦ none
  | some es ↦ lookup text_dec key es
]

unfoldable pub find : Jar → Text → Text → Option CookieEntry
find j domain key = find_in j.cookies domain key

pub find_in-insert :
    (d k : Text) (es : Entries) (d' : Text) (m : Cookies)
    → find_in (insert text_dec d es m) d' k
      ≡ ite (text_dec d d') (lookup text_dec k es) (find_in m d' k)
unfolding find_in
find_in-insert d k es d' m = ground (arith, lookup-insert text_dec d d' es m)

lookup-put_back :
    (d k : Text) (es : Entries) (d' : Text) (m : Cookies)
    → find_in (put_back d es m) d' k ≡ ite (text_dec d d') (lookup text_dec k es) (find_in m d' k)
unfolding find_in put_back lookup
lookup-put_back d k [] d' m = ground (arith, lookup-delete text_dec d d' m)
lookup-put_back d k (e ∷ es) d' m = find_in-insert d k (e ∷ es) d' m

pub find_in_of_lookup :
    (d k : Text) (es : Entries) (m : Cookies)
    → lookup text_dec d m ≡ some es
    → find_in m d k ≡ lookup text_dec k es
unfolding find_in
find_in_of_lookup d k es m h = rw (h, find_in)

pub find_in_of_none : (d k : Text) (m : Cookies) → lookup text_dec d m ≡ none → find_in m d k ≡ none
unfolding find_in
find_in_of_none d k m h = rw (h, find_in)

-- Removing a cookie changes what is found at its own place only.
pub find_in-remove_from :
    (m : Cookies) (d k d' k' : Text)
    → find_in (remove_from m d k) d' k'
      ≡ ite (text_dec d d') (ite (text_dec k k') none (find_in m d' k')) (find_in m d' k')
unfolding remove_from
find_in-remove_from m d k d' k' = elim (Option-cases (lookup text_dec d m)) [
  | inl absent ↦ rw (absent, remove_from) (ground (arith, find_in_of_none d k' m absent))
  | inr (es, found) ↦
      rw (found, remove_from)
        (ground (
          arith,
          lookup-put_back d k' (delete text_dec k es) d' m,
          lookup-delete text_dec k k' es,
          find_in_of_lookup d k' es m found,
        ))
]

pub find-remove_cookie :
    (j : Jar) (d k d' k' : Text)
    → find (remove_cookie j d k) d' k'
      ≡ ite (text_dec d d') (ite (text_dec k k') none (find j d' k')) (find j d' k')
unfolding find remove_cookie
find-remove_cookie j d k d' k' = find_in-remove_from j.cookies d k d' k'

pub find-assign :
    (j : Jar) (d k : Text) (e : CookieEntry) (d' k' : Text) (j' : Jar)
    → assign d k e j ≡ some j'
    → find j' d' k'
      ≡ ite (text_dec d d') (ite (text_dec k k') (some e) (find j d' k')) (find j d' k')
unfolding find assign
find-assign j d k e d' k' j' h = elim (Option-cases (lookup text_dec d j.cookies)) [
  | inl absent ↦ absurd (cc (rw (absent, assign) at h))
  | inr (es, found) ↦ ground (
    arith,
    found,
    find_in-insert d k' (insert text_dec k e es) d' j.cookies,
    lookup-insert text_dec k k' e es,
    find_in_of_lookup d k' es j.cookies found,
  )
]

pub find-ensure_domain : (j : Jar) (d d' k' : Text) → find (ensure_domain d j) d' k' ≡ find j d' k'
unfolding find ensure_domain lookup
find-ensure_domain j d d' k' = elim (Option-cases (lookup text_dec d j.cookies)) [
  | inl absent ↦
      rw (absent, ensure_domain)
        (ground (arith, find_in-insert d k' [] d' j.cookies, find_in_of_none d k' j.cookies absent))
  | inr (es, found) ↦ rw (found, ensure_domain)
]

-- has_key asks whether a cookie is found.
pub has_key-find : (j : Jar) (d k : Text) → (has_key d k j ≡ false) ↔ (find j d k ≡ none)
unfolding has_key find find_in
has_key-find j d k = ground arith

-- What a write into a map has done, if it did not panic.
pub assign_inv :
    (j : Jar) (d k : Text) (e : CookieEntry) (j' : Jar)
    → assign d k e j ≡ some j'
    → (es : Entries) × (lookup text_dec d j.cookies ≡ some es)
      × (j' ≡ record j { cookies = insert text_dec d (insert text_dec k e es) j.cookies })
unfolding assign
assign_inv j d k e j' h = elim (Option-cases (lookup text_dec d j.cookies)) [
  | inl absent ↦ absurd (cc (rw (absent, assign) at h))
  | inr (es, found) ↦ (es, found, sym (eq_of_some (rw (found, assign) at h)))
]

pub assign_total :
    (j : Jar) (d k : Text) (e : CookieEntry) (es : Entries)
    → lookup text_dec d j.cookies ≡ some es
    → assign d k e j
      ≡ some (record j { cookies = insert text_dec d (insert text_dec k e es) j.cookies })
unfolding assign
assign_total j d k e es h = rw (h, assign)

pub assign_panics :
    (j : Jar) (d k : Text) (e : CookieEntry)
    → lookup text_dec d j.cookies ≡ none
    → assign d k e j ≡ none
unfolding assign
assign_panics j d k e h = rw (h, assign)
