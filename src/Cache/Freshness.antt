-- ===== src/Cache/Freshness.antt =====
-- internal/cache/cache.go: what the headers of a response say about caching it.
use cifera.Base.{
  ℕ, zero, suc, ◌-◌, ◌*◌, ◌^◌, ◌<◌, ◌≤◌, ◌≡◌, refl, ap, sym, ◌∙◌, ◌≢◌, ◌↔◌, ◌⊎◌, inl, inr, true,
  false, false≢true, none, some, [], ◌∷◌, ◌++◌, ℤ, pos, negsuc, pos_part, seconds, Text, codes,
  text_eq_iff, is_empty, is_empty_iff, contains, has_prefix, to_lower, Occurs, contains_iff, arith,
  Bool-cases,
}
use cifera.Header
use cifera.Http.{Request, Response, TimeFormat}
use cifera.Cache.Policy.{
  parse_cache_control_directive, positive_seconds, directive_ttl, cache_control_ttl, expires_ttl,
  extract_ttl_from_header, is_cacheable,
}
use cifera.Cache.State.{Cache, WriteRequest, effective_ttl, set_locked}

-- The text occurs in the header's value, whatever the case of its letters.
abbrev pub Says : Text → Text → Type 0
Says word value = Occurs word (to_lower value)

refused_of_negative :
    (tf : TimeFormat) (now n : ℕ) (c : Cache) (w : WriteRequest)
    → extract_ttl_from_header tf now w.header ≡ negsuc n
    → set_locked tf now c w ≡ c
unfolding set_locked effective_ttl
refused_of_negative tf now n c w h = elim (Bool-cases (is_empty w.body)) [
  | inl empty ↦ rw empty
  | inr full ↦ rw (full, h)
]

not_empty_of_contains :
    (s sub : Text) (c : ℕ) → contains (to_lower s) (c ∷ sub) ≡ true → is_empty s ≡ false
unfolding contains to_lower has_prefix
not_empty_of_contains [] sub c h = absurd (cc h)
not_empty_of_contains (x ∷ s) sub c h = refl

cache_control_ttl_refused :
    (cc : Text)
    → (contains (to_lower cc) (codes "no-store") ≡ true)
      ⊎ (contains (to_lower cc) (codes "no-cache") ≡ true)
    → cache_control_ttl cc ≡ some (negsuc 0)
unfolding cache_control_ttl
cache_control_ttl_refused value (inl h) =
    rw (not_empty_of_contains value (codes "o-store") b'n' h, h)
cache_control_ttl_refused value (inr h) =
    rw (not_empty_of_contains value (codes "o-cache") b'n' h, h) (ground arith)

ttl_of_cache_control :
    (tf : TimeFormat) (now : ℕ) (h : Header.Header) (ttl : ℤ)
    → cache_control_ttl (Header.get h (codes "Cache-Control")) ≡ some ttl
    → extract_ttl_from_header tf now h ≡ ttl
unfolding extract_ttl_from_header
ttl_of_cache_control tf now h ttl e = rw (e, extract_ttl_from_header)

-- A response whose first Cache-Control line says no-store or no-cache, in letters of any case, is
-- not written to the cache.
pub set_locked_refused :
    (tf : TimeFormat) (now : ℕ) (c : Cache) (w : WriteRequest)
    → Says (codes "no-store") (Header.get w.header (codes "Cache-Control"))
      ⊎ Says (codes "no-cache") (Header.get w.header (codes "Cache-Control"))
    → set_locked tf now c w ≡ c
set_locked_refused tf now c w h =
    let value = Header.get w.header (codes "Cache-Control") in
    refused_of_negative tf now 0 c w
      (ttl_of_cache_control tf now w.header (negsuc 0) (cache_control_ttl_refused value (found h)))
  where
    found :
        Says (codes "no-store") (Header.get w.header (codes "Cache-Control"))
          ⊎ Says (codes "no-cache") (Header.get w.header (codes "Cache-Control"))
        → (contains (to_lower (Header.get w.header (codes "Cache-Control"))) (codes "no-store")
            ≡ true)
          ⊎ (contains (to_lower (Header.get w.header (codes "Cache-Control"))) (codes "no-cache")
              ≡ true)
    found (inl o) = inl ((contains_iff _ _).1 o)
    found (inr o) = inr ((contains_iff _ _).1 o)

-- Neither directive has a positive number.
pub record HasNoAge (cc : Text) : Type 0 where
  pub may_store : contains (to_lower cc) (codes "no-store") ≡ false
  pub may_cache : contains (to_lower cc) (codes "no-cache") ≡ false
  pub max_age : pos_part (parse_cache_control_directive cc (codes "max-age")) ≡ 0
  pub s_maxage : pos_part (parse_cache_control_directive cc (codes "s-maxage")) ≡ 0

positive_seconds-none : (n : ℤ) → pos_part n ≡ 0 → positive_seconds n ≡ none
positive_seconds-none (pos zero) h = refl
positive_seconds-none (pos (suc n)) h = absurd (omega arith)
positive_seconds-none (negsuc n) h = refl

directive_ttl-none :
    (cc d : Text) → pos_part (parse_cache_control_directive cc d) ≡ 0 → directive_ttl cc d ≡ none
unfolding directive_ttl
directive_ttl-none cc d h =
    ground (arith, positive_seconds-none (parse_cache_control_directive cc d) h)

cache_control_ttl-none : (cc : Text) → HasNoAge cc → cache_control_ttl cc ≡ none
unfolding cache_control_ttl
cache_control_ttl-none cc h = ground (
  arith,
  directive_ttl-none cc (codes "max-age") h.max_age,
  directive_ttl-none cc (codes "s-maxage") h.s_maxage,
  h.may_store,
  h.may_cache,
)

ttl_of_expires :
    (tf : TimeFormat) (now : ℕ) (h : Header.Header)
    → HasNoAge (Header.get h (codes "Cache-Control"))
    → extract_ttl_from_header tf now h ≡ expires_ttl tf now (Header.get h (codes "Expires"))
unfolding extract_ttl_from_header
ttl_of_expires tf now h a = rw (cache_control_ttl-none _ a, extract_ttl_from_header)

-- A response that says max-age=0, or whose Expires is not in the future, gets the lifetime of five
-- minutes, like one that says nothing: no age is positive, and Expires is missing, unreadable or
-- not after the present.
pub stale_gets_default :
    (tf : TimeFormat) (now : ℕ) (h : Header.Header)
    → HasNoAge (Header.get h (codes "Cache-Control"))
    → expires_ttl tf now (Header.get h (codes "Expires")) ≡ pos 0
    → effective_ttl (extract_ttl_from_header tf now h) ≡ some (pos 300_000_000_000)
unfolding effective_ttl
stale_gets_default tf now h a e = ap effective_ttl (ttl_of_expires tf now h a ∙ e)

seconds_overflow :
    (n : ℕ) → 9_223_372_037 ≤ n → n ≤ 18_446_744_073 → (k : ℕ) × (seconds n ≡ negsuc k)
unfolding seconds
seconds_overflow n p q = (2 ^ 64 - 1 - n * 1_000_000_000, ground arith)

positive_seconds_pos : (n : ℕ) → 0 < n → positive_seconds (pos n) ≡ some (seconds n)
positive_seconds_pos zero h = absurd (omega arith)
positive_seconds_pos (suc n) h = refl

directive_ttl_age :
    (cc d : Text) (n : ℕ) (ttl : ℤ)
    → contains (to_lower cc) (d ++ codes "=") ≡ true
    → parse_cache_control_directive cc d ≡ pos n
    → 0 < n
    → seconds n ≡ ttl
    → directive_ttl cc d ≡ some ttl
unfolding directive_ttl
directive_ttl_age cc d n ttl says parsed h e =
    rw (says, parsed) (positive_seconds_pos n h ∙ ap some e)

cache_control_ttl_age :
    (cc : Text) (ttl : ℤ)
    → is_empty cc ≡ false
    → contains (to_lower cc) (codes "no-store") ≡ false
    → contains (to_lower cc) (codes "no-cache") ≡ false
    → directive_ttl cc (codes "max-age") ≡ some ttl
    → cache_control_ttl cc ≡ some ttl
unfolding cache_control_ttl
cache_control_ttl_age cc ttl full store cache e = rw (full, store, cache, e)

-- A max-age of 9223372037 to 18446744073 seconds is more nanoseconds than an int64 holds. It wraps
-- to a negative lifetime, and the response is not written to the cache.
pub huge_age_refused :
    (tf : TimeFormat) (now n : ℕ) (c : Cache) (w : WriteRequest)
    → let cc = Header.get w.header (codes "Cache-Control") in
      contains (to_lower cc) (codes "no-store") ≡ false
      → contains (to_lower cc) (codes "no-cache") ≡ false
      → contains (to_lower cc) (codes "max-age=") ≡ true
      → parse_cache_control_directive cc (codes "max-age") ≡ pos n
      → 9_223_372_037 ≤ n
      → n ≤ 18_446_744_073
      → set_locked tf now c w ≡ c
huge_age_refused tf now n c w store cache says parsed low high =
    let (k, wrapped) = seconds_overflow n low high in
    refused_of_negative tf now k c w (
      ttl_of_cache_control tf now w.header (negsuc k) (
        cache_control_ttl_age (Header.get w.header (codes "Cache-Control")) (negsuc k)
          (not_empty_of_contains _ (codes "ax-age=") b'm' says) store cache
          (directive_ttl_age _ _ n (negsuc k) says parsed (omega arith) wrapped)))

-- What the program means by a response that may be shared from the cache.
pub record IsShareable (resp : Response) (r : Request) : Type 0 where
  pub get : r.method ≡ codes "GET"
  pub ok : resp.status_code ≡ 200
  pub not_html : ¬ Says (codes "text/html") (Header.get resp.header (codes "Content-Type"))
  pub not_json : ¬ Says (codes "application/json") (Header.get resp.header (codes "Content-Type"))
  pub may_store : ¬ Says (codes "no-store") (Header.get resp.header (codes "Cache-Control"))
  pub public : ¬ Says (codes "private") (Header.get resp.header (codes "Cache-Control"))
  pub anonymous : Header.get r.header (codes "Authorization") ≡ []
  pub small : pos_part resp.content_length ≤ 10 * 1024 * 1024
  pub varies : Header.get resp.header (codes "Vary") ≢ codes "*"

silent_of_false : (word s : Text) → contains (to_lower s) word ≡ false → ¬ Says word s
silent_of_false word s h o = false≢true (sym h ∙ (contains_iff (to_lower s) word).1 o)

false_of_silent : (word s : Text) → ¬ Says word s → contains (to_lower s) word ≡ false
false_of_silent word s h = elim (Bool-cases (contains (to_lower s) word)) [
  | inl says ↦ absurd (h ((contains_iff (to_lower s) word).0 says))
  | inr silent ↦ silent
]

-- The test on Cache-Control: an empty value says nothing.
silent_of_empty :
    (s sub : Text) (c : ℕ) → is_empty s ≡ true → contains (to_lower s) (c ∷ sub) ≡ false
unfolding contains to_lower has_prefix
silent_of_empty [] sub c h = refl
silent_of_empty (x ∷ s) sub c h = absurd (false≢true h)

module _ (resp : Response) (r : Request) where
  cacheable_sound : is_cacheable resp r ≡ true → IsShareable resp r
  unfolding is_cacheable
  cacheable_sound h =
      let kind = Header.get resp.header (codes "Content-Type") in
      let cc = Header.get resp.header (codes "Cache-Control") in
      record {
        get = (text_eq_iff _ _).0 (ground arith);
        ok = ground arith;
        not_html = silent_of_false (codes "text/html") kind (ground arith);
        not_json = silent_of_false (codes "application/json") kind (ground arith);
        may_store =
            silent_of_false (codes "no-store") cc
              (ground (arith, silent_of_empty cc (codes "o-store") b'n'));
        public =
            silent_of_false (codes "private") cc
              (ground (arith, silent_of_empty cc (codes "rivate") b'p'));
        anonymous = (is_empty_iff (Header.get r.header (codes "Authorization"))).0 (ground arith);
        small = ground arith;
        varies = λ e.
            ground (arith, (text_eq_iff (Header.get resp.header (codes "Vary")) (codes "*")).1 e);
      }

  cacheable_complete : IsShareable resp r → is_cacheable resp r ≡ true
  unfolding is_cacheable
  cacheable_complete s =
      let kind = Header.get resp.header (codes "Content-Type") in
      let cc = Header.get resp.header (codes "Cache-Control") in
      let vary = Header.get resp.header (codes "Vary") in
      ground (
        arith,
        (text_eq_iff r.method (codes "GET")).1 s.get,
        false_of_silent (codes "text/html") kind s.not_html,
        false_of_silent (codes "application/json") kind s.not_json,
        false_of_silent (codes "no-store") cc s.may_store,
        false_of_silent (codes "private") cc s.public,
        (is_empty_iff (Header.get r.header (codes "Authorization"))).1 s.anonymous,
        (text_eq_iff vary (codes "*")).0,
      )

-- IsCacheable holds exactly for a GET (no HEAD) that carries no Authorization and is answered with
-- 200, neither HTML nor JSON, neither no-store nor private, at most 10 MiB by its declared length
-- and not varying by everything; of a header that is repeated the first line counts, and words are
-- found in letters of any case.
pub is_cacheable_iff :
    (resp : Response) (r : Request) → (is_cacheable resp r ≡ true) ↔ IsShareable resp r
is_cacheable_iff resp r = (cacheable_sound resp r, cacheable_complete resp r)
