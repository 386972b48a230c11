-- ===== src/Cache/Policy.antt =====
-- internal/cache/cache.go: which responses are cached, for how long, and when a stored one answers
-- a conditional request. Durations are in nanoseconds.
use cifera.Base.{
  ℕ, zero, suc, ◌+◌, ◌*◌, Bool, true, false, not, ◌&&◌, ◌||◌, Option, none, some, List, [], ◌∷◌,
  ◌++◌, leb, ◌==◌, if◌then◌else◌, length, drop, ℤ, pos, negsuc, ltb_ℤ, sub_time, seconds, Text,
  codes, text_eq, is_empty, contains, has_prefix, to_lower, trim_space, trim_prefix, split, atoi,
}
use cifera.Header
use cifera.Header.{Header}
use cifera.Http.{Request, Response, TimeFormat}

pub record Entry : Type 0 where
  pub key : Text
  pub header : Header
  pub body : List ℕ
  pub status_code : ℕ
  pub stored_at : ℕ
  pub ttl : ℤ
  pub size : ℕ
  pub etag : Text
  pub last_modified : ℕ

directive_parts : Text → List Text → ℤ
directive_parts directive [] = pos 0
directive_parts directive (part ∷ parts) =
    let rest = directive_parts directive parts in
    let p = trim_space part in
    if has_prefix (to_lower p) (directive ++ codes "=")
    then (elim (atoi (drop (length directive + 1) p)) [ none ↦ rest | some n ↦ n ])
    else rest

-- The value of the first part `directive=n` with a number; 0 if there is none.
unfoldable pub parse_cache_control_directive : Text → Text → ℤ
unfolding directive_parts
parse_cache_control_directive cc directive = directive_parts directive (split b',' cc)

abbrev pub positive_seconds : ℤ → Option ℤ
positive_seconds (pos zero) = none
positive_seconds (pos (suc n)) = some (seconds (suc n))
positive_seconds (negsuc n) = none

unfoldable pub directive_ttl : Text → Text → Option ℤ
directive_ttl cc directive =
    if contains (to_lower cc) (directive ++ codes "=")
    then positive_seconds (parse_cache_control_directive cc directive)
    else none

-- What the tests on Cache-Control return, if they return.
unfoldable pub cache_control_ttl : Text → Option ℤ
cache_control_ttl cc =
    if is_empty cc
    then none
    else if contains (to_lower cc) (codes "no-store") || contains (to_lower cc) (codes "no-cache")
    then some (negsuc 0)
    else (elim (directive_ttl cc (codes "max-age")) [
      | some ttl ↦ some ttl
      | none ↦ directive_ttl cc (codes "s-maxage")
    ])

unfoldable pub expires_ttl : TimeFormat → ℕ → Text → ℤ
expires_ttl tf now expires = if is_empty expires then pos 0 else (elim (tf.parse expires) [
  | none ↦ pos 0
  | some t ↦ if ltb_ℤ (pos 0) (sub_time t now) then sub_time t now else pos 0
])

-- 0 stands for the default, a negative number for a response that is not to be cached.
unfoldable pub extract_ttl_from_header : TimeFormat → ℕ → Header → ℤ
extract_ttl_from_header tf now header =
    elim (cache_control_ttl (Header.get header (codes "Cache-Control"))) [
      | some ttl ↦ ttl
      | none ↦ expires_ttl tf now (Header.get header (codes "Expires"))
    ]

text_bytes : List Text → ℕ
text_bytes [] = 0
text_bytes (v ∷ vs) = length v + text_bytes vs

unfoldable pub estimate_header_size : Header → ℕ
unfolding text_bytes
estimate_header_size [] = 0
estimate_header_size ((k, vs) ∷ h) = length k + text_bytes vs + estimate_header_size h

unfoldable pub build_cache_key : Text → Text → Text → Text
build_cache_key schema host url = schema ++ (codes "://" ++ (host ++ url))

unfoldable pub is_cacheable : Response → Request → Bool
is_cacheable resp r =
    let content_type = to_lower (Header.get resp.header (codes "Content-Type")) in
    let cc = Header.get resp.header (codes "Cache-Control") in
    if not (text_eq r.method (codes "GET"))
    then false
    else if not (resp.status_code == 200)
    then false
    else if contains content_type (codes "text/html")
        || contains content_type (codes "application/json")
    then false
    else if not (is_empty cc)
        && (contains (to_lower cc) (codes "no-store") || contains (to_lower cc) (codes "private"))
    then false
    else if not (is_empty (Header.get r.header (codes "Authorization")))
    then false
    else if ltb_ℤ (pos (10 * 1024 * 1024)) resp.content_length
    then false
    else not (text_eq (Header.get resp.header (codes "Vary")) (codes "*"))

-- The test on If-Modified-Since.
unfoldable pub unmodified_since : TimeFormat → Text → ℕ → Bool
unmodified_since tf since last_modified =
    if is_empty since || last_modified == 0
    then false
    else (elim (tf.parse since) [ none ↦ false | some t ↦ leb last_modified t ])

unfoldable pub is_not_modified : TimeFormat → Option Request → Entry → Bool
is_not_modified tf none e = false
is_not_modified tf (some req) e =
    let inm = trim_space (Header.get req.header (codes "If-None-Match")) in
    let since =
      unmodified_since tf (Header.get req.header (codes "If-Modified-Since")) e.last_modified in
    if is_empty inm
    then since
    else if text_eq inm (codes "*")
    then true
    else if is_empty e.etag
    then since
    else text_eq (trim_prefix inm (codes "W/")) (trim_prefix e.etag (codes "W/"))
