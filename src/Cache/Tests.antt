-- ===== src/Cache/Tests.antt =====
-- internal/cache/cache.go: runs at concrete inputs, and the theorems at inputs that meet their
-- hypotheses.
use cifera.Base.{
  ◌+◌, ◌≤◌, ◌≡◌, refl, ◌≢◌, ◌⊎◌, ◌↔◌, inl, true, none, some, List, [], ◌∷◌, pos, seconds, sub_time,
  Text, codes, text_dec, lookup, insert, delete, contains, has_prefix, to_lower, trim, trim_prefix,
  split, text_eq, atoi, parse_digits, itoa, arith, contains_iff,
}
use cifera.Header
use cifera.Header.{Header}
use cifera.Http.{Request, Response, TimeFormat}
use cifera.Cache.Policy.{
  parse_cache_control_directive, directive_ttl, cache_control_ttl, expires_ttl,
  extract_ttl_from_header, estimate_header_size, is_cacheable, unmodified_since, is_not_modified,
}
use cifera.Cache.State
use cifera.Cache.State.{
  Element, WriteRequest, Cache, is_expired, new, list_remove, back, remove_element,
  not_modified_response, cached_response, evict_loop, evict, effective_ttl, make_entry, push_front,
  remove_key, store, set_locked, resize, stats, set_async, write_loop_step, close,
}
use cifera.Cache.Lru.{find_key}
use cifera.Cache.Eviction
use cifera.Cache.Reads
use cifera.Cache.Reach.{IsSafe, Reach, Step, here, next}
use cifera.Cache.Reach
use cifera.Cache.Freshness

program : Unit {0}
unfolding parse_cache_control_directive directive_ttl cache_control_ttl expires_ttl
    extract_ttl_from_header estimate_header_size is_cacheable unmodified_since is_not_modified new
    list_remove back remove_element not_modified_response cached_response evict_loop evict
    effective_ttl make_entry push_front remove_key store set_locked resize stats set_async
    write_loop_step close State.get seconds sub_time lookup insert delete text_dec contains
    has_prefix to_lower trim trim_prefix split text_eq atoi parse_digits itoa Header.get Header.set
program = tt

abbrev tf : TimeFormat
tf = record { parse = parse_digits; format = itoa }

abbrev header : Header
header = (codes "Cache-Control", codes "Max-Age=60" ∷ []) ∷ (codes "Etag", codes "W/x" ∷ []) ∷ []

-- 33 bytes with the header
abbrev write : Text → WriteRequest
write key = record { key = key; header = header; body = 1 ∷ 2 ∷ 3 ∷ []; status_code = 200 }

abbrev one : Cache
one = set_locked tf 7 (new (pos 80)) (write (codes "a"))

sizes :
    (stats one ≡ (0, 0, 33, 1))
    × (stats (set_locked tf 8 one (write (codes "b"))) ≡ (0, 0, 66, 2))
    × (stats (set_locked tf 9 (set_locked tf 8 one (write (codes "b"))) (write (codes "c")))
        ≡ (0, 0, 66, 2))
unfolding program
sizes = (refl, refl, refl)

one-IsSafe : IsSafe one
unfolding program
one-IsSafe = Reach.Reach-IsSafe tf (pos 80) (
    next (next here (Step.enqueue (new (pos 80)) (write (codes "a"))))
      (Step.write (set_async (new (pos 80)) (write (codes "a"))) 7))

abbrev first : Element
first = record { id = 0; value = make_entry tf 7 (write (codes "a")) (pos 60_000_000_000) }

one_holds : find_key (codes "a") one.lru ≡ some first
unfolding program find_key
one_holds = refl

Reach-IsSafe_example : IsSafe (write_loop_step tf 7 (set_async (new (pos 80)) (write (codes "a"))))
Reach-IsSafe_example = Reach.Reach-IsSafe tf (pos 80) (
    next (next here (Step.enqueue (new (pos 80)) (write (codes "a"))))
      (Step.write (set_async (new (pos 80)) (write (codes "a"))) 7))

get-set_locked_example :
    (State.get tf 20 one (codes "a") none).1
    ≡ some (record {
      status_code = 200;
      header = header;
      body = 1 ∷ 2 ∷ 3 ∷ [];
      content_length = pos 0;
    })
unfolding program
get-set_locked_example =
    Reads.get-set_locked tf 7 20 60_000_000_000 (new (pos 80)) (write (codes "a")) none
      (Reach.Reach-IsSafe tf (pos 80) here).valid refl refl (omega arith) (omega arith)

abbrev answer : Response
answer = record {
  status_code = 200;
  header = header;
  body = 1 ∷ 2 ∷ 3 ∷ [];
  content_length = pos 0;
}

get_sound_example : (x : Element) × Reads.IsServed tf 20 one (codes "a") none x answer
get_sound_example =
    Reads.get_sound tf 20 one (codes "a") none answer one-IsSafe.valid get-set_locked_example

get_counts_example :
    let (c', r) = State.get tf 20 one (codes "b") none in
    ((r ≡ none) × (c'.misses ≡ one.misses + 1) × (c'.hits ≡ one.hits))
    ⊎ ((r ≢ none) × (c'.hits ≡ one.hits + 1) × (c'.misses ≡ one.misses))
get_counts_example = Reads.get_counts tf 20 one (codes "b") none one-IsSafe.valid

abbrev two : Cache
two = set_locked tf 8 one (write (codes "b"))

resize-IsLongestFit_example :
    Eviction.IsLongestFit 0 40 one.lru (resize one (pos 40)).lru
    × ((resize one (pos 40)).cur_size ≤ 40)
resize-IsLongestFit_example = Eviction.resize-IsLongestFit 39 one one-IsSafe.valid

store-IsLongestFit_example :
    (x : Element) × (kept : List Element) × (x.value ≡ first.value)
    × ((store one first.value).lru ≡ x ∷ kept)
    × Eviction.IsLongestFit first.value.size one.max_size (remove_key one first.value.key).lru kept
store-IsLongestFit_example = Eviction.store-IsLongestFit one first.value one-IsSafe.valid

abbrev secret : WriteRequest
secret = record (write (codes "s")) {
  header = (codes "Cache-Control", codes "private, No-Store" ∷ []) ∷ [];
}

secret_says :
    contains (to_lower (Header.get secret.header (codes "Cache-Control"))) (codes "no-store") ≡ true
unfolding program
secret_says = refl

set_locked_refused_example : set_locked tf 7 one secret ≡ one
set_locked_refused_example =
    Freshness.set_locked_refused tf 7 one secret (inl ((contains_iff _ _).0 secret_says))

abbrev stale : Header
stale =
    (codes "Cache-Control", codes "public, max-age=0" ∷ []) ∷ (codes "Expires", codes "3" ∷ []) ∷ []

abbrev long_lived : WriteRequest
long_lived = record (write (codes "l")) {
  header = (codes "Cache-Control", codes "max-age=9999999999" ∷ []) ∷ [];
}

abbrev request : Request
request = record { method = codes "GET"; header = [] }

is_cacheable_iff_example :
    (is_cacheable answer request ≡ true) ↔ Freshness.IsShareable answer request
is_cacheable_iff_example = Freshness.is_cacheable_iff answer request
