-- ===== src/CookieSync/RoundTrip.antt =====
-- internal/cookie.go: what becomes of cookies that are pushed and read back, as the browser's script
-- does when it syncs them.
use cifera.Base.{
  if◌then◌else◌, All, sub_ℕ, pos, negsuc, Text, ℕ, suc, ◌+◌, ◌-◌, ◌*◌, ◌/◌, ◌≤◌, ◌≡◌, refl, ap, ap₂,
  ◌∙◌, ◌⊎◌, inl, inr, Bool, true, false, some, List, [], ◌∷◌, map, arith,
}
use cifera.CookieJar.Entry.{HttpCookie}
use cifera.CookieSync.Headers.{
  Encoding, nanos, epoch, to_unix, from_unix, is_zero_time, path_or_root, is_negative, entry_of,
  push_entry, build_cookie_push_header, with_time, cookie_of, decode_cookie_sync_header,
}

-- No expiry, or one after the first second of 1970.
abbrev pub IsRecent : HttpCookie → Type 0
IsRecent c = (c.expires ≡ 0) ⊎ ((epoch + 1) * nanos ≤ c.expires)

-- A deletion stays one, and an expiry is cut to whole seconds; a positive Max-Age, the domain and
-- the SameSite mode are lost.
abbrev pub carried : HttpCookie → HttpCookie
carried c = record {
  name = c.name;
  value = c.value;
  path = path_or_root c.path;
  domain = [];
  expires = if is_negative c.max_age then 0 else c.expires / nanos * nanos;
  max_age = if is_negative c.max_age then negsuc 0 else pos 0;
  secure = c.secure;
  http_only = c.http_only;
  same_site = 0;
}

path_again : (p : Text) → path_or_root (path_or_root p) ≡ path_or_root p
path_again [] = refl
path_again (c ∷ p) = refl

with_time_later :
    (c : HttpCookie) (q k : ℕ)
    → q ≡ epoch + suc k
    → with_time c (sub_ℕ q epoch) ≡ record c { expires = q * nanos }
with_time_later c q k h =
    let after : sub_ℕ q epoch ≡ pos (suc k) = ground (arith, h) in
    let same : from_unix (suc k) ≡ q * nanos = omega (arith, h) in
    ap (with_time c) after ∙ ap (λ t. record c { expires = t }) same

-- One cookie, with the path that it has on arrival.
abbrev arrived : HttpCookie → HttpCookie
arrived c = record {
  name = c.name;
  value = c.value;
  path = path_or_root c.path;
  domain = [];
  expires = 0;
  max_age = pos 0;
  secure = c.secure;
  http_only = c.http_only;
  same_site = 0;
}

timed :
    (c : HttpCookie) (deletes : Bool) (t : ℕ)
    → (t ≡ 0) ⊎ ((epoch + 1) * nanos ≤ t)
    → with_time
        (arrived c)
        (if deletes then negsuc 0 else if is_zero_time t then pos 0 else to_unix t)
      ≡ record (arrived c) {
        expires = if deletes then 0 else t / nanos * nanos;
        max_age = if deletes then negsuc 0 else pos 0;
      }
timed c true t r = refl
timed c false t (inl session) = rw session
timed c false t (inr later) =
    let zero_no : is_zero_time t ≡ false = ground (arith, later) in
    let q = t / nanos in
    let far : epoch + 1 ≤ q = omega (arith, later) in
    let split_up : q ≡ epoch + suc (q - epoch - 1) = omega (arith, far) in
    ap (λ b. with_time (arrived c) (if b then pos 0 else to_unix t)) zero_no
    ∙ with_time_later (arrived c) q (q - epoch - 1) split_up

cookie_of-push_entry : (c : HttpCookie) → IsRecent c → cookie_of (push_entry c) ≡ carried c
unfolding cookie_of push_entry entry_of
cookie_of-push_entry c recent =
    ap (λ p. with_time (record (arrived c) { path = p }) (push_entry c).e) (path_again c.path)
    ∙ timed c (is_negative c.max_age) c.expires recent

map-carried :
    (cookies : List HttpCookie)
    → All IsRecent cookies
    → map cookie_of (map push_entry cookies) ≡ map carried cookies
map-carried [] a = refl
map-carried (c ∷ cookies) (r, a) = ap₂ ◌∷◌ (cookie_of-push_entry c r) (map-carried cookies a)

-- Where base64 and the JSON of the entries decode what was encoded, cookies without an expiry or
-- with one after the first second of 1970 that are pushed to the browser and synced back unchanged
-- arrive in their order with their names, values, paths (the root where there is none) and flags;
-- deletions stay deletions, an expiry is cut to whole seconds, and positive Max-Age, domain and
-- SameSite are lost.
pub decode-build_cookie_push_header :
    (enc : Encoding) (cookies : List HttpCookie)
    → All IsRecent cookies
    → ((t : Text) → enc.decode_base64 (enc.encode_base64 t) ≡ some t)
    → enc.unmarshal (enc.marshal (map push_entry cookies)) ≡ some (map push_entry cookies)
    → decode_cookie_sync_header enc (build_cookie_push_header enc cookies)
      ≡ some (map carried cookies)
unfolding decode_cookie_sync_header build_cookie_push_header
decode-build_cookie_push_header enc cookies recent base64 json =
    rw (base64 (enc.marshal (map push_entry cookies)), decode_cookie_sync_header, json)
      (ap some (map-carried cookies recent))
