-- ===== src/CookieSync/Tests.antt =====
-- internal/cookie.go: runs at concrete inputs, and the round trip at two cookies.
use cifera.Base.{
  if◌then◌else◌, ℤ, pos, negsuc, lookup, delete, codes, text_eq, text_dec, is_empty, join, ℕ, ◌+◌,
  ◌*◌, ◌≡◌, refl, inl, inr, true, false, none, some, List, [], ◌∷◌, map, arith,
}
use cifera.Header
use cifera.Header.{canonical_key}
use cifera.CookieJar.Entry.{HttpCookie}
use cifera.CookieSync.Headers.{
  Encoding, parse_all, extract_set_cookies, build_cookie_header, entry_of, push_entry,
  build_cookies_json, build_cookie_push_header, cookie_of, decode_cookie_sync_header,
}
use cifera.CookieSync.RoundTrip
use cifera.CookieSync.RoundTrip.{carried, decode-build_cookie_push_header}

abbrev cookie : ℕ → ℤ → HttpCookie
cookie expires max_age = record {
  name = codes "a";
  value = codes "v";
  path = [];
  domain = codes "x.org";
  expires = expires;
  max_age = max_age;
  secure = true;
  http_only = false;
  same_site = 2;
}

abbrev cookies : List HttpCookie
cookies = cookie (62_135_596_802 * 1_000_000_000 + 7) (pos 0) ∷ cookie 0 (negsuc 4) ∷ []

abbrev enc : Encoding
enc = record {
  encode_base64 = λ t. t;
  decode_base64 = λ t. some t;
  marshal = λ es. codes "[]";
  unmarshal = λ t. some (map push_entry cookies);
  parse_set_cookie = λ t. if is_empty t then none else some (cookie 0 (pos 0));
}

program : Unit {0}
unfolding lookup delete text_dec text_eq join canonical_key Header.values Header.del parse_all
    extract_set_cookies build_cookie_header entry_of push_entry build_cookies_json
    build_cookie_push_header cookie_of decode_cookie_sync_header
program = tt

-- A positive Max-Age is not pushed: the browser sees a session cookie.
loses_age : (push_entry (cookie 0 (pos 60))).e ≡ pos 0
unfolding program
loses_age = refl

cuts_expiry : (push_entry (cookie (62_135_596_802 * 1_000_000_000 + 7) (pos 0))).e ≡ pos 2
unfolding program
cuts_expiry = refl

joins_cookies : build_cookie_header cookies ≡ codes "a=v; a=v"
unfolding program
joins_cookies = refl

skips_broken :
    (extract_set_cookies enc ((codes "Set-Cookie", [] ∷ codes "a=v" ∷ []) ∷ []))
    ≡ ([], cookie 0 (pos 0) ∷ [])
unfolding program
skips_broken = refl

decode-build_cookie_push_header_example :
    decode_cookie_sync_header enc (build_cookie_push_header enc cookies)
    ≡ some (map carried cookies)
decode-build_cookie_push_header_example =
    RoundTrip.decode-build_cookie_push_header enc cookies (inr (omega arith), (inl refl, tt))
      (λ t. refl) refl
