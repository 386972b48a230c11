-- ===== src/CookieSync/Headers.antt =====
-- internal/cookie.go: its functions.
use cifera.Base.{
  ◌==◌, if◌then◌else◌, ℤ, sub_ℕ, pos, negsuc, Text, codes, join, ℕ, zero, suc, ◌+◌, ◌*◌, ◌/◌, Bool,
  true, false, Option, none, some, List, [], ◌∷◌, ◌++◌, map,
}
use cifera.Header
use cifera.Header.{Header}
use cifera.CookieJar.Entry.{HttpCookie}

-- cookieSyncEntry
pub record SyncEntry : Type 0 where
  pub n : Text
  pub v : Text
  pub p : Text
  pub e : ℤ
  pub s : Bool
  pub h : Bool

pub record Encoding : Type 0 where
  pub encode_base64 : Text → Text
  pub decode_base64 : Text → Option Text
  pub marshal : List SyncEntry → Text
  pub unmarshal : Text → Option (List SyncEntry)
  pub parse_set_cookie : Text → Option HttpCookie

-- Nanoseconds of a second, and the seconds from the zero time to 1970.
abbrev pub nanos : ℕ
nanos = 1_000_000_000

abbrev pub epoch : ℕ
epoch = 62_135_596_800

-- Time.Unix and time.Unix, on times since the zero time.
abbrev pub to_unix : ℕ → ℤ
to_unix t = sub_ℕ (t / nanos) epoch

abbrev pub from_unix : ℕ → ℕ
from_unix e = (e + epoch) * nanos

abbrev pub is_zero_time : ℕ → Bool
is_zero_time t = t == 0

abbrev pub path_or_root : Text → Text
path_or_root [] = codes "/"
path_or_root (c ∷ p) = c ∷ p

abbrev pub is_negative : ℤ → Bool
is_negative (pos n) = false
is_negative (negsuc n) = true

-- The cookies of the Set-Cookie headers that can be parsed, and the header without them.
unfoldable pub parse_all : Encoding → List Text → List HttpCookie
parse_all enc [] = []
parse_all enc (raw ∷ raws) =
    let rest = parse_all enc raws in
    elim (enc.parse_set_cookie raw) [ none ↦ rest | some c ↦ c ∷ rest ]

unfoldable pub extract_set_cookies : Encoding → Header → Header × List HttpCookie
extract_set_cookies enc h = elim (Header.values h (codes "Set-Cookie")) [
  | [] ↦ (h, [])
  | raw ∷ raws ↦ (Header.del h (codes "Set-Cookie"), parse_all enc (raw ∷ raws))
]

unfoldable pub build_cookie_header : List HttpCookie → Text
build_cookie_header cookies = join (codes "; ") (map (λ c. c.name ++ codes "=" ++ c.value) cookies)

abbrev pub time_of : HttpCookie → ℤ
time_of c = if is_zero_time c.expires then pos 0 else to_unix c.expires

unfoldable pub entry_of : HttpCookie → ℤ → SyncEntry
entry_of c e = record {
  n = c.name;
  v = c.value;
  p = path_or_root c.path;
  e = e;
  s = c.secure;
  h = c.http_only;
}

unfoldable pub push_entry : HttpCookie → SyncEntry
push_entry c = entry_of c (if is_negative c.max_age then negsuc 0 else time_of c)

unfoldable pub build_cookies_json : Encoding → List HttpCookie → Text
build_cookies_json enc cookies = enc.marshal (map (λ c. entry_of c (time_of c)) cookies)

unfoldable pub build_cookie_push_header : Encoding → List HttpCookie → Text
build_cookie_push_header enc cookies = enc.encode_base64 (enc.marshal (map push_entry cookies))

-- The age and the expiry that an entry stands for.
abbrev pub with_time : HttpCookie → ℤ → HttpCookie
with_time c (pos zero) = c
with_time c (pos (suc e)) = record c { expires = from_unix (suc e) }
with_time c (negsuc zero) = record c { max_age = negsuc 0 }
with_time c (negsuc (suc e)) = c

unfoldable pub cookie_of : SyncEntry → HttpCookie
cookie_of e =
    with_time
      (record {
        name = e.n;
        value = e.v;
        path = path_or_root e.p;
        domain = [];
        expires = 0;
        max_age = pos 0;
        secure = e.s;
        http_only = e.h;
        same_site = 0;
      })
      e.e

unfoldable pub decode_cookie_sync_header : Encoding → Text → Option (List HttpCookie)
decode_cookie_sync_header enc header_value = elim (enc.decode_base64 header_value) [
  | none ↦ none
  | some text ↦ elim (enc.unmarshal text) [
    | none ↦ none
    | some entries ↦ some (map cookie_of entries)
  ]
]
