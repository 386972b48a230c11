-- ===== src/Server/Outbound.antt =====
-- internal/server.go: the request that goes out to the site, which the Rewrite of the reverse proxy
-- makes, and the cookies of a response when there are no cookie jars.
use cifera.Base.{
  if◌then◌else◌, keep, ℤ, pos, negsuc, itoa, Text, codes, is_empty, to_lower, trim_space,
  has_prefix, split, join, ℕ, Bool, not, Option, none, some, List, [], ◌∷◌, map,
}
use cifera.Header
use cifera.Header.{Header}
use cifera.Vhost.Url.{Url, Urls}
use cifera.Vhost.Remote.{keys, drop_headers}
use cifera.Server.Params.{ProxyParams, strip_meta_params}

abbrev pub semicolon : Text
semicolon = codes ";"

abbrev pub session_prefix : Text
session_prefix = codes "_cifera_sid="

abbrev pub is_kept_cookie : Text → Bool
is_kept_cookie part = not (has_prefix (trim_space part) session_prefix)

unfoldable pub strip_session_cookie : Text → Text
strip_session_cookie cookie_header = join semicolon (keep is_kept_cookie (split b';' cookie_header))

abbrev pub is_kept_attribute : Text → Bool
is_kept_attribute part = not (has_prefix (to_lower (trim_space part)) (codes "domain="))

unfoldable pub rewrite_cookie_string : Text → Text
rewrite_cookie_string cookie = join semicolon (keep is_kept_attribute (split b';' cookie))

abbrev pub set_cookie : Text
set_cookie = codes "Set-Cookie"

unfoldable pub add_all : Header → List Text → Header
add_all h [] = h
add_all h (c ∷ cs) = add_all (Header.add h set_cookie c) cs

-- rewriteCookiesLegacy
unfoldable pub rewrite_cookies_legacy : Header → Header
rewrite_cookies_legacy h = elim (Header.values h set_cookie) [
  | [] ↦ h
  | c ∷ cs ↦ add_all (Header.del h set_cookie) (map rewrite_cookie_string (c ∷ cs))
]

-- The parts of the outgoing request that Rewrite sets.
pub record Outbound : Type 0 where
  pub url : Url
  pub host : Text
  pub header : Header

abbrev pub at_least_zero : ℤ → ℕ
at_least_zero (pos n) = n
at_least_zero (negsuc n) = 0

unfoldable pub with_stripped_cookie : Header → Header
with_stripped_cookie h =
    let cookie = Header.get h (codes "Cookie") in
    if is_empty cookie then h else Header.set h (codes "Cookie") (strip_session_cookie cookie)

abbrev pub set_origin : Urls → ProxyParams → Header → Option Url → Header
set_origin urls params h none = h
set_origin urls params h (some origin) =
    Header.set h (codes "Origin")
      (urls.print (record origin { scheme = params.schema; host = params.host }))

unfoldable pub with_origin : Urls → ProxyParams → Text → Header → Header
with_origin urls params origin h =
    if is_empty origin then h else set_origin urls params h (urls.parse origin)

unfoldable pub out_header : Urls → ProxyParams → Text → Header → Header
out_header urls params origin h =
    let h1 = Header.set h (codes "Referer") params.referer in
    let h2 = drop_headers (keys h1) h1 in
    let h3 = Header.set h2 (codes "Max-Forwards") (itoa (at_least_zero params.max_forwards)) in
    with_origin urls params origin (with_stripped_cookie h3)

-- Rewrite, from the address and the Origin header of the request that came in and the request that
-- was to go out.
unfoldable pub rewrite_outbound : Urls → ProxyParams → Url → Text → Outbound → Outbound
rewrite_outbound urls params url origin out = if is_empty params.host then out else (record {
  url = record {
    scheme = params.schema;
    host = params.host;
    path = url.path;
    raw_path = url.raw_path;
    raw_query = urls.encode (strip_meta_params (urls.parse_query url.raw_query));
    fragment = [];
  };
  host = params.host;
  header = out_header urls params origin out.header;
})
