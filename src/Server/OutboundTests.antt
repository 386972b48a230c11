-- ===== src/Server/OutboundTests.antt =====
-- internal/server.go: the outgoing request and the cookies of a response at concrete inputs.
use cifera.Base.{
  if◌then◌else◌, lookup, insert, delete, text_dec, text_eq, to_lower, trim, trim_left, has_prefix,
  has_suffix, split, join, atoi, itoa, parse_digits, codes, is_empty, ◌≡◌, refl, false, some, [],
  ◌∷◌, ◌++◌, map,
}
use cifera.Header
use cifera.Header.{Header, canonical_key}
use cifera.LoopGuard.Address.{
  cut_last, cut_first, split_host_port, remaining, next_max_forwards, hop,
}
use cifera.Vhost.Url.{Url, Urls}
use cifera.Vhost.Remote.{drop_params, drop_headers}
use cifera.Server.Params.{
  ProxyRequest, param, strip_meta_params, parse_proxy_url, canonical_hostname, host_name_equals,
  strip_proxy_port, from_referer, from_host, parse_proxy_params,
}
use cifera.Server.Outbound.{
  strip_session_cookie, rewrite_cookie_string, set_cookie, add_all, rewrite_cookies_legacy,
  Outbound, with_stripped_cookie, with_origin, out_header, rewrite_outbound,
}
use cifera.Server.Attributes
use cifera.Server.Stripped

abbrev page : Url
page = record {
  scheme = [];
  host = [];
  path = codes "/x";
  raw_path = [];
  raw_query = codes "b.org";
  fragment = [];
}

abbrev urls : Urls
urls = record {
  parse = λ t. some page;
  print = λ u. u.scheme ++ (codes "://" ++ u.host);
  parse_query = λ t.
      if is_empty t then [] else (codes "_cifera_h", t ∷ []) ∷ (codes "a", codes "1" ∷ []) ∷ [];
  encode = λ q. [];
}

abbrev header : Header
header =
    (codes "Cookie", codes "a=1; _cifera_sid=x;b=2" ∷ [])
    ∷ (codes "Cifera-Referer", codes "r" ∷ [])
    ∷ (codes "Max-Forwards", codes "5" ∷ [])
    ∷ []

abbrev request : ProxyRequest
request = record { url = page; host = codes "p:8080"; header = header; tls = false }

abbrev before : Outbound
before = record { url = page; host = codes "p:8080"; header = header }

abbrev after : Outbound
after = rewrite_outbound urls (parse_proxy_params urls request) page (codes "http://p:8080") before

program : Unit {0}
unfolding lookup insert delete text_dec text_eq to_lower trim trim_left has_prefix has_suffix split
    join atoi itoa parse_digits canonical_key Header.get Header.set Header.del Header.add
    Header.values drop_params drop_headers cut_last cut_first split_host_port remaining
    next_max_forwards hop param strip_meta_params parse_proxy_url canonical_hostname
    host_name_equals strip_proxy_port from_referer from_host parse_proxy_params strip_session_cookie
    rewrite_cookie_string add_all rewrite_cookies_legacy with_stripped_cookie with_origin out_header
    rewrite_outbound
program = tt

strips :
    (Header.get after.header (codes "Cookie") ≡ codes "a=1;b=2")
    × (Header.get after.header (codes "Cifera-Referer") ≡ [])
    × (Header.get after.header (codes "Max-Forwards") ≡ codes "4")
    × (Header.get after.header (codes "Origin") ≡ codes "http://b.org")
    × (after.url.host ≡ codes "b.org")
unfolding program
strips = (refl, refl, refl, refl, refl)

-- Only the session is taken out: the tenant and its token are left in a Cookie header.
leaves_token : strip_session_cookie (codes "_cifera_tok=t") ≡ codes "_cifera_tok=t"
unfolding program
leaves_token = refl

rewrites_cookie :
    rewrite_cookie_string (codes "a=1; Path=/; DOMAIN=b.org; Secure") ≡ codes "a=1; Path=/; Secure"
unfolding program
rewrites_cookie = refl

rewrite_outbound-IsStripped_example : Stripped.IsStripped urls request before after
unfolding program
rewrite_outbound-IsStripped_example =
    Stripped.rewrite_outbound-IsStripped urls request (codes "http://p:8080") before
      (refl, (refl, (refl, tt))) refl refl

abbrev response_header : Header
response_header = (set_cookie, codes "a=1; domain=b.org" ∷ codes "c=2" ∷ []) ∷ []

rewrite_cookies_legacy-parts_example :
    (Header.values (rewrite_cookies_legacy response_header) set_cookie
      ≡ map rewrite_cookie_string (Header.values response_header set_cookie))
    × Attributes.HasRest Attributes.IsDomain
        (codes "a=1; domain=b.org")
        (rewrite_cookie_string (codes "a=1; domain=b.org"))
rewrite_cookies_legacy-parts_example =
    Attributes.rewrite_cookies_legacy-parts response_header (codes "a=1; domain=b.org")
