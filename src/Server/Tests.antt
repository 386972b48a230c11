-- ===== src/Server/Tests.antt =====
-- internal/server.go: runs at concrete inputs, and the redirect theorem at one.
use cifera.Base.{
  arith, ◌≤◌, if◌then◌else◌, pos, lookup, insert, delete, codes, text_eq, text_dec, is_empty,
  has_prefix, to_lower, trim, has_suffix, ◌≡◌, refl, true, false, some, [], ◌∷◌, ◌++◌,
}
use cifera.Header
use cifera.Header.{Header, canonical_key, first_value}
use cifera.Vhost.Url.{Url, Urls}
use cifera.Vhost.Remote.{drop_params}
use cifera.LoopGuard.Address.{cut_last, split_host_port, next_max_forwards}
use cifera.Server.Params.{
  ProxyParams, param, set_param, is_redirect, strip_meta_params, parse_proxy_url,
  canonical_hostname, host_name_equals, strip_proxy_port, from_referer, from_host,
  parse_proxy_params, build_original_url, name_target, rewrite_location, rewrite_redirect_location,
}
use cifera.Server.Slots
use cifera.Server.Slots.{
  Slots, Waiting, idle_slots, Steps, here, later, arrive, acquire, sem_capacity, CanRun, finished,
}
use cifera.Server.Redirect
use cifera.Server.Redirect.{target_of, rewrite_redirect_location-target}

abbrev location : Url
location = record {
  scheme = codes "https";
  host = codes "b.org";
  path = codes "/x";
  raw_path = [];
  raw_query = [];
  fragment = [];
}

-- The operations on the addresses of the tests.
abbrev urls : Urls
urls = record {
  parse = λ t. some location;
  print = λ u. u.host ++ u.path;
  parse_query = λ t.
      if is_empty t
      then []
      else (codes "_cifera_h", codes "b.org" ∷ []) ∷ (codes "_cifera_s", codes "https" ∷ []) ∷ [];
  encode = λ q. codes "q";
}

abbrev params : ProxyParams
params = record {
  schema = codes "https";
  host = codes "a.org";
  proxy = codes "p:8080";
  entry_scheme = [];
  referer = [];
  current_path = codes "/";
  max_forwards = pos 9;
}

abbrev header : Header
header = (codes "Location", codes "https://b.org/x" ∷ []) ∷ []

program : Unit {0}
unfolding lookup insert delete text_dec text_eq to_lower trim has_prefix has_suffix canonical_key
    Header.get Header.set drop_params cut_last split_host_port param set_param is_redirect
    strip_meta_params parse_proxy_url canonical_hostname host_name_equals strip_proxy_port
    from_referer from_host parse_proxy_params build_original_url name_target rewrite_location
    rewrite_redirect_location next_max_forwards
program = tt

redirects : is_redirect 307 ≡ true
unfolding program
redirects = refl

-- 303 is a redirect too, and is not rewritten.
misses_see_other : is_redirect 303 ≡ false
unfolding program
misses_see_other = refl

-- A location without a scheme is read as http, also where the page is https.
downgrades : target_of params (record location { scheme = [] }) ≡ (codes "http", codes "b.org")
unfolding program
downgrades = refl

-- The port of the proxy is taken off the name of a site, and kept on its own.
strips_port : strip_proxy_port (codes "cn.bing.com:8080") (codes "p.org:8080") ≡ codes "cn.bing.com"
unfolding program
strips_port = refl

keeps_own_port :
    strip_proxy_port (codes "api.p.org:8080") (codes "p.org:8080") ≡ codes "api.p.org:8080"
unfolding program
keeps_own_port = refl

rewrites : (rewrite_location urls params location).host ≡ codes "p:8080"
unfolding program
rewrites = refl

rewrite_redirect_location-target_example :
    let u' = rewrite_location urls params location in
    let (origin, schema, host) = parse_proxy_url urls u' in
    (Header.get (rewrite_redirect_location urls params header) (codes "Location") ≡ urls.print u')
    × ((schema, host) ≡ target_of params location)
    × (u'.host ≡ (if is_empty location.host then location.host else params.proxy))
unfolding program
rewrite_redirect_location-target_example =
    Redirect.rewrite_redirect_location-target urls params header location refl refl refl (λ k. refl)

-- One request runs and another waits.
abbrev waiting : Waiting
waiting = record { request = 2; since = 0 }

abbrev busy : Slots
busy = record { in_use = 1; waiting = waiting ∷ []; running = 1 ∷ []; now = 0 }

busy-Steps : Steps (idle_slots 0) busy
busy-Steps =
    later
      (later (later here (arrive 1))
        (acquire [] [] (record { request = 1; since = 0 }) refl (omega arith)))
      (arrive 2)

slots_return_example :
    CanRun busy 2 × Steps busy (finished busy []) × (busy.in_use ≡ 1) × (busy.in_use ≤ sem_capacity)
slots_return_example = Slots.slots_return 0 busy [] [] waiting busy-Steps refl
