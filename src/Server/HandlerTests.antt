-- ===== src/Server/HandlerTests.antt =====
-- internal/server.go: runs of ServeHTTP at concrete requests, and its theorems at some of them. The
-- platform is one without a database, in which an address is its text.
use cifera.Base.{
  trim_prefix, text_ltb, seconds, sub_time, ℕ_discrete, if◌then◌else◌, parse_digits, atoi, pos,
  lookup, insert, delete, Text, codes, text_eq, text_dec, is_empty, has_prefix, contains, to_lower,
  trim_left, trim, split, join, has_suffix, ◌≡◌, refl, true, false, Option, none, some, [], ◌∷◌,
  ◌++◌,
}
use cifera.Header
use cifera.Header.{Header, canonical_key}
use cifera.Vhost.Url.{Url}
use cifera.Vhost.Host.{lookup_host, lookup_name}
use cifera.Vhost.Remote.{drop_params}
use cifera.CookieJar.Entry.{HttpCookie, is_expired, is_session_cookie, age_is_over, cookie_key}
use cifera.CookieJar.Matcher.{domain_match, path_match, starts_with_slash, canonical_domain}
use cifera.CookieJar.Jar.{
  Jar, new_jar, add_cookie, cookies_for, stable_sort, matching, make_entry, put_entry, assign,
  make_room, has_key, ensure_domain, evict_if_needed, total_count, count_entries, applies,
  comes_before, in_domain, insert_sorted, is_older, oldest_from, oldest_of, places, put_back,
  remove_cookie, remove_from, to_http_cookie,
}
use cifera.CookieSync.Headers.{build_cookie_header, decode_cookie_sync_header}
use cifera.Tenant.Store.{hex_encode, from_session, jar_key, resolve}
use cifera.Tenant.Session.{matches, is_valid_uuid, new_uuid}
use cifera.Manager.State.{
  Config, Manager, set_jar, store_jar, empty_manager, new_manager, stored_jar, load_or_create,
  get_or_create_jar, persist_jar,
}
use cifera.Manager.Reach
use cifera.LoopGuard.Address.{
  cut_last, cut_first, split_host_port, default_port_for_schema, split_target_host, remaining,
  next_max_forwards,
}
use cifera.LoopGuard.Guard.{is_self, is_local_name}
use cifera.LoopGuard.Detects
use cifera.Addon.Rules.{block, LoadedAddon, match_url}
use cifera.Addon.Matcher.{first_rule, first_match, match_block}
use cifera.Server.Params.{
  param, strip_meta_params, parse_proxy_url, canonical_hostname, host_name_equals, strip_proxy_port,
  from_referer, from_host, parse_proxy_params, build_original_url,
}
use cifera.Server.Session.{
  given_session, bootstrap, with_cookies, add_synced, sync_all, sync_cookies, use_jar,
  enter_session,
}
use cifera.Server.Handler.{
  Platform, Incoming, is_websocket_upgrade, websocket_scheme, Server, Moment, Outcome, bridge_of,
  blocking_rule, to_upstream, to_host, past_guard, ask_guard, serve_ready, serve_with, serve_http,
  Ready, acquired, missing_host, forwarded, loop_detected, blocked,
}
use cifera.Server.Forwards
use cifera.Server.Outgoing
use cifera.Server.Loops

abbrev site : Url
site = record {
  scheme = [];
  host = [];
  path = codes "/x";
  raw_path = [];
  raw_query = codes "q";
  fragment = [];
}

-- The query of every request names b.org.
abbrev platform : Platform
platform = record {
  db = record {
    State = Text;
    open_at = λ path. none;
    get = λ s k. none;
    set = λ s k v. none;
    remove = λ s k. none;
    entries = λ s. [];
  };
  codec = record { marshal = λ es. none; unmarshal = λ t. none };
  Ip = Text;
  net = record {
    parse = λ s. none;
    is_loopback = λ s. false;
    is_unspecified = λ s. false;
    equal = text_eq;
    print = λ s. s;
  };
  regexps = record { Regex = Text; compile = λ t. some t; match_string = λ re t. has_prefix t re };
  urls = record {
    parse = λ t. none;
    print = λ u. u.host ++ u.path;
    parse_query = λ t. if is_empty t then [] else (codes "_cifera_h", t ∷ []) ∷ [];
    encode = λ q. [];
  };
  web = record {
    cookie = λ h name.
        if text_eq name (codes "_cifera_sid")
        then some (codes "00000000-0000-4000-8000-000000000000")
        else none;
    request_uri = λ u. u.path;
  };
  encoding = record {
    encode_base64 = λ t. t;
    decode_base64 = λ t. none;
    marshal = λ es. [];
    unmarshal = λ t. none;
    parse_set_cookie = λ t. none;
  };
  times = record { parse = λ t. none; format = λ n. [] };
}

abbrev request_to : Text → Incoming
request_to host = record {
  method = codes "GET";
  proxied = record {
    url = record site { raw_query = host };
    host = codes "p:8080";
    header = (codes "Cookie", codes "stolen=1" ∷ []) ∷ [];
    tls = false;
  };
}

abbrev moment : Moment platform
moment = record {
  now = 100;
  random = [];
  answers = record { interfaces = none; resolve = λ s. none };
  slot = acquired;
}

abbrev blocker : LoadedAddon Text
blocker = record {
  manifest = record {
    addon = record { id = codes "no-ads"; name = []; version = [] };
    params = [];
    rules =
        record {
          patterns = [];
          action = block;
          resource = [];
          status_code = pos 403;
          position = [];
          at = [];
          relation = [];
          scope = [];
          compiled_patterns = codes "ads.org" ∷ [];
          raw_content = [];
          resource_content = [];
          resource_type = [];
          tenant_cache = [];
        }
        ∷ [];
    hosts = [];
  };
  dir = [];
  params = [];
  global_overrides = [];
}

abbrev sid : Text
sid = codes "00000000-0000-4000-8000-000000000000"

abbrev key : Text
key = sid ++ (codes ":" ++ sid)

abbrev config : Config
config = record {
  enabled = true;
  jar_capacity = pos 9;
  persist_path = [];
  cleanup_interval = pos 1;
}

abbrev empty : Manager Text
empty = empty_manager platform.db platform.codec config

abbrev handed : Manager Text
handed = (get_or_create_jar platform.db platform.codec 50 empty key).0

abbrev cookie : HttpCookie
cookie = record {
  name = codes "a";
  value = codes "v";
  path = codes "/";
  domain = [];
  expires = 0;
  max_age = pos 0;
  secure = false;
  http_only = false;
  same_site = 0;
}

abbrev or_empty : Option Jar → Jar
or_empty none = new_jar (pos 9)
or_empty (some jar) = jar

abbrev filled : Jar
filled = or_empty (add_cookie 60 (handed.heap 0) cookie (codes "b.org"))

abbrev manager : Manager Text
manager = set_jar handed 0 filled

abbrev server : Server platform
server = record {
  addons = blocker ∷ [];
  registry = record { hosts = [] };
  cache = none;
  manager = some manager;
  tenants = none;
  api_host = codes "cifera.api";
  guard = record {
    port = codes "8080";
    bound_ip = none;
    local_addrs = none;
    local_at = 0;
    dns_cache = [];
  };
}

abbrev done : Option (Server platform × Outcome platform) → Server platform × Outcome platform
done none = (server, missing_host)
done (some r) = r

abbrev run : Text → Server platform × Outcome platform
run host = done (serve_http platform moment server (request_to host))

abbrev cookie_sent : Outcome platform → Text
cookie_sent (forwarded r vh) = Header.get r.proxied.header (codes "Cookie")
cookie_sent _ = codes "?"

program : Unit {0}
unfolding lookup insert delete text_dec text_eq to_lower trim trim_left has_prefix has_suffix
    contains join split atoi canonical_key Header.get Header.set Header.del drop_params parse_digits
    param strip_meta_params parse_proxy_url canonical_hostname host_name_equals strip_proxy_port
    from_referer from_host parse_proxy_params build_original_url cut_last cut_first split_host_port
    default_port_for_schema split_target_host remaining next_max_forwards given_session bootstrap
    with_cookies add_synced sync_all sync_cookies use_jar enter_session resolve from_session jar_key
    matches is_valid_uuid hex_encode new_uuid build_cookie_header decode_cookie_sync_header
    store_jar empty_manager new_manager stored_jar load_or_create get_or_create_jar persist_jar
    new_jar add_cookie cookies_for stable_sort matching make_entry put_entry assign make_room
    has_key ensure_domain evict_if_needed total_count count_entries applies comes_before in_domain
    insert_sorted is_older oldest_from oldest_of places put_back remove_cookie remove_from
    to_http_cookie is_expired is_session_cookie age_is_over cookie_key domain_match path_match
    starts_with_slash canonical_domain trim_prefix text_ltb seconds sub_time ℕ_discrete lookup_host
    lookup_name first_rule first_match match_block match_url is_websocket_upgrade websocket_scheme
    bridge_of blocking_rule to_upstream to_host past_guard ask_guard is_self is_local_name
    serve_ready serve_with serve_http
program = tt

-- The client's own cookies are dropped, those of its jar are sent.
sends_jar : cookie_sent (run (codes "b.org")).1 ≡ codes "a=v"
unfolding program
sends_jar = refl

-- Through another name of the proxy, the port is taken off first, and the target is another.
abbrev own_request : Incoming
own_request = record (request_to (codes "localhost:8080")) {
  proxied = record (request_to (codes "localhost:8080")).proxied { host = codes "localhost:8080" };
}

abbrev own_run : Server platform × Outcome platform
own_run = done (serve_http platform moment server own_request)

refuses_itself : own_run.1 ≡ loop_detected
unfolding program
refuses_itself = refl

blocks_ads : (run (codes "ads.org")).1 ≡ blocked (pos 403)
unfolding program
blocks_ads = refl

manager-Reach : Reach.Reach platform.db platform.codec manager
unfolding program
manager-Reach =
    Reach.add_cookie_to 0 60 cookie (codes "b.org")
      (Reach.hand_out 50 key (Reach.start {m = empty} 40 config refl)) refl

serve_http-isolates_example :
    let (after, outcome) = run (codes "b.org") in
    Outgoing.IsIsolated platform moment server after
      (request_to (codes "b.org"))
      outcome
      manager
      (codes "other")
unfolding program
serve_http-isolates_example =
    let (after, outcome) = run (codes "b.org") in
    Outgoing.serve_http-isolates platform moment server after (request_to (codes "b.org")) outcome
      manager (codes "other") refl manager-Reach refl (λ e. cc e) refl

serve_http-StaysHere_example : Loops.StaysHere platform own_run.1
unfolding program
serve_http-StaysHere_example =
    Loops.serve_http-StaysHere platform moment own_request server own_run.0 own_run.1
      (record { port = refl; target = refl; same_port = refl; name = Detects.local refl }) refl

abbrev ready : Ready platform
ready = record {
  method = codes "GET";
  proxied = (request_to (codes "b.org")).proxied;
  params = parse_proxy_params platform.urls (request_to (codes "b.org")).proxied;
  session = none;
}

forwards : (serve_ready platform moment server ready).1 ≡ forwarded ready none
unfolding program
forwards = refl
