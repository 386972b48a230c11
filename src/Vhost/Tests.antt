-- ===== src/Vhost/Tests.antt =====
-- internal/vhost: runs at concrete inputs, and the theorems at inputs that meet their hypotheses.
use cifera.Base.{
  if◌then◌else◌, eq_of_some, itoa, take, All, lookup, insert, delete, Text, codes, text_eq,
  text_dec, has_prefix, to_lower, split, join, has_suffix, trim_prefix, ◌≡◌, refl, sym, ◌⊎◌, false,
  not, ◌&&◌, ◌||◌, none, some, List, [], ◌∷◌, ◌++◌,
}
use cifera.Header
use cifera.Header.{Header, canonical_key}
use cifera.Http.{Response}
use cifera.Vhost.Path.{slash, push_part, resolve, stack_of, clean, join_path}
use cifera.Vhost.Parts.{IsPlain}
use cifera.Vhost.Url.{Url, Values, Urls}
use cifera.Vhost.Local.{
  directory, Files, Mime, sanitize_path, ext, make_file_response, make_error_response, serve_index,
  content_type_of, serve_file, serve_path, serve_local, directory,
}
use cifera.Vhost.Host.{
  name_with_space, Regexps, World, HostConfig, Host, Registry, local_type, remote_type, override,
  fallback, new_registry, lookup_name, lookup_host, register, abs_path, base_dir_of, compile_local,
  compile_remote, compile_fallback, compile_type, compile_host, load_hosts, load_from_config,
  fallback_matches, name_with_space,
}
use cifera.Vhost.Remote.{
  HostRequest, Network, meta_param_prefix, meta_header_prefix, keys, drop_params, drop_headers,
  remote_query, remote_path, build_remote_url, remote_header, remote_request, serve_from,
  serve_remote, serve,
}
use cifera.Vhost.Ready.{IsRooted, IsReady}
use cifera.Vhost.Within
use cifera.Vhost.Within.{parts_of, sanitized, sanitize_path-IsWithin}
use cifera.Vhost.Served
use cifera.Vhost.Stripped
use cifera.Vhost.Stripped.{IsCanonical, names_proxy, remote_request-strips}

program : Unit {0}
unfolding lookup insert delete text_dec text_eq to_lower split join has_prefix has_suffix
    trim_prefix itoa push_part resolve stack_of clean join_path sanitize_path ext make_file_response
    make_error_response serve_index content_type_of serve_file serve_path serve_local lookup_name
    lookup_host register abs_path base_dir_of compile_local compile_remote compile_fallback
    compile_type compile_host load_hosts load_from_config fallback_matches drop_params drop_headers
    remote_query remote_path build_remote_url remote_header remote_request serve_from serve_remote
    serve canonical_key Header.set Header.del
program = tt

cleans : clean (codes "/a//b/./../c/") ≡ codes "/a/c"
unfolding program
cleans = refl

cleans_relative : clean (codes "../a/../..") ≡ codes "../.."
unfolding program
cleans_relative = refl

cleans_empty : clean [] ≡ codes "."
unfolding program
cleans_empty = refl

climbs :
    sanitize_path (codes "/srv/www") (codes "/../../etc/passwd")
    ≡ some (codes "/srv/www/etc/passwd")
unfolding program
climbs = refl

-- A name that starts with two dots is refused, although it is no way up.
refuses_dots : sanitize_path (codes "/srv/www") (codes "/..well-known") ≡ none
unfolding program
refuses_dots = refl

-- Nothing below the root directory is served.
refuses_root : sanitize_path (codes "/") (codes "/index.html") ≡ none
unfolding program
refuses_root = refl

finds_extension : ext (codes "/a.b/c.tar.gz") ≡ codes ".gz"
unfolding program
finds_extension = refl

joins_remote : remote_path (codes "/api/") (codes "/v1") ≡ codes "/api/v1"
unfolding program
joins_remote = refl

keeps_slash : remote_path (codes "/api/") (codes "/") ≡ codes "/api/"
unfolding program
keeps_slash = refl

sanitize_path-IsWithin_example :
    let own = parts_of (codes "/srv/www") in
    let asked = parts_of (codes "/a/../b") in
    (sanitize_path (codes "/srv/www") (codes "a/../b") ≡ sanitized own asked)
    × All IsPlain own
    × All IsPlain asked
sanitize_path-IsWithin_example = Within.sanitize_path-IsWithin (codes "srv/www") (codes "a/../b")

abbrev regexps : Regexps
regexps = record {
  Regex = Text;
  compile = λ pattern. some pattern;
  match_string = λ re code. has_prefix code (take 1 re);
}

abbrev remote : Url
remote = record {
  scheme = codes "https";
  host = codes "cdn.org";
  path = codes "/x/";
  raw_path = [];
  raw_query = [];
  fragment = [];
}

abbrev world : World
world = record { getwd = some (codes "/w"); stat = λ p. directory; parse = λ t. some remote }

world-IsRooted : (w : Text) → world.getwd ≡ some w → IsRooted w
world-IsRooted w h = (codes "w", sym (eq_of_some h))

abbrev config_of : Text → Text → Text → HostConfig
config_of name host_type priority = record {
  name = name;
  host_type = host_type;
  path = codes "www";
  remote = codes "https://cdn.org/x/";
  priority = priority;
  fallback_status = codes "!2..";
  pass_meta = false;
}

abbrev configs : List HostConfig
configs =
    config_of (codes "A.org") local_type override
    ∷ config_of (codes "b.org") remote_type fallback
    ∷ []

abbrev loaded : Registry Text
loaded = (load_from_config regexps world new_registry configs).0

abbrev host : Host Text
host = record {
  config = config_of (codes "A.org") local_type override;
  fallback_regex = none;
  fallback_negate = false;
  abs_base_dir = codes "/w/www";
  remote_url = none;
  addon_id = [];
}

loads : (load_from_config regexps world new_registry configs).1 ≡ none
unfolding program
loads = refl

stops_at_error :
    (load_from_config regexps world new_registry
      (config_of (codes "a b") local_type override ∷ [])).1
    ≡ some name_with_space
unfolding program
stops_at_error = refl

lookup_host-IsReady_example :
    IsReady world host
    × ((to_lower host.config.name ≡ to_lower (codes "a.ORG"))
        ⊎ (to_lower host.config.name ≡ to_lower (codes "b.org")))
    × ((urls : Urls) (network : Network) (files : Files) (mime : Mime) (r : HostRequest)
        → (resp : Response) × (serve urls network files mime host r ≡ some resp))
unfolding program
lookup_host-IsReady_example =
    Served.lookup_host-IsReady regexps world loaded (codes "a.ORG") (codes "b.org") host
      world-IsRooted (Served.Loads.config configs Served.Loads.start) refl

abbrev urls : Urls
urls = record {
  parse = λ t. some remote;
  print = λ u. u.host ++ u.path ++ u.raw_query;
  parse_query = λ t. (codes "_cifera_h", codes "b.org" ∷ []) ∷ (codes "q", codes "1" ∷ []) ∷ [];
  encode = λ q. join slash (keys q);
}

abbrev request : HostRequest
request = record {
  request = record {
    method = codes "GET";
    header =
        (codes "Cifera-Loop", codes "x" ∷ [])
        ∷ (codes "Accept", codes "*" ∷ [])
        ∷ (codes "Referer", codes "r" ∷ [])
        ∷ [];
  };
  url = record {
    scheme = [];
    host = [];
    path = codes "/y";
    raw_path = [];
    raw_query = codes "...";
    fragment = [];
  };
  body = [];
}

strips_request :
    (remote_request urls false remote request).header ≡ (codes "Accept", codes "*" ∷ []) ∷ []
unfolding program
strips_request = refl

request-IsCanonical : IsCanonical request.request.header
unfolding program
request-IsCanonical = (refl, (refl, (refl, tt)))

remote_request-strips_example :
    let o = remote_request urls false remote request in
    let asked = urls.parse_query request.url.raw_query in
    (o.method ≡ codes "GET")
    × (o.body ≡ [])
    × (o.host ≡ codes "cdn.org")
    × ((key : Text)
        → lookup text_dec key o.header ≡ (
            if names_proxy key || not false && has_prefix key meta_header_prefix
            then none
            else lookup text_dec key request.request.header))
    × ((q : Values) × (o.url
          ≡ urls.print (record remote {
            path = remote_path remote.path (codes "/y");
            raw_query = urls.encode q;
            fragment = [];
          }))
        × ((key : Text)
            → lookup text_dec key q ≡ (
                if not false && has_prefix key meta_param_prefix
                then none
                else lookup text_dec key asked)))
remote_request-strips_example =
    Stripped.remote_request-strips urls false remote request request-IsCanonical
