-- ===== src/Server/Params.antt =====
-- internal/server.go: the target of a request, its original address, and the rewriting of redirects,
-- over the operations of the package net/url.
use cifera.Base.{
  ◌==◌, if◌then◌else◌, ℤ, lookup, insert, Text, codes, text_eq, text_dec, is_empty, to_lower,
  trim_space, has_suffix, ℕ, Bool, not, ◌&&◌, ◌||◌, Option, none, some, [], ◌∷◌, ◌++◌,
}
use cifera.Header
use cifera.Header.{Header, first_value}
use cifera.Vhost.Url.{Url, Values, Urls}
use cifera.Vhost.Remote.{keys, drop_params}
use cifera.LoopGuard.Address.{split_host_port, next_max_forwards}

pub record ProxyParams : Type 0 where
  pub schema : Text
  pub host : Text
  pub proxy : Text
  pub entry_scheme : Text
  pub referer : Text
  pub current_path : Text
  pub max_forwards : ℤ

-- The fields of a request that are read.
pub record ProxyRequest : Type 0 where
  pub url : Url
  pub host : Text
  pub header : Header
  pub tls : Bool

abbrev pub http : Text
http = codes "http"

abbrev pub https : Text
https = codes "https"

abbrev pub host_param : Text
host_param = codes "_cifera_h"

abbrev pub schema_param : Text
schema_param = codes "_cifera_s"

-- Values.Get and Values.Set
unfoldable pub param : Values → Text → Text
param q k = first_value (lookup text_dec k q)

unfoldable pub set_param : Values → Text → Text → Values
set_param q k v = insert text_dec k (v ∷ []) q

unfoldable pub is_redirect : ℕ → Bool
is_redirect status_code =
    status_code == 301 || status_code == 302 || status_code == 307 || status_code == 308

unfoldable pub strip_meta_params : Values → Values
strip_meta_params q = drop_params (keys q) q

abbrev pub or_http : Text → Text
or_http schema = if is_empty schema then http else schema

unfoldable pub parse_proxy_url : Urls → Url → Text × Text × Text
parse_proxy_url urls u =
    let q = urls.parse_query u.raw_query in
    let schema = or_http (param q schema_param) in
    let host = param q host_param in
    (
      urls.print (record u {
        raw_query = urls.encode (strip_meta_params q);
        host = host;
        scheme = schema;
      }),
      schema,
      host,
    )

-- The name without the port, in lower case.
unfoldable pub canonical_hostname : Text → Text
canonical_hostname host =
    let h = to_lower (trim_space host) in
    if is_empty host then [] else (elim (split_host_port h) [ some (name, port) ↦ name | none ↦ h ])

unfoldable pub host_name_equals : Text → Text → Bool
host_name_equals a b =
    let ca = canonical_hostname a in not (is_empty ca) && text_eq ca (canonical_hostname b)

-- The port of the proxy behind the name of another host is taken off.
abbrev pub strip_port : Text → Text × Text → Option (Text × Text) → Text
strip_port host proxy none = host
strip_port host (proxy_name, proxy_port) (some (name, port)) =
    if not (text_eq port proxy_port)
    then host
    else if text_eq name proxy_name || has_suffix name (codes "." ++ proxy_name)
    then host
    else name

unfoldable pub strip_proxy_port : Text → Text → Text
strip_proxy_port host request_host =
    if is_empty host || is_empty request_host then host else (elim (split_host_port request_host) [
      | none ↦ host
      | some (proxy_name, proxy_port) ↦
          if is_empty proxy_port
          then host
          else strip_port host (proxy_name, proxy_port) (split_host_port host)
    ])

-- The parameters while they are put together.
pub record Draft : Type 0 where
  pub schema : Text
  pub host : Text
  pub referer : Text

-- The Referer header fills in what the query has not.
abbrev pub from_parsed : Urls → Draft → Option Url → Draft
from_parsed urls d none = d
from_parsed urls d (some ref) =
    let (origin, parsed_schema, parsed_host) = parse_proxy_url urls ref in
    record {
      schema = if is_empty d.schema then parsed_schema else d.schema;
      host = if is_empty d.host then parsed_host else d.host;
      referer =
          if is_empty d.referer && not (is_empty parsed_host)
          then urls.print (record ref {
            scheme = parsed_schema;
            host = parsed_host;
            raw_query = urls.encode (strip_meta_params (urls.parse_query ref.raw_query));
          })
          else d.referer;
    }

unfoldable pub from_referer : Urls → Draft → Text → Draft
from_referer urls d header_ref =
    if is_empty header_ref then d else from_parsed urls d (urls.parse header_ref)

unfoldable pub from_host : ProxyRequest → Draft → Draft
from_host r d =
    if is_empty d.host && not (is_empty r.host)
    then record d {
      host = r.host;
      schema = if is_empty d.schema then (if r.tls then https else http) else d.schema;
    }
    else d

unfoldable pub parse_proxy_params : Urls → ProxyRequest → ProxyParams
parse_proxy_params urls r =
    let (origin, schema, host) = parse_proxy_url urls r.url in
    let start : Draft = record {
      schema = schema;
      host = host;
      referer = Header.get r.header (codes "Cifera-Referer");
    } in
    let d = from_host r (from_referer urls start (Header.get r.header (codes "Referer"))) in
    record {
      schema = or_http d.schema;
      host = strip_proxy_port d.host r.host;
      proxy = r.host;
      entry_scheme = if r.tls then https else http;
      referer = d.referer;
      current_path = r.url.path;
      max_forwards = next_max_forwards (Header.get r.header (codes "Max-Forwards"));
    }

unfoldable pub build_original_url : Urls → Text → Text → Url → Text
build_original_url urls schema host req_url = urls.print (record {
  scheme = schema;
  host = host;
  path = req_url.path;
  raw_path = [];
  raw_query = urls.encode (strip_meta_params (urls.parse_query req_url.raw_query));
  fragment = [];
})

-- The parameters that name a target; http is not written.
unfoldable pub name_target : Values → Text → Text → Values
name_target q schema host =
    let q' = set_param q host_param host in
    if not (is_empty schema) && not (text_eq schema http)
    then set_param q' schema_param schema
    else q'

unfoldable pub rewrite_location : Urls → ProxyParams → Url → Url
rewrite_location urls params u =
    let q = urls.parse_query u.raw_query in
    if not (is_empty u.host)
    then record u {
      scheme = or_http params.entry_scheme;
      host = params.proxy;
      raw_query = urls.encode (name_target q u.scheme u.host);
    }
    else record u { raw_query = urls.encode (name_target q params.schema params.host) }

abbrev pub relocated : Urls → ProxyParams → Header → Option Url → Header
relocated urls params h none = h
relocated urls params h (some u) =
    Header.set h (codes "Location") (urls.print (rewrite_location urls params u))

unfoldable pub rewrite_redirect_location : Urls → ProxyParams → Header → Header
rewrite_redirect_location urls params h =
    let location = Header.get h (codes "Location") in
    if is_empty location then h else relocated urls params h (urls.parse location)
