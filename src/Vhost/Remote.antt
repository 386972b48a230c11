-- ===== src/Vhost/Remote.antt =====
-- internal/vhost/remote.go, and Serve of vhost.go: a request goes to the remote address, without the
-- proxy's own parameters and headers. net/url and the network are parameters.
use cifera.Base.{
  if◌then◌else◌, delete, Text, codes, text_eq, text_dec, is_empty, has_prefix, has_suffix, ℕ, Bool,
  not, ◌&&◌, ◌||◌, Option, none, some, List, [], ◌∷◌, ◌++◌,
}
use cifera.Header
use cifera.Header.{Header}
use cifera.Http.{Request, Response}
use cifera.Vhost.Path.{slash, dot, clean, join_path}
use cifera.Vhost.Url.{Url, Values, Urls}
use cifera.Vhost.Local.{Files, Mime, make_error_response, serve_local}
use cifera.Vhost.Host.{Host, local_type, remote_type}

-- What Serve reads of a request.
pub record HostRequest : Type 0 where
  pub request : Request
  pub url : Url
  pub body : List ℕ

pub record Outgoing : Type 0 where
  pub method : Text
  pub url : Text
  pub host : Text
  pub header : Header
  pub body : List ℕ

-- http.NewRequest accepts the method and the address or fails; RoundTrip may fail.
pub record Network : Type 0 where
  pub accepts : Text → Text → Bool
  pub round_trip : Outgoing → Option Response

abbrev pub meta_param_prefix : Text
meta_param_prefix = codes "_cifera_"

abbrev pub meta_header_prefix : Text
meta_header_prefix = codes "Cifera-"

abbrev pub keys {ℓ} : {V : Type ℓ} → List (Text × V) → List Text
keys [] = []
keys ((k, v) ∷ m) = k ∷ keys m

-- The loop over the query, which deletes what it visits.
unfoldable pub drop_params : List Text → Values → Values
drop_params [] q = q
drop_params (k ∷ ks) q =
    if has_prefix k meta_param_prefix
    then drop_params ks (delete text_dec k q)
    else drop_params ks q

-- The loop over the headers.
unfoldable pub drop_headers : List Text → Header → Header
drop_headers [] h = h
drop_headers (k ∷ ks) h =
    if has_prefix k meta_header_prefix then drop_headers ks (Header.del h k) else drop_headers ks h

unfoldable pub remote_query : Bool → Values → Values
remote_query pass_meta q = if pass_meta then q else drop_params (keys q) q

unfoldable pub remote_path : Text → Text → Text
remote_path raw_base_path req_path =
    let cleaned = clean raw_base_path in
    let base_path = if text_eq cleaned dot then [] else cleaned in
    if is_empty base_path || text_eq base_path slash
    then req_path
    else if has_suffix raw_base_path slash && (is_empty req_path || text_eq req_path slash)
    then base_path ++ slash
    else join_path base_path req_path

unfoldable pub build_remote_url : Urls → Bool → Url → Url → Url
build_remote_url urls pass_meta remote_url asked = record remote_url {
  path = remote_path remote_url.path asked.path;
  raw_query = urls.encode (remote_query pass_meta (urls.parse_query asked.raw_query));
  fragment = asked.fragment;
}

unfoldable pub remote_header : Bool → Header → Header
remote_header pass_meta h =
    let h' =
      Header.del (Header.del (Header.del h (codes "Referer")) (codes "X-Forwarded-Host"))
        (codes "X-Forwarded-Proto") in
    if pass_meta then h' else drop_headers (keys h') h'

unfoldable pub remote_request : Urls → Bool → Url → HostRequest → Outgoing
remote_request urls pass_meta remote_url r =
    let target = build_remote_url urls pass_meta remote_url r.url in
    record {
      method = r.request.method;
      url = urls.print target;
      host = target.host;
      header = remote_header pass_meta r.request.header;
      body = r.body;
    }

module _ (urls : Urls) (network : Network) where
  unfoldable pub serve_from : Bool → HostRequest → Url → Response
  serve_from pass_meta r remote_url =
      let o = remote_request urls pass_meta remote_url r in
      if not (network.accepts o.method o.url)
      then make_error_response 502 (codes "Bad Gateway")
      else (elim (network.round_trip o) [
        | none ↦ make_error_response 502 (codes "Remote fetch failed")
        | some resp ↦ resp
      ])

  -- Without an address the code dereferences nil.
  unfoldable pub serve_remote : {R : Type 0} → Host R → HostRequest → Option Response
  serve_remote h r = elim h.remote_url [
    | none ↦ none
    | some remote_url ↦ some (serve_from h.config.pass_meta r remote_url)
  ]

  unfoldable pub serve : {R : Type 0} → Files → Mime → Host R → HostRequest → Option Response
  serve files mime h r =
      if text_eq h.config.host_type local_type
      then some (serve_local files mime h.abs_base_dir r.request.method r.url.path)
      else if text_eq h.config.host_type remote_type
      then serve_remote h r
      else some (make_error_response 500 (codes "Unknown host type"))
