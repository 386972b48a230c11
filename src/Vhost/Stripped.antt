-- ===== src/Vhost/Stripped.antt =====
-- internal/vhost/remote.go: what a remote virtual host is told of the proxy.
use cifera.Base.{
  if◌then◌else◌, Bool-cases, All, lookup, delete, lookup-delete, All-delete, Text, codes, text_eq,
  text_eq_iff, text_dec, has_prefix, ◌≡◌, refl, ap, ◌∙◌, inl, inr, ite, Bool, true, false, not,
  ◌&&◌, ◌||◌, Option, none, List, [], ◌∷◌, arith,
}
use cifera.Header
use cifera.Header.{Header, canonical_key}
use cifera.Vhost.Url.{Url, Values, Urls}
use cifera.Vhost.Remote.{
  HostRequest, meta_param_prefix, meta_header_prefix, keys, drop_params, drop_headers, remote_query,
  remote_path, build_remote_url, remote_header, remote_request,
}

pub key_in : Text → List Text → Bool
key_in k [] = false
key_in k (j ∷ js) = ite (text_dec j k) true (key_in k js)

-- The parameters that are dropped.
pub lookup-drop_params :
    (ks : List Text) (q : Values) (key : Text)
    → lookup text_dec key (drop_params ks q)
      ≡ (if has_prefix key meta_param_prefix && key_in key ks then none else lookup text_dec key q)
unfolding drop_params key_in
lookup-drop_params [] q key = ground arith
lookup-drop_params (k ∷ ks) q key = elim (Bool-cases (has_prefix k meta_param_prefix)) [
  | inl own ↦
      rw (own, drop_params)
        (ground (
          arith,
          lookup-drop_params ks (delete text_dec k q) key,
          lookup-delete text_dec k key q,
          own,
        ))
  | inr other ↦ rw (other, drop_params) (ground (arith, lookup-drop_params ks q key, other))
]

key_in-lookup :
    {V : Type 0} (m : List (Text × V)) (key : Text)
    → key_in key (keys m) ≡ false
    → lookup text_dec key m ≡ none
unfolding key_in lookup
key_in-lookup [] key h = refl
key_in-lookup ((j, v) ∷ m) key h = ground (arith, key_in-lookup m key)

-- A loop over all keys of a map deletes what has the prefix.
pub dropped_all :
    {V : Type 0} (m : List (Text × V)) (key : Text) (own : Bool)
    → (if own && key_in key (keys m) then none else lookup text_dec key m)
      ≡ (if own then none else lookup text_dec key m)
dropped_all m key false = refl
dropped_all m key true = elim (Bool-cases (key_in key (keys m))) [
  | inl there ↦ rw there
  | inr absent ↦ rw absent (key_in-lookup m key absent)
]

lookup-remote_query :
    (pass_meta : Bool) (q : Values) (key : Text)
    → lookup text_dec key (remote_query pass_meta q)
      ≡ (if not pass_meta && has_prefix key meta_param_prefix then none else lookup text_dec key q)
unfolding remote_query
lookup-remote_query true q key = refl
lookup-remote_query false q key =
    lookup-drop_params (keys q) q key ∙ dropped_all q key (has_prefix key meta_param_prefix)

-- The names of a header are in the canonical form, as net/http reads them.
abbrev pub IsCanonical : Header → Type 0
IsCanonical h = All (λ x. canonical_key x.0 ≡ x.0) h

pub canonical_keys : (h : Header) → IsCanonical h → All (λ k. canonical_key k ≡ k) (keys h)
canonical_keys [] c = tt
canonical_keys ((k, v) ∷ h) (e, c) = (e, canonical_keys h c)

pub lookup-drop_headers :
    (ks : List Text) (h : Header) (key : Text)
    → All (λ k. canonical_key k ≡ k) ks
    → lookup text_dec key (drop_headers ks h)
      ≡ (if has_prefix key meta_header_prefix && key_in key ks then none else lookup text_dec key h)
unfolding drop_headers key_in Header.del
lookup-drop_headers [] h key c = ground arith
lookup-drop_headers (k ∷ ks) h key (e, c) = elim (Bool-cases (has_prefix k meta_header_prefix)) [
  | inl own ↦
      rw (own, drop_headers, e)
        (ground (
          arith,
          lookup-drop_headers ks (delete text_dec k h) key c,
          lookup-delete text_dec k key h,
          own,
        ))
  | inr other ↦ rw (other, drop_headers) (ground (arith, lookup-drop_headers ks h key c, other))
]

abbrev pub names_proxy : Text → Bool
names_proxy key =
    text_eq key (codes "Referer")
    || text_eq key (codes "X-Forwarded-Host")
    || text_eq key (codes "X-Forwarded-Proto")

without_proxy : Header → Header
without_proxy h =
    delete text_dec (codes "X-Forwarded-Proto")
      (delete text_dec (codes "X-Forwarded-Host") (delete text_dec (codes "Referer") h))

lookup-without_proxy :
    (h : Header) (key : Text)
    → lookup text_dec key (without_proxy h)
      ≡ (if names_proxy key then none else lookup text_dec key h)
unfolding without_proxy
lookup-without_proxy h key = ground (
  arith,
  lookup-delete text_dec (codes "Referer") key h,
  lookup-delete text_dec (codes "X-Forwarded-Host") key (delete text_dec (codes "Referer") h),
  lookup-delete text_dec (codes "X-Forwarded-Proto") key
      (delete text_dec (codes "X-Forwarded-Host") (delete text_dec (codes "Referer") h)),
  text_eq_iff key (codes "Referer"),
  text_eq_iff key (codes "X-Forwarded-Host"),
  text_eq_iff key (codes "X-Forwarded-Proto"),
)

without_proxy-IsCanonical : (h : Header) → IsCanonical h → IsCanonical (without_proxy h)
unfolding without_proxy
without_proxy-IsCanonical h c =
    let P = λ (x : Text × List Text). canonical_key x.0 ≡ x.0 in
    let h1 = delete text_dec (codes "Referer") h in
    let h2 = delete text_dec (codes "X-Forwarded-Host") h1 in
    All-delete text_dec P (codes "X-Forwarded-Proto") h2 (
      All-delete text_dec P (codes "X-Forwarded-Host") h1
        (All-delete text_dec P (codes "Referer") h c))

lookup-remote_header :
    (pass_meta : Bool) (h : Header) (key : Text)
    → IsCanonical h
    → lookup text_dec key (remote_header pass_meta h) ≡ (
        if names_proxy key || not pass_meta && has_prefix key meta_header_prefix
        then none
        else lookup text_dec key h)
unfolding remote_header without_proxy Header.del canonical_key
lookup-remote_header true h key c = ground (arith, lookup-without_proxy h key)
lookup-remote_header false h key c =
    let h' = without_proxy h in
    let own = has_prefix key meta_header_prefix in
    lookup-drop_headers (keys h') h' key (canonical_keys h' (without_proxy-IsCanonical h c))
    ∙ dropped_all h' key own
    ∙ ap (λ x. if own then none else x) (lookup-without_proxy h key)
    ∙ either (names_proxy key) own (lookup text_dec key h)
  where
    either :
        (a b : Bool) (x : Option (List Text))
        → (if b then none else (if a then none else x)) ≡ (if a || b then none else x)
    either a b x = ground arith

-- A remote virtual host is asked with the method, the body and the fragment of the request at its
-- own host, and gets all headers, where their names are canonical, and all query parameters but
-- Referer, X-Forwarded-Host, X-Forwarded-Proto and, unless pass_meta is set, those whose names
-- start with Cifera- or _cifera_.
pub remote_request-strips :
    (urls : Urls) (pass_meta : Bool) (remote_url : Url) (r : HostRequest)
    → IsCanonical r.request.header
    → let o = remote_request urls pass_meta remote_url r in
      let asked = urls.parse_query r.url.raw_query in
      (o.method ≡ r.request.method)
      × (o.body ≡ r.body)
      × (o.host ≡ remote_url.host)
      × ((key : Text)
          → lookup text_dec key o.header ≡ (
              if names_proxy key || not pass_meta && has_prefix key meta_header_prefix
              then none
              else lookup text_dec key r.request.header))
      × ((q : Values) × (o.url
            ≡ urls.print (record remote_url {
              path = remote_path remote_url.path r.url.path;
              raw_query = urls.encode q;
              fragment = r.url.fragment;
            }))
          × ((key : Text)
              → lookup text_dec key q ≡ (
                  if not pass_meta && has_prefix key meta_param_prefix
                  then none
                  else lookup text_dec key asked)))
unfolding remote_request build_remote_url
remote_request-strips urls pass_meta remote_url r c =
    let asked = urls.parse_query r.url.raw_query in
    (
      refl,
      refl,
      refl,
      λ key. lookup-remote_header pass_meta r.request.header key c,
      (remote_query pass_meta asked, refl, λ key. lookup-remote_query pass_meta asked key),
    )
