-- ===== src/Server/Redirect.antt =====
-- internal/server.go: a redirect leads the browser back to the proxy, and names there the target that
-- the site meant.
use cifera.Base.{
  if◌then◌else◌, Bool-cases, lookup-insert, Text, codes, text_eq, text_eq_iff, text_dec, is_empty,
  ◌≡◌, refl, sym, ap, ap₂, ◌∙◌, inl, inr, ite, false, not, ◌&&◌, some, [], ◌∷◌, arith,
}
use cifera.Header
use cifera.Header.{Header}
use cifera.Header.Laws.{get-set}
use cifera.Vhost.Url.{Url, Values, Urls}
use cifera.Server.Params.{
  ProxyParams, http, host_param, schema_param, param, set_param, or_http, parse_proxy_url,
  name_target, rewrite_location, rewrite_redirect_location,
}

-- The scheme and the host that a location means, as the proxy understands it.
abbrev pub target_of : ProxyParams → Url → Text × Text
target_of params u =
    if not (is_empty u.host)
    then (or_http u.scheme, u.host)
    else (or_http params.schema, params.host)

param-set_param :
    (q : Values) (k j v : Text) → param (set_param q k v) j ≡ ite (text_dec k j) v (param q j)
unfolding param set_param
param-set_param q k j v = ground (arith, lookup-insert text_dec k j (v ∷ []) q)

-- What is read back of a named target.
name_target-read :
    (q : Values) (schema host : Text)
    → param q schema_param ≡ []
    → (param (name_target q schema host) host_param ≡ host)
      × (or_http (param (name_target q schema host) schema_param) ≡ or_http schema)
unfolding name_target text_dec text_eq
name_target-read q schema host none_yet =
    let q' = set_param q host_param host in
    elim (Bool-cases (not (is_empty schema) && not (text_eq schema http))) [
      | inl written ↦ rw written (
        param-set_param q' schema_param host_param schema
            ∙ param-set_param q host_param host_param host,
        ap or_http (param-set_param q' schema_param schema_param schema),
      )
      | inr left_out ↦ rw left_out (
        param-set_param q host_param host_param host,
        ap or_http (param-set_param q host_param schema_param host ∙ none_yet)
            ∙ plain schema left_out,
      )
    ]
  where
    plain :
        (schema : Text)
        → (not (is_empty schema) && not (text_eq schema http)) ≡ false
        → http ≡ or_http schema
    plain [] h = refl
    plain (c ∷ s) h = sym ((text_eq_iff (c ∷ s) http).0 (ground (arith, h)))

-- The query that is written.
abbrev pub query_of : Urls → ProxyParams → Url → Values
query_of urls params u =
    let q = urls.parse_query u.raw_query in
    if not (is_empty u.host)
    then name_target q u.scheme u.host
    else name_target q params.schema params.host

-- It names the target, as it is read back.
rewrite_location-target :
    (urls : Urls) (params : ProxyParams) (u : Url)
    → param (urls.parse_query u.raw_query) schema_param ≡ []
    → ((k : Text)
        → param (urls.parse_query (urls.encode (query_of urls params u))) k
          ≡ param (query_of urls params u) k)
    → let (origin, schema, host) = parse_proxy_url urls (rewrite_location urls params u) in
      ((schema, host) ≡ target_of params u)
      × ((rewrite_location urls params u).host ≡ (if is_empty u.host then u.host else params.proxy))
unfolding rewrite_location parse_proxy_url
rewrite_location-target urls params u none_yet law = elim (Bool-cases (is_empty u.host)) [
  | inl relative ↦ rw relative (read params.schema params.host (rw relative at law), refl)
  | inr absolute ↦ rw absolute (read u.scheme u.host (rw absolute at law), refl)
]
  where
    read :
        (schema host : Text)
        → let w = name_target (urls.parse_query u.raw_query) schema host in
          ((k : Text) → param (urls.parse_query (urls.encode w)) k ≡ param w k)
          → ◌≡◌ {A = Text × Text}
              (
                or_http (param (urls.parse_query (urls.encode w)) schema_param),
                param (urls.parse_query (urls.encode w)) host_param,
              )
              (or_http schema, host)
    read schema host back =
        let (named, typed) = name_target-read (urls.parse_query u.raw_query) schema host none_yet in
        ap₂ (λ a b. (a, b)) (ap or_http (back schema_param) ∙ typed) (back host_param ∙ named)

-- The Location of a redirect that parses becomes an address at the proxy, or stays relative, and
-- the proxy reads from its query the host and the scheme that the site meant, http where the
-- location has a host without a scheme, where encoding keeps the query that is written and the
-- location does not itself have the parameter of the scheme.
pub rewrite_redirect_location-target :
    (urls : Urls) (params : ProxyParams) (h : Header) (u : Url)
    → is_empty (Header.get h (codes "Location")) ≡ false
    → urls.parse (Header.get h (codes "Location")) ≡ some u
    → param (urls.parse_query u.raw_query) schema_param ≡ []
    → ((k : Text)
        → param (urls.parse_query (urls.encode (query_of urls params u))) k
          ≡ param (query_of urls params u) k)
    → let u' = rewrite_location urls params u in
      let (origin, schema, host) = parse_proxy_url urls u' in
      (Header.get (rewrite_redirect_location urls params h) (codes "Location") ≡ urls.print u')
      × ((schema, host) ≡ target_of params u)
      × (u'.host ≡ (if is_empty u.host then u.host else params.proxy))
unfolding rewrite_redirect_location
rewrite_redirect_location-target urls params h u there parsed none_yet law =
    let (target, host) = rewrite_location-target urls params u none_yet law in
    let u' = rewrite_location urls params u in
    (rw (there, parsed) (get-set h (codes "Location") (urls.print u')), target, host)
