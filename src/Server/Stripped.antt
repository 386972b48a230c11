-- ===== src/Server/Stripped.antt =====
-- internal/server.go: what the request that goes out does not tell the site, and what it tells the
-- next proxy.
use cifera.Base.{
  if◌then◌else◌, keep, or_blank, Bool-cases, false≢true, All-insert, lookup, lookup-insert,
  text_dec, text_eq, text_eq_iff, trim, Text, codes, ℤ, pos, negsuc, itoa, is_empty, has_prefix,
  split, ◌≡◌, ◌≢◌, refl, sym, ap, ◌∙◌, if_neg, inl, inr, Bool, true, false, Option, none, some, [],
  ◌∷◌,
}
use cifera.Header
use cifera.Header.{Header, canonical_key, first_value}
use cifera.Header.Laws.{get-set, get-set_other}
use cifera.LoopGuard.Address.{hop, next_max_forwards}
use cifera.Vhost.Url.{Url, Values, Urls}
use cifera.Vhost.Remote.{keys, drop_headers, meta_header_prefix, meta_param_prefix}
use cifera.Vhost.Stripped.{
  IsCanonical, canonical_keys, lookup-drop_headers, lookup-drop_params, dropped_all,
}
use cifera.Server.Params.{ProxyParams, ProxyRequest, parse_proxy_params, strip_meta_params}
use cifera.Server.Handler.{is_exhausted}
use cifera.Server.Outbound.{
  is_kept_cookie, strip_session_cookie, Outbound, at_least_zero, with_stripped_cookie, set_origin,
  with_origin, out_header, rewrite_outbound,
}
use cifera.Server.Attributes.{IsSession, HasRest, session_rest, strip_session_cookie-parts}

abbrev own : Text → Bool
own key = has_prefix key meta_header_prefix

-- A header of another name is written: the proxy's own are not touched.
lookup-set_own :
    (h : Header) (name v key : Text)
    → own (canonical_key name) ≡ false
    → own key ≡ true
    → lookup text_dec key (Header.set h name v) ≡ lookup text_dec key h
unfolding Header.set
lookup-set_own h name v key f t =
    let k = canonical_key name in
    lookup-insert text_dec k key (v ∷ []) h
    ∙ if_neg (text_dec k key) (λ e. false≢true (sym f ∙ ap own e ∙ t)) (some (v ∷ []))
        (lookup text_dec key h)

apart : (a b : Text) → text_eq a b ≡ false → a ≢ b
apart a b h e = false≢true (sym h ∙ (text_eq_iff a b).1 e)

module _ (urls : Urls) (params : ProxyParams) (origin : Text) (h : Header) where
  -- The four headers, one after another.
  abbrev h1 : Header
  h1 = Header.set h (codes "Referer") params.referer

  abbrev h2 : Header
  h2 = drop_headers (keys h1) h1

  abbrev h3 : Header
  h3 = Header.set h2 (codes "Max-Forwards") (itoa (at_least_zero params.max_forwards))

  abbrev h4 : Header
  h4 = with_stripped_cookie h3

  h1-IsCanonical : IsCanonical h → IsCanonical h1
  unfolding Header.set canonical_key
  h1-IsCanonical c =
      All-insert text_dec (λ x. canonical_key x.0 ≡ x.0) (codes "Referer") (params.referer ∷ []) h
        refl c

  lookup-h2 :
      (key : Text)
      → IsCanonical h
      → lookup text_dec key h2 ≡ (if own key then none else lookup text_dec key h1)
  lookup-h2 key c =
      lookup-drop_headers (keys h1) h1 key (canonical_keys h1 (h1-IsCanonical c))
      ∙ dropped_all h1 key (own key)

  -- Nothing follows that writes one of the proxy's own headers.
  lookup-with_stripped_cookie :
      (x : Header) (key : Text)
      → own key ≡ true
      → lookup text_dec key (with_stripped_cookie x) ≡ lookup text_dec key x
  unfolding with_stripped_cookie canonical_key has_prefix
  lookup-with_stripped_cookie x key t =
      elim (Bool-cases (is_empty (Header.get x (codes "Cookie")))) [
        | inl nothing ↦ rw (nothing, with_stripped_cookie)
        | inr there ↦
            rw (there, with_stripped_cookie)
              (lookup-set_own x (codes "Cookie")
                (strip_session_cookie (Header.get x (codes "Cookie"))) key refl t)
      ]

  -- The Origin header is written, or nothing.
  data IsOrigin (x : Header) : Header → Type 0 where
    left : IsOrigin x x
    written : (v : Text) → IsOrigin x (Header.set x (codes "Origin") v)

  with_origin-IsOrigin : (x : Header) → IsOrigin x (with_origin urls params origin x)
  unfolding with_origin
  with_origin-IsOrigin x = elim (Bool-cases (is_empty origin)) [
    | inl nothing ↦ rw (nothing, with_origin) left
    | inr there ↦ rw (there, with_origin) (parsed x (urls.parse origin))
  ]
    where
      parsed : (x : Header) (o : Option Url) → IsOrigin x (set_origin urls params x o)
      parsed x none = left
      parsed x (some u) =
          written (urls.print (record u { scheme = params.schema; host = params.host }))

  lookup-IsOrigin :
      {x y : Header} (key : Text)
      → own key ≡ true
      → IsOrigin x y
      → lookup text_dec key y ≡ lookup text_dec key x
  unfolding canonical_key has_prefix
  lookup-IsOrigin key t left = refl
  lookup-IsOrigin {x} key t (written v) = lookup-set_own x (codes "Origin") v key refl t

  get-IsOrigin :
      {x y : Header} (name : Text)
      → canonical_key (codes "Origin") ≢ canonical_key name
      → IsOrigin x y
      → Header.get y name ≡ Header.get x name
  get-IsOrigin name ne left = refl
  get-IsOrigin {x} name ne (written v) = get-set_other x (codes "Origin") v name ne

  out_header-own :
      (key : Text)
      → IsCanonical h
      → own key ≡ true
      → lookup text_dec key (out_header urls params origin h) ≡ none
  unfolding out_header canonical_key has_prefix
  out_header-own key c t =
      lookup-IsOrigin key t (with_origin-IsOrigin h4)
      ∙ lookup-with_stripped_cookie h3 key t
      ∙ lookup-set_own h2 (codes "Max-Forwards") (itoa (at_least_zero params.max_forwards)) key refl
          t
      ∙ lookup-h2 key c
      ∙ rw t

  get-with_stripped_cookie :
      (x : Header) (name : Text)
      → canonical_key (codes "Cookie") ≢ canonical_key name
      → Header.get (with_stripped_cookie x) name ≡ Header.get x name
  unfolding with_stripped_cookie
  get-with_stripped_cookie x name ne =
      elim (Bool-cases (is_empty (Header.get x (codes "Cookie")))) [
        | inl nothing ↦ rw (nothing, with_stripped_cookie)
        | inr there ↦
            rw (there, with_stripped_cookie)
              (get-set_other x (codes "Cookie")
                (strip_session_cookie (Header.get x (codes "Cookie"))) name ne)
      ]

  out_header-max_forwards :
      Header.get (out_header urls params origin h) (codes "Max-Forwards")
      ≡ itoa (at_least_zero params.max_forwards)
  unfolding out_header canonical_key
  out_header-max_forwards =
      get-IsOrigin (codes "Max-Forwards") (λ e. cc e) (with_origin-IsOrigin h4)
      ∙ get-with_stripped_cookie h3 (codes "Max-Forwards") (λ e. cc e)
      ∙ get-set h2 (codes "Max-Forwards") (itoa (at_least_zero params.max_forwards))

  -- The cookies are those that were to go out, up to here.
  get-h3_cookie : IsCanonical h → Header.get h3 (codes "Cookie") ≡ Header.get h (codes "Cookie")
  unfolding canonical_key Header.get has_prefix
  get-h3_cookie c =
      get-set_other h2 (codes "Max-Forwards") (itoa (at_least_zero params.max_forwards))
        (codes "Cookie") (λ e. cc e)
      ∙ ap first_value (lookup-h2 (codes "Cookie") c)
      ∙ get-set_other h (codes "Referer") params.referer (codes "Cookie") (λ e. cc e)

  cookie_parts :
      (x : Header) (text : Text)
      → Header.get x (codes "Cookie") ≡ text
      → split b';' (Header.get (with_stripped_cookie x) (codes "Cookie"))
        ≡ or_blank (keep is_kept_cookie (split b';' text))
  unfolding with_stripped_cookie split has_prefix trim
  cookie_parts x [] e = rw (e, with_stripped_cookie) (ap (split b';') e)
  cookie_parts x (b ∷ text) e =
      rw (e, with_stripped_cookie)
        (ap (split b';') (get-set x (codes "Cookie") (strip_session_cookie (b ∷ text)))
          ∙ strip_session_cookie-parts (b ∷ text))

  out_header-cookie :
      IsCanonical h
      → split b';' (Header.get (out_header urls params origin h) (codes "Cookie"))
        ≡ or_blank (keep is_kept_cookie (split b';' (Header.get h (codes "Cookie"))))
  unfolding out_header canonical_key text_eq
  out_header-cookie c =
      ap (split b';') (get-IsOrigin (codes "Cookie") (apart _ _ refl) (with_origin-IsOrigin h4))
      ∙ cookie_parts h3 (Header.get h (codes "Cookie")) (get-h3_cookie c)

-- A number of hops that is not exhausted is written as the hop says.
hop-itoa :
    (header : Text) (n : ℤ)
    → next_max_forwards header ≡ n
    → is_exhausted n ≡ false
    → hop header ≡ some (itoa (at_least_zero n))
unfolding hop
hop-itoa header (pos n) e h = rw (e, hop)
hop-itoa header (negsuc n) e h = absurd (cc)

-- The outgoing request of a request that came in.
pub record IsStripped (urls : Urls) (r : ProxyRequest) (before after : Outbound) : Type 0 where
  pub host_header : after.host ≡ (parse_proxy_params urls r).host
  pub site : after.url.host ≡ (parse_proxy_params urls r).host
  pub scheme : after.url.scheme ≡ (parse_proxy_params urls r).schema
  pub same_path : after.url.path ≡ r.url.path
  pub same_raw_path : after.url.raw_path ≡ r.url.raw_path
  pub query : Values
  pub query_written : after.url.raw_query ≡ urls.encode query
  pub no_meta_param :
      (key : Text)
      → lookup text_dec key query ≡ (
          if has_prefix key meta_param_prefix
          then none
          else lookup text_dec key (urls.parse_query r.url.raw_query))
  pub no_meta_header :
      (key : Text)
      → (if has_prefix key meta_header_prefix then lookup text_dec key after.header else none)
        ≡ none
  pub cookies :
      HasRest IsSession
        (Header.get before.header (codes "Cookie"))
        (Header.get after.header (codes "Cookie"))
  pub hop_written :
      hop (Header.get r.header (codes "Max-Forwards"))
      ≡ some (Header.get after.header (codes "Max-Forwards"))

module _ (urls : Urls) (r : ProxyRequest) (origin : Text) (before : Outbound) where
  abbrev pub params_of : ProxyParams
  params_of = parse_proxy_params urls r

  -- A request with a target that has hops left goes out to the host and scheme of its target, with
  -- its path and escaped path, without any query parameter or header of the proxy's own, with the
  -- parts of its Cookie header in order but for those that start, behind any blanks, with the name
  -- of the session's cookie, and with the Max-Forwards header that the hop of the loop guard is
  -- about, where the names of its headers are canonical.
  pub rewrite_outbound-IsStripped :
      IsCanonical before.header
      → is_empty params_of.host ≡ false
      → is_exhausted params_of.max_forwards ≡ false
      → IsStripped urls r before (rewrite_outbound urls params_of r.url origin before)
  unfolding rewrite_outbound strip_meta_params parse_proxy_params
  rewrite_outbound-IsStripped c there more =
      let asked = urls.parse_query r.url.raw_query in
      rw (there, rewrite_outbound)
        (record {
          query = strip_meta_params asked;
          query_written = refl;
          no_meta_param = λ key.
              lookup-drop_params (keys asked) asked key
              ∙ dropped_all asked key (has_prefix key meta_param_prefix);
          no_meta_header = λ key. elim (Bool-cases (own key)) [
            | inl its_own ↦
                rw its_own (out_header-own urls params_of origin before.header key c its_own)
            | inr other ↦ rw other
          ];
          host_header = refl;
          site = refl;
          scheme = refl;
          same_path = refl;
          same_raw_path = refl;
          cookies =
              session_rest (Header.get before.header (codes "Cookie"))
                (Header.get (out_header urls params_of origin before.header) (codes "Cookie"))
                (out_header-cookie urls params_of origin before.header c);
          hop_written =
              hop-itoa (Header.get r.header (codes "Max-Forwards")) params_of.max_forwards refl more
              ∙ ap some (sym (out_header-max_forwards urls params_of origin before.header));
        })
