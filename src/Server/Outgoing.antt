-- ===== src/Server/Outgoing.antt =====
-- internal/server.go: the cookies that a request goes out with, and the jars behind it.
use cifera.Base.{
  if◌then◌else◌, Bool-cases, eq_of_some, Text, codes, is_empty, text_eq, ◌≡◌, ◌≢◌, refl, sym, ap,
  subst, ◌∙◌, inl, inr, Bool, true, false, not, ◌&&◌, Option, none, some,
}
use cifera.Header
use cifera.Header.{Header}
use cifera.Http.{Response}
use cifera.Vhost.Host.{Host, lookup_host, override}
use cifera.Addon.Rules.{MatchResult}
use cifera.CookieJar.Jar.{cookies_for}
use cifera.CookieSync.Headers.{build_cookie_header}
use cifera.Tenant.Store.{jar_key}
use cifera.Manager.State.{Manager}
use cifera.Manager.Handles.{jar_at}
use cifera.Manager.Reach.{Reach}
use cifera.Server.Params.{parse_proxy_params, ProxyParams, host_name_equals}
use cifera.Server.Session.{Session, bootstrap, enter_session}
use cifera.Server.Jars.{jar_of, enter_session-isolates}
use cifera.Server.Handler.{
  Platform, Incoming, SlotWait, acquired, disconnected, waited_too_long, is_websocket_upgrade,
  is_exhausted, fallback_only, Server, Moment, Ready, Outcome, healthy, metrics, loop_detected,
  bridged, overridden, forwarded, bridge_of, blocking_rule, take_slot, cache_lookup, cached_or,
  to_upstream, to_host, blocked_or, past_guard, ask_guard, serve_ready, token_check, write_metrics,
  entered, serve_with, serve_http,
}

module _ (p : Platform) where
  abbrev cookie_header_of : Ready p → Text
  cookie_header_of r = Header.get r.proxied.header (codes "Cookie")

  -- The request leaves for a site, a WebSocket or a virtual host with this Cookie header, if it
  -- leaves at all.
  abbrev pub Sends : Outcome p → Text → Type 0
  Sends (forwarded r vh) text = cookie_header_of r ≡ text
  Sends (overridden h r) text = cookie_header_of r ≡ text
  Sends (bridged b) text = b.cookie ≡ text
  Sends _ text = Unit

  module _ (t : Moment p) (r : Ready p) where
    abbrev Keeps : Server p → Server p × Outcome p → Type 0
    Keeps s (s', o) = (s'.manager ≡ s.manager) × Sends o (cookie_header_of r)

    take_slot-Sends :
        (slot : SlotWait) (vh : Option (Host p.regexps.Regex))
        → Sends (take_slot p slot r vh) (cookie_header_of r)
    take_slot-Sends acquired vh = refl
    take_slot-Sends disconnected vh = tt
    take_slot-Sends waited_too_long vh = tt

    cached_or-Sends :
        (rest : Outcome p) (hit : Option Response)
        → Sends rest (cookie_header_of r)
        → Sends (cached_or p rest hit) (cookie_header_of r)
    cached_or-Sends rest none h = h
    cached_or-Sends rest (some resp) h = tt

    if-Keeps :
        (s : Server p) (b : Bool) (x y : Server p × Outcome p)
        → Keeps s x
        → Keeps s y
        → Keeps s (if b then x else y)
    if-Keeps s true x y h k = h
    if-Keeps s false x y h k = k

    to_upstream-Keeps :
        (s : Server p) (vh : Option (Host p.regexps.Regex)) → Keeps s (to_upstream p t s r vh)
    unfolding to_upstream
    to_upstream-Keeps s vh =
        if-Keeps s (is_empty r.params.host) _ _ (refl, tt)
          (
            refl,
            cached_or-Sends (take_slot p t.slot r (fallback_only vh)) (cache_lookup p t r s.cache).1
                (take_slot-Sends t.slot (fallback_only vh)),
          )

    to_host-Keeps :
        (s : Server p) (vh : Option (Host p.regexps.Regex)) → Keeps s (to_host p t s r vh)
    unfolding to_host
    to_host-Keeps s none = to_upstream-Keeps s none
    to_host-Keeps s (some h) =
        if-Keeps s (text_eq h.config.priority override) _ _ (refl, refl)
          (to_upstream-Keeps s (some h))

    blocked_or-Keeps :
        (s : Server p) (rest : Server p × Outcome p) (o : Option (MatchResult p.regexps.Regex))
        → Keeps s rest
        → Keeps s (blocked_or p s rest o)
    blocked_or-Keeps s rest none h = h
    blocked_or-Keeps s rest (some b) h = (refl, tt)

    past_guard-Keeps : (s : Server p) → Keeps s (past_guard p t s r)
    unfolding past_guard bridge_of
    past_guard-Keeps s =
        let vh = lookup_host s.registry r.params.host r.proxied.host in
        let upgrade = is_websocket_upgrade r.proxied.header && not (is_empty r.params.host) in
        if-Keeps s (is_exhausted r.params.max_forwards) _ _ (refl, tt)
          (blocked_or-Keeps s _ (blocking_rule p s r) (
            if-Keeps s upgrade (s, bridged (bridge_of p r)) (to_host p t s r vh) (refl, refl)
              (to_host-Keeps s vh)))

    serve_ready-Keeps : (s : Server p) → Keeps s (serve_ready p t s r)
    unfolding serve_ready
    serve_ready-Keeps s =
        let (self, guard) = ask_guard p t s r in
        let s' : Server p = record s { guard = guard } in
        if-Keeps s (not (is_empty s.api_host) && host_name_equals r.params.host s.api_host) _ _
          (refl, tt)
          (if-Keeps s self (s', loop_detected) (past_guard p t s' r) (refl, tt)
            (past_guard-Keeps s'))

  module _ (t : Moment p) (s s' : Server p) (i : Incoming) (o : Outcome p)
      (m : Manager p.db.State) where
    abbrev pub params_of : ProxyParams
    params_of = parse_proxy_params p.urls i.proxied

    -- The key of the jar of the request's tenant and session.
    abbrev pub key_of : Text
    key_of =
        let (tenant, sid) =
          bootstrap p.web (token_check p t.now s.tenants) t.random i.proxied.header in
        jar_key tenant sid

    abbrev entered_session : Option (Manager p.db.State × Header × Session)
    entered_session =
        enter_session p.db p.codec p.web p.encoding (token_check p t.now s.tenants) t.now t.random m
          i.proxied.header params_of.host i.proxied.url.path

    -- The cookies that the jar of the request has for its target.
    abbrev pub sent_cookies : Text
    sent_cookies =
        build_cookie_header
          (cookies_for t.now (jar_of p.db p.codec t.now m key_of) params_of.host i.proxied.url.path)

    -- What is left of the manager and of the request's cookies.
    pub record IsIsolated (j : Text) : Type 0 where
      pub after : Manager p.db.State
      pub manager : s'.manager ≡ some after
      pub reach : Reach p.db p.codec after
      pub others : jar_at after j ≡ jar_at m j
      pub sent : Sends o sent_cookies

    entered-IsIsolated :
        (j : Text) (r : Option (Manager p.db.State × Header × Session))
        → Reach p.db p.codec m
        → key_of ≢ j
        → entered_session ≡ r
        → entered p t s i params_of r ≡ some (s', o)
        → IsIsolated j
    entered-IsIsolated j none r ne e h = absurd (cc)
    entered-IsIsolated j (some (m', h', session)) r ne e h =
        let ready : Ready p = record {
          method = i.method;
          proxied = record i.proxied { header = h' };
          params = params_of;
          session = some session;
        } in
        let s1 : Server p = record s { manager = some m' } in
        let (manager, sends) = serve_ready-Keeps t ready s1 in
        let w = eq_of_some h in
        let z =
          enter_session-isolates p.db p.codec p.web p.encoding (token_check p t.now s.tenants) t.now
            t.random m m' i.proxied.header h' params_of.host i.proxied.url.path session r e in
        record {
          after = m';
          manager = ap (λ x. x.0.manager) (sym w) ∙ manager;
          reach = z.0;
          others = z.3 j ne;
          sent =
              subst (λ x. Sends x sent_cookies) (ap (λ x. x.1) w)
                (subst (Sends (serve_ready p t s1 ready).1) z.4 sends);
        }

    untouched-IsIsolated :
        (j : Text) (x : Outcome p)
        → ((text : Text) → Sends x text)
        → s.manager ≡ some m
        → Reach p.db p.codec m
        → ◌≡◌ {A = Server p × Outcome p} (s, x) (s', o)
        → IsIsolated j
    untouched-IsIsolated j x free on r w = record {
      after = m;
      manager = ap (λ x. x.0.manager) (sym w) ∙ on;
      reach = r;
      others = refl;
      sent = subst (λ x. Sends x sent_cookies) (ap (λ x. x.1) w) (free sent_cookies);
    }

    -- In a handler whose manager the operations can reach, a request with a target leads to such a
    -- manager again, changes no jar but that of its own tenant and session, and leaves, if it
    -- leaves for a site, a WebSocket or a virtual host, with exactly the cookies that this jar has
    -- for the target, whatever cookies the client sent, provided that ServeHTTP returns.
    pub serve_http-isolates :
        (j : Text)
        → s.manager ≡ some m
        → Reach p.db p.codec m
        → is_empty params_of.host ≡ false
        → key_of ≢ j
        → serve_http p t s i ≡ some (s', o)
        → IsIsolated j
    unfolding serve_http serve_with
    serve_http-isolates j on r there other h =
        elim (Bool-cases (text_eq i.proxied.url.path (codes "/healthz"))) [
          | inl health ↦
              untouched-IsIsolated j healthy (λ text. tt) on r
                (eq_of_some (rw (health, serve_http) at h))
          | inr site ↦ elim (Bool-cases (text_eq i.proxied.url.path (codes "/metrics"))) [
            | inl metric ↦
                untouched-IsIsolated j (metrics (write_metrics s.cache)) (λ text. tt) on r
                  (eq_of_some (rw (site, metric, serve_http) at h))
            | inr page ↦
                entered-IsIsolated j entered_session r other refl
                  (rw (site, page, on, serve_http, there, serve_with) at h)
          ]
        ]
