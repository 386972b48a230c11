-- ===== src/Server/Loops.antt =====
-- internal/server.go over internal/loopguard.go: a request for this proxy itself goes nowhere.
use cifera.Base.{
  if◌then◌else◌, Bool-cases, Option-cases, eq_of_some, codes, is_empty, text_eq, ◌≡◌, refl, ap,
  subst, inl, inr, Bool, true, false, not, ◌&&◌, Option, none, some,
}
use cifera.Header.{Header}
use cifera.LoopGuard.Address.{split_target_host}
use cifera.LoopGuard.Detects.{IsOwn, name_of, is_self_own}
use cifera.Manager.State.{Manager}
use cifera.Server.Params.{parse_proxy_params, ProxyParams, host_name_equals}
use cifera.Server.Session.{Session, enter_session}
use cifera.Server.Handler.{
  Platform, Incoming, Server, Moment, Ready, Outcome, healthy, metrics, answered_by_api,
  loop_detected, ask_guard, serve_ready, token_check, entered, serve_with, serve_http,
}

module _ (p : Platform) where
  -- The handler itself has the answer, and no cache or slot is asked for.
  abbrev pub StaysHere : Outcome p → Type 0
  StaysHere healthy = Unit
  StaysHere (metrics _) = Unit
  StaysHere (answered_by_api _) = Unit
  StaysHere loop_detected = Unit
  StaysHere _ = ⊥

  if-StaysHere :
      (b : Bool) (x y : Server p × Outcome p)
      → StaysHere x.1
      → StaysHere y.1
      → StaysHere (if b then x else y).1
  if-StaysHere true x y h k = h
  if-StaysHere false x y h k = k

  module _ (t : Moment p) (i : Incoming) where
    abbrev pub params_of : ProxyParams
    params_of = parse_proxy_params p.urls i.proxied

    -- The target has the port that this proxy listens on, and a name that is its own.
    pub record IsOwnTarget (s : Server p) : Type 0 where
      pub port : is_empty s.guard.port ≡ false
      pub target : is_empty params_of.host ≡ false
      pub same_port :
          text_eq (split_target_host params_of.host params_of.schema).1 s.guard.port ≡ true
      pub name :
          IsOwn p.net t.answers s.guard (name_of p.net t.answers params_of.host params_of.schema)

    serve_ready-StaysHere :
        (s : Server p) (r : Ready p)
        → r.params ≡ params_of
        → IsOwnTarget s
        → StaysHere (serve_ready p t s r).1
    unfolding serve_ready ask_guard
    serve_ready-StaysHere s r same own =
        let self =
          is_self_own p.net t.answers t.now s.guard params_of.host params_of.schema own.port
            own.target own.same_port own.name in
        rw same (
          if-StaysHere (not (is_empty s.api_host) && host_name_equals params_of.host s.api_host) _ _
            tt (rw (own.target, self) tt))

    entered-StaysHere :
        (s s' : Server p) (o : Outcome p) (r : Option (Manager p.db.State × Header × Session))
        → IsOwnTarget s
        → entered p t s i params_of r ≡ some (s', o)
        → StaysHere o
    entered-StaysHere s s' o none own h = absurd (cc)
    entered-StaysHere s s' o (some (m, header, session)) own h =
        subst StaysHere (ap (λ x. x.1) (eq_of_some h)) (
          serve_ready-StaysHere (record s { manager = some m })
            (record {
              method = i.method;
              proxied = record i.proxied { header = header };
              params = params_of;
              session = some session;
            })
            refl
            (record {
              port = own.port;
              target = own.target;
              same_port = own.same_port;
              name = own.name;
            }))

    -- A request whose target is this proxy itself, by its port and a name of the local host, a
    -- loopback or unspecified address or the address it is bound to, is answered by the handler, if
    -- ServeHTTP returns: as an operational page, by the API, or as a loop. It reaches no rule,
    -- WebSocket, virtual host, cache or site.
    pub serve_http-StaysHere :
        (s s' : Server p) (o : Outcome p)
        → IsOwnTarget s
        → serve_http p t s i ≡ some (s', o)
        → StaysHere o
    unfolding serve_http serve_with
    serve_http-StaysHere s s' o own h =
        elim (Bool-cases (text_eq i.proxied.url.path (codes "/healthz"))) [
          | inl health ↦
              subst StaysHere (ap (λ x. x.1) (eq_of_some (rw (health, serve_http) at h))) tt
          | inr site ↦ elim (Bool-cases (text_eq i.proxied.url.path (codes "/metrics"))) [
            | inl metric ↦
                subst StaysHere (ap (λ x. x.1) (eq_of_some (rw (site, metric, serve_http) at h))) tt
            | inr page ↦ elim (Option-cases s.manager) [
              | inl off ↦
                  subst StaysHere
                    (ap (λ x. x.1) (eq_of_some (rw (site, page, off, serve_http, serve_with) at h)))
                    (serve_ready-StaysHere s
                      (record {
                        method = i.method;
                        proxied = i.proxied;
                        params = params_of;
                        session = none;
                      })
                      refl own)
              | inr (m, on) ↦
                  entered-StaysHere s s' o
                    (enter_session p.db p.codec p.web p.encoding (token_check p t.now s.tenants)
                      t.now t.random m i.proxied.header params_of.host i.proxied.url.path)
                    own (rw (site, page, on, serve_http, own.target, serve_with) at h)
            ]
          ]
        ]
