-- ===== src/Server/Handler.antt =====
-- internal/server.go: ServeHTTP, from a request to what becomes of it, with the state that it
-- changes on the way. Whether a slot is free, the new session's random bytes, the answers of the
-- network and the reading of the clock come with the request. A request that is answered by the
-- API virtual host, a WebSocket, an override virtual host or the reverse proxy is handed over.
use cifera.Base.{
  itoa, [], ◌∷◌, if◌then◌else◌, ℤ, pos, negsuc, Text, codes, text_eq, is_empty, to_lower, contains,
  ℕ, Bool, true, false, not, ◌&&◌, ◌||◌, Option, none, some, List, ◌++◌,
}
use cifera.Header
use cifera.Header.{Header}
use cifera.Http.{Response, TimeFormat}
use cifera.Vhost.Url.{Urls}
use cifera.Vhost.Host.{Regexps, Host, Registry, lookup_host, override, fallback}
use cifera.Cache.State
use cifera.Cache.State.{Cache, stats}
use cifera.Cache.Policy.{build_cache_key}
use cifera.CookieSync.Headers.{Encoding}
use cifera.Tenant.Store.{Store, valid}
use cifera.Manager.Storage.{Storage, Codec}
use cifera.Manager.State.{Manager}
use cifera.LoopGuard.Guard.{Net, Answers, LoopGuard, is_self}
use cifera.Addon.Rules.{LoadedAddon, MatchResult}
use cifera.Addon.Matcher.{match_block}
use cifera.Server.Params.{
  ProxyParams, ProxyRequest, http, https, parse_proxy_params, build_original_url, host_name_equals,
  strip_meta_params,
}
use cifera.Server.Session.{Web, Session, enter_session}

-- What the handler is given from outside.
pub record Platform : Type 1 where
  pub db : Storage
  pub codec : Codec
  pub Ip : Type 0
  pub net : Net Ip
  pub regexps : Regexps
  pub urls : Urls
  pub web : Web
  pub encoding : Encoding
  pub times : TimeFormat

pub record Incoming : Type 0 where
  pub method : Text
  pub proxied : ProxyRequest

-- How the wait for a slot of the semaphore ends.
pub data SlotWait : Type 0 where
  acquired : SlotWait
  disconnected : SlotWait
  waited_too_long : SlotWait

-- A WebSocket that is to be bridged.
pub record Bridge : Type 0 where
  pub scheme : Text
  pub host : Text
  pub target : Text
  pub referer : Text
  pub cookie : Text

-- A call of wsproxy.IsWebSocketUpgrade
unfoldable pub is_websocket_upgrade : Header → Bool
is_websocket_upgrade h =
    text_eq (to_lower (Header.get h (codes "Upgrade"))) (codes "websocket")
    && contains (to_lower (Header.get h (codes "Connection"))) (codes "upgrade")

unfoldable pub websocket_scheme : Text → Text
websocket_scheme schema =
    if text_eq schema http then codes "ws" else if text_eq schema https then codes "wss" else schema

abbrev newline : Text
newline = 10 ∷ []

abbrev metric : Text → ℕ → Text
metric name n = name ++ (codes " " ++ (itoa n ++ newline))

-- The page of writeMetrics; a line ends with the byte 10.
unfoldable pub write_metrics : Option Cache → Text
write_metrics none = []
write_metrics (some c) =
    let (hits, misses, size, count) = stats c in
    metric (codes "cache_hits_total") hits
    ++ (metric (codes "cache_misses_total") misses
        ++ (metric (codes "cache_size_bytes") size ++ metric (codes "cache_entries") count))

abbrev pub is_exhausted : ℤ → Bool
is_exhausted (pos n) = false
is_exhausted (negsuc n) = true

abbrev pub fallback_only : {R : Type 0} → Option (Host R) → Option (Host R)
fallback_only none = none
fallback_only (some h) = if text_eq h.config.priority fallback then some h else none

module _ (p : Platform) where
  -- The handler, without what it only reads at its start.
  pub record Server : Type 0 where
    pub addons : List (LoadedAddon p.regexps.Regex)
    pub registry : Registry p.regexps.Regex
    pub cache : Option Cache
    pub manager : Option (Manager p.db.State)
    pub tenants : Option Store
    pub api_host : Text
    pub guard : LoopGuard p.Ip

  pub record Moment : Type 0 where
    pub now : ℕ
    pub random : List ℕ
    pub answers : Answers p.Ip
    pub slot : SlotWait

  -- A request that has been read, and its session if there is one.
  pub record Ready : Type 0 where
    pub method : Text
    pub proxied : ProxyRequest
    pub params : ProxyParams
    pub session : Option Session

  pub data Outcome : Type 0 where
    healthy : Outcome
    metrics : Text → Outcome
    answered_by_api : Option Session → Outcome
    loop_detected : Outcome
    blocked : ℤ → Outcome
    bridged : Bridge → Outcome
    overridden : Host p.regexps.Regex → Ready → Outcome
    missing_host : Outcome
    from_cache : Response → Outcome
    server_busy : Outcome
    client_gone : Outcome
    forwarded : Ready → Option (Host p.regexps.Regex) → Outcome

  unfoldable pub bridge_of : Ready → Bridge
  bridge_of r =
      let url = r.proxied.url in
      let query = p.urls.encode (strip_meta_params (p.urls.parse_query url.raw_query)) in
      record {
        scheme = websocket_scheme r.params.schema;
        host = r.params.host;
        target = if is_empty query then url.path else url.path ++ (codes "?" ++ query);
        referer = r.params.referer;
        cookie = Header.get r.proxied.header (codes "Cookie");
      }

  unfoldable pub blocking_rule : Server → Ready → Option (MatchResult p.regexps.Regex)
  blocking_rule s r =
      if is_empty r.params.host
      then none
      else match_block p.regexps s.addons
          (build_original_url p.urls r.params.schema r.params.host r.proxied.url)

  abbrev pub take_slot : SlotWait → Ready → Option (Host p.regexps.Regex) → Outcome
  take_slot acquired r vh = forwarded r vh
  take_slot disconnected r vh = client_gone
  take_slot waited_too_long r vh = server_busy

  abbrev pub cache_key_of : Ready → Text
  cache_key_of r = build_cache_key r.params.schema r.params.host (p.web.request_uri r.proxied.url)

  abbrev pub is_lookup : Text → Bool
  is_lookup method = text_eq method (codes "GET") || text_eq method (codes "HEAD")

  -- A hit of the cache, and the cache after the look.
  abbrev pub cache_lookup : Moment → Ready → Option Cache → Option Cache × Option Response
  cache_lookup t r none = (none, none)
  cache_lookup t r (some c) =
      if is_lookup r.method
      then (let (c', hit) =
            State.get p.times t.now c (cache_key_of r)
              (some (record { method = r.method; header = r.proxied.header })) in
          (some c', hit))
      else (some c, none)

  abbrev pub cached_or : Outcome → Option Response → Outcome
  cached_or rest none = rest
  cached_or rest (some resp) = from_cache resp

  -- Behind the virtual hosts.
  unfoldable pub to_upstream :
      Moment → Server → Ready → Option (Host p.regexps.Regex) → Server × Outcome
  to_upstream t s r vh =
      if is_empty r.params.host
      then (s, missing_host)
      else (let (cache, hit) = cache_lookup t r s.cache in
          (record s { cache = cache }, cached_or (take_slot t.slot r (fallback_only vh)) hit))

  abbrev pub is_override : Option (Host p.regexps.Regex) → Bool
  is_override none = false
  is_override (some h) = text_eq h.config.priority override

  unfoldable pub to_host :
      Moment → Server → Ready → Option (Host p.regexps.Regex) → Server × Outcome
  to_host t s r none = to_upstream t s r none
  to_host t s r (some h) =
      if text_eq h.config.priority override then (s, overridden h r) else to_upstream t s r (some h)

  abbrev pub blocked_or :
      Server → Server × Outcome → Option (MatchResult p.regexps.Regex) → Server × Outcome
  blocked_or s rest none = rest
  blocked_or s rest (some b) = (s, blocked b.rule.status_code)

  -- Behind the guard against loops.
  unfoldable pub past_guard : Moment → Server → Ready → Server × Outcome
  past_guard t s r =
      if is_exhausted r.params.max_forwards
      then (s, loop_detected)
      else blocked_or s
          (if is_websocket_upgrade r.proxied.header && not (is_empty r.params.host)
            then (s, bridged (bridge_of r))
            else to_host t s r (lookup_host s.registry r.params.host r.proxied.host))
          (blocking_rule s r)

  -- Whether the target is this proxy; without a target nobody asks.
  unfoldable pub ask_guard : Moment → Server → Ready → Bool × LoopGuard p.Ip
  ask_guard t s r =
      if is_empty r.params.host
      then (false, s.guard)
      else is_self p.net t.answers t.now s.guard r.params.host r.params.schema

  unfoldable pub serve_ready : Moment → Server → Ready → Server × Outcome
  serve_ready t s r =
      if not (is_empty s.api_host) && host_name_equals r.params.host s.api_host
      then (s, answered_by_api r.session)
      else (let (self, guard) = ask_guard t s r in
          let s' = record s { guard = guard } in
          if self then (s', loop_detected) else past_guard t s' r)

  abbrev pub token_check : ℕ → Option Store → Option (Text → Text → Bool)
  token_check now none = none
  token_check now (some store) = some (valid now store)

  -- With the session entered; none is a panic.
  abbrev pub entered :
      Moment
      → Server
      → Incoming
      → ProxyParams
      → Option (Manager p.db.State × Header × Session)
      → Option (Server × Outcome)
  entered t s r params none = none
  entered t s r params (some (m, h, session)) = some (
      serve_ready t (record s { manager = some m })
        (record {
          method = r.method;
          proxied = record r.proxied { header = h };
          params = params;
          session = some session;
        }))

  -- The jar is looked up where there is a manager and a target.
  unfoldable pub serve_with :
      Moment
      → Server
      → Incoming
      → ProxyParams
      → Option (Manager p.db.State)
      → Option (Server × Outcome)
  serve_with t s r params none = some (
      serve_ready t s
        (record { method = r.method; proxied = r.proxied; params = params; session = none }))
  serve_with t s r params (some m) =
      if is_empty params.host
      then some (
          serve_ready t s
            (record { method = r.method; proxied = r.proxied; params = params; session = none }))
      else entered t s r params (
          enter_session p.db p.codec p.web p.encoding (token_check t.now s.tenants) t.now t.random m
            r.proxied.header params.host r.proxied.url.path)

  unfoldable pub serve_http : Moment → Server → Incoming → Option (Server × Outcome)
  serve_http t s r =
      if text_eq r.proxied.url.path (codes "/healthz")
      then some (s, healthy)
      else if text_eq r.proxied.url.path (codes "/metrics")
      then some (s, metrics (write_metrics s.cache))
      else serve_with t s r (parse_proxy_params p.urls r.proxied) s.manager
