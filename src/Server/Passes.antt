-- ===== src/Server/Passes.antt =====
-- internal/server.go: the checks of ServeHTTP in front of the reverse proxy, composed.
use cifera.Base.{
  if◌then◌else◌, Bool-cases, Text, is_empty, ◌≡◌, ◌↔◌, inl, inr, true, false, Option, none, some,
  arith,
}
use cifera.Http.{Response}
use cifera.Vhost.Host.{Host, lookup_host}
use cifera.LoopGuard.Guard.{is_self}
use cifera.Addon.Rules.{MatchResult}
use cifera.Addon.Matcher.{match_block}
use cifera.Server.Params.{build_original_url, host_name_equals}
use cifera.Server.Blocks.{LetPass, match_block-none}
use cifera.Server.Handler.{
  Platform, SlotWait, acquired, disconnected, waited_too_long, is_websocket_upgrade, is_exhausted,
  fallback_only, Server, Moment, Ready, Outcome, bridged, bridge_of, forwarded, blocking_rule,
  cache_lookup, cached_or, take_slot, to_upstream, is_override, to_host, blocked_or, past_guard,
  ask_guard, serve_ready,
}

module _ (p : Platform) (t : Moment p) (r : Ready p) where
  abbrev pub host_of : Server p → Option (Host p.regexps.Regex)
  host_of s = lookup_host s.registry r.params.host r.proxied.host

  -- The checks of the code that a request passes on its way to the reverse proxy.
  pub record PassesChecks (s : Server p) (vh : Option (Host p.regexps.Regex)) : Type 0 where
    pub target : is_empty r.params.host ≡ false
    pub no_api : host_name_equals r.params.host s.api_host ≡ true → is_empty s.api_host ≡ true
    pub elsewhere : (is_self p.net t.answers t.now s.guard r.params.host r.params.schema).0 ≡ false
    pub hops : is_exhausted r.params.max_forwards ≡ false
    pub unblocked :
        LetPass p.regexps
          (build_original_url p.urls r.params.schema r.params.host r.proxied.url)
          s.addons
    pub plain : is_websocket_upgrade r.proxied.header ≡ false
    pub no_override : is_override p (host_of s) ≡ false
    pub fallback : fallback_only (host_of s) ≡ vh
    pub uncached : (cache_lookup p t r s.cache).1 ≡ none
    pub slot : t.slot ≡ acquired

  module _ (vh : Option (Host p.regexps.Regex)) where
    slot_iff :
        (slot : SlotWait) (o : Option (Host p.regexps.Regex))
        → (take_slot p slot r o ≡ forwarded r vh) ↔ ((o ≡ vh) × (slot ≡ acquired))
    slot_iff acquired o = ground arith
    slot_iff disconnected o = ground arith
    slot_iff waited_too_long o = ground arith

    cached_iff :
        (rest : Outcome p) (hit : Option Response)
        → (cached_or p rest hit ≡ forwarded r vh) ↔ ((hit ≡ none) × (rest ≡ forwarded r vh))
    cached_iff rest none = ground arith
    cached_iff rest (some resp) = ground arith

    to_upstream_iff :
        (s : Server p) (o : Option (Host p.regexps.Regex))
        → ((to_upstream p t s r o).1 ≡ forwarded r vh) ↔ (
            (is_empty r.params.host ≡ false)
            × ((cache_lookup p t r s.cache).1 ≡ none)
            × (fallback_only o ≡ vh)
            × (t.slot ≡ acquired))
    unfolding to_upstream
    to_upstream_iff s o = elim (Bool-cases (is_empty r.params.host)) [
      | inl empty ↦ rw (empty, to_upstream) (ground arith)
      | inr there ↦
          rw (there, to_upstream)
            (ground (
              arith,
              cached_iff (take_slot p t.slot r (fallback_only o)) (cache_lookup p t r s.cache).1,
              slot_iff t.slot (fallback_only o),
            ))
    ]

    to_host_iff :
        (s : Server p) (o : Option (Host p.regexps.Regex))
        → ((to_host p t s r o).1 ≡ forwarded r vh)
          ↔ ((is_override p o ≡ false) × ((to_upstream p t s r o).1 ≡ forwarded r vh))
    unfolding to_host
    to_host_iff s none = ground arith
    to_host_iff s (some h) = ground arith

    blocked_iff :
        (s : Server p) (rest : Server p × Outcome p) (o : Option (MatchResult p.regexps.Regex))
        → ((blocked_or p s rest o).1 ≡ forwarded r vh) ↔ ((o ≡ none) × (rest.1 ≡ forwarded r vh))
    blocked_iff s rest none = ground arith
    blocked_iff s rest (some b) = ground arith

    abbrev url : Text
    url = build_original_url p.urls r.params.schema r.params.host r.proxied.url

    past_guard_iff :
        (s : Server p)
        → is_empty r.params.host ≡ false
        → ((past_guard p t s r).1 ≡ forwarded r vh) ↔ (
            (is_exhausted r.params.max_forwards ≡ false)
            × LetPass p.regexps url s.addons
            × (is_websocket_upgrade r.proxied.header ≡ false)
            × ((to_host p t s r (host_of s)).1 ≡ forwarded r vh))
    unfolding past_guard blocking_rule
    past_guard_iff s there =
        let rest =
          if is_websocket_upgrade r.proxied.header
          then (s, bridged (bridge_of p r))
          else to_host p t s r (host_of s) in
        rw (there, blocking_rule)
          (ground (
            arith,
            blocked_iff s rest (match_block p.regexps s.addons url),
            match_block-none p.regexps url s.addons,
          ))

    serve_ready_iff :
        (s : Server p)
        → is_empty r.params.host ≡ false
        → let g = is_self p.net t.answers t.now s.guard r.params.host r.params.schema in
          ((serve_ready p t s r).1 ≡ forwarded r vh) ↔ (
            (host_name_equals r.params.host s.api_host ≡ true → is_empty s.api_host ≡ true)
            × (g.0 ≡ false)
            × ((past_guard p t (record s { guard = g.1 }) r).1 ≡ forwarded r vh))
    unfolding serve_ready ask_guard
    serve_ready_iff s there = rw (there, ask_guard) (ground arith)

    -- The checks, in the order of the code.
    pub serve_ready-passes_iff :
        (s : Server p)
        → is_empty r.params.host ≡ false
        → ((serve_ready p t s r).1 ≡ forwarded r vh) ↔ PassesChecks s vh
    serve_ready-passes_iff s there =
        let g = is_self p.net t.answers t.now s.guard r.params.host r.params.schema in
        let s' : Server p = record s { guard = g.1 } in
        let start = serve_ready_iff s there in
        let past = past_guard_iff s' there in
        let host = to_host_iff s' (host_of s') in
        let up = to_upstream_iff s' (host_of s') in
        (
          λ h.
              let a = start.0 h in
              let b = past.0 a.2 in
              let c = host.0 b.3 in
              let d = up.0 c.1 in
              record {
                target = there;
                no_api = a.0;
                elsewhere = a.1;
                hops = b.0;
                unblocked = b.1;
                plain = b.2;
                no_override = c.0;
                fallback = d.2;
                uncached = d.1;
                slot = d.3;
              },
          λ f. start.1 (
            f.no_api,
            f.elsewhere,
            past.1 (
              f.hops,
              f.unblocked,
              f.plain,
              host.1 (f.no_override, up.1 (there, f.uncached, f.fallback, f.slot)),
            ),
          ),
        )
