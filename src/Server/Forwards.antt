-- ===== src/Server/Forwards.antt =====
-- internal/server.go: which requests ServeHTTP hands to the reverse proxy.
use cifera.Base.{
  Occurs, Text, codes, to_lower, pos, ℕ, ◌≡◌, ◌≢◌, ◌⊎◌, false, Option, none, some, [],
}
use cifera.Header
use cifera.Header.{Header}
use cifera.Vhost.Host.{Host}
use cifera.Cache.State
use cifera.Cache.State.{Cache}
use cifera.LoopGuard.Guard.{is_self}
use cifera.Server.Params.{build_original_url, host_name_equals}
use cifera.Server.Blocks.{LetPass}
use cifera.Server.Handler.{Platform, acquired, Server, Moment, Ready, cache_key_of}
use cifera.Server.Passes.{host_of}

abbrev priority_of : {R : Type 0} → Host R → Text
priority_of h = h.config.priority

-- The headers do not ask for a WebSocket.
abbrev pub IsPlain : Header → Type 0
IsPlain h =
    (to_lower (Header.get h (codes "Upgrade")) ≢ codes "websocket")
    ⊎ (¬ Occurs (codes "upgrade") (to_lower (Header.get h (codes "Connection"))))

-- The virtual host that goes with a request, of the host that was found for it: one of the priority
-- fallback and no other, and none may be there that overrides the target.
pub data Backup {R : Type 0} (found backup : Option (Host R)) : Type 0 where
  no_host : found ≡ none → backup ≡ none → Backup found backup
  may_fall_back :
      (h : Host R)
      → found ≡ some h
      → h.config.priority ≡ codes "fallback"
      → backup ≡ some h
      → Backup found backup
  other_priority :
      (h : Host R)
      → found ≡ some h
      → h.config.priority ≢ codes "fallback"
      → h.config.priority ≢ codes "override"
      → backup ≡ none
      → Backup found backup

module _ (p : Platform) (t : Moment p) (r : Ready p) where
  -- The cache has no answer for the request.
  pub data IsUncached (c : Option Cache) : Type 0 where
    no_cache : c ≡ none → IsUncached c
    other_method : r.method ≢ codes "GET" → r.method ≢ codes "HEAD" → IsUncached c
    missed :
        (cache : Cache)
        → c ≡ some cache
        → (State.get p.times t.now cache
            (cache_key_of p r)
            (some (record { method = r.method; header = r.proxied.header }))).1
          ≡ none
        → IsUncached c

  -- Nothing keeps the request from the site that it is for.
  pub record IsForwarded (s : Server p) (vh : Option (Host p.regexps.Regex)) : Type 0 where
    pub no_api : (s.api_host ≡ []) ⊎ (host_name_equals r.params.host s.api_host ≡ false)
    pub elsewhere : (is_self p.net t.answers t.now s.guard r.params.host r.params.schema).0 ≡ false
    pub hops : (n : ℕ) × (r.params.max_forwards ≡ pos n)
    pub unblocked :
        LetPass p.regexps
          (build_original_url p.urls r.params.schema r.params.host r.proxied.url)
          s.addons
    pub plain : IsPlain r.proxied.header
    pub backup : Backup (host_of p t r s) vh
    pub uncached : IsUncached s.cache
    pub slot : t.slot ≡ acquired
