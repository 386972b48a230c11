-- ===== src/Lib.antt =====
-- Verification of cifera, a forward proxy for http and https sites that rewrites what it serves.
--
-- A request enters through the handler of internal/server.go, which reads the target from the
-- query, finds the session's cookie jar, refuses loops, asks the addons and the virtual hosts,
-- looks in the cache, and forwards. The modules below model the parts that carry this logic.
--
--   Base      numbers, texts as lists of bytes, maps as association lists, strconv and strings
--   Header    http.Header, and in Laws what is read back
--   Http      the fields of http.Request and http.Response that are read, and the time formats
--   Cache     internal/cache/cache.go
--     Policy      which responses are cached and for how long, conditional requests
--     State       the record of the cache and its operations (New, Get, SetAsync, setLocked,
--                 Resize, Stats, writeLoop, Close)
--     Lru, Valid, Eviction, Reads, Reach, Freshness    the proofs
--   CookieJar internal/cookiejar
--     Matcher     matcher.go: domainMatch, pathMatch, canonicalDomain
--     Entry       jar.go: one cookie and when it is expired
--     Jar         jar.go: the jar and its operations (NewJar, AddCookie, RemoveCookie, Cookies,
--                 RemoveExpired, IsExpired, AllCookies, RestoreCookies)
--     Live, Find, Places, Oldest, Capacity, Add, Stored, Panic, Outcome, AddCookie, Expiry, Reach,
--     Sends, Matches, Restore, Persist    the proofs
--   Manager   internal/cookiejar/manager.go
--     Storage     what is used of Badger and of encoding/json, with their laws
--     State       NewManager, GetOrCreateJar, PersistJar, persistWorker, Close, cleanup and what they call
--     Handles, Stored, Worker, Restart, Reopened, Sweep, Survivors, Cleanup, Reach    the proofs
--   CookieSync internal/cookie.go
--     Headers     extractSetCookies, buildCookieHeader and the sync and push headers
--     RoundTrip   the proof
--   Value     the values that a configuration file decodes to
--   Tenant    internal/tenant
--     Store       store.go and tenant.go: Auth, Valid, Revoke, Resolve, JarKey
--     Session     internal/cookiejar/manager.go: newUUID, isValidUUID
--     Grants, Tokens, JarKey, Uuid    the proofs
--   LoopGuard internal/loopguard.go
--     Address     splitTargetHost, nextMaxForwards, and the hop of internal/server.go
--     Guard       newLoopGuard, IsSelf and the caches, over the operations of package net
--     Hops, Bounded, Detects    the proofs
--   Addon     internal/addon
--     Params      params.go: ResolveParams and its parts; ParamsFor of addon.go
--     Rules       addon.go: rules, manifests, ResourceContentFor
--     Matcher     matcher.go: MatchBlock, MatchReplace, MatchInjectFor and its goroutines
--     Loader      loader.go: compileRules, validateRules, validateHosts, validateParams
--     Load        loader.go: parseManifest, LoadAddons
--     Typed, Resolved, Schedule, Cached, Stateless, Accepted, Accepts, Valid, Compiled, Loads    the proofs
--   Vhost     internal/vhost
--     Path        path.Clean, path.Join and package path/filepath on Unix
--     Url         what is used of net/url
--     Host        vhost.go: compileHost, the registry and its loading, FallbackMatches
--     Local       local.go: sanitizePath, serveLocal and the responses
--     Remote      remote.go: buildRemoteURL, serveRemote; Serve of vhost.go
--     Parts, Within, Ready, Loaded, Served, Stripped    the proofs
--   Compress  internal/compress/compress.go
--     Negotiate   the configuration and Negotiate
--     Response    CompressResponse, Decode, and decompressResponseBody of server.go
--     Weight, Accepts, Best, Choice, RoundTrip    the proofs
--   Server    internal/server.go and internal/utils/url.go
--     Params      parseProxyParams, stripProxyPort, buildOriginalURL, rewriteRedirectLocation, ParseProxyUrl
--     Session     the session of ServeHTTP: cookies of the jar, and the sync of cookies
--     Handler     ServeHTTP as a chain of checks over the handler's state
--     Slots       the semaphore of ServeHTTP as a step relation
--     Outbound    the Rewrite of the reverse proxy, stripSessionCookie, rewriteCookiesLegacy
--     Redirect, Kept, Jars, Blocks, Passes, Forwards, Outgoing, Loops, Attributes, Stripped    the proofs
--
-- Conventions. A Go map is an association list whose order stands for the order of a visit; a time
-- is the number of nanoseconds since the zero time; a duration is a signed integer, and where the
-- code multiplies by time.Second the product wraps as an int64. Every operation takes the reading
-- of the clock as an argument. strings.ToLower is modelled on ASCII. Locks make each operation
-- atomic, so that concurrency is a sequence of operations in any order. A panic of Go is `none`.
-- Random bytes, the network, the file system, Badger and the operations of the packages net,
-- net/url, regexp, mime and encoding/json, the codecs and the operations on float64 are arguments. Logging is left out.
-- The eviction loop of the cache runs on the length of its list as fuel, which is enough because
-- each round removes one element.
pub mod Base
pub mod Header
pub mod Http
pub mod Cache
pub mod CookieJar
pub mod Value
pub mod Tenant
pub mod LoopGuard
pub mod Addon
pub mod Manager
pub mod Vhost
pub mod CookieSync
pub mod Compress
pub mod Server
