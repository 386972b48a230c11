-- ===== src/LoopGuard/Guard.antt =====
-- internal/loopguard.go: whether a target is the listening address of this proxy itself, with the
-- two caches. The network (package net) is a parameter; what it answers is an argument of the call.
use cifera.Base.{
  ℕ, ◌*◌, Bool, true, false, ◌||◌, Option, none, some, List, [], ◌∷◌, any, length, leb,
  if◌then◌else◌, ltb_ℤ, sub_time, pos, Text, codes, text_eq, text_dec, is_empty, to_lower,
  has_suffix, trim, trim_space, atoi, lookup, insert,
}
use cifera.LoopGuard.Address.{split_host_port, split_target_host, is_bracket}

-- The operations of net.IP that the guard calls.
pub record Net (Ip : Type 0) : Type 0 where
  pub parse : Text → Option Ip
  pub is_loopback : Ip → Bool
  pub is_unspecified : Ip → Bool
  pub equal : Ip → Ip → Bool
  pub print : Ip → Text

-- What the network answers while one request is looked at: the addresses of the interfaces, and the
-- resolved addresses of a name; none for an error.
pub record Answers (Ip : Type 0) : Type 0 where
  pub interfaces : Option (List Ip)
  pub resolve : Text → Option (List Ip)

pub record DnsEntry (Ip : Type 0) : Type 0 where
  pub addrs : List Ip
  pub at : ℕ

pub record LoopGuard (Ip : Type 0) : Type 0 where
  pub port : Text
  pub bound_ip : Option Ip
  pub local_addrs : Option (List Text)
  pub local_at : ℕ
  pub dns_cache : List (Text × DnsEntry Ip)

abbrev pub dns_cache_max : ℕ
dns_cache_max = 512

-- time.Since(at) < ttl
abbrev pub is_fresh : ℕ → ℕ → ℕ → Bool
is_fresh now at ttl = ltb_ℤ (sub_time now at) (pos ttl)

abbrev pub addr_ttl : ℕ
addr_ttl = 30 * 1_000_000_000

abbrev pub dns_ttl : ℕ
dns_ttl = 60 * 1_000_000_000

module _ {Ip : Type 0} (net : Net Ip) (env : Answers Ip) where
  first_of : Option (List Ip) → Option Ip
  first_of none = none
  first_of (some []) = none
  first_of (some (ip ∷ ips)) = some ip

  -- The address that the guard is bound to, from the host of the listening address.
  bound_to : Text → Option Ip
  unfolding first_of
  bound_to host = elim (net.parse host) [
    | some ip ↦ if net.is_unspecified ip then none else some ip
    | none ↦ if is_empty host then none else first_of (env.resolve host)
  ]

  -- newLoopGuard
  unfoldable pub new_loop_guard : Text → LoopGuard Ip
  unfolding bound_to
  new_loop_guard listen =
      let addr = trim_space listen in
      let off : LoopGuard Ip = record {
        port = [];
        bound_ip = none;
        local_addrs = none;
        local_at = 0;
        dns_cache = [];
      } in
      if is_empty addr then off else (elim (split_host_port addr) [
        | none ↦ (elim (atoi addr) [ none ↦ off | some _ ↦ record off { port = addr } ])
        | some (host, port) ↦ record off { port = port; bound_ip = bound_to host }
      ])

  print_all : List Ip → List Text
  print_all [] = []
  print_all (ip ∷ ips) = net.print ip ∷ print_all ips

  -- The addresses of the interfaces, or none of them on an error.
  fresh_addrs : Option (List Ip) → List Text
  unfolding print_all
  fresh_addrs none = []
  fresh_addrs (some ips) = print_all ips

  unfoldable pub refresh : ℕ → LoopGuard Ip → List Text × LoopGuard Ip
  unfolding fresh_addrs
  refresh now g =
      let fresh = fresh_addrs env.interfaces in
      (fresh, record g { local_addrs = some fresh; local_at = now })

  unfoldable pub cached_or_refresh :
      ℕ → LoopGuard Ip → Option (List Text) → List Text × LoopGuard Ip
  cached_or_refresh now g none = refresh now g
  cached_or_refresh now g (some addrs) =
      if is_fresh now g.local_at addr_ttl then (addrs, g) else refresh now g

  unfoldable pub local_addr_set : ℕ → LoopGuard Ip → List Text × LoopGuard Ip
  local_addr_set now g = cached_or_refresh now g g.local_addrs

  -- The address is the one that the guard is bound to, or any of this machine.
  unfoldable pub is_bound_or_local : ℕ → LoopGuard Ip → Ip → Option Ip → Bool × LoopGuard Ip
  is_bound_or_local now g ip (some bound) = (net.equal ip bound, g)
  is_bound_or_local now g ip none =
      let (addrs, g') = local_addr_set now g in (any (text_eq (net.print ip)) addrs, g')

  unfoldable pub is_local_ip : ℕ → LoopGuard Ip → Ip → Bool × LoopGuard Ip
  is_local_ip now g ip =
      if net.is_loopback ip || net.is_unspecified ip
      then (true, g)
      else is_bound_or_local now g ip g.bound_ip

  -- The cache is emptied when it is full.
  unfoldable pub remember : ℕ → LoopGuard Ip → Text → List Ip → LoopGuard Ip
  remember now g host addrs =
      let kept = if leb dns_cache_max (length g.dns_cache) then [] else g.dns_cache in
      record g { dns_cache = insert text_dec host (record { addrs = addrs; at = now }) kept }

  -- An error is remembered as no addresses.
  unfoldable pub resolved : Text → List Ip
  resolved host = elim (env.resolve host) [ none ↦ [] | some ips ↦ ips ]

  unfoldable pub resolve_now : ℕ → LoopGuard Ip → Text → List Ip × LoopGuard Ip
  resolve_now now g host = (resolved host, remember now g host (resolved host))

  unfoldable pub cached_or_resolve :
      ℕ → LoopGuard Ip → Text → Option (DnsEntry Ip) → List Ip × LoopGuard Ip
  cached_or_resolve now g host none = resolve_now now g host
  cached_or_resolve now g host (some entry) =
      if is_fresh now entry.at dns_ttl then (entry.addrs, g) else resolve_now now g host

  unfoldable pub lookup_host : ℕ → LoopGuard Ip → Text → List Ip × LoopGuard Ip
  lookup_host now g host = cached_or_resolve now g host (lookup text_dec host g.dns_cache)

  unfoldable pub any_local : ℕ → LoopGuard Ip → List Ip → Bool × LoopGuard Ip
  any_local now g [] = (false, g)
  any_local now g (ip ∷ ips) =
      let (found, g') = is_local_ip now g ip in
      let rest = any_local now g' ips in if found then (true, g') else rest

  -- The name is an address, or one to be resolved.
  unfoldable pub is_local_parsed : ℕ → LoopGuard Ip → Text → Option Ip → Bool × LoopGuard Ip
  is_local_parsed now g name (some ip) = is_local_ip now g ip
  is_local_parsed now g name none = let (ips, g') = lookup_host now g name in any_local now g' ips

  abbrev pub is_localhost : Text → Bool
  is_localhost name =
      is_empty name || text_eq name (codes "localhost") || has_suffix name (codes ".localhost")

  unfoldable pub is_local_name : ℕ → LoopGuard Ip → Text → Bool × LoopGuard Ip
  is_local_name now g hostname =
      let name = to_lower (trim is_bracket hostname) in
      if is_localhost name then (true, g) else is_local_parsed now g name (net.parse name)

  unfoldable pub is_self : ℕ → LoopGuard Ip → Text → Text → Bool × LoopGuard Ip
  is_self now g host schema =
      let target = split_target_host host schema in
      if is_empty g.port || is_empty host
      then (false, g)
      else if text_eq target.1 g.port
      then is_local_name now g target.0
      else (false, g)
