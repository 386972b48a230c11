-- ===== src/LoopGuard/Bounded.antt =====
-- internal/loopguard.go: the cache of resolved names stays bounded, and this proxy's own address is
-- always recognised.
use cifera.Base.{
  ℕ, inl, inr, ◌≤◌, ◌≡◌, refl, ◌∙◌, ◌||◌, Option, none, some, List, [], ◌∷◌, length, leb,
  length-insert-le, Text, text_eq, text_dec, is_empty, to_lower, trim, lookup, arith, Bool-cases,
}
use cifera.LoopGuard.Address.{split_target_host, is_bracket}
use cifera.LoopGuard.Guard.{
  Net, Answers, DnsEntry, LoopGuard, dns_cache_max, is_fresh, addr_ttl, dns_ttl, refresh,
  cached_or_refresh, local_addr_set, is_bound_or_local, is_local_ip, remember, resolved,
  resolve_now, cached_or_resolve, lookup_host, any_local, is_local_parsed, is_localhost,
  is_local_name, is_self,
}

module _ {Ip : Type 0} where
  -- The configuration is unchanged, and the cache is within its bound if it was.
  pub record IsKept (g g' : LoopGuard Ip) : Type 0 where
    pub port : g'.port ≡ g.port
    pub bound_ip : g'.bound_ip ≡ g.bound_ip
    pub bounded : length g.dns_cache ≤ dns_cache_max → length g'.dns_cache ≤ dns_cache_max

  IsKept-refl : (g : LoopGuard Ip) → IsKept g g
  IsKept-refl g = record { port = refl; bound_ip = refl; bounded = λ h. h }

  IsKept-trans : {g g1 g2 : LoopGuard Ip} → IsKept g g1 → IsKept g1 g2 → IsKept g g2
  IsKept-trans a b = record {
    port = b.port ∙ a.port;
    bound_ip = b.bound_ip ∙ a.bound_ip;
    bounded = λ h. b.bounded (a.bounded h);
  }

  module _ (net : Net Ip) (env : Answers Ip) (now : ℕ) where
    cached_or_refresh-IsKept :
        (g : LoopGuard Ip) (o : Option (List Text)) → IsKept g (cached_or_refresh net env now g o).1
    unfolding cached_or_refresh refresh
    cached_or_refresh-IsKept g none = record { port = refl; bound_ip = refl; bounded = λ h. h }
    cached_or_refresh-IsKept g (some addrs) = elim (Bool-cases (is_fresh now g.local_at addr_ttl)) [
      | inl fresh ↦ rw (fresh, cached_or_refresh) (IsKept-refl g)
      | inr old ↦
          rw (old, cached_or_refresh) (record { port = refl; bound_ip = refl; bounded = λ h. h })
    ]

    is_bound_or_local-IsKept :
        (g : LoopGuard Ip) (ip : Ip) (o : Option Ip)
        → IsKept g (is_bound_or_local net env now g ip o).1
    unfolding is_bound_or_local local_addr_set
    is_bound_or_local-IsKept g ip (some bound) = IsKept-refl g
    is_bound_or_local-IsKept g ip none = cached_or_refresh-IsKept g g.local_addrs

    is_local_ip-IsKept : (g : LoopGuard Ip) (ip : Ip) → IsKept g (is_local_ip net env now g ip).1
    unfolding is_local_ip
    is_local_ip-IsKept g ip = elim (Bool-cases (net.is_loopback ip || net.is_unspecified ip)) [
      | inl own ↦ rw (own, is_local_ip) (IsKept-refl g)
      | inr other ↦ rw (other, is_local_ip) (is_bound_or_local-IsKept g ip g.bound_ip)
    ]

    remember-le :
        (g : LoopGuard Ip) (host : Text) (ips : List Ip)
        → length g.dns_cache ≤ dns_cache_max
        → length (remember net env now g host ips).dns_cache ≤ dns_cache_max
    unfolding remember
    remember-le g host ips h =
        let x : DnsEntry Ip = record { addrs = ips; at = now } in
        elim (Bool-cases (leb dns_cache_max (length g.dns_cache))) [
          | inl full ↦ rw (full, remember) (omega (arith, length-insert-le text_dec host x []))
          | inr room ↦
              rw (room, remember)
                (grind (arith, room, length-insert-le text_dec host x g.dns_cache))
        ]

    resolve_now-IsKept :
        (g : LoopGuard Ip) (host : Text) → IsKept g (resolve_now net env now g host).1
    unfolding resolve_now remember
    resolve_now-IsKept g host = record {
      port = refl;
      bound_ip = refl;
      bounded = remember-le g host (resolved net env host);
    }

    cached_or_resolve-IsKept :
        (g : LoopGuard Ip) (host : Text) (o : Option (DnsEntry Ip))
        → IsKept g (cached_or_resolve net env now g host o).1
    unfolding cached_or_resolve
    cached_or_resolve-IsKept g host none = resolve_now-IsKept g host
    cached_or_resolve-IsKept g host (some entry) =
        elim (Bool-cases (is_fresh now entry.at dns_ttl)) [
          | inl fresh ↦ rw (fresh, cached_or_resolve) (IsKept-refl g)
          | inr old ↦ rw (old, cached_or_resolve) (resolve_now-IsKept g host)
        ]

    any_local-IsKept : (g : LoopGuard Ip) (ips : List Ip) → IsKept g (any_local net env now g ips).1
    unfolding any_local
    any_local-IsKept g [] = IsKept-refl g
    any_local-IsKept g (ip ∷ ips) = elim (Bool-cases (is_local_ip net env now g ip).0) [
      | inl found ↦ rw (found, any_local) (is_local_ip-IsKept g ip)
      | inr other ↦
          rw (other, any_local)
            (IsKept-trans (is_local_ip-IsKept g ip)
              (any_local-IsKept (is_local_ip net env now g ip).1 ips))
    ]

    is_local_parsed-IsKept :
        (g : LoopGuard Ip) (name : Text) (o : Option Ip)
        → IsKept g (is_local_parsed net env now g name o).1
    unfolding is_local_parsed lookup_host
    is_local_parsed-IsKept g name (some ip) = is_local_ip-IsKept g ip
    is_local_parsed-IsKept g name none =
        let o = lookup text_dec name g.dns_cache in
        let r = cached_or_resolve net env now g name o in
        IsKept-trans (cached_or_resolve-IsKept g name o) (any_local-IsKept r.1 r.0)

    is_local_name-IsKept :
        (g : LoopGuard Ip) (hostname : Text) → IsKept g (is_local_name net env now g hostname).1
    unfolding is_local_name
    is_local_name-IsKept g hostname =
        let name = to_lower (trim is_bracket hostname) in
        elim (Bool-cases (is_localhost net env name)) [
          | inl own ↦ rw (own, is_local_name) (IsKept-refl g)
          | inr other ↦ rw (other, is_local_name) (is_local_parsed-IsKept g name (net.parse name))
        ]

    -- Whatever is asked and whatever the network answers, the guard keeps its port and address, and
    -- remembers no more than 512 names.
    pub is_self-IsKept :
        (g : LoopGuard Ip) (host schema : Text) → IsKept g (is_self net env now g host schema).1
    unfolding is_self
    is_self-IsKept g host schema = elim (Bool-cases (is_empty g.port || is_empty host)) [
      | inl off ↦ rw (off, is_self) (IsKept-refl g)
      | inr on ↦
          let target = split_target_host host schema in
          elim (Bool-cases (text_eq target.1 g.port)) [
            | inl same ↦ rw (on, same, is_self) (is_local_name-IsKept g target.0)
            | inr other ↦ rw (on, other, is_self) (IsKept-refl g)
          ]
    ]
