-- ===== src/LoopGuard/Detects.antt =====
-- internal/loopguard.go: which targets are taken for this proxy itself.
use cifera.Base.{
  Bool-cases, false≢true, sym, ◌≡◌, ◌∙◌, true, false, ◌||◌, Option, some, ℕ, inl, inr, Text,
  text_eq, is_empty, to_lower, trim, arith,
}
use cifera.LoopGuard.Address.{split_target_host, is_bracket}
use cifera.LoopGuard.Guard.{
  Net, Answers, LoopGuard, is_bound_or_local, is_local_ip, is_local_parsed, is_localhost,
  is_local_name, is_self,
}

module _ {Ip : Type 0} (net : Net Ip) (env : Answers Ip) where
  -- The name of a target that is this proxy's own without a question to the network: a name of the
  -- local host, a loopback or unspecified address, or the address that the guard is bound to.
  pub data IsOwn (g : LoopGuard Ip) (name : Text) : Type 0 where
    local : is_localhost net env name ≡ true → IsOwn g name
    looped :
        (ip : Ip)
        → net.parse name ≡ some ip
        → (net.is_loopback ip || net.is_unspecified ip) ≡ true
        → IsOwn g name
    bound :
        (ip own : Ip)
        → net.parse name ≡ some ip
        → g.bound_ip ≡ some own
        → net.equal ip own ≡ true
        → IsOwn g name

  -- The name in the form in which it is compared.
  abbrev pub name_of : Text → Text → Text
  name_of host schema = to_lower (trim is_bracket (split_target_host host schema).0)

  is_local_ip_looped :
      (now : ℕ) (g : LoopGuard Ip) (ip : Ip)
      → (net.is_loopback ip || net.is_unspecified ip) ≡ true
      → (is_local_ip net env now g ip).0 ≡ true
  unfolding is_local_ip
  is_local_ip_looped now g ip h = rw (h, is_local_ip)

  is_bound_or_local_bound :
      (now : ℕ) (g : LoopGuard Ip) (ip own : Ip) (o : Option Ip)
      → o ≡ some own
      → net.equal ip own ≡ true
      → (is_bound_or_local net env now g ip o).0 ≡ true
  unfolding is_bound_or_local
  is_bound_or_local_bound now g ip own o e h = rw (e, is_bound_or_local) h

  is_local_ip_bound :
      (now : ℕ) (g : LoopGuard Ip) (ip own : Ip)
      → g.bound_ip ≡ some own
      → net.equal ip own ≡ true
      → (is_local_ip net env now g ip).0 ≡ true
  unfolding is_local_ip
  is_local_ip_bound now g ip own b h =
      elim (Bool-cases (net.is_loopback ip || net.is_unspecified ip)) [
        | inl own_ip ↦ rw (own_ip, is_local_ip)
        | inr other ↦ rw (other, is_local_ip) (is_bound_or_local_bound now g ip own g.bound_ip b h)
      ]

  is_local_parsed-some :
      (now : ℕ) (g : LoopGuard Ip) (name : Text) (ip : Ip) (o : Option Ip)
      → o ≡ some ip
      → (is_local_ip net env now g ip).0 ≡ true
      → (is_local_parsed net env now g name o).0 ≡ true
  unfolding is_local_parsed
  is_local_parsed-some now g name ip o e h = rw (e, is_local_parsed) h

  is_local_name_own :
      (now : ℕ) (g : LoopGuard Ip) (hostname : Text)
      → IsOwn g (to_lower (trim is_bracket hostname))
      → (is_local_name net env now g hostname).0 ≡ true
  unfolding is_local_name
  is_local_name_own now g hostname own =
      let name = to_lower (trim is_bracket hostname) in
      elim (Bool-cases (is_localhost net env name)) [
        | inl here ↦ rw (here, is_local_name)
        | inr other ↦
            rw (other, is_local_name)
              (elim own [
                | local here ↦ absurd (false≢true (sym other ∙ here))
                | looped ip p h ↦
                    is_local_parsed-some now g name ip (net.parse name) p
                      (is_local_ip_looped now g ip h)
                | bound ip o p b h ↦
                    is_local_parsed-some now g name ip (net.parse name) p
                      (is_local_ip_bound now g ip o b h)
              ])
      ]

  module _ (now : ℕ) (g : LoopGuard Ip) (host schema : Text) (port : is_empty g.port ≡ false)
      (there : is_empty host ≡ false) where
    -- A target of the guard's port whose name is the proxy's own is recognised.
    pub is_self_own :
        text_eq (split_target_host host schema).1 g.port ≡ true
        → IsOwn g (name_of host schema)
        → (is_self net env now g host schema).0 ≡ true
    unfolding is_self
    is_self_own same own =
        let on : (is_empty g.port || is_empty host) ≡ false = ground (arith, port, there) in
        rw (on, same, is_self) (is_local_name_own now g (split_target_host host schema).0 own)

    -- A target of another port is let through, without a change of the caches.
    pub is_self_other_port :
        text_eq (split_target_host host schema).1 g.port ≡ false
        → is_self net env now g host schema ≡ (false, g)
    unfolding is_self
    is_self_other_port other =
        let on : (is_empty g.port || is_empty host) ≡ false = ground (arith, port, there) in
        rw (on, other, is_self)
