-- ===== src/Vhost/Loaded.antt =====
-- internal/vhost/vhost.go: the hosts of a registry that was loaded from the configuration and from
-- addons are those that compileHost made.
use cifera.Base.{
  if◌then◌else◌, Bool-cases, drop, any, All, insert, All-insert, Text, codes, text_eq, text_eq_iff,
  text_dec, is_empty, has_prefix, to_lower, ◌≡◌, refl, sym, ap, subst, ◌∙◌, ◌⊎◌, inl, inr, Bool,
  true, false, not, ◌&&◌, Option, none, some, List, [], ◌∷◌, arith,
}
use cifera.Vhost.Url.{Url}
use cifera.Vhost.Host.{
  Regexps, World, HostConfig, Host, Registry, local_type, remote_type, override, fallback,
  default_fallback_status, is_blank, or_error, register, compile_local, checked_remote,
  compile_remote, compile_fallback, compile_type, compile_host, load_hosts, no_name,
  name_with_space, invalid_type, invalid_priority, bad_fallback_status, no_remote, bad_remote,
}
use cifera.Vhost.Ready.{
  IsRooted, IsLocal, IsRemote, IsMode, IsReady, and_then_inv, refuse_inv, compile_local-found,
  checked_remote_inv,
}

pub one_of : (a x y : Text) → (not (text_eq a x) && not (text_eq a y)) ≡ false → (a ≡ x) ⊎ (a ≡ y)
one_of a x y h = elim (Bool-cases (text_eq a x)) [
  | inl here ↦ inl ((text_eq_iff a x).0 here)
  | inr other ↦ inr ((text_eq_iff a y).0 (ground (arith, h, other)))
]

pub eq_of_inr : {E A : Type 0} {x y : A} → ◌≡◌ {A = E ⊎ A} (inr x) (inr y) → x ≡ y
eq_of_inr h = cc

pub then_inv : {A : Type 0} (b : Bool) (x y z : A) → b ≡ true → (if b then x else y) ≡ z → x ≡ z
then_inv true x y z h e = e
then_inv false x y z h e = absurd (cc h)

pub else_inv : {A : Type 0} (b : Bool) (x y z : A) → b ≡ false → (if b then x else y) ≡ z → y ≡ z
else_inv true x y z h e = absurd (cc h)
else_inv false x y z h e = e

module _ (regexps : Regexps) (world : World)
    (rooted : (w : Text) → world.getwd ≡ some w → IsRooted w) where
  -- The mode of the status codes, before the host is made.
  compile_fallback-mode :
      (hc : HostConfig) (f : Option regexps.Regex × Bool)
      → (hc.priority ≡ override) ⊎ (hc.priority ≡ fallback)
      → compile_fallback regexps hc ≡ inr f
      → (hc.priority ≡ override × (f.0 ≡ none))
        ⊎ (hc.priority ≡ fallback × ((r : regexps.Regex) × (f.0 ≡ some r)))
  unfolding compile_fallback text_eq
  compile_fallback-mode hc f (inl o) h =
      let same =
        else_inv (text_eq hc.priority fallback) _ (inr (none, false)) (inr f)
          (ap (λ x. text_eq x fallback) o) h in
      inl (o, ap (λ x. x.0) (sym (eq_of_inr same)))
  compile_fallback-mode hc f (inr b) h =
      let pattern =
        if is_empty hc.fallback_status then default_fallback_status else hc.fallback_status in
      let negate = has_prefix pattern (codes "!") in
      let o =
        or_error bad_fallback_status
          (regexps.compile (if negate then drop 1 pattern else pattern)) in
      let (r, found, same) =
        and_then_inv o (λ re. inr (some re, negate)) f
          (then_inv (text_eq hc.priority fallback) _ _ (inr f) (ap (λ x. text_eq x fallback) b)
            h) in
      inr (b, (r, ap (λ x. x.0) (sym (eq_of_inr same))))

  compile_type-source :
      (hc : HostConfig) (addon_dir : Text) (re : Option regexps.Regex) (negate : Bool)
      (h : Host regexps.Regex)
      → (hc.host_type ≡ local_type) ⊎ (hc.host_type ≡ remote_type)
      → compile_type regexps world hc addon_dir (re, negate) ≡ inr h
      → (h.config ≡ hc) × (h.fallback_regex ≡ re) × (IsLocal world h ⊎ IsRemote world h)
  unfolding compile_type compile_remote text_eq
  compile_type-source hc addon_dir re negate h (inl t) e =
      let start : Text → Host regexps.Regex = λ d. record {
        config = hc;
        fallback_regex = re;
        fallback_negate = negate;
        abs_base_dir = d;
        remote_url = none;
        addon_id = [];
      } in
      let (dir, made, same) =
        and_then_inv (compile_local world hc addon_dir) (λ d. inr (start d)) h
          (then_inv (text_eq hc.host_type local_type) _ _ (inr h) (ap (λ x. text_eq x local_type) t)
            e) in
      let (root, found) = compile_local-found world rooted hc addon_dir dir made in
      let is = eq_of_inr same in
      (
        ap (λ x. x.config) (sym is),
        ap (λ x. x.fallback_regex) (sym is),
        subst (λ x. IsLocal world x ⊎ IsRemote world x) is
            (inl (record { type = t; rooted = root; found = found })),
      )
  compile_type-source hc addon_dir re negate h (inr t) e =
      let start : Url → Host regexps.Regex = λ u. record {
        config = hc;
        fallback_regex = re;
        fallback_negate = negate;
        abs_base_dir = [];
        remote_url = some u;
        addon_id = [];
      } in
      let (u, made, same) =
        and_then_inv (compile_remote world hc) (λ u. inr (start u)) h
          (else_inv (text_eq hc.host_type local_type) _ _ (inr h) (ap (λ x. text_eq x local_type) t)
            e) in
      let (scheme, host) = compile_remote-checked hc u made in
      let is = eq_of_inr same in
      (
        ap (λ x. x.config) (sym is),
        ap (λ x. x.fallback_regex) (sym is),
        subst (λ x. IsLocal world x ⊎ IsRemote world x) is
            (inr (record { type = t; address = u; found = refl; scheme = scheme; host = host })),
      )
    where
      compile_remote-checked :
          (hc : HostConfig) (v : Url)
          → compile_remote world hc ≡ inr v
          → ((v.scheme ≡ codes "http") ⊎ (v.scheme ≡ codes "https")) × (is_empty v.host ≡ false)
      compile_remote-checked hc v h =
          let (ne, more) = refuse_inv (is_empty hc.remote) no_remote _ v h in
          let (u, parsed, last) =
            and_then_inv (or_error bad_remote (world.parse hc.remote)) checked_remote v more in
          checked_remote_inv world rooted u v last

  -- What compileHost makes can serve.
  pub compile_host-IsReady :
      (hc : HostConfig) (addon_dir : Text) (h : Host regexps.Regex)
      → compile_host regexps world hc addon_dir ≡ inr h
      → IsReady world h × (h.config ≡ hc)
  unfolding compile_host
  compile_host-IsReady hc addon_dir h e =
      let (ne, e1) = refuse_inv (is_empty hc.name) no_name _ h e in
      let (nb, e2) = refuse_inv (any is_blank hc.name) name_with_space _ h e1 in
      let (type, e3) = refuse_inv _ invalid_type _ h e2 in
      let (priority, e4) = refuse_inv _ invalid_priority _ h e3 in
      let ((re, negate), mode, made) = and_then_inv (compile_fallback regexps hc) _ h e4 in
      let (same, regex, source) =
        compile_type-source hc addon_dir re negate h
          (one_of hc.host_type local_type remote_type type) made in
      let in_mode =
        compile_fallback-mode hc (re, negate) (one_of hc.priority override fallback priority)
          mode in
      (
        record {
          named = ap (λ c. is_empty c.name) same ∙ ne;
          source = source;
          mode = mode_of h hc re same regex in_mode;
        },
        same,
      )
    where
      mode_of :
          (h : Host regexps.Regex) (hc : HostConfig) (re : Option regexps.Regex)
          → h.config ≡ hc
          → h.fallback_regex ≡ re
          → (hc.priority ≡ override × (re ≡ none))
            ⊎ (hc.priority ≡ fallback × ((r : regexps.Regex) × (re ≡ some r)))
          → IsMode world h
      mode_of h hc re same regex (inl (o, n)) = inl (ap (λ c. c.priority) same ∙ o, regex ∙ n)
      mode_of h hc re same regex (inr (f, (r, s))) =
          inr (ap (λ c. c.priority) same ∙ f, (r, regex ∙ s))

  -- Every host of the registry can serve, and stands under its own name.
  abbrev pub IsSound : Registry regexps.Regex → Type 0
  IsSound reg = All (λ x. IsReady world x.1 × (x.0 ≡ to_lower x.1.config.name)) reg.hosts

  pub load_hosts-IsSound :
      (addon_dir addon_id : Text) (reg : Registry regexps.Regex) (hcs : List HostConfig)
      → IsSound reg
      → IsSound (load_hosts regexps world addon_dir addon_id reg hcs).0
  unfolding load_hosts register
  load_hosts-IsSound addon_dir addon_id reg [] s = s
  load_hosts-IsSound addon_dir addon_id reg (hc ∷ hcs) s =
      elim (sum_cases (compile_host regexps world hc addon_dir)) [
        | inl (e, fails) ↦ rw (fails, load_hosts) s
        | inr (h, made) ↦
            let (ready, same) = compile_host-IsReady hc addon_dir h made in
            let h' = record h { addon_id = addon_id } in
            let key = to_lower h.config.name in
            rw (made, load_hosts, ready.named)
              (load_hosts-IsSound addon_dir addon_id
                (record { hosts = insert text_dec key h' reg.hosts }) hcs
                (All-insert text_dec (λ x. IsReady world x.1 × (x.0 ≡ to_lower x.1.config.name)) key
                  h' reg.hosts (owned h addon_id ready, refl) s))
      ]
    where
      owned :
          (h : Host regexps.Regex) (id : Text)
          → IsReady world h
          → IsReady world (record h { addon_id = id })
      owned h id r = record { named = r.named; source = owned_source h id r.source; mode = r.mode }
        where
          owned_source :
              (h : Host regexps.Regex) (id : Text)
              → IsLocal world h ⊎ IsRemote world h
              → let h' = record h { addon_id = id } in IsLocal world h' ⊎ IsRemote world h'
          owned_source h id (inl l) =
              inl (record { type = l.type; rooted = l.rooted; found = l.found })
          owned_source h id (inr m) = inr (record {
            type = m.type;
            address = m.address;
            found = m.found;
            scheme = m.scheme;
            host = m.host;
          })

      sum_cases : {A B : Type 0} (s : A ⊎ B) → ((a : A) × (s ≡ inl a)) ⊎ ((b : B) × (s ≡ inr b))
      sum_cases (inl a) = inl (a, refl)
      sum_cases (inr b) = inr (b, refl)
