-- ===== src/Addon/Stateless.antt =====
-- internal/addon: over a whole run of requests the matching is that of a program without caches and
-- goroutines.
use cifera.Base.{
  if◌then◌else◌, Bool-cases, length, All, IsIn, Text, ℕ, zero, suc, ◌<◌, ◌≡◌, refl, sym, ap, ap₂,
  subst, ◌∙◌, inl, inr, not, ◌||◌, List, [], ◌∷◌, ◌++◌, map, arith, ℕ_discrete,
}
use cifera.Addon.Rules.{Template, LoadedAddon, InjectItem}
use cifera.Addon.Matcher.{addon_available, inject_addon, match_inject_sequential, match_inject_for}
use cifera.Addon.Schedule.{IsOnce, match_inject_for-sequential}
use cifera.Addon.Cached.{
  Assigned, Query, resolver_of, IsCurrentAddon, rules_spec, items_spec, inject_rules-IsCurrent,
}
use cifera.Vhost.Host.{Regexps}

-- Every goroutine up to this number runs.
abbrev pub Covers : ℕ → List ℕ → Type 0
Covers zero order = Unit
Covers (suc n) order = IsIn n order × Covers n order

covered : (n : ℕ) (order : List ℕ) → Covers n order → (m : ℕ) → m < n → IsIn m order
covered zero order c m lt = absurd (omega (arith, lt))
covered (suc n) order (here, c) m lt = elim (ℕ_discrete m n) [
  | yes e ↦ subst (λ x. IsIn x order) (sym e) here
  | no ne ↦ covered n order c m (omega (arith, lt, ne))
]

module _ (regexps : Regexps) (template : Template) (assigned : Assigned) where
  abbrev pub Addons : Type 0
  Addons = List (LoadedAddon regexps.Regex)

  addon_available-asked :
      (q : Query) (id : Text)
      → addon_available (resolver_of regexps template assigned q) id
        ≡ (not q.has_tenant || q.include id)
  unfolding addon_available
  addon_available-asked q id = elim (Bool-cases q.has_tenant) [ inl h ↦ rw h | inr h ↦ rw h ]

  inject_addon-IsCurrent :
      (q : Query) (a : LoadedAddon regexps.Regex) (rest : List InjectItem)
      → IsCurrentAddon regexps template assigned a
      → let (a', items) =
          inject_addon regexps template (resolver_of regexps template assigned q) q.url a in
        (items ++ rest ≡ (
          if not q.has_tenant || q.include a.manifest.addon.id
          then rules_spec regexps template assigned q a.manifest.addon.id a.manifest.rules ++ rest
          else rest))
        × IsCurrentAddon regexps template assigned a'
        × (a'.manifest.addon.id ≡ a.manifest.addon.id)
        × ((p : Query)
            → rules_spec regexps template assigned p a.manifest.addon.id a'.manifest.rules
              ≡ rules_spec regexps template assigned p a.manifest.addon.id a.manifest.rules)
  unfolding inject_addon
  inject_addon-IsCurrent q a rest cur =
      let id = a.manifest.addon.id in
      let (items, now, same) =
        inject_rules-IsCurrent regexps template assigned q id a.manifest.rules cur in
      let asked = addon_available-asked q id in
      elim (Bool-cases (not q.has_tenant || q.include id)) [
        | inl enabled ↦
            rw (asked ∙ enabled, enabled, inject_addon) (ap (λ l. l ++ rest) items, now, refl, same)
        | inr disabled ↦ rw (asked ∙ disabled, disabled, inject_addon) (refl, cur, refl, λ p. refl)
      ]

  -- One request: what is found, and that the addons go on as they are.
  sequential-IsCurrent :
      (q : Query) (addons : Addons)
      → All (IsCurrentAddon regexps template assigned) addons
      → let (after, items) =
          match_inject_sequential regexps template
            (resolver_of regexps template assigned q)
            q.url
            addons in
        (items ≡ items_spec regexps template assigned q addons)
        × All (IsCurrentAddon regexps template assigned) after
        × (length after ≡ length addons)
        × ((p : Query)
            → items_spec regexps template assigned p after
              ≡ items_spec regexps template assigned p addons)
  unfolding match_inject_sequential
  sequential-IsCurrent q [] cur = (refl, tt, refl, λ p. refl)
  sequential-IsCurrent q (a ∷ addons) (cur, more) =
      let (items, now, len, same) = sequential-IsCurrent q addons more in
      let (found, current, name, rules) =
        inject_addon-IsCurrent q a (items_spec regexps template assigned q addons) cur in
      let (a', got) =
        inject_addon regexps template (resolver_of regexps template assigned q) q.url a in
      (
        ap (λ l. got ++ l) items ∙ found,
        (current, now),
        omega (arith, len),
        λ p. addon_spec p a a' addons _ name (rules p) (same p),
      )
    where
      addon_spec :
          (p : Query) (a a' : LoadedAddon regexps.Regex) (rest rest' : Addons)
          → a'.manifest.addon.id ≡ a.manifest.addon.id
          → rules_spec regexps template assigned p a.manifest.addon.id a'.manifest.rules
            ≡ rules_spec regexps template assigned p a.manifest.addon.id a.manifest.rules
          → items_spec regexps template assigned p rest'
            ≡ items_spec regexps template assigned p rest
          → items_spec regexps template assigned p (a' ∷ rest')
            ≡ items_spec regexps template assigned p (a ∷ rest)
      addon_spec p a a' rest rest' name rules same =
          ap
            (λ id.
              if not p.has_tenant || p.include id
              then rules_spec regexps template assigned p id a'.manifest.rules
                ++ items_spec regexps template assigned p rest'
              else items_spec regexps template assigned p rest')
            name
          ∙ ap₂ (λ x l. if not p.has_tenant || p.include a.manifest.addon.id then x ++ l else l)
              rules same

  -- The requests one after another, each on the addons as the one before has left them.
  unfoldable pub answers : Addons → List Query → List (List InjectItem)
  answers addons [] = []
  answers addons (q ∷ qs) =
      let (after, items) =
        match_inject_for regexps template (resolver_of regexps template assigned q) q.url q.order
          addons in
      items ∷ answers after qs

  -- Over a whole run of requests, whatever tenants they are of and in whatever order the goroutines
  -- of each run, every request is given the items that rendering afresh with the parameters of its
  -- tenant gives, in the order of addons and rules, if the parameters of a tenant do not change and
  -- the caches hold at the start what would be rendered.
  pub answers-spec :
      (addons : Addons) (qs : List Query)
      → All (IsCurrentAddon regexps template assigned) addons
      → All (λ q. IsOnce q.order × Covers (length addons) q.order) qs
      → answers addons qs ≡ map (λ q. items_spec regexps template assigned q addons) qs
  unfolding answers
  answers-spec addons [] cur fair = refl
  answers-spec addons (q ∷ qs) cur ((once, covers), fair) =
      let seq =
        match_inject_for-sequential regexps template (resolver_of regexps template assigned q) q.url
          q.order addons once (covered (length addons) q.order covers) in
      let (items, now, len, same) = sequential-IsCurrent q addons cur in
      let (after, got) =
        match_inject_sequential regexps template (resolver_of regexps template assigned q) q.url
          addons in
      ap (λ x. x.1 ∷ answers x.0 qs) seq
      ∙ ap₂ ◌∷◌ items (
          answers-spec after qs now
            (subst (λ n. All (λ p. IsOnce p.order × Covers n p.order) qs) (sym len) fair)
          ∙ map_same qs same)
    where
      map_same :
          {f g : Query → List InjectItem} (qs : List Query)
          → ((p : Query) → f p ≡ g p)
          → map f qs ≡ map g qs
      map_same [] h = refl
      map_same (p ∷ qs) h = ap₂ ◌∷◌ (h p) (map_same qs h)
