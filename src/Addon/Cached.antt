-- ===== src/Addon/Cached.antt =====
-- internal/addon: the caches of rendered resources and the goroutines do not show. What is found for
-- a request is what rendering afresh, one addon after the other, gives.
use cifera.Base.{
  if◌then◌else◌, Bool-cases, Option-cases, All, lookup, insert, lookup-All, All-insert, Text,
  text_eq, text_dec, is_empty, ℕ, ◌≡◌, refl, ap, ap₂, ◌∙◌, inl, inr, Bool, not, ◌&&◌, ◌||◌, Option,
  none, some, List, [], ◌∷◌, ◌++◌,
}
use cifera.Value.{Value}
use cifera.Addon.Rules.{
  Template, inject, Rule, LoadedAddon, InjectItem, render_resource, rendered_or, no_params,
  resource_content_for, match_url,
}
use cifera.Addon.Matcher.{Resolver, item_of, content_for, build_inject_item, inject_rules}
use cifera.Addon.Schedule.{}
use cifera.Vhost.Host.{Regexps}

-- The parameters that an addon has for a tenant.
abbrev pub Assigned : Type 0
Assigned = Text → Text → List (Text × Value)

-- A request, as far as the matching sees it.
pub record Query : Type 0 where
  pub has_tenant : Bool
  pub tenant : Text
  pub include : Text → Bool
  pub personal : Text → Bool
  pub url : Text
  pub order : List ℕ

module _ (regexps : Regexps) (template : Template) (assigned : Assigned) where
  abbrev pub params_for : Query → Text → Option (List (Text × Value))
  params_for q id = if q.personal id then some (assigned id q.tenant) else none

  abbrev pub resolver_of : Query → Resolver
  resolver_of q =
      if q.has_tenant then some (λ id. (q.include id, q.tenant, params_for q id)) else none

  abbrev rendered : Rule regexps.Regex → List (Text × Value) → List ℕ
  rendered r params = rendered_or r.resource_content (render_resource template r.raw_content params)

  -- What is in the cache is what would be rendered now.
  abbrev pub IsCurrent : Text → Rule regexps.Regex → Type 0
  IsCurrent id r = All (λ x. x.1 ≡ rendered r (assigned id x.0)) r.tenant_cache

  abbrev pub IsCurrentAddon : LoadedAddon regexps.Regex → Type 0
  IsCurrentAddon a = All (IsCurrent a.manifest.addon.id) a.manifest.rules

  -- The content without a cache.
  abbrev fresh_content : Rule regexps.Regex → Text → List (Text × Value) → List ℕ
  fresh_content r tenant_id params =
      if is_empty r.raw_content || no_params params || is_empty tenant_id
      then r.resource_content
      else rendered r params

  abbrev fresh_or : Rule regexps.Regex → Text → Option (List (Text × Value)) → List ℕ
  fresh_or r tenant_id none = r.resource_content
  fresh_or r tenant_id (some params) = fresh_content r tenant_id params

  abbrev pub content_spec : Query → Text → Rule regexps.Regex → List ℕ
  content_spec q id r =
      if q.has_tenant then fresh_or r q.tenant (params_for q id) else r.resource_content

  abbrev pub rules_spec : Query → Text → List (Rule regexps.Regex) → List InjectItem
  rules_spec q id [] = []
  rules_spec q id (r ∷ rs) =
      let rest = rules_spec q id rs in
      if text_eq r.action inject && match_url regexps r q.url
      then item_of regexps template id r (content_spec q id r) ∷ rest
      else rest

  abbrev pub items_spec : Query → List (LoadedAddon regexps.Regex) → List InjectItem
  items_spec q [] = []
  items_spec q (a ∷ addons) =
      let rest = items_spec q addons in
      if not q.has_tenant || q.include a.manifest.addon.id
      then rules_spec q a.manifest.addon.id a.manifest.rules ++ rest
      else rest

  -- The rule is the same but for its cache.
  abbrev IsRecached : Rule regexps.Regex → Rule regexps.Regex → Type 0
  IsRecached r r' = (c : List (Text × List ℕ)) × (r' ≡ record r { tenant_cache = c })

  resource_content_for-IsCurrent :
      (id : Text) (r : Rule regexps.Regex) (t : Text)
      → IsCurrent id r
      → let (r', content) = resource_content_for template r t (assigned id t) in
        (content ≡ fresh_content r t (assigned id t)) × IsCurrent id r' × IsRecached r r'
  unfolding resource_content_for
  resource_content_for-IsCurrent id r t cur =
      let p = assigned id t in
      elim (Bool-cases (is_empty r.raw_content || no_params p || is_empty t)) [
        | inl global ↦ rw global (refl, cur, (r.tenant_cache, refl))
        | inr own ↦ elim (Option-cases (lookup text_dec t r.tenant_cache)) [
          | inr (cached, found) ↦
              rw (own, found, resource_content_for)
                (
                  lookup-All text_dec (λ x. x.1 ≡ rendered r (assigned id x.0)) t cached
                      r.tenant_cache found cur,
                  cur,
                  (r.tenant_cache, refl),
                )
          | inl absent ↦
              let c = insert text_dec t (rendered r p) r.tenant_cache in
              rw (own, absent, resource_content_for)
                (
                  refl,
                  All-insert text_dec (λ x. x.1 ≡ rendered r (assigned id x.0)) t (rendered r p)
                      r.tenant_cache refl cur,
                  (c, refl),
                )
        ]
      ]

  content_for-IsCurrent :
      (q : Query) (id : Text) (r : Rule regexps.Regex)
      → IsCurrent id r
      → let (r', content) = content_for regexps template (resolver_of q) id r in
        (content ≡ content_spec q id r) × IsCurrent id r' × IsRecached r r'
  unfolding content_for
  content_for-IsCurrent q id r cur = elim (Bool-cases q.has_tenant) [
    | inr nobody ↦ rw nobody (refl, cur, (r.tenant_cache, refl))
    | inl somebody ↦ elim (Bool-cases (q.personal id)) [
      | inr no_params_of_own ↦ rw (somebody, no_params_of_own) (refl, cur, (r.tenant_cache, refl))
      | inl own ↦ rw (somebody, own) (resource_content_for-IsCurrent id r q.tenant cur)
    ]
  ]

  -- The specification does not read the caches.
  rules_spec-recached :
      (q : Query) (id : Text) (r r' : Rule regexps.Regex) (rs rs' : List (Rule regexps.Regex))
      → IsRecached r r'
      → rules_spec q id rs' ≡ rules_spec q id rs
      → rules_spec q id (r' ∷ rs') ≡ rules_spec q id (r ∷ rs)
  unfolding match_url
  rules_spec-recached q id r r' rs rs' (c, e) h =
      ap (λ x. rules_spec q id (x ∷ rs')) e
      ∙ ap
          (λ l.
            if text_eq r.action inject && match_url regexps r q.url
            then item_of regexps template id r (content_spec q id r) ∷ l
            else l)
          h

  pub inject_rules-IsCurrent :
      (q : Query) (id : Text) (rs : List (Rule regexps.Regex))
      → All (IsCurrent id) rs
      → let (rs', items) = inject_rules regexps template (resolver_of q) id q.url rs in
        (items ≡ rules_spec q id rs)
        × All (IsCurrent id) rs'
        × ((p : Query) → rules_spec p id rs' ≡ rules_spec p id rs)
  unfolding inject_rules build_inject_item
  inject_rules-IsCurrent q id [] cur = (refl, tt, λ p. refl)
  inject_rules-IsCurrent q id (r ∷ rs) (cur, more) =
      let (items, rest, same) = inject_rules-IsCurrent q id rs more in
      let (content, now, recached) = content_for-IsCurrent q id r cur in
      let (rs', found) = inject_rules regexps template (resolver_of q) id q.url rs in
      elim (Bool-cases (text_eq r.action inject && match_url regexps r q.url)) [
        | inl hit ↦
            rw (hit, inject_rules)
              (
                ap₂ (λ x l. item_of regexps template id r x ∷ l) content items,
                (now, rest),
                λ p. rules_spec-recached p id r _ rs rs' recached (same p),
              )
        | inr miss ↦
            rw (miss, inject_rules)
              (
                items,
                (cur, rest),
                λ p. rules_spec-recached p id r r rs rs' (r.tenant_cache, refl) (same p),
              )
      ]
