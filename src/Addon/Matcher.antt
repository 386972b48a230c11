-- ===== src/Addon/Matcher.antt =====
-- internal/addon/matcher.go: which rules apply to a request.
use cifera.Base.{
  ltb, if◌then◌else◌, length, Text, text_eq, ℕ, zero, suc, Bool, true, not, ◌&&◌, ◌||◌, Option,
  none, some, List, [], ◌∷◌, ◌++◌,
}
use cifera.Value.{Value}
use cifera.Addon.Rules.{
  Template, block, replace, replace_content, inject, Rule, LoadedAddon, InjectItem, MatchResult,
  resource_content_for, match_url,
}
use cifera.Vhost.Host.{Regexps}

-- TenantParamResolver: nil, or whether the addon is enabled, the tenant and its parameters.
abbrev pub Resolver : Type 0
Resolver = Option (Text → Bool × Text × Option (List (Text × Value)))

abbrev pub include_of : Bool × Text × Option (List (Text × Value)) → Bool
include_of (include, _, _) = include

unfoldable pub addon_available : Resolver → Text → Bool
addon_available none id = true
addon_available (some resolver) id = include_of (resolver id)

-- One of the goroutines' slots: an addon and the items found for it.
abbrev pub Slot : Type 0 → Type 0
Slot R = LoadedAddon R × List InjectItem

module _ (regexps : Regexps) where
  unfoldable pub first_rule :
      (Text → Bool) → Text → List (Rule regexps.Regex) → Option (Rule regexps.Regex)
  first_rule acts url [] = none
  first_rule acts url (r ∷ rs) =
      if acts r.action && match_url regexps r url then some r else first_rule acts url rs

  unfoldable pub first_match :
      (Text → Bool) → List (LoadedAddon regexps.Regex) → Text → Option (MatchResult regexps.Regex)
  first_match acts [] url = none
  first_match acts (a ∷ rest_of) url =
      let rest = first_match acts rest_of url in
      elim (first_rule acts url a.manifest.rules) [
        | some r ↦ some (record { rule = r; addon_id = a.manifest.addon.id })
        | none ↦ rest
      ]

  unfoldable pub match_block :
      List (LoadedAddon regexps.Regex) → Text → Option (MatchResult regexps.Regex)
  match_block = first_match (λ action. text_eq action block)

  unfoldable pub match_replace :
      List (LoadedAddon regexps.Regex) → Text → Option (MatchResult regexps.Regex)
  match_replace = first_match (λ action. text_eq action replace || text_eq action replace_content)

  module _ (template : Template) where
    abbrev pub item_of : Text → Rule regexps.Regex → List ℕ → InjectItem
    item_of id r content = record {
      position = r.position;
      content = content;
      resource_type = r.resource_type;
      addon_id = id;
      at = r.at;
      relation = r.relation;
      scope = r.scope;
    }

    -- The content by what the resolver says.
    abbrev pub content_by :
        Rule regexps.Regex
        → Bool × Text × Option (List (Text × Value))
        → Rule regexps.Regex × List ℕ
    content_by r (_, _, none) = (r, r.resource_content)
    content_by r (_, tenant_id, some params) = resource_content_for template r tenant_id params

    unfoldable pub content_for : Resolver → Text → Rule regexps.Regex → Rule regexps.Regex × List ℕ
    content_for none id r = (r, r.resource_content)
    content_for (some resolver) id r = content_by r (resolver id)

    unfoldable pub build_inject_item :
        Resolver → Text → Rule regexps.Regex → Rule regexps.Regex × InjectItem
    build_inject_item resolver id r =
        let (r', content) = content_for resolver id r in (r', item_of id r content)

    -- The loop over the rules of an addon.
    unfoldable pub inject_rules :
        Resolver
        → Text
        → Text
        → List (Rule regexps.Regex)
        → List (Rule regexps.Regex) × List InjectItem
    inject_rules resolver id url [] = ([], [])
    inject_rules resolver id url (r ∷ rs) =
        let (rs', items) = inject_rules resolver id url rs in
        let (r', item) = build_inject_item resolver id r in
        if text_eq r.action inject && match_url regexps r url
        then (r' ∷ rs', item ∷ items)
        else (r ∷ rs', items)

    abbrev pub with_rules :
        LoadedAddon regexps.Regex → List (Rule regexps.Regex) → LoadedAddon regexps.Regex
    with_rules a rs = record a { manifest = record a.manifest { rules = rs } }

    unfoldable pub inject_addon : Resolver → Text → LoadedAddon regexps.Regex → Slot regexps.Regex
    inject_addon resolver url a =
        if not (addon_available resolver a.manifest.addon.id)
        then (a, [])
        else let (rs, items) = inject_rules resolver a.manifest.addon.id url a.manifest.rules in
          (with_rules a rs, items)

    unfoldable pub match_inject_sequential :
        Resolver
        → Text
        → List (LoadedAddon regexps.Regex)
        → List (LoadedAddon regexps.Regex) × List InjectItem
    match_inject_sequential resolver url [] = ([], [])
    match_inject_sequential resolver url (a ∷ rest_of) =
        let (a', items) = inject_addon resolver url a in
        let (more', rest) = match_inject_sequential resolver url rest_of in
        (a' ∷ more', items ++ rest)

    -- A goroutine runs: it reads its addon and fills its slot.
    unfoldable pub run_slot :
        Resolver → Text → ℕ → List (Slot regexps.Regex) → List (Slot regexps.Regex)
    run_slot resolver url n [] = []
    run_slot resolver url zero ((a, old) ∷ slots) = inject_addon resolver url a ∷ slots
    run_slot resolver url (suc n) (slot ∷ slots) = slot ∷ run_slot resolver url n slots

    -- The goroutines in the order in which they happen to run.
    unfoldable pub run_slots :
        Resolver → Text → List ℕ → List (Slot regexps.Regex) → List (Slot regexps.Regex)
    run_slots resolver url [] slots = slots
    run_slots resolver url (n ∷ order) slots =
        run_slots resolver url order (run_slot resolver url n slots)

    abbrev pub start_slots : List (LoadedAddon regexps.Regex) → List (Slot regexps.Regex)
    start_slots [] = []
    start_slots (a ∷ rest_of) = (a, []) ∷ start_slots rest_of

    -- The results are put together in the order of the addons.
    abbrev pub merge_slots :
        List (Slot regexps.Regex) → List (LoadedAddon regexps.Regex) × List InjectItem
    merge_slots [] = ([], [])
    merge_slots ((a, items) ∷ slots) =
        let (others, rest) = merge_slots slots in (a ∷ others, items ++ rest)

    unfoldable pub match_inject_concurrent :
        Resolver
        → Text
        → List ℕ
        → List (LoadedAddon regexps.Regex)
        → List (LoadedAddon regexps.Regex) × List InjectItem
    match_inject_concurrent resolver url order addons =
        merge_slots (run_slots resolver url order (start_slots addons))

    unfoldable pub match_inject_for :
        Resolver
        → Text
        → List ℕ
        → List (LoadedAddon regexps.Regex)
        → List (LoadedAddon regexps.Regex) × List InjectItem
    match_inject_for resolver url order addons =
        if ltb (length addons) 3
        then match_inject_sequential resolver url addons
        else match_inject_concurrent resolver url order addons
