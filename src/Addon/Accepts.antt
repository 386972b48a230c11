-- ===== src/Addon/Accepts.antt =====
-- internal/addon/loader.go: validateRules accepts exactly the valid rules.
use cifera.Base.{
  if◌then◌else◌, All, pos, text_eq, is_empty, ◌≡◌, refl, sym, ap, ◌∙◌, ◌↔◌, ◌⊎◌, inl, inr, Bool,
  true, false, not, ◌&&◌, ◌||◌, List, [], ◌∷◌,
}
use cifera.Addon.Rules.{block, replace, replace_content, inject, Rule, has_resource}
use cifera.Addon.Loader.{
  js, css, one_among, actions, relations, first, all_hits, is_zero_status, validate_block,
  validate_selector, validate_inject, validate_rule, validate_rules,
}
use cifera.Vhost.Host.{and_then}
use cifera.Vhost.Ready.{and_then_inv}
use cifera.Vhost.Loaded.{}
use cifera.Addon.Accepted.{blocks, replaces, injects, IsPlaced, IsAccepted, validate_rule_inv}

module _ {R : Type 0} where
  validate_selector_accepts :
      (r : Rule R)
      → one_among r.relation relations ≡ true
      → (is_empty r.scope ≡ true) ⊎ ((r.scope ≡ first) ⊎ (r.scope ≡ all_hits))
      → (r' : Rule R) × (validate_selector r ≡ inr r')
  unfolding validate_selector text_eq
  validate_selector_accepts r relation (inl default) = (
    record r { scope = if text_eq r.resource_type css then all_hits else first },
    rw (relation, default),
  )
  validate_selector_accepts r relation (inr (inl s)) =
      (r, rw (relation, ap is_empty s, ap (λ x. text_eq x first) s))
  validate_selector_accepts r relation (inr (inr s)) =
      (r, rw (relation, ap is_empty s, ap (λ x. text_eq x first) s, ap (λ x. text_eq x all_hits) s))

  placed_xor :
      (r : Rule R)
      → is_empty r.position ≡ not (is_empty r.at)
      → (is_empty r.position && is_empty r.at || not (is_empty r.position) && not (is_empty r.at))
        ≡ false
  placed_xor r h = differ (is_empty r.position) (is_empty r.at) h
    where
      differ : (p a : Bool) → p ≡ not a → (p && a || not p && not a) ≡ false
      differ true true h = absurd (cc h)
      differ true false h = refl
      differ false true h = refl
      differ false false h = absurd (cc h)

  known_type :
      (r : Rule R)
      → (r.resource_type ≡ js) ⊎ (r.resource_type ≡ css)
      → (not (text_eq r.resource_type js) && not (text_eq r.resource_type css)) ≡ false
  unfolding text_eq
  known_type r (inl e) = rw (ap (λ x. text_eq x js) e)
  known_type r (inr e) = rw (ap (λ x. text_eq x js) e, ap (λ x. text_eq x css) e)

  validate_inject_accepts :
      (r : Rule R)
      → has_resource r ≡ true
      → (r.resource_type ≡ js) ⊎ (r.resource_type ≡ css)
      → IsPlaced r
      → (r' : Rule R) × (validate_inject r ≡ inr r')
  unfolding validate_inject
  validate_inject_accepts r resource type (inl (no_selector, position, known)) = (
    r,
    rw (
      resource,
      known_type r type,
      placed_xor r (position ∙ ap not (sym no_selector)),
      no_selector,
      known,
    ),
  )
  validate_inject_accepts r resource type (inr (selector, no_position, relation, scope)) =
      let (r', done) = validate_selector_accepts r relation scope in
      (
        r',
        rw
            (
              resource,
              known_type r type,
              placed_xor r (no_position ∙ ap not (sym selector)),
              selector,
            )
            done,
      )

  validate_rule_accepts : (r : Rule R) → IsAccepted r → (r' : Rule R) × (validate_rule r ≡ inr r')
  unfolding validate_rule validate_block text_eq
  validate_rule_accepts r (blocks b status) = (
    if is_zero_status r.status_code then record r { status_code = pos 404 } else r,
    rw (ap (λ x. text_eq x block) b, status),
  )
  validate_rule_accepts r (replaces (inl e) resource) =
      (r, rw (ap (λ x. text_eq x block) e, ap (λ x. text_eq x replace) e, resource))
  validate_rule_accepts r (replaces (inr e) resource) = (
    r,
    rw (
      ap (λ x. text_eq x block) e,
      ap (λ x. text_eq x replace) e,
      ap (λ x. text_eq x replace_content) e,
      resource,
    ),
  )
  validate_rule_accepts r (injects i resource type placed) =
      let (r', done) = validate_inject_accepts r resource type placed in
      (
        r',
        rw
            (
              ap (λ x. text_eq x block) i,
              ap (λ x. text_eq x replace) i,
              ap (λ x. text_eq x replace_content) i,
              ap (λ x. text_eq x inject) i,
            )
            done,
      )

  -- validateRules accepts exactly the rules that pass the tests.
  pub validate_rules_accepts :
      (rs : List (Rule R))
      → All (λ r. one_among r.action actions ≡ true) rs
      → ((rs' : List (Rule R)) × (validate_rules rs ≡ inr rs')) ↔ All IsAccepted rs
  unfolding validate_rules
  validate_rules_accepts rs known = ((λ (rs', h). accepted rs rs' known h), (λ v. accepts rs v))
    where
      accepted :
          (rs rs' : List (Rule R))
          → All (λ r. one_among r.action actions ≡ true) rs
          → validate_rules rs ≡ inr rs'
          → All IsAccepted rs
      accepted [] rs' k h = tt
      accepted (r ∷ rs) rs' (k, ks) h =
          let (r1, one, h1) =
            and_then_inv (validate_rule r) (λ x. and_then (validate_rules rs) (λ l. inr (x ∷ l)))
              rs' h in
          let (rs1, rest, last) = and_then_inv (validate_rules rs) (λ l. inr (r1 ∷ l)) rs' h1 in
          (validate_rule_inv r r1 k one, accepted rs rs1 ks rest)

      accepts :
          (rs : List (Rule R))
          → All IsAccepted rs
          → (rs' : List (Rule R)) × (validate_rules rs ≡ inr rs')
      accepts [] v = ([], refl)
      accepts (r ∷ rs) (v, vs) =
          let (r1, one) = validate_rule_accepts r v in
          let (rs1, rest) = accepts rs vs in
          (
            r1 ∷ rs1,
            ap (λ o. and_then o (λ x. and_then (validate_rules rs) (λ l. inr (x ∷ l)))) one
                ∙ ap (λ o. and_then o (λ l. inr (r1 ∷ l))) rest,
          )
