-- ===== src/Addon/Accepted.antt =====
-- internal/addon/loader.go: which rules validateRules accepts.
use cifera.Base.{
  Bool-cases, text_eq, text_eq_iff, is_empty, ◌≡◌, refl, ap, ◌∙◌, ◌⊎◌, inl, inr, Bool, true, false,
  not, ◌&&◌, ◌||◌, arith,
}
use cifera.Addon.Rules.{block, replace, replace_content, inject, Rule, has_resource}
use cifera.Addon.Loader.{
  js, css, one_among, actions, relations, positions, first, all_hits, is_status, validate_block,
  validate_selector, validate_inject, validate_rule, bad_status, needs_resource, bad_resource_type,
  position_or_at, bad_relation, bad_scope, bad_position,
}
use cifera.Vhost.Host.{}
use cifera.Vhost.Ready.{refuse_inv}
use cifera.Vhost.Loaded.{one_of, then_inv, else_inv}

pub not_refused : {b : Bool} → not b ≡ false → b ≡ true
not_refused h = ground arith

-- Just one of two is empty.
just_one : (p a : Bool) → (p && a || not p && not a) ≡ false → p ≡ not a
just_one true true h = absurd (cc h)
just_one true false h = refl
just_one false true h = refl
just_one false false h = absurd (cc h)

module _ {R : Type 0} where
  -- An injection at a place of the document, or at the elements that a selector finds.
  abbrev pub IsPlaced : Rule R → Type 0
  IsPlaced r =
      ((is_empty r.at ≡ true)
        × (is_empty r.position ≡ false)
        × (one_among r.position positions ≡ true))
      ⊎ ((is_empty r.at ≡ false)
          × (is_empty r.position ≡ true)
          × (one_among r.relation relations ≡ true)
          × ((is_empty r.scope ≡ true) ⊎ ((r.scope ≡ first) ⊎ (r.scope ≡ all_hits))))

  -- The tests that a rule passes, by its action.
  pub data IsAccepted (r : Rule R) : Type 0 where
    blocks : r.action ≡ block → is_status r.status_code ≡ true → IsAccepted r
    replaces :
        (r.action ≡ replace) ⊎ (r.action ≡ replace_content) → has_resource r ≡ true → IsAccepted r
    injects :
        r.action ≡ inject
        → has_resource r ≡ true
        → (r.resource_type ≡ js) ⊎ (r.resource_type ≡ css)
        → IsPlaced r
        → IsAccepted r

  validate_selector_inv :
      (r r' : Rule R)
      → validate_selector r ≡ inr r'
      → (one_among r.relation relations ≡ true)
        × ((is_empty r.scope ≡ true) ⊎ ((r.scope ≡ first) ⊎ (r.scope ≡ all_hits)))
  unfolding validate_selector
  validate_selector_inv r r' h =
      let (relation, more) = refuse_inv _ bad_relation _ r' h in
      (
        not_refused relation,
        elim (Bool-cases (is_empty r.scope)) [
          | inl default ↦ inl default
          | inr given ↦
              let (scope, last) =
                refuse_inv _ bad_scope _ r' (else_inv (is_empty r.scope) _ _ (inr r') given more) in
              inr (one_of r.scope first all_hits scope)
        ],
      )

  validate_inject_inv :
      (r r' : Rule R)
      → validate_inject r ≡ inr r'
      → (has_resource r ≡ true) × ((r.resource_type ≡ js) ⊎ (r.resource_type ≡ css)) × IsPlaced r
  unfolding validate_inject
  validate_inject_inv r r' h =
      let (resource, h1) = refuse_inv (not (has_resource r)) needs_resource _ r' h in
      let (type, h2) =
        refuse_inv (not (text_eq r.resource_type js) && not (text_eq r.resource_type css))
          bad_resource_type _ r' h1 in
      let (xor, h3) =
        refuse_inv
          (is_empty r.position && is_empty r.at || not (is_empty r.position) && not (is_empty r.at))
          position_or_at _ r' h2 in
      let one = just_one (is_empty r.position) (is_empty r.at) xor in
      (
        not_refused resource,
        one_of r.resource_type js css type,
        elim (Bool-cases (is_empty r.at)) [
          | inl no_selector ↦
              let h4 = else_inv (not (is_empty r.at)) _ _ (inr r') (ap not no_selector) h3 in
              let (position, last) =
                refuse_inv (not (one_among r.position positions)) bad_position _ r' h4 in
              inl (no_selector, one ∙ ap not no_selector, not_refused position)
          | inr selector ↦
              let h4 = then_inv (not (is_empty r.at)) _ _ (inr r') (ap not selector) h3 in
              let (relation, scope) = validate_selector_inv r r' h4 in
              inr (selector, one ∙ ap not selector, relation, scope)
        ],
      )

  pub validate_rule_inv :
      (r r' : Rule R) → one_among r.action actions ≡ true → validate_rule r ≡ inr r' → IsAccepted r
  unfolding validate_rule validate_block
  validate_rule_inv r r' known h = elim (Bool-cases (text_eq r.action block)) [
    | inl b ↦
        let (status, last) = refuse_inv _ bad_status _ r' (then_inv _ _ _ (inr r') b h) in
        blocks ((text_eq_iff r.action block).0 b) (not_refused status)
    | inr nb ↦
        let h1 = else_inv _ _ _ (inr r') nb h in
        elim (Bool-cases (text_eq r.action replace || text_eq r.action replace_content)) [
          | inl p ↦
              let (resource, last) =
                refuse_inv _ needs_resource _ r' (then_inv _ _ _ (inr r') p h1) in
              replaces (one_of r.action replace replace_content (ground (arith, p)))
                (not_refused resource)
          | inr np ↦
              let h2 = else_inv _ _ _ (inr r') np h1 in
              elim (Bool-cases (text_eq r.action inject)) [
                | inl i ↦
                    let (resource, type, placed) =
                      validate_inject_inv r r' (then_inv _ _ _ (inr r') i h2) in
                    injects ((text_eq_iff r.action inject).0 i) resource type placed
                | inr ni ↦ absurd (ground (arith, known, nb, np, ni))
              ]
        ]
  ]
