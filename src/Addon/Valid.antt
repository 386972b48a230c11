-- ===== src/Addon/Valid.antt =====
-- internal/addon/loader.go: what a valid rule of a manifest is, and that validateRules accepts these.
use cifera.Base.{
  All, All-map, ℤ, pos, negsuc, Text, codes, text_eq_iff, is_empty, ℕ, ◌≤◌, ◌≡◌, ◌↔◌, ◌⊎◌, inl, inr,
  true, false, List, arith, refl, ap,
}
use cifera.Addon.Rules.{Rule, has_resource}
use cifera.Addon.Loader.{one_among, actions, relations, positions, is_status, validate_rules}
use cifera.Addon.Accepted.{IsPlaced, IsAccepted, blocks, replaces, injects}
use cifera.Addon.Accepts.{validate_rules_accepts}

-- Where an element goes that is injected at the elements of a selector.
abbrev IsRelation : Text → Type 0
IsRelation t =
    (t ≡ codes "before") ⊎ ((t ≡ codes "after") ⊎ ((t ≡ codes "prepend") ⊎ (t ≡ codes "append")))

-- The places of a document.
abbrev IsPosition : Text → Type 0
IsPosition t =
    (t ≡ codes "head_start")
    ⊎ ((t ≡ codes "head_end") ⊎ ((t ≡ codes "body_start") ⊎ (t ≡ codes "body_end")))

IsRelation-iff : (t : Text) → (one_among t relations ≡ true) ↔ IsRelation t
IsRelation-iff t = ground (
  arith,
  text_eq_iff t (codes "before"),
  text_eq_iff t (codes "after"),
  text_eq_iff t (codes "prepend"),
  text_eq_iff t (codes "append"),
)

IsPosition-iff : (t : Text) → (one_among t positions ≡ true) ↔ IsPosition t
IsPosition-iff t = ground (
  arith,
  text_eq_iff t (codes "head_start"),
  text_eq_iff t (codes "head_end"),
  text_eq_iff t (codes "body_start"),
  text_eq_iff t (codes "body_end"),
)

status_sound : (z : ℤ) → is_status z ≡ true → (n : ℕ) × (z ≡ pos n) × (100 ≤ n) × (n ≤ 599)
status_sound (pos n) h = (n, refl, ground arith, ground arith)
status_sound (negsuc n) h = absurd (cc)

status_complete : (z : ℤ) (n : ℕ) → z ≡ pos n → 100 ≤ n → n ≤ 599 → is_status z ≡ true
status_complete z n e low high = rw e (ground (arith, low, high))

named_position : (t : Text) → IsPosition t → is_empty t ≡ false
named_position t (inl e) = ap is_empty e
named_position t (inr (inl e)) = ap is_empty e
named_position t (inr (inr (inl e))) = ap is_empty e
named_position t (inr (inr (inr e))) = ap is_empty e

module _ {R : Type 0} where
  -- The resource is named and its file was read and is not empty.
  abbrev HasContent : Rule R → Type 0
  HasContent r = (is_empty r.resource ≡ false) × (is_empty r.resource_content ≡ false)

  has_resource_iff : (r : Rule R) → (has_resource r ≡ true) ↔ HasContent r
  unfolding has_resource
  has_resource_iff r = ground arith

  -- An injection at a place of the document, or before, behind or in the elements that a selector
  -- finds, the first of them or all.
  abbrev HasPlace : Rule R → Type 0
  HasPlace r =
      ((is_empty r.at ≡ true) × IsPosition r.position)
      ⊎ ((is_empty r.at ≡ false)
          × (is_empty r.position ≡ true)
          × IsRelation r.relation
          × ((is_empty r.scope ≡ true) ⊎ ((r.scope ≡ codes "first") ⊎ (r.scope ≡ codes "all"))))

  -- What a rule of the manifest must be, by its action.
  pub data IsValidRule (r : Rule R) : Type 0 where
    block_rule :
        (status : ℕ)
        → r.action ≡ codes "block"
        → r.status_code ≡ pos status
        → 100 ≤ status
        → status ≤ 599
        → IsValidRule r
    replace_rule :
        (r.action ≡ codes "replace") ⊎ (r.action ≡ codes "replace_content")
        → HasContent r
        → IsValidRule r
    inject_rule :
        r.action ≡ codes "inject"
        → HasContent r
        → (r.resource_type ≡ codes "js") ⊎ (r.resource_type ≡ codes "css")
        → HasPlace r
        → IsValidRule r

  IsPlaced-iff : (r : Rule R) → IsPlaced r ↔ HasPlace r
  IsPlaced-iff r =
      ground
        (arith, IsPosition-iff r.position, IsRelation-iff r.relation, named_position r.position)

  IsAccepted-IsValidRule : (r : Rule R) → IsAccepted r → IsValidRule r
  IsAccepted-IsValidRule r (blocks b status) =
      let (n, e, low, high) = status_sound r.status_code status in block_rule n b e low high
  IsAccepted-IsValidRule r (replaces a content) = replace_rule a ((has_resource_iff r).0 content)
  IsAccepted-IsValidRule r (injects i content type placed) =
      inject_rule i ((has_resource_iff r).0 content) type ((IsPlaced-iff r).0 placed)

  IsValidRule-IsAccepted : (r : Rule R) → IsValidRule r → IsAccepted r
  IsValidRule-IsAccepted r (block_rule n b e low high) =
      blocks b (status_complete r.status_code n e low high)
  IsValidRule-IsAccepted r (replace_rule a content) = replaces a ((has_resource_iff r).1 content)
  IsValidRule-IsAccepted r (inject_rule i content type placed) =
      injects i ((has_resource_iff r).1 content) type ((IsPlaced-iff r).1 placed)

  -- For rules with known actions validateRules succeeds exactly if every rule is valid: a block has
  -- a status code from 100 to 599 written out, a replacement has a resource with content, and an
  -- injection has such a resource, which is a script or a style sheet, and either a known position
  -- or a selector with a known relation and, if any, a known scope.
  pub validate_rules_iff :
      (rs : List (Rule R))
      → All (λ r. one_among r.action actions ≡ true) rs
      → ((rs' : List (Rule R)) × (validate_rules rs ≡ inr rs')) ↔ All IsValidRule rs
  validate_rules_iff rs known =
      let same = validate_rules_accepts rs known in
      (
        λ h. All-map IsAccepted IsValidRule rs IsAccepted-IsValidRule (same.0 h),
        λ v. same.1 (All-map IsValidRule IsAccepted rs IsValidRule-IsAccepted v),
      )
