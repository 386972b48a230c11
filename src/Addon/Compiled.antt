-- ===== src/Addon/Compiled.antt =====
-- internal/addon/loader.go: the rules that compileRules lets through have known actions.
use cifera.Base.{
  Bool-cases, All, Text, is_empty, ◌≡◌, ap, subst, inl, inr, true, not, List, [], ◌∷◌,
}
use cifera.Value.{Value}
use cifera.Addon.Rules.{Rule}
use cifera.Addon.Loader.{
  one_among, actions, compile_patterns, with_resource, compile_with, compile_rule, compile_rules,
  bad_action,
}
use cifera.Addon.Load.{Surroundings}
use cifera.Addon.Accepted.{not_refused}
use cifera.Vhost.Local.{FileData, no_file, no_access, bytes}
use cifera.Vhost.Host.{Regexps}
use cifera.Vhost.Ready.{and_then_inv, refuse_inv}
use cifera.Vhost.Loaded.{eq_of_inr, then_inv, else_inv}

module _ (regexps : Regexps) (world : Surroundings regexps) where
  with_resource-known :
      (params : List (Text × Value)) (r r' : Rule regexps.Regex) (d : FileData)
      → with_resource regexps world.template params r d ≡ inr r'
      → r.action ≡ r'.action
  unfolding with_resource
  with_resource-known params r r' no_file h = absurd (cc h)
  with_resource-known params r r' no_access h = absurd (cc h)
  with_resource-known params r r' (bytes content) h = ap (λ x. x.action) (eq_of_inr h)

  compile_with-known :
      (dir : Text) (params : List (Text × Value)) (r r' : Rule regexps.Regex) (ps : List Text)
      → compile_with regexps world.template world.read_file dir params r ps ≡ inr r'
      → one_among r'.action actions ≡ true
  unfolding compile_with
  compile_with-known dir params r r' [] h = absurd (cc h)
  compile_with-known dir params r r' (p ∷ ps) h =
      let (res, patterns, h1) = and_then_inv (compile_patterns regexps (p ∷ ps)) _ r' h in
      let (known, h2) = refuse_inv (not (one_among r.action actions)) bad_action _ r' h1 in
      let compiled : Rule regexps.Regex = record r { compiled_patterns = res } in
      let same : r.action ≡ r'.action = elim (Bool-cases (is_empty r.resource)) [
        | inl bare ↦
            ap (λ x. x.action)
              (eq_of_inr (then_inv (is_empty r.resource) (inr compiled) _ (inr r') bare h2))
        | inr has ↦
            with_resource-known params compiled r' _
              (else_inv (is_empty r.resource) _ _ (inr r') has h2)
      ] in
      subst (λ a. one_among a actions ≡ true) same (not_refused known)

  pub compile_rules-known :
      (dir : Text) (params : List (Text × Value)) (rs rs' : List (Rule regexps.Regex))
      → compile_rules regexps world.template world.read_file dir params rs ≡ inr rs'
      → All (λ r. one_among r.action actions ≡ true) rs'
  unfolding compile_rules compile_rule
  compile_rules-known dir params [] rs' h =
      subst (All (λ r. one_among r.action actions ≡ true)) (eq_of_inr h) tt
  compile_rules-known dir params (r ∷ rs) rs' h =
      let (r1, one, h1) =
        and_then_inv (compile_rule regexps world.template world.read_file dir params r) _ rs' h in
      let (rs1, rest, h2) =
        and_then_inv (compile_rules regexps world.template world.read_file dir params rs) _ rs'
          h1 in
      subst (All (λ x. one_among x.action actions ≡ true)) (eq_of_inr h2) (
        compile_with-known dir params r r1 r.patterns one,
        compile_rules-known dir params rs rs1 rest,
      )
