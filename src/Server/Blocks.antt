-- ===== src/Server/Blocks.antt =====
-- internal/addon/matcher.go: MatchBlock finds nothing exactly where no rule that blocks has a pattern
-- for the address.
use cifera.Base.{All, Text, text_eq, text_eq_iff, ◌≡◌, refl, ◌↔◌, false, none, List, [], ◌∷◌, arith}
use cifera.Vhost.Host.{Regexps}
use cifera.Addon.Rules.{block, Rule, LoadedAddon, match_url}
use cifera.Addon.Matcher.{first_rule, first_match, match_block}

module _ (regexps : Regexps) (url : Text) where
  -- A rule that does not keep the address from being asked for.
  abbrev pub LetsPass : Rule regexps.Regex → Type 0
  LetsPass r = r.action ≡ block → match_url regexps r url ≡ false

  abbrev pub LetPass : List (LoadedAddon regexps.Regex) → Type 0
  LetPass addons = All (λ a. All LetsPass a.manifest.rules) addons

  first_rule-none :
      (rs : List (Rule regexps.Regex))
      → (first_rule regexps (λ action. text_eq action block) url rs ≡ none) ↔ All LetsPass rs
  unfolding first_rule
  first_rule-none [] = (λ h. tt, λ h. refl)
  first_rule-none (r ∷ rs) = ground (arith, text_eq_iff r.action block, first_rule-none rs)

  pub match_block-none :
      (addons : List (LoadedAddon regexps.Regex))
      → (match_block regexps addons url ≡ none) ↔ LetPass addons
  unfolding match_block first_match
  match_block-none [] = (λ h. tt, λ h. refl)
  match_block-none (a ∷ addons) =
      ground (arith, first_rule-none a.manifest.rules, match_block-none addons)
