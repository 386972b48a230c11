-- ===== src/Addon/LoadTests.antt =====
-- internal/addon: loading and matching on concrete addons, and the theorems at them.
use cifera.Base.{
  All, pos, lookup, insert, Text, codes, text_eq, text_dec, has_prefix, contains, to_lower, split,
  join, ℕ, ◌≡◌, refl, ◌↔◌, inl, inr, true, false, none, some, List, [], ◌∷◌, ◌++◌, map, arith,
}
use cifera.Value.{nil}
use cifera.Addon.Params.{
  kind_of, zero_by_type, normalize_value, default_value, configured_value, param_value,
  resolve_from, resolve_params,
}
use cifera.Addon.Rules.{
  Template, block, inject, Rule, AddonManifest, LoadedAddon, has_resource, render_resource,
  resource_content_for, match_url,
}
use cifera.Addon.Matcher.{
  addon_available, first_rule, first_match, match_block, match_replace, content_for,
  build_inject_item, inject_rules, inject_addon, match_inject_sequential, run_slot, run_slots,
  match_inject_concurrent, match_inject_for,
}
use cifera.Addon.Loader.{
  js, detect_resource_type, validate_params_from, validate_params, validate_block,
  validate_selector, validate_inject, validate_rule, validate_rules, compile_patterns,
  with_resource, compile_with, compile_rule, compile_rules, validate_hosts, bad_status,
}
use cifera.Addon.Load.{
  Surroundings, check_manifest, parse_manifest, build_addon, load_manifest, load_entries,
  read_addons, load_addons, entries,
}
use cifera.Addon.Cached.{Assigned, Query, items_spec}
use cifera.Addon.Valid
use cifera.Addon.Valid.{IsValidRule}
use cifera.Addon.Loads
use cifera.Addon.Loads.{IsReport}
use cifera.Addon.Stateless
use cifera.Addon.Stateless.{answers, answers-spec}
use cifera.Vhost.Path.{join_path, clean, stack_of, resolve, push_part}
use cifera.Vhost.Local.{file, bytes, ext}
use cifera.Vhost.Host.{Regexps}

program : Unit {0}
unfolding lookup insert text_dec text_eq contains has_prefix to_lower split join clean stack_of
    resolve push_part join_path ext has_resource render_resource resource_content_for match_url
    addon_available first_rule first_match match_block match_replace content_for build_inject_item
    inject_rules inject_addon match_inject_sequential run_slot run_slots match_inject_concurrent
    match_inject_for detect_resource_type validate_params_from validate_params validate_block
    validate_selector validate_inject validate_rule validate_rules compile_patterns with_resource
    compile_with compile_rule compile_rules validate_hosts check_manifest parse_manifest build_addon
    load_manifest load_entries read_addons load_addons kind_of zero_by_type normalize_value
    default_value configured_value param_value resolve_from resolve_params
program = tt

-- A pattern matches what starts with it.
abbrev regexps : Regexps
regexps = record {
  Regex = Text;
  compile = λ pattern. some pattern;
  match_string = λ re url. has_prefix url re;
}

abbrev template : Template
template content params = elim params [ [] ↦ none | p ∷ ps ↦ some (codes "{{" ++ p.0) ]

abbrev rule : Text → Text → Text → Rule Text
rule action resource position = record {
  patterns = codes "http" ∷ [];
  action = action;
  resource = resource;
  status_code = pos 0;
  position = position;
  at = [];
  relation = [];
  scope = [];
  compiled_patterns = codes "http" ∷ [];
  raw_content = codes "{{x}}";
  resource_content = codes "x";
  resource_type = js;
  tenant_cache = [];
}

abbrev script : Rule Text
script = rule inject (codes "a.js") (codes "head_end")

-- A block without a status code does not get the default of 404, it is refused.
refuses_default : validate_rule (rule block [] []) ≡ inl bad_status
unfolding program
refuses_default = refl

accepts_script : validate_rule script ≡ inr script
unfolding program
accepts_script = refl

validate_rules_iff_example :
    ((rs' : List (Rule Text)) × (validate_rules (script ∷ []) ≡ inr rs'))
    ↔ All IsValidRule (script ∷ [])
unfolding program
validate_rules_iff_example = Valid.validate_rules_iff (script ∷ []) (refl, tt)

abbrev manifest : AddonManifest Text
manifest = record {
  addon = record { id = codes "a"; name = codes "A"; version = codes "1" };
  params = [];
  rules = script ∷ [];
  hosts = [];
}

abbrev addon : LoadedAddon Text
addon = record { manifest = manifest; dir = codes "/a"; params = []; global_overrides = [] }

abbrev world : Surroundings regexps
world = record {
  abs = λ d. some (codes "/" ++ d);
  read_dir = λ d. entries ((codes "a", true) ∷ (codes "b.txt", false) ∷ []);
  stat = λ p. file;
  read_file = λ p. bytes (codes "x");
  decode_toml = λ b. some manifest;
  parse = λ u. none;
  template = template;
}

load_addons-IsReport_example :
    IsReport regexps world [] [] (codes "d") (load_addons regexps world (codes "d") [] [])
load_addons-IsReport_example = Loads.load_addons-IsReport regexps world [] [] (codes "d")

abbrev assigned : Assigned
assigned id tenant = (tenant, nil) ∷ []

abbrev query : Text → List ℕ → Query
query tenant order = record {
  has_tenant = true;
  tenant = tenant;
  include = λ id. true;
  personal = λ id. true;
  url = codes "http://x.org/";
  order = order;
}

abbrev queries : List Query
queries =
    query (codes "t") (2 ∷ 0 ∷ 1 ∷ [])
    ∷ query (codes "u") (0 ∷ 1 ∷ 2 ∷ [])
    ∷ query (codes "t") (1 ∷ 2 ∷ 0 ∷ [])
    ∷ []

abbrev addons : List (LoadedAddon Text)
addons = addon ∷ addon ∷ addon ∷ []

answers-spec_example :
    answers regexps template assigned addons queries
    ≡ map (λ q. items_spec regexps template assigned q addons) queries
answers-spec_example =
    Stateless.answers-spec regexps template assigned addons queries
      ((tt, tt), ((tt, tt), ((tt, tt), tt)))
      (
        (
          (
            (λ e. absurd (omega (arith, e)), (λ e. absurd (omega (arith, e)), tt)),
            ((λ e. absurd (omega (arith, e)), tt), (tt, tt)),
          ),
          (inl refl, (inr (inr (inl refl)), (inr (inl refl), tt))),
        ),
        (
          (
            (
              (λ e. absurd (omega (arith, e)), (λ e. absurd (omega (arith, e)), tt)),
              ((λ e. absurd (omega (arith, e)), tt), (tt, tt)),
            ),
            (inr (inr (inl refl)), (inr (inl refl), (inl refl, tt))),
          ),
          (
            (
              (
                (λ e. absurd (omega (arith, e)), (λ e. absurd (omega (arith, e)), tt)),
                ((λ e. absurd (omega (arith, e)), tt), (tt, tt)),
              ),
              (inr (inl refl), (inl refl, (inr (inr (inl refl)), tt))),
            ),
            tt,
          ),
        ),
      )
