-- ===== src/Addon/Loader.antt =====
-- internal/addon/loader.go: which addons are loaded from a directory. The file system, TOML and the
-- package regexp are parameters.
use cifera.Base.{
  leb, if◌then◌else◌, any, ℤ, pos, negsuc, Text, codes, text_eq, is_empty, to_lower, trim_prefix,
  zero, suc, ◌⊎◌, inl, inr, Bool, true, false, not, ◌&&◌, ◌||◌, Option, none, some, List, [], ◌∷◌,
}
use cifera.Value.{Value}
use cifera.Addon.Params.{ParamDef, zero_by_type}
use cifera.Addon.Rules.{
  Template, block, replace, replace_content, inject, Rule, has_resource, render_resource,
  rendered_or,
}
use cifera.Vhost.Path.{join_path}
use cifera.Vhost.Url.{Url}
use cifera.Vhost.Local.{FileData, ext, no_file, no_access, bytes}
use cifera.Vhost.Host.{
  Regexps, HostConfig, HostError, local_type, remote_type, override, fallback, is_blank, and_then,
  or_error, checked_remote, no_name, name_with_space, invalid_type, invalid_priority,
  bad_fallback_status, no_path, no_remote, bad_remote,
}

pub data AddonError : Type 0 where
  unreadable_file : AddonError
  bad_toml : AddonError
  no_id : AddonError
  no_addon_name : AddonError
  no_version : AddonError
  nothing_declared : AddonError
  no_param_name : AddonError
  repeated_param : AddonError
  bad_param_type : AddonError
  no_pattern : AddonError
  bad_pattern : AddonError
  bad_action : AddonError
  bad_status : AddonError
  needs_resource : AddonError
  bad_resource_type : AddonError
  position_or_at : AddonError
  bad_relation : AddonError
  bad_scope : AddonError
  bad_position : AddonError
  bad_host : HostError → AddonError

abbrev pub js : Text
js = codes "js"

abbrev pub css : Text
css = codes "css"

-- The text is one of these.
abbrev pub one_among : Text → List Text → Bool
one_among t options = any (λ o. text_eq t o) options

abbrev pub actions : List Text
actions = block ∷ replace ∷ replace_content ∷ inject ∷ []

abbrev pub relations : List Text
relations = codes "before" ∷ codes "after" ∷ codes "prepend" ∷ codes "append" ∷ []

abbrev pub positions : List Text
positions = codes "head_start" ∷ codes "head_end" ∷ codes "body_start" ∷ codes "body_end" ∷ []

abbrev pub first : Text
first = codes "first"

abbrev pub all_hits : Text
all_hits = codes "all"

unfoldable pub detect_resource_type : Text → Text
detect_resource_type filename =
    let e = to_lower (ext filename) in
    if text_eq e (codes ".js") || text_eq e (codes ".mjs")
    then js
    else if text_eq e (codes ".css")
    then css
    else codes "other"

-- The names seen so far; then the type of each parameter.
unfoldable pub validate_params_from : List Text → List ParamDef → Option AddonError
validate_params_from seen [] = none
validate_params_from seen (p ∷ ps) =
    let rest = validate_params_from (p.name ∷ seen) ps in
    if is_empty p.name
    then some no_param_name
    else if one_among p.name seen
    then some repeated_param
    else (elim (zero_by_type p.type) [ none ↦ some bad_param_type | some v ↦ rest ])

unfoldable pub validate_params : List ParamDef → Option AddonError
validate_params ps = validate_params_from [] ps

abbrev pub is_status : ℤ → Bool
is_status (pos n) = leb 100 n && leb n 599
is_status (negsuc n) = false

abbrev pub is_zero_status : ℤ → Bool
is_zero_status (pos zero) = true
is_zero_status (pos (suc n)) = false
is_zero_status (negsuc n) = false

module _ {R : Type 0} where
  -- The default is written to the manifest, and the test is on the copy of the loop.
  unfoldable pub validate_block : Rule R → AddonError ⊎ Rule R
  validate_block r =
      let kept = if is_zero_status r.status_code then record r { status_code = pos 404 } else r in
      if not (is_status r.status_code) then inl bad_status else inr kept

  unfoldable pub validate_selector : Rule R → AddonError ⊎ Rule R
  validate_selector r =
      if not (one_among r.relation relations)
      then inl bad_relation
      else if is_empty r.scope
      then inr (record r { scope = if text_eq r.resource_type css then all_hits else first })
      else if not (text_eq r.scope first) && not (text_eq r.scope all_hits)
      then inl bad_scope
      else inr r

  unfoldable pub validate_inject : Rule R → AddonError ⊎ Rule R
  validate_inject r =
      if not (has_resource r)
      then inl needs_resource
      else if not (text_eq r.resource_type js) && not (text_eq r.resource_type css)
      then inl bad_resource_type
      else if is_empty r.position && is_empty r.at
          || not (is_empty r.position) && not (is_empty r.at)
      then inl position_or_at
      else if not (is_empty r.at)
      then validate_selector r
      else if not (one_among r.position positions)
      then inl bad_position
      else inr r

  unfoldable pub validate_rule : Rule R → AddonError ⊎ Rule R
  validate_rule r =
      if text_eq r.action block
      then validate_block r
      else if text_eq r.action replace || text_eq r.action replace_content
      then (if not (has_resource r) then inl needs_resource else inr r)
      else if text_eq r.action inject
      then validate_inject r
      else inr r

  unfoldable pub validate_rules : List (Rule R) → AddonError ⊎ List (Rule R)
  validate_rules [] = inr []
  validate_rules (r ∷ rs) =
      and_then (validate_rule r) (λ r'. and_then (validate_rules rs) (λ rs'. inr (r' ∷ rs')))

module _ (regexps : Regexps) where
  unfoldable pub compile_patterns : List Text → AddonError ⊎ List regexps.Regex
  compile_patterns [] = inr []
  compile_patterns (p ∷ ps) =
      and_then (or_error bad_pattern (regexps.compile p))
        (λ re. and_then (compile_patterns ps) (λ res. inr (re ∷ res)))

  -- The resource of a rule, as it was read from its file.
  unfoldable pub with_resource :
      Template
      → List (Text × Value)
      → Rule regexps.Regex
      → FileData
      → AddonError ⊎ Rule regexps.Regex
  with_resource template params r no_file = inl unreadable_file
  with_resource template params r no_access = inl unreadable_file
  with_resource template params r (bytes content) = inr (record r {
    resource_content = rendered_or content (render_resource template content params);
    raw_content = content;
    resource_type = detect_resource_type r.resource;
    tenant_cache = [];
  })

  unfoldable pub compile_with :
      Template
      → (Text → FileData)
      → Text
      → List (Text × Value)
      → Rule regexps.Regex
      → List Text
      → AddonError ⊎ Rule regexps.Regex
  compile_with template read_file addon_dir params r [] = inl no_pattern
  compile_with template read_file addon_dir params r (p ∷ ps) =
      and_then (compile_patterns (p ∷ ps)) (λ res.
        let r' = record r { compiled_patterns = res } in
        if not (one_among r.action actions)
        then inl bad_action
        else if is_empty r.resource
        then inr r'
        else with_resource template params r' (read_file (join_path addon_dir r.resource)))

  unfoldable pub compile_rule :
      Template
      → (Text → FileData)
      → Text
      → List (Text × Value)
      → Rule regexps.Regex
      → AddonError ⊎ Rule regexps.Regex
  compile_rule template read_file addon_dir params r =
      compile_with template read_file addon_dir params r r.patterns

  unfoldable pub compile_rules :
      Template
      → (Text → FileData)
      → Text
      → List (Text × Value)
      → List (Rule regexps.Regex)
      → AddonError ⊎ List (Rule regexps.Regex)
  compile_rules template read_file addon_dir params [] = inr []
  compile_rules template read_file addon_dir params (r ∷ rs) =
      and_then (compile_rule template read_file addon_dir params r) (λ r'.
        and_then (compile_rules template read_file addon_dir params rs) (λ rs'. inr (r' ∷ rs')))

  abbrev pub lift_host : {A : Type 0} → HostError ⊎ A → AddonError ⊎ A
  lift_host (inl e) = inl (bad_host e)
  lift_host (inr x) = inr x

  -- The fields of a host; the directory is looked at later, by compileHost.
  unfoldable pub validate_remote : (Text → Option Url) → HostConfig → HostError ⊎ Unit {0}
  validate_remote parse hc =
      if not (text_eq hc.host_type remote_type)
      then inr tt
      else if is_empty hc.remote
      then inl no_remote
      else and_then (or_error bad_remote (parse hc.remote))
          (λ u. and_then (checked_remote u) (λ v. inr tt))

  unfoldable pub validate_status : HostConfig → HostError ⊎ Unit {0}
  validate_status hc =
      if text_eq hc.priority fallback && not (is_empty hc.fallback_status)
      then and_then
          (or_error bad_fallback_status
            (regexps.compile (trim_prefix hc.fallback_status (codes "!"))))
          (λ re. inr tt)
      else inr tt

  unfoldable pub validate_host : (Text → Option Url) → HostConfig → HostError ⊎ Unit {0}
  validate_host parse hc =
      if is_empty hc.name
      then inl no_name
      else if any is_blank hc.name
      then inl name_with_space
      else if not (text_eq hc.host_type local_type) && not (text_eq hc.host_type remote_type)
      then inl invalid_type
      else if not (text_eq hc.priority override) && not (text_eq hc.priority fallback)
      then inl invalid_priority
      else if text_eq hc.host_type local_type && is_empty hc.path
      then inl no_path
      else and_then (validate_remote parse hc) (λ u. validate_status hc)

  unfoldable pub validate_hosts : (Text → Option Url) → List HostConfig → HostError ⊎ Unit {0}
  validate_hosts parse [] = inr tt
  validate_hosts parse (hc ∷ hcs) =
      and_then (validate_host parse hc) (λ u. validate_hosts parse hcs)
