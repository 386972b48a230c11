-- ===== src/Addon/Rules.antt =====
-- internal/addon/addon.go: rules, addons, and the content of a rule's resource for a tenant. The
-- package regexp and the rendering of templates by text/template are parameters.
use cifera.Base.{
  if◌then◌else◌, any, ℤ, lookup, insert, Text, codes, text_eq, text_dec, is_empty, contains, ℕ,
  Bool, true, false, not, ◌&&◌, ◌||◌, Option, none, some, List, [], ◌∷◌,
}
use cifera.Value.{Value}
use cifera.Addon.Params.{ParamDef}
use cifera.Vhost.Host.{Regexps, HostConfig}

-- RenderResource on a text with `{{`; an error of the template is none.
abbrev pub Template : Type 0
Template = List ℕ → List (Text × Value) → Option (List ℕ)

abbrev pub block : Text
block = codes "block"

abbrev pub replace : Text
replace = codes "replace"

abbrev pub replace_content : Text
replace_content = codes "replace_content"

abbrev pub inject : Text
inject = codes "inject"

pub record Rule (R : Type 0) : Type 0 where
  pub patterns : List Text
  pub action : Text
  pub resource : Text
  pub status_code : ℤ
  pub position : Text
  pub at : Text
  pub relation : Text
  pub scope : Text
  pub compiled_patterns : List R
  pub raw_content : List ℕ
  pub resource_content : List ℕ
  pub resource_type : Text
  pub tenant_cache : List (Text × List ℕ)

pub record AddonMeta : Type 0 where
  pub id : Text
  pub name : Text
  pub version : Text

pub record AddonManifest (R : Type 0) : Type 0 where
  pub addon : AddonMeta
  pub params : List ParamDef
  pub rules : List (Rule R)
  pub hosts : List HostConfig

pub record LoadedAddon (R : Type 0) : Type 0 where
  pub manifest : AddonManifest R
  pub dir : Text
  pub params : List (Text × Value)
  pub global_overrides : List (Text × Value)

pub record InjectItem : Type 0 where
  pub position : Text
  pub content : List ℕ
  pub resource_type : Text
  pub addon_id : Text
  pub at : Text
  pub relation : Text
  pub scope : Text

pub record MatchResult (R : Type 0) : Type 0 where
  pub rule : Rule R
  pub addon_id : Text

unfoldable pub has_resource : {R : Type 0} → Rule R → Bool
has_resource r = not (is_empty r.resource) && not (is_empty r.resource_content)

-- RenderResource
unfoldable pub render_resource : Template → List ℕ → List (Text × Value) → Option (List ℕ)
render_resource template content params =
    if contains content (codes "{{") then template content params else some content

abbrev pub rendered_or : List ℕ → Option (List ℕ) → List ℕ
rendered_or content none = content
rendered_or content (some out) = out

abbrev pub no_params : List (Text × Value) → Bool
no_params [] = true
no_params (_ ∷ _) = false

-- ResourceContentFor, with the cache of the rule after it.
unfoldable pub resource_content_for :
    {R : Type 0} → Template → Rule R → Text → List (Text × Value) → Rule R × List ℕ
resource_content_for template r tenant_id params =
    if is_empty r.raw_content || no_params params || is_empty tenant_id
    then (r, r.resource_content)
    else (elim (lookup text_dec tenant_id r.tenant_cache) [
      | some cached ↦ (r, cached)
      | none ↦
          let rendered =
            rendered_or r.resource_content (render_resource template r.raw_content params) in
          (record r { tenant_cache = insert text_dec tenant_id rendered r.tenant_cache }, rendered)
    ])

module _ (regexps : Regexps) where
  unfoldable pub match_url : Rule regexps.Regex → Text → Bool
  match_url r url = any (λ re. regexps.match_string re url) r.compiled_patterns

unfoldable pub content_type : {R : Type 0} → Rule R → Text
content_type r =
    if text_eq r.resource_type (codes "js")
    then codes "application/javascript; charset=utf-8"
    else if text_eq r.resource_type (codes "css")
    then codes "text/css; charset=utf-8"
    else codes "application/octet-stream"
