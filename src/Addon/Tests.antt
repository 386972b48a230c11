-- ===== src/Addon/Tests.antt =====
-- internal/addon/params.go: runs at concrete inputs, and the theorems at inputs that meet their
-- hypotheses.
use cifera.Base.{
  ap, sym, ◌∙◌, false≢true, text_eq_self, ◌≡◌, refl, ◌≢◌, true, List, [], ◌∷◌, All, pos, negsuc,
  Text, codes, text_eq, text_dec, itoa, lookup, insert,
}
use cifera.Value.{Value, nil, string, int, int64, bool}
use cifera.Addon.Params.{
  ParamDef, ok, err, bad_value, unsupported_type, kind_of, zero_by_type, normalize_value,
  default_value, configured_value, param_value, resolve_from, resolve_params, merge, params_for,
}
use cifera.Addon.Resolved
use cifera.Addon.Resolved.{IsResolved, Source}

program : Unit {0}
unfolding text_eq text_dec itoa lookup insert kind_of zero_by_type normalize_value default_value
    configured_value param_value resolve_from resolve_params merge params_for
program = tt

abbrev def : Text → Text → Value → ParamDef
def name type default = record { name = name; type = type; default = default; description = [] }

abbrev defs : List ParamDef
defs = def (codes "n") (codes "int") (int64 (pos 3)) ∷ def (codes "s") (codes "string") nil ∷ []

abbrev values : List (Text × Value)
values = (codes "s", int (negsuc 6)) ∷ []

abbrev resolved : List (Text × Value)
resolved = (codes "n", int (pos 3)) ∷ (codes "s", string (codes "-7")) ∷ []

runs :
    (resolve_params defs values ≡ ok resolved)
    × (resolve_params defs ((codes "n", bool true) ∷ []) ≡ err (bad_value (codes "n")))
    × (resolve_params (def (codes "x") (codes "date") nil ∷ []) []
        ≡ err (unsupported_type (codes "x")))
    × (params_for defs resolved
          ((codes "s", string (codes "g")) ∷ [])
          ((codes "s", string (codes "t")) ∷ [])
        ≡ ok ((codes "n", int (pos 3)) ∷ (codes "s", string (codes "t")) ∷ []))
unfolding program
runs = (refl, refl, refl, refl)

names_differ : codes "s" ≢ codes "n"
unfolding program
names_differ e = false≢true (ap (λ s. text_eq s (codes "s")) (sym e) ∙ text_eq_self (codes "s"))

resolve_params-IsResolved_example : All (IsResolved values resolved) defs
unfolding program
resolve_params-IsResolved_example =
    Resolved.resolve_params-IsResolved values resolved defs ((names_differ, tt), (tt, tt)) refl
