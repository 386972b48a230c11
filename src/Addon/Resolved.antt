-- ===== src/Addon/Resolved.antt =====
-- internal/addon/params.go: what ResolveParams makes of declarations and values.
use cifera.Base.{
  ◌≡◌, ◌≢◌, refl, ◌∙◌, ap, sym, subst, if_pos, if_neg, ◌⊎◌, inl, inr, true, false, none, some, List,
  [], ◌∷◌, All, IsIn, Text, text_dec, lookup, insert, lookup-insert, Bool-cases, Option-cases,
}
use cifera.Value.{Value}
use cifera.Addon.Params.{
  ParamDef, ok, zero_by_type, is_nil, normalize_value, default_value, configured_value, param_value,
  resolve_from, resolve_params,
}
use cifera.Addon.Typed.{HasType, Result-cases, ok_inj, param_value-HasType}

All-of : {A : Type 0} (P : A → Type 0) (l : List A) → ((x : A) → IsIn x l → P x) → All P l
All-of P [] f = tt
All-of P (x ∷ l) f = (f x (inl refl), All-of P l (λ y i. f y (inr i)))

-- No two declarations have one name.
abbrev pub HasDistinctNames : List ParamDef → Type 0
HasDistinctNames [] = Unit
HasDistinctNames (d ∷ ds) = All (λ (x : ParamDef). x.name ≢ d.name) ds × HasDistinctNames ds

module _ (values : List (Text × Value)) (m : List (Text × Value)) where
  resolve_from_other :
      (k : Text) (ds : List ParamDef) (acc : List (Text × Value))
      → All (λ (x : ParamDef). x.name ≢ k) ds
      → resolve_from ds values acc ≡ ok m
      → lookup text_dec k m ≡ lookup text_dec k acc
  unfolding resolve_from
  resolve_from_other k [] acc a h = ap (lookup text_dec k) (sym (ok_inj h))
  resolve_from_other k (d ∷ ds) acc (n, a) h = elim (Result-cases (param_value d values)) [
    | inr (e, bad) ↦ absurd (cc (rw (bad, resolve_from) at h))
    | inl (v, good) ↦
        resolve_from_other k ds (insert text_dec d.name v acc) a (rw (good, resolve_from) at h)
        ∙ lookup-insert text_dec d.name k v acc
        ∙ if_neg (text_dec d.name k) n (some v) (lookup text_dec k acc)
  ]

  -- A resolved parameter: it has a value of its declared type, the one that its round of the loop
  -- computed.
  pub record IsResolved (d : ParamDef) : Type 0 where
    pub value : Value
    pub computed : param_value d values ≡ ok value
    pub found : lookup text_dec d.name m ≡ some value
    pub typed : HasType d.type value

  resolve_from-IsResolved :
      (d : ParamDef) (ds : List ParamDef) (acc : List (Text × Value))
      → HasDistinctNames ds
      → IsIn d ds
      → resolve_from ds values acc ≡ ok m
      → IsResolved d
  unfolding resolve_from
  resolve_from-IsResolved d [] acc u i h = absurd i
  resolve_from-IsResolved d (x ∷ ds) acc (a, u) i h = elim (Result-cases (param_value x values)) [
    | inr (e, bad) ↦ absurd (cc (rw (bad, resolve_from) at h))
    | inl (v, good) ↦
        let rest = rw (good, resolve_from) at h in
        elim i [
          | inr later ↦ resolve_from-IsResolved d ds (insert text_dec x.name v acc) u later rest
          | inl same ↦ subst IsResolved same (record {
            value = v;
            computed = good;
            found =
                resolve_from_other x.name ds (insert text_dec x.name v acc) a rest
                ∙ lookup-insert text_dec x.name x.name v acc
                ∙ if_pos (text_dec x.name x.name) refl (some v) (lookup text_dec x.name acc);
            typed = param_value-HasType x values v good;
          })
        ]
  ]

  -- When ResolveParams succeeds on declarations of distinct names, every declared parameter has a
  -- value of its type, the one that its declaration and the configured values give.
  pub resolve_params-IsResolved :
      (defs : List ParamDef)
      → HasDistinctNames defs
      → resolve_params defs values ≡ ok m
      → All IsResolved defs
  unfolding resolve_params
  resolve_params-IsResolved defs u h =
      All-of IsResolved defs (λ d i. resolve_from-IsResolved d defs [] u i h)

-- The value of one parameter: a configured value, converted, comes before the default, and the
-- default before the zero of the type.
pub data Source (d : ParamDef) (values : List (Text × Value)) (v : Value) : Type 0 where
  configured :
      (u : Value)
      → lookup text_dec d.name values ≡ some u
      → normalize_value d.type u ≡ some v
      → Source d values v
  defaulted :
      lookup text_dec d.name values ≡ none
      → is_nil d.default ≡ false
      → normalize_value d.type d.default ≡ some v
      → Source d values v
  zeroed :
      lookup text_dec d.name values ≡ none
      → is_nil d.default ≡ true
      → zero_by_type d.type ≡ some v
      → Source d values v

default_value_inv :
    (d : ParamDef) (z v : Value)
    → zero_by_type d.type ≡ some z
    → default_value d z ≡ ok v
    → ((is_nil d.default ≡ true) × (zero_by_type d.type ≡ some v))
      ⊎ ((is_nil d.default ≡ false) × (normalize_value d.type d.default ≡ some v))
unfolding default_value
default_value_inv d z v known h = elim (Bool-cases (is_nil d.default)) [
  | inl unset ↦ inl (unset, known ∙ ap some (ok_inj (rw (unset, default_value) at h)))
  | inr set ↦ elim (Option-cases (normalize_value d.type d.default)) [
    | inl bad ↦ absurd (cc (rw (set, bad, default_value) at h))
    | inr (u, good) ↦ inr (set, good ∙ ap some (ok_inj (rw (set, good, default_value) at h)))
  ]
]

configured_value-Source :
    (d : ParamDef) (values : List (Text × Value)) (z w v : Value)
    → zero_by_type d.type ≡ some z
    → default_value d z ≡ ok w
    → configured_value d (lookup text_dec d.name values) w ≡ ok v
    → Source d values v
unfolding configured_value
configured_value-Source d values z w v known good h =
    elim (Option-cases (lookup text_dec d.name values)) [
      | inl absent ↦
          let same = ok_inj (rw (absent, configured_value) at h) in
          elim (default_value_inv d z v known (good ∙ ap ok same)) [
            | inl (unset, zero) ↦ zeroed absent unset zero
            | inr (set, value) ↦ defaulted absent set value
          ]
      | inr (u, given) ↦ elim (Option-cases (normalize_value d.type u)) [
        | inl bad ↦ absurd (cc (rw (given, bad, configured_value) at h))
        | inr (x, converted) ↦
            configured u given
              (converted ∙ ap some (ok_inj (rw (given, converted, configured_value) at h)))
      ]
    ]

-- A parameter's value comes from the configured value, else from the default, else it is the zero
-- value of the type.
pub param_value-Source :
    (d : ParamDef) (values : List (Text × Value)) (v : Value)
    → param_value d values ≡ ok v
    → Source d values v
unfolding param_value
param_value-Source d values v h = elim (Option-cases (zero_by_type d.type)) [
  | inl unknown ↦ absurd (cc (rw (unknown, param_value) at h))
  | inr (z, known) ↦ elim (Result-cases (default_value d z)) [
    | inr (e, bad) ↦ absurd (cc (rw (known, bad, param_value) at h))
    | inl (w, good) ↦
        configured_value-Source d values z w v known good (rw (known, good, param_value) at h)
  ]
]
