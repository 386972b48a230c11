-- ===== src/Addon/Typed.antt =====
-- internal/addon/params.go: every value has the declared type of its parameter.
use cifera.Base.{
  ◌≡◌, refl, ◌∙◌, ap, sym, subst, ◌⊎◌, inl, inr, Bool, false, Option, none, some, List, [], ℤ, Text,
  text_dec, lookup, eq_of_some, Bool-cases, Option-cases,
}
use cifera.Value.{Value, nil, string, int, int64, float64, bool, other}
use cifera.Addon.Params.{
  ParamDef, ParamError, Result, ok, err, Kind, string_kind, int_kind, bool_kind, json_kind, kind_of,
  zero_by_type, is_nil, normalize_kind, normalize_value, default_value, configured_value,
  param_value,
}

-- A value of the type.
pub data IsOf : Kind → Value → Type 0 where
  of_string : {v : Value} (s : Text) → v ≡ string s → IsOf string_kind v
  of_int : {v : Value} (n : ℤ) → v ≡ int n → IsOf int_kind v
  of_bool : {v : Value} (b : Bool) → v ≡ bool b → IsOf bool_kind v
  of_json : (v : Value) → IsOf json_kind v

pub record HasType (t : Text) (v : Value) : Type 0 where
  pub kind : Kind
  pub supported : kind_of t ≡ some kind
  pub typed : IsOf kind v

normalize_kind-IsOf : (k : Kind) (u v : Value) → normalize_kind k u ≡ some v → IsOf k v
normalize_kind-IsOf string_kind (string s) v h = of_string s (sym (eq_of_some h))
normalize_kind-IsOf string_kind (int n) v h = of_string _ (sym (eq_of_some h))
normalize_kind-IsOf string_kind (int64 n) v h = of_string _ (sym (eq_of_some h))
normalize_kind-IsOf string_kind (float64 w s) v h = of_string _ (sym (eq_of_some h))
normalize_kind-IsOf string_kind (bool b) v h = of_string _ (sym (eq_of_some h))
normalize_kind-IsOf string_kind nil v h = absurd (cc h)
normalize_kind-IsOf string_kind (other s) v h = absurd (cc h)
normalize_kind-IsOf int_kind (int n) v h = of_int n (sym (eq_of_some h))
normalize_kind-IsOf int_kind (int64 n) v h = of_int n (sym (eq_of_some h))
normalize_kind-IsOf int_kind (float64 (some n) s) v h = of_int n (sym (eq_of_some h))
normalize_kind-IsOf int_kind (float64 none s) v h = absurd (cc h)
normalize_kind-IsOf int_kind nil v h = absurd (cc h)
normalize_kind-IsOf int_kind (string s) v h = absurd (cc h)
normalize_kind-IsOf int_kind (bool b) v h = absurd (cc h)
normalize_kind-IsOf int_kind (other s) v h = absurd (cc h)
normalize_kind-IsOf bool_kind (bool b) v h = of_bool b (sym (eq_of_some h))
normalize_kind-IsOf bool_kind nil v h = absurd (cc h)
normalize_kind-IsOf bool_kind (string s) v h = absurd (cc h)
normalize_kind-IsOf bool_kind (int n) v h = absurd (cc h)
normalize_kind-IsOf bool_kind (int64 n) v h = absurd (cc h)
normalize_kind-IsOf bool_kind (float64 w s) v h = absurd (cc h)
normalize_kind-IsOf bool_kind (other s) v h = absurd (cc h)
normalize_kind-IsOf json_kind u v h = of_json v

normalize_value-HasType : (t : Text) (u v : Value) → normalize_value t u ≡ some v → HasType t v
unfolding normalize_value
normalize_value-HasType t u v h = elim (Option-cases (kind_of t)) [
  | inl unknown ↦ absurd (cc (rw (unknown, normalize_value) at h))
  | inr (k, known) ↦ record {
    kind = k;
    supported = known;
    typed = normalize_kind-IsOf k u v (rw (known, normalize_value) at h);
  }
]

zero_by_type-HasType : (t : Text) (v : Value) → zero_by_type t ≡ some v → HasType t v
unfolding zero_by_type
zero_by_type-HasType t v h = elim (Option-cases (kind_of t)) [
  | inl unknown ↦ absurd (cc (rw (unknown, zero_by_type) at h))
  | inr (string_kind, known) ↦ record {
    kind = string_kind;
    supported = known;
    typed = of_string [] (sym (eq_of_some (rw (known, zero_by_type) at h)));
  }
  | inr (int_kind, known) ↦ record {
    kind = int_kind;
    supported = known;
    typed = of_int _ (sym (eq_of_some (rw (known, zero_by_type) at h)));
  }
  | inr (bool_kind, known) ↦ record {
    kind = bool_kind;
    supported = known;
    typed = of_bool false (sym (eq_of_some (rw (known, zero_by_type) at h)));
  }
  | inr (json_kind, known) ↦ record { kind = json_kind; supported = known; typed = of_json v }
]

pub Result-cases :
    {A : Type 0} (r : Result A) → ((a : A) × (r ≡ ok a)) ⊎ ((e : ParamError) × (r ≡ err e))
Result-cases (ok a) = inl (a, refl)
Result-cases (err e) = inr (e, refl)

abbrev ok_or : {A : Type 0} → A → Result A → A
ok_or a (ok b) = b
ok_or a (err e) = a

pub ok_inj : {A : Type 0} {a b : A} → ok a ≡ ok b → a ≡ b
ok_inj {a = a} e = ap (ok_or a) e

default_value-HasType :
    (d : ParamDef) (z v : Value) → HasType d.type z → default_value d z ≡ ok v → HasType d.type v
unfolding default_value
default_value-HasType d z v hz h = elim (Bool-cases (is_nil d.default)) [
  | inl unset ↦ subst (HasType d.type) (ok_inj (rw (unset, default_value) at h)) hz
  | inr set ↦ elim (Option-cases (normalize_value d.type d.default)) [
    | inl bad ↦ absurd (cc (rw (set, bad, default_value) at h))
    | inr (u, good) ↦
        normalize_value-HasType d.type d.default v
          (good ∙ ap some (ok_inj (rw (set, good, default_value) at h)))
  ]
]

configured_value-HasType :
    (d : ParamDef) (o : Option Value) (w v : Value)
    → HasType d.type w
    → configured_value d o w ≡ ok v
    → HasType d.type v
unfolding configured_value
configured_value-HasType d none w v hw h = subst (HasType d.type) (ok_inj h) hw
configured_value-HasType d (some u) w v hw h = elim (Option-cases (normalize_value d.type u)) [
  | inl bad ↦ absurd (cc (rw (bad, configured_value) at h))
  | inr (x, good) ↦
      normalize_value-HasType d.type u v
        (good ∙ ap some (ok_inj (rw (good, configured_value) at h)))
]

pub param_value-HasType :
    (d : ParamDef) (values : List (Text × Value)) (v : Value)
    → param_value d values ≡ ok v
    → HasType d.type v
unfolding param_value
param_value-HasType d values v h = elim (Option-cases (zero_by_type d.type)) [
  | inl unknown ↦ absurd (cc (rw (unknown, param_value) at h))
  | inr (z, known) ↦ elim (Result-cases (default_value d z)) [
    | inr (e, bad) ↦ absurd (cc (rw (known, bad, param_value) at h))
    | inl (w, good) ↦
        configured_value-HasType d (lookup text_dec d.name values) w v
          (default_value-HasType d z w (zero_by_type-HasType d.type z known) good)
          (rw (known, good, param_value) at h)
  ]
]
