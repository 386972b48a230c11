-- ===== src/Base/Substrings.antt =====
-- What the tests on substrings mean.
use mathlib.Core.Path.{◌≡◌, refl, ap, ap₂, sym, ◌∙◌, subst}
use mathlib.Core.Bool.{true}
use mathlib.Core.Logic.{◌↔◌, inl, inr}
use mathlib.Core.List.{[], ◌∷◌, ◌++◌, reverse, reverse-append, reverse-reverse}
use native.Mathlib.Omega.{arith}
use cifera.Base.Tests.{Bool-cases}
use cifera.Base.Strings.{Text, has_prefix, has_suffix, contains}

-- `sub` stands somewhere in `s`.
pub record Occurs (sub s : Text) : Type 0 where
  pub before : Text
  pub after : Text
  pub parts : s ≡ before ++ (sub ++ after)

pub has_prefix_self : (p s : Text) → has_prefix (p ++ s) p ≡ true
unfolding has_prefix
has_prefix_self [] [] = refl
has_prefix_self [] (c ∷ s) = refl
has_prefix_self (c ∷ p) s = ground (arith, has_prefix_self p s)

pub has_prefix_sound : (s p : Text) → has_prefix s p ≡ true → (rest : Text) × (s ≡ p ++ rest)
unfolding has_prefix
has_prefix_sound s [] h = (s, refl)
has_prefix_sound [] (q ∷ p) h = absurd (cc h)
has_prefix_sound (c ∷ s) (q ∷ p) h =
    let (rest, e) = has_prefix_sound s p (ground arith) in (rest, ap₂ ◌∷◌ (ground arith) e)

contains_sound : (s sub : Text) → contains s sub ≡ true → Occurs sub s
unfolding contains
contains_sound [] sub h =
    let (rest, e) = has_prefix_sound [] sub h in record { before = []; after = rest; parts = e }
contains_sound (c ∷ s) sub h = elim (Bool-cases (has_prefix (c ∷ s) sub)) [
  | inl here ↦
      let (rest, e) = has_prefix_sound (c ∷ s) sub here in
      record { before = []; after = rest; parts = e }
  | inr later ↦
      let o = contains_sound s sub (rw later at h) in
      record { before = c ∷ o.before; after = o.after; parts = ap (◌∷◌ c) o.parts }
]

contains_here : (s sub : Text) → has_prefix s sub ≡ true → contains s sub ≡ true
unfolding contains
contains_here [] sub h = h
contains_here (c ∷ s) sub h = rw h

contains_complete : (before sub after : Text) → contains (before ++ (sub ++ after)) sub ≡ true
unfolding contains
contains_complete [] sub after = contains_here (sub ++ after) sub (has_prefix_self sub after)
contains_complete (c ∷ before) sub after = ground (arith, contains_complete before sub after)

-- strings.Contains finds exactly the texts that occur.
pub contains_iff : (s sub : Text) → (contains s sub ≡ true) ↔ Occurs sub s
contains_iff s sub =
    (contains_sound s sub, λ o. rw o.parts (contains_complete o.before sub o.after))

-- strings.HasPrefix and strings.HasSuffix
pub has_prefix_iff : (s p : Text) → (has_prefix s p ≡ true) ↔ ((rest : Text) × (s ≡ p ++ rest))
has_prefix_iff s p = (has_prefix_sound s p, λ (r, e). rw e (has_prefix_self p r))

pub has_suffix_iff : (s p : Text) → (has_suffix s p ≡ true) ↔ ((front : Text) × (s ≡ front ++ p))
unfolding has_suffix
has_suffix_iff s p = (
  λ h.
      let (r, e) = has_prefix_sound (reverse s) (reverse p) h in
      (
        reverse r,
        sym (reverse-reverse s)
            ∙ ap reverse e
            ∙ reverse-append (reverse p) r
            ∙ ap (λ x. reverse r ++ x) (reverse-reverse p),
      ),
  λ (f, e).
      subst (λ x. has_prefix x (reverse p) ≡ true) (sym (ap reverse e ∙ reverse-append f p))
        (has_prefix_self (reverse p) (reverse f)),
)
