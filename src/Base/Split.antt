-- ===== src/Base/Split.antt =====
-- What is split is what was joined.
use Prim.Native.Nat.{ℕ}
use mathlib.Core.Path.{◌≡◌, refl, ap, ◌∙◌}
use mathlib.Core.Bool.{Bool, true, false}
use mathlib.Core.Logic.{inl, inr}
use mathlib.Core.List.{List, [], ◌∷◌, ◌++◌}
use native.Mathlib.Omega.{arith}
use cifera.Base.Tests.{◌==◌, Bool-cases}
use cifera.Base.Lists.{All, keep}
use cifera.Base.Strings.{Text, split_step, split, join}

-- The byte does not stand in the text.
abbrev pub Lacks : ℕ → Text → Type 0
Lacks sep s = All (λ c. (c == sep) ≡ false) s

-- Texts that are never none.
abbrev pub or_blank : List Text → List Text
or_blank [] = [] ∷ []
or_blank (p ∷ ps) = p ∷ ps

split_step-Lacks :
    (b : Bool) (sep c : ℕ) (parts : List Text)
    → (c == sep) ≡ b
    → All (Lacks sep) parts
    → All (Lacks sep) (split_step b c parts)
split_step-Lacks true sep c parts e h = (tt, h)
split_step-Lacks false sep c [] e h = ((e, tt), tt)
split_step-Lacks false sep c (p ∷ ps) e (h, hs) = ((e, h), hs)

pub split-Lacks : (sep : ℕ) (s : Text) → All (Lacks sep) (split sep s)
unfolding split
split-Lacks sep [] = (tt, tt)
split-Lacks sep (c ∷ s) = split_step-Lacks (c == sep) sep c (split sep s) refl (split-Lacks sep s)

split_plain : (sep : ℕ) (s : Text) → Lacks sep s → split sep s ≡ s ∷ []
unfolding split
split_plain sep [] h = refl
split_plain sep (c ∷ s) (e, h) = rw (e, split_plain sep s h)

split-append : (sep : ℕ) (s t : Text) → Lacks sep s → split sep (s ++ (sep ∷ t)) ≡ s ∷ split sep t
unfolding split
split-append sep [] t h = ground arith
split-append sep (c ∷ s) t (e, h) = rw (e, split-append sep s t h)

pub split-join :
    (sep : ℕ) (parts : List Text)
    → All (Lacks sep) parts
    → split sep (join (sep ∷ []) parts) ≡ or_blank parts
unfolding join split
split-join sep [] h = refl
split-join sep (p ∷ []) (h, hs) = split_plain sep p h
split-join sep (p ∷ q ∷ ps) (h, hs) =
    split-append sep p (join (sep ∷ []) (q ∷ ps)) h ∙ ap (◌∷◌ p) (split-join sep (q ∷ ps) hs)

pub All-keep {ℓ κ} :
    {A : Type ℓ} (P : A → Type κ) (p : A → Bool) (xs : List A) → All P xs → All P (keep p xs)
All-keep P p [] h = tt
All-keep P p (x ∷ xs) (h, hs) = elim (Bool-cases (p x)) [
  | inl there ↦ rw (there, keep) (h, All-keep P p xs hs)
  | inr left ↦ rw (left, keep) (All-keep P p xs hs)
]
