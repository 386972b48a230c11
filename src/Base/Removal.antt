-- ===== src/Base/Removal.antt =====
-- A list without some of its elements.
use mathlib.Core.Path.{◌≡◌, sym, ◌∙◌}
use mathlib.Core.Bool.{Bool, false, false≢true}
use mathlib.Core.Logic.{inl, inr}
use mathlib.Core.List.{List, [], ◌∷◌}
use cifera.Base.Tests.{Bool-cases}
use cifera.Base.Lists.{keep}

-- The second list is the first without the elements that are so, in their order.
pub data Without {ℓ} {A : Type ℓ} (P : A → Type 0) : List A → List A → Type ℓ where
  nothing : Without P [] []
  dropped : {x : A} {xs ys : List A} → P x → Without P xs ys → Without P (x ∷ xs) ys
  kept : {x : A} {xs ys : List A} → ¬ P x → Without P xs ys → Without P (x ∷ xs) (x ∷ ys)

pub keep-Without {ℓ} :
    {A : Type ℓ} (P : A → Type 0) (p : A → Bool) (xs : List A)
    → ((x : A) → p x ≡ false → P x)
    → ((x : A) → P x → p x ≡ false)
    → Without P xs (keep p xs)
keep-Without P p [] sound complete = nothing
keep-Without P p (x ∷ xs) sound complete = elim (Bool-cases (p x)) [
  | inl there ↦
      rw (there, keep)
        (kept (λ h. false≢true (sym (complete x h) ∙ there)) (keep-Without P p xs sound complete))
  | inr gone ↦ rw (gone, keep) (dropped (sound x gone) (keep-Without P p xs sound complete))
]
