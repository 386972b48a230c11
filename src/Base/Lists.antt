-- ===== src/Base/Lists.antt =====
-- Lists measured by native numbers, predicates on their elements, and Boolean searches.
use Prim.Native.Nat.{ℕ, zero, suc, ◌+◌}
use mathlib.Core.Path.{◌≡◌, refl, ap, ◌∙◌, subst}
use mathlib.Core.Logic.{◌⊎◌, ◌↔◌, inl, inr}
use mathlib.Core.Bool.{Bool, true, false, ◌&&◌, ◌||◌}
use mathlib.Core.List.{List, [], ◌∷◌, ◌++◌, map}
use native.Mathlib.Omega.{arith}

module _ {ℓ} {A : Type ℓ} where
  abbrev pub length : List A → ℕ
  length [] = 0
  length (x ∷ xs) = suc (length xs)

  abbrev pub take : ℕ → List A → List A
  take zero xs = []
  take (suc n) [] = []
  take (suc n) (x ∷ xs) = x ∷ take n xs

  abbrev pub drop : ℕ → List A → List A
  drop zero xs = xs
  drop (suc n) [] = []
  drop (suc n) (x ∷ xs) = drop n xs

  pub length-append : (xs ys : List A) → length (xs ++ ys) ≡ length xs + length ys
  length-append [] ys = omega arith
  length-append (x ∷ xs) ys = omega (arith, length-append xs ys)

  abbrev pub any : (A → Bool) → List A → Bool
  any p [] = false
  any p (x ∷ xs) = p x || any p xs

  abbrev pub all : (A → Bool) → List A → Bool
  all p [] = true
  all p (x ∷ xs) = p x && all p xs

-- The elements that pass a test, in order.
abbrev pub keep {ℓ} : {A : Type ℓ} → (A → Bool) → List A → List A
keep p [] = []
keep p (x ∷ xs) = let rest = keep p xs in elim (p x) [ true ↦ x ∷ rest | false ↦ rest ]

abbrev pub All {ℓ κ} : {A : Type ℓ} → (A → Type κ) → List A → Type κ
All P [] = Unit
All P (x ∷ xs) = P x × All P xs

pub All-append {ℓ κ} :
    {A : Type ℓ} (P : A → Type κ) (xs ys : List A) → All P xs → All P ys → All P (xs ++ ys)
All-append P [] ys h k = k
All-append P (x ∷ xs) ys h k = (h.0, All-append P xs ys h.1 k)

pub All-map {ℓ κ} :
    {A : Type ℓ} (P Q : A → Type κ) (xs : List A) → ((x : A) → P x → Q x) → All P xs → All Q xs
All-map P Q [] f h = h
All-map P Q (x ∷ xs) f h = (f x h.0, All-map P Q xs f h.1)

-- Membership, with its place.
abbrev pub IsIn : {A : Type 0} → A → List A → Type 0
IsIn x [] = ⊥
IsIn x (y ∷ l) = (y ≡ x) ⊎ IsIn x l

module _ {A : Type 0} (x : A) where
  pub IsIn-append : (xs ys : List A) → IsIn x (xs ++ ys) → IsIn x xs ⊎ IsIn x ys
  IsIn-append [] ys m = inr m
  IsIn-append (z ∷ xs) ys (inl e) = inl (inl e)
  IsIn-append (z ∷ xs) ys (inr m) = elim (IsIn-append xs ys m) [
    | inl l ↦ inl (inr l)
    | inr r ↦ inr r
  ]

  pub append-IsIn_left : (xs ys : List A) → IsIn x xs → IsIn x (xs ++ ys)
  append-IsIn_left [] ys m = absurd m
  append-IsIn_left (z ∷ xs) ys (inl e) = inl e
  append-IsIn_left (z ∷ xs) ys (inr m) = inr (append-IsIn_left xs ys m)

  pub append-IsIn_right : (xs ys : List A) → IsIn x ys → IsIn x (xs ++ ys)
  append-IsIn_right [] ys m = m
  append-IsIn_right (z ∷ xs) ys m = inr (append-IsIn_right xs ys m)

  pub All-IsIn {κ} : (P : A → Type κ) (l : List A) → IsIn x l → All P l → P x
  All-IsIn P [] m h = absurd m
  All-IsIn P (y ∷ l) (inl e) (p, h) = subst P e p
  All-IsIn P (y ∷ l) (inr m) (p, h) = All-IsIn P l m h

  pub IsIn-keep : (p : A → Bool) (l : List A) → IsIn x (keep p l) ↔ (IsIn x l × (p x ≡ true))
  IsIn-keep p [] = (λ m. absurd m, λ m. m.0)
  IsIn-keep p (y ∷ l) = ground (arith, IsIn-keep p l)

module _ {A B : Type 0} (f : A → B) (y : B) where
  pub IsIn-map : (l : List A) → IsIn y (map f l) → (x : A) × IsIn x l × (f x ≡ y)
  IsIn-map [] m = absurd m
  IsIn-map (z ∷ l) (inl e) = (z, inl refl, e)
  IsIn-map (z ∷ l) (inr m) = let (x, i, e) = IsIn-map l m in (x, inr i, e)

  pub map-IsIn : (x : A) (l : List A) → IsIn x l → f x ≡ y → IsIn y (map f l)
  map-IsIn x [] m e = absurd m
  map-IsIn x (z ∷ l) (inl same) e = inl (ap f same ∙ e)
  map-IsIn x (z ∷ l) (inr m) e = inr (map-IsIn x l m e)
