-- ===== src/Base/Map.antt =====
-- Go maps as association lists, over keys with a decidable equality. The order of the list stands
-- for the order in which Go happens to visit the map.
use Prim.Native.Nat.{suc, ◌≤◌}
use mathlib.Core.Path.{◌≡◌, refl, sym, subst}
use mathlib.Core.Logic.{◌≢◌, ite, if_pos, if_neg}
use mathlib.Core.Option.{Option, none, some}
use mathlib.Core.List.{List, [], ◌∷◌}
use native.Mathlib.Omega.{arith}
use cifera.Base.Lists.{length, All}

module _ {ℓ} {K V : Type ℓ} (dec : Discrete K) where
  unfoldable pub lookup : K → List (K × V) → Option V
  lookup k [] = none
  lookup k ((j, v) ∷ m) = ite (dec j k) (some v) (lookup k m)

  -- `m[k] = v`
  unfoldable pub insert : K → V → List (K × V) → List (K × V)
  insert k v [] = (k, v) ∷ []
  insert k v ((j, w) ∷ m) = ite (dec j k) ((k, v) ∷ m) ((j, w) ∷ insert k v m)

  -- `delete(m, k)`
  unfoldable pub delete : K → List (K × V) → List (K × V)
  delete k [] = []
  delete k ((j, w) ∷ m) = let rest = delete k m in ite (dec j k) rest ((j, w) ∷ rest)

  pub lookup-insert :
      (k j : K) (v : V) (m : List (K × V))
      → lookup j (insert k v m) ≡ ite (dec k j) (some v) (lookup j m)
  unfolding lookup insert
  lookup-insert k j v [] = refl
  lookup-insert k j v ((i, w) ∷ m) = ground (arith, lookup-insert k j v m)

  pub lookup-delete :
      (k j : K) (m : List (K × V)) → lookup j (delete k m) ≡ ite (dec k j) none (lookup j m)
  unfolding lookup delete
  lookup-delete k j [] = ground arith
  lookup-delete k j ((i, w) ∷ m) = ground (arith, lookup-delete k j m)

module _ {ℓ} {K V : Type ℓ} where
  abbrev pub IsFresh : K → List (K × V) → Type ℓ
  IsFresh k m = All (λ e. e.0 ≢ k) m

  -- No key stands twice.
  abbrev pub IsDistinct : List (K × V) → Type ℓ
  IsDistinct [] = Unit
  IsDistinct ((k, v) ∷ m) = IsFresh k m × IsDistinct m

module _ {ℓ} {K V : Type ℓ} (dec : Discrete K) where
  IsFresh-insert :
      (i k : K) (v : V) (m : List (K × V)) → k ≢ i → IsFresh i m → IsFresh i (insert dec k v m)
  unfolding insert
  IsFresh-insert i k v [] ne h = (ne, tt)
  IsFresh-insert i k v ((j, w) ∷ m) ne (n, h) = ground (arith, IsFresh-insert i k v m ne h)

  pub insert-IsDistinct :
      (k : K) (v : V) (m : List (K × V)) → IsDistinct m → IsDistinct (insert dec k v m)
  unfolding insert
  insert-IsDistinct k v [] h = (tt, tt)
  insert-IsDistinct k v ((j, w) ∷ m) (f, h) = elim (dec j k) [
    | yes p ↦ rw (if_pos _ p) (rw p at f, h)
    | no p ↦ rw (if_neg _ p) (IsFresh-insert j k v m (λ e. p (sym e)) f, insert-IsDistinct k v m h)
  ]

  IsFresh-delete : (i k : K) (m : List (K × V)) → IsFresh i m → IsFresh i (delete dec k m)
  unfolding delete
  IsFresh-delete i k [] h = tt
  IsFresh-delete i k ((j, w) ∷ m) (n, h) = ground (arith, IsFresh-delete i k m h)

  pub delete-IsDistinct : (k : K) (m : List (K × V)) → IsDistinct m → IsDistinct (delete dec k m)
  unfolding delete
  delete-IsDistinct k [] h = tt
  delete-IsDistinct k ((j, w) ∷ m) (f, h) = elim (dec j k) [
    | yes p ↦ rw (if_pos _ p) (delete-IsDistinct k m h)
    | no p ↦ rw (if_neg _ p) (IsFresh-delete j k m f, delete-IsDistinct k m h)
  ]

  pub length-insert-le :
      (k : K) (v : V) (m : List (K × V)) → length (insert dec k v m) ≤ suc (length m)
  unfolding insert
  length-insert-le k v [] = omega arith
  length-insert-le k v ((j, w) ∷ m) = ground (arith, length-insert-le k v m)

  pub length-insert_present :
      (k : K) (v w : V) (m : List (K × V))
      → lookup dec k m ≡ some w
      → length (insert dec k v m) ≡ length m
  unfolding insert lookup
  length-insert_present k v w [] h = cc
  length-insert_present k v w ((j, x) ∷ m) h = ground (arith, length-insert_present k v w m)

  pub length-delete-le : (k : K) (m : List (K × V)) → length (delete dec k m) ≤ length m
  unfolding delete
  length-delete-le k [] = omega arith
  length-delete-le k ((j, w) ∷ m) = ground (arith, length-delete-le k m)

  pub length-delete_present :
      (k : K) (w : V) (m : List (K × V))
      → lookup dec k m ≡ some w
      → suc (length (delete dec k m)) ≤ length m
  unfolding delete lookup
  length-delete_present k w [] h = cc
  length-delete_present k w ((j, x) ∷ m) h =
      ground (arith, length-delete_present k w m, length-delete-le k m)

  pub lookup_of_IsFresh : (k : K) (m : List (K × V)) → IsFresh k m → lookup dec k m ≡ none
  unfolding lookup
  lookup_of_IsFresh k [] h = refl
  lookup_of_IsFresh k ((j, w) ∷ m) (n, h) = rw (if_neg _ n) (lookup_of_IsFresh k m h)

  IsFresh-delete_self : (k : K) (m : List (K × V)) → IsFresh k (delete dec k m)
  unfolding delete
  IsFresh-delete_self k [] = tt
  IsFresh-delete_self k ((j, w) ∷ m) = ground (arith, IsFresh-delete_self k m)

  pub length-insert_absent :
      (k : K) (v : V) (m : List (K × V))
      → lookup dec k m ≡ none
      → length (insert dec k v m) ≡ suc (length m)
  unfolding insert lookup
  length-insert_absent k v [] h = refl
  length-insert_absent k v ((j, x) ∷ m) h = ground (arith, length-insert_absent k v m)

  pub lookup-All :
      (P : K × V → Type ℓ) (k : K) (v : V) (m : List (K × V))
      → lookup dec k m ≡ some v
      → All P m
      → P (k, v)
  unfolding lookup
  lookup-All P k v [] h a = absurd (cc h)
  lookup-All P k v ((j, w) ∷ m) h (p, a) = elim (dec j k) [
    | yes e ↦ let same : ◌≡◌ {A = K × V} (j, w) (k, v) = ground arith in subst P same p
    | no n ↦ lookup-All P k v m (rw (if_neg _ n) at h) a
  ]

  pub All-insert :
      (P : K × V → Type ℓ) (k : K) (v : V) (m : List (K × V))
      → P (k, v)
      → All P m
      → All P (insert dec k v m)
  unfolding insert
  All-insert P k v [] p a = (p, tt)
  All-insert P k v ((j, w) ∷ m) p (q, a) = elim (dec j k) [
    | yes e ↦ rw (if_pos _ e) (p, a)
    | no n ↦ rw (if_neg _ n) (q, All-insert P k v m p a)
  ]

  pub All-delete :
      (P : K × V → Type ℓ) (k : K) (m : List (K × V)) → All P m → All P (delete dec k m)
  unfolding delete
  All-delete P k [] a = tt
  All-delete P k ((j, w) ∷ m) (q, a) = ground (arith, All-delete P k m a)
