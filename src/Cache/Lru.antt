-- ===== src/Cache/Lru.antt =====
-- internal/cache/cache.go: the LRU list. Removing by identity, the last element, sums of sizes.
use cifera.Base.{
  ℕ, zero, suc, ◌+◌, ◌≡◌, refl, ap, sym, ◌∙◌, subst, ◌≢◌, ◌⊎◌, inl, inr, ite, if_pos, if_neg,
  Option, none, some, List, [], ◌∷◌, length, take, All, Text, text_dec, arith,
}
use cifera.Cache.State.{Element, list_remove, back}

abbrev pub IsIn : Element → List Element → Type 0
IsIn x [] = ⊥
IsIn x (y ∷ l) = (y ≡ x) ⊎ IsIn x l

unfoldable pub find_key : Text → List Element → Option Element
find_key k [] = none
find_key k (x ∷ l) = ite (text_dec x.value.key k) (some x) (find_key k l)

unfoldable pub total : List Element → ℕ
total [] = 0
total (x ∷ l) = x.value.size + total l

abbrev pub NoKey : Text → List Element → Type 0
NoKey k = All (λ x. x.value.key ≢ k)

abbrev pub NoId : ℕ → List Element → Type 0
NoId i = All (λ x. x.id ≢ i)

-- No key and no identity stands twice.
abbrev pub IsUnique : List Element → Type 0
IsUnique [] = Unit
IsUnique (x ∷ l) = NoKey x.value.key l × NoId x.id l × IsUnique l

pub All-IsIn {κ} :
    (P : Element → Type κ) (x : Element) (l : List Element) → IsIn x l → All P l → P x
All-IsIn P x [] m h = absurd m
All-IsIn P x (y ∷ l) (inl e) (p, h) = subst P e p
All-IsIn P x (y ∷ l) (inr m) (p, h) = All-IsIn P x l m h

NoKey-IsIn : (k : Text) (x : Element) (l : List Element) → NoKey k l → IsIn x l → x.value.key ≢ k
NoKey-IsIn k x l h m = All-IsIn (λ y. y.value.key ≢ k) x l m h

NoId-IsIn : (i : ℕ) (x : Element) (l : List Element) → NoId i l → IsIn x l → x.id ≢ i
NoId-IsIn i x l h m = All-IsIn (λ y. y.id ≢ i) x l m h

pub find_key_sound :
    (k : Text) (x : Element) (l : List Element)
    → find_key k l ≡ some x
    → IsIn x l × (x.value.key ≡ k)
unfolding find_key
find_key_sound k x [] h = cc
find_key_sound k x (y ∷ l) h = elim (text_dec y.value.key k) [
  | yes p ↦ ground arith
  | no p ↦ let (m, e) = find_key_sound k x l (rw (if_neg _ p) at h) in (inr m, e)
]

pub find_key-NoKey : (k : Text) (l : List Element) → find_key k l ≡ none → NoKey k l
unfolding find_key
find_key-NoKey k [] h = tt
find_key-NoKey k (y ∷ l) h = ground (arith, find_key-NoKey k l)

pub NoKey-find_key : (k : Text) (l : List Element) → NoKey k l → find_key k l ≡ none
unfolding find_key
NoKey-find_key k [] h = refl
NoKey-find_key k (y ∷ l) (n, h) = rw (if_neg _ n) (NoKey-find_key k l h)

pub back-IsIn : (x : Element) (l : List Element) → back l ≡ some x → IsIn x l
unfolding back
back-IsIn x [] h = cc
back-IsIn x (y ∷ []) h = ground arith
back-IsIn x (y ∷ z ∷ l) h = inr (back-IsIn x (z ∷ l) h)

pub back-eq-none : (l : List Element) → back l ≡ none → l ≡ []
unfolding back
back-eq-none [] h = refl
back-eq-none (y ∷ []) h = cc
back-eq-none (y ∷ z ∷ l) h = absurd (cc (back-eq-none (z ∷ l) h))

pub list_remove_self : (x y : Element) (l : List Element) → y ≡ x → list_remove x.id (y ∷ l) ≡ l
unfolding list_remove
list_remove_self x y l e = ground arith

pub list_remove_ne :
    (i : ℕ) (y : Element) (l : List Element)
    → y.id ≢ i
    → list_remove i (y ∷ l) ≡ y ∷ list_remove i l
unfolding list_remove
list_remove_ne i y l e = ground arith

pub All-list_remove {κ} :
    (P : Element → Type κ) (i : ℕ) (l : List Element) → All P l → All P (list_remove i l)
unfolding list_remove
All-list_remove P i [] h = h
All-list_remove P i (y ∷ l) (p, h) = ground (arith, All-list_remove P i l h)

pub list_remove-IsUnique : (i : ℕ) (l : List Element) → IsUnique l → IsUnique (list_remove i l)
unfolding list_remove
list_remove-IsUnique i [] h = h
list_remove-IsUnique i (y ∷ l) (k, n, h) = ground (
  arith,
  list_remove-IsUnique i l h,
  All-list_remove (λ x. x.value.key ≢ y.value.key) i l k,
  All-list_remove (λ x. x.id ≢ y.id) i l n,
)

module _ (x : Element) where
  pub find_key-list_remove :
      (k : Text) (l : List Element)
      → IsIn x l
      → IsUnique l
      → find_key k (list_remove x.id l) ≡ ite (text_dec x.value.key k) none (find_key k l)
  unfolding find_key
  find_key-list_remove k [] m u = absurd m
  find_key-list_remove k (y ∷ l) (inl e) (nk, ni, u) =
      rw (list_remove_self x y l e)
        (ground (arith, NoKey-find_key k l, ap (λ (z : Element). z.value.key) e))
  find_key-list_remove k (y ∷ l) (inr m) (nk, ni, u) =
      rw (list_remove_ne x.id y l (λ e. NoId-IsIn y.id x l ni m (sym e)))
        (ground (arith, find_key-list_remove k l m u, NoKey-IsIn y.value.key x l nk m))

  pub total-list_remove :
      (l : List Element)
      → IsIn x l
      → IsUnique l
      → total (list_remove x.id l) + x.value.size ≡ total l
  unfolding total
  total-list_remove [] m u = absurd m
  total-list_remove (y ∷ l) (inl e) (nk, ni, u) =
      rw (list_remove_self x y l e) (omega (arith, ap (λ (z : Element). z.value.size) e))
  total-list_remove (y ∷ l) (inr m) (nk, ni, u) =
      rw (list_remove_ne x.id y l (λ e. NoId-IsIn y.id x l ni m (sym e)))
        (omega (arith, total-list_remove l m u))

  pub length-list_remove :
      (l : List Element) → IsIn x l → IsUnique l → suc (length (list_remove x.id l)) ≡ length l
  length-list_remove [] m u = absurd m
  length-list_remove (y ∷ l) (inl e) (nk, ni, u) = rw (list_remove_self x y l e)
  length-list_remove (y ∷ l) (inr m) (nk, ni, u) =
      rw (list_remove_ne x.id y l (λ e. NoId-IsIn y.id x l ni m (sym e)))
        (omega (arith, length-list_remove l m u))

  -- What is left has neither the key nor the identity.
  pub list_remove-NoKey :
      (l : List Element) → IsIn x l → IsUnique l → NoKey x.value.key (list_remove x.id l)
  list_remove-NoKey l m u = find_key-NoKey x.value.key (list_remove x.id l) (
      find_key-list_remove x.value.key l m u
      ∙ if_pos (text_dec x.value.key x.value.key) refl none (find_key x.value.key l))

  pub list_remove-NoId : (l : List Element) → IsIn x l → IsUnique l → NoId x.id (list_remove x.id l)
  list_remove-NoId [] m u = absurd m
  list_remove-NoId (y ∷ l) (inl e) (nk, ni, u) =
      rw (list_remove_self x y l e) (rw (ap (λ (z : Element). z.id) e) at ni)
  list_remove-NoId (y ∷ l) (inr m) (nk, ni, u) =
      let ne = λ (e : y.id ≡ x.id). NoId-IsIn y.id x l ni m (sym e) in
      rw (list_remove_ne x.id y l ne) (ne, list_remove-NoId l m u)

  -- Removing the last element leaves the others in place.
  pub list_remove-back :
      (n : ℕ) (l : List Element)
      → back l ≡ some x
      → IsUnique l
      → length l ≡ suc n
      → list_remove x.id l ≡ take n l
  unfolding back
  list_remove-back n [] h u e = cc
  list_remove-back zero (y ∷ []) h u e = list_remove_self x y [] (ground arith)
  list_remove-back (suc n) (y ∷ []) h u e = absurd (omega arith)
  list_remove-back zero (y ∷ z ∷ l) h u e = absurd (omega arith)
  list_remove-back (suc n) (y ∷ z ∷ l) h (nk, ni, u) e =
      let ne = λ (e : y.id ≡ x.id). NoId-IsIn y.id x (z ∷ l) ni (back-IsIn x (z ∷ l) h) (sym e) in
      list_remove_ne x.id y (z ∷ l) ne ∙ ap (◌∷◌ y) (list_remove-back n (z ∷ l) h u (omega arith))
