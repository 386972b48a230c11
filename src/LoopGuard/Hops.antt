-- ===== src/LoopGuard/Hops.antt =====
-- internal/loopguard.go: a request passes no more than eleven times through proxies of this kind.
use cifera.Base.{
  ℕ, subst, ◌==◌, pos_part, ◌⊎◌, inl, inr, trim, zero, suc, ◌≤◌, ◌<◌, ◌≡◌, refl, ◌∙◌, ap, sym, some,
  ℤ, pos, negsuc, Text, atoi, itoa, is_empty, trim_space, arith, eq_of_some, Option-cases,
  Bool-cases,
}
use cifera.LoopGuard.Address.{next_max_forwards, hop, max_int64, remaining, pred_int64, lower_of}

-- A chain of hops, each with the header that the one before has written.
pub data Hops : Text → ℕ → Text → Type 0 where
  arrived : (header : Text) → Hops header 0 header
  forwarded :
      {header header' out : Text} {n : ℕ}
      → hop header ≡ some header'
      → Hops header' n out
      → Hops header (suc n) out

ℤ-cases : (a : ℤ) → ((n : ℕ) × (a ≡ pos n)) ⊎ ((n : ℕ) × (a ≡ negsuc n))
ℤ-cases (pos n) = inl (n, refl)
ℤ-cases (negsuc n) = inr (n, refl)

lower_of-le : (a : ℤ) (m : ℕ) → lower_of a ≡ pos m → m ≤ 10
lower_of-le (pos n) m h = ground arith
lower_of-le (negsuc n) m h = ground arith

pos_inj : (a b : ℕ) → pos a ≡ pos b → a ≡ b
pos_inj a b e = ap pos_part e

remaining-le : (s : Text) (m : ℕ) → remaining s ≡ pos m → m ≤ 10
unfolding remaining
remaining-le s m h = elim (Bool-cases (is_empty s)) [
  | inl nothing ↦ omega (arith, pos_inj 10 m (rw (nothing, remaining) at h))
  | inr there ↦ elim (Option-cases (atoi s)) [
    | inl bad ↦ omega (arith, pos_inj 10 m (rw (there, bad, remaining) at h))
    | inr (a, good) ↦ lower_of-le a m (rw (there, good, remaining) at h)
  ]
]

pred_inv : (a : ℤ) (n : ℕ) → pred_int64 a ≡ pos n → (a ≡ pos (suc n)) ⊎ (n ≡ max_int64)
pred_inv (pos zero) n h = absurd (cc h)
pred_inv (pos (suc m)) n h = inl (ap (λ x. pos (suc x)) (pos_inj m n h))
pred_inv (negsuc m) n h = elim (Bool-cases (m == max_int64)) [
  | inl least ↦ inr (sym (pos_inj max_int64 n (rw least at h)))
  | inr other ↦ absurd (cc (rw other at h))
]

pred_pos : (m i : ℕ) → pred_int64 (pos m) ≡ pos i → m ≡ suc i
pred_pos zero i h = absurd (cc h)
pred_pos (suc m) i h = ap suc (pos_inj m i h)

-- The number is below the limit, whatever the header says, but for the wrap of the least int64.
next_max_forwards-bounded :
    (header : Text) (n : ℕ) → next_max_forwards header ≡ pos n → (n ≤ 9) ⊎ (n ≡ max_int64)
unfolding next_max_forwards
next_max_forwards-bounded header n h = elim (pred_inv (remaining (trim_space header)) n h) [
  | inl e ↦ inl (omega (arith, remaining-le (trim_space header) (suc n) e))
  | inr e ↦ inr e
]

-- The header that a hop writes is read by the next one as it was meant.
next_max_forwards-itoa : (n : ℕ) → n ≤ 9 → next_max_forwards (itoa n) ≡ pred_int64 (pos n)
unfolding next_max_forwards itoa atoi trim
next_max_forwards-itoa zero h = refl
next_max_forwards-itoa (suc zero) h = refl
next_max_forwards-itoa (suc (suc zero)) h = refl
next_max_forwards-itoa (suc (suc (suc zero))) h = refl
next_max_forwards-itoa (suc (suc (suc (suc zero)))) h = refl
next_max_forwards-itoa (suc (suc (suc (suc (suc zero))))) h = refl
next_max_forwards-itoa (suc (suc (suc (suc (suc (suc zero)))))) h = refl
next_max_forwards-itoa (suc (suc (suc (suc (suc (suc (suc zero))))))) h = refl
next_max_forwards-itoa (suc (suc (suc (suc (suc (suc (suc (suc zero)))))))) h = refl
next_max_forwards-itoa (suc (suc (suc (suc (suc (suc (suc (suc (suc zero))))))))) h = refl
next_max_forwards-itoa (suc (suc (suc (suc (suc (suc (suc (suc (suc (suc n)))))))))) h =
    absurd (omega (arith, h))

hop_inv :
    (header out : Text)
    → hop header ≡ some out
    → (n : ℕ) × (next_max_forwards header ≡ pos n) × (out ≡ itoa n)
unfolding hop
hop_inv header out h = elim (ℤ-cases (next_max_forwards header)) [
  | inl (n, e) ↦ (n, e, sym (eq_of_some (rw (e, hop) at h)))
  | inr (n, e) ↦ absurd (cc (rw (e, hop) at h))
]

-- A header from which at most so many hops are left.
abbrev Within : ℕ → Text → Type 0
Within k header = (m : ℕ) → next_max_forwards header ≡ pos m → (m < k) × (m ≤ 9)

Within-itoa : (m k : ℕ) → m ≤ k → m ≤ 9 → Within k (itoa m)
Within-itoa m k l small i here =
    let e = pred_pos m i (sym (next_max_forwards-itoa m small) ∙ here) in
    (omega (arith, l, e), omega (arith, small, e))

Hops-Within :
    (k : ℕ) (header : Text) (n : ℕ) (out : Text) → Within k header → Hops header n out → n ≤ k
Hops-Within k header n out h (arrived _) = omega arith
Hops-Within zero header n out h (forwarded {n = n0} e rest) =
    let (m, start, _) = hop_inv header _ e in absurd (omega (arith, (h m start).0))
Hops-Within (suc k) header n out h (forwarded {header' = next} {n = n0} e rest) =
    let (m, start, written) = hop_inv header next e in
    let (below, small) = h m start in
    let again = subst (Within k) (sym written) (Within-itoa m k (omega (arith, below)) small) in
    omega (arith, Hops-Within k next n0 out again rest)

-- The greatest int64 is cut to the limit.
greatest : next_max_forwards (itoa max_int64) ≡ pos 9
unfolding next_max_forwards remaining itoa atoi trim
greatest = refl

Within-greatest : Within 10 (itoa max_int64)
Within-greatest m h = let e = pos_inj 9 m (sym greatest ∙ h) in (omega (arith, e), omega (arith, e))

-- However the proxies are linked, a request is forwarded at most eleven times before one refuses it,
-- whatever Max-Forwards header it came with.
pub Hops-bounded : (header : Text) (n : ℕ) (out : Text) → Hops header n out → n ≤ 11
Hops-bounded header n out (arrived _) = omega arith
Hops-bounded header n out (forwarded {header' = next} {n = n0} e rest) =
    let (m, start, written) = hop_inv header next e in
    elim (next_max_forwards-bounded header m start) [
      | inl small ↦
          let again = subst (Within 9) (sym written) (Within-itoa m 9 small small) in
          omega (arith, Hops-Within 9 next n0 out again rest)
      | inr wrapped ↦
          let again = subst (Within 10) (sym (written ∙ ap itoa wrapped)) Within-greatest in
          omega (arith, Hops-Within 10 next n0 out again rest)
    ]
