-- ===== src/Manager/Sweep.antt =====
-- internal/cookiejar/manager.go: cleanup drops the expired cookies and the jars that are left with
-- none, in memory and in the database.
use cifera.Base.{
  if◌then◌else◌, Bool-cases, Option-cases, eq_of_some, All, lookup, delete, lookup-delete, IsFresh,
  IsDistinct, lookup_of_IsFresh, lookup-All, Text, text_dec, ℕ, ◌≡◌, refl, sym, ap, subst, ◌∙◌, ◌≢◌,
  inl, inr, ite, if_pos, if_neg, Bool, true, false, Option, none, some, List, [], ◌∷◌, arith,
  ℕ_discrete,
}
use cifera.CookieJar.Jar.{Jar, remove_expired, jar_is_expired}
use cifera.Manager.State.{update, sweep, delete_jars}
use cifera.Manager.Handles.{IsUnused, IsSeparate}

unfoldable pub mem : Text → List Text → Bool
mem k [] = false
mem k (x ∷ xs) = ite (text_dec x k) true (mem k xs)

pub lookup-delete_jars :
    (ks : List Text) (m : List (Text × ℕ)) (key : Text)
    → lookup text_dec key (delete_jars ks m) ≡ (if mem key ks then none else lookup text_dec key m)
unfolding delete_jars mem
lookup-delete_jars [] m key = refl
lookup-delete_jars (k ∷ ks) m key =
    ground (arith, lookup-delete_jars ks (delete text_dec k m) key, lookup-delete text_dec k key m)

-- What is left of a jar.
abbrev pub survivor : ℕ → Option Jar → Option Jar
survivor now none = none
survivor now (some j) =
    if jar_is_expired now (remove_expired now j) then none else some (remove_expired now j)

module _ (now : ℕ) where
  abbrev pub is_gone : (ℕ → Jar) → Option ℕ → Bool
  is_gone heap none = false
  is_gone heap (some id) = jar_is_expired now (remove_expired now (heap id))

  is_gone-update :
      (heap : ℕ → Jar) (id : ℕ) (jar : Jar) (key : Text) (l : List (Text × ℕ))
      → IsUnused id l
      → is_gone (update heap id jar) (lookup text_dec key l) ≡ is_gone heap (lookup text_dec key l)
  is_gone-update heap id jar key l u = elim (Option-cases (lookup text_dec key l)) [
    | inl absent ↦ rw absent
    | inr (n, found) ↦
        let other = lookup-All text_dec (λ x. x.1 ≢ id) key n l found u in
        rw (found, if_neg (ℕ_discrete id n) (λ e. other (sym e)))
  ]

  pub sweep-unused :
      (l : List (Text × ℕ)) (heap : ℕ → Jar) (n : ℕ)
      → IsUnused n l
      → (sweep now l heap).heap n ≡ heap n
  unfolding sweep
  sweep-unused [] heap n u = refl
  sweep-unused ((k, id) ∷ l) heap n (ne, u) =
      let jar = remove_expired now (heap id) in
      let same =
        sweep-unused l (update heap id jar) n u ∙ if_neg (ℕ_discrete id n) ne jar (heap n) in
      elim (Bool-cases (jar_is_expired now jar)) [
        | inl gone ↦ rw (gone, sweep) same
        | inr live ↦ rw (live, sweep) same
      ]

  pub sweep-used :
      (l : List (Text × ℕ)) (heap : ℕ → Jar) (key : Text) (n : ℕ)
      → IsSeparate l
      → lookup text_dec key l ≡ some n
      → (sweep now l heap).heap n ≡ remove_expired now (heap n)
  unfolding sweep lookup
  sweep-used [] heap key n s h = absurd (cc h)
  sweep-used ((k, id) ∷ l) heap key n (u, s) h =
      let jar = remove_expired now (heap id) in
      let heap' = update heap id jar in
      let rest : (sweep now l heap').heap n ≡ remove_expired now (heap n) = elim (text_dec k key) [
        | yes p ↦
            let same = eq_of_some (rw (if_pos _ p) at h) in
            subst (λ x. (sweep now l heap').heap x ≡ remove_expired now (heap x)) same
              (sweep-unused l heap' id u ∙ if_pos (ℕ_discrete id id) refl jar (heap id))
        | no q ↦
            let found = rw (if_neg _ q) at h in
            let other = lookup-All text_dec (λ x. x.1 ≢ id) key n l found u in
            sweep-used l heap' key n s found
            ∙ ap (remove_expired now) (if_neg (ℕ_discrete id n) (λ e. other (sym e)) jar (heap n))
      ] in
      elim (Bool-cases (jar_is_expired now jar)) [
        | inl gone ↦ rw (gone, sweep) rest
        | inr live ↦ rw (live, sweep) rest
      ]

  sweep-IsFresh :
      (l : List (Text × ℕ)) (heap : ℕ → Jar) (k : Text)
      → IsFresh k l
      → IsFresh k (sweep now l heap).survivors
  unfolding sweep
  sweep-IsFresh [] heap k f = tt
  sweep-IsFresh ((j, id) ∷ l) heap k (n, f) =
      let jar = remove_expired now (heap id) in
      let rest = sweep-IsFresh l (update heap id jar) k f in
      elim (Bool-cases (jar_is_expired now jar)) [
        | inl gone ↦ rw (gone, sweep, All) rest
        | inr live ↦ rw (live, sweep, All) (n, rest)
      ]

  pub sweep-IsDistinct :
      (l : List (Text × ℕ)) (heap : ℕ → Jar)
      → IsDistinct l
      → IsDistinct (sweep now l heap).survivors
  unfolding sweep
  sweep-IsDistinct [] heap u = tt
  sweep-IsDistinct ((j, id) ∷ l) heap (f, u) =
      let jar = remove_expired now (heap id) in
      let rest = sweep-IsDistinct l (update heap id jar) u in
      elim (Bool-cases (jar_is_expired now jar)) [
        | inl gone ↦ rw (gone, sweep, IsDistinct) rest
        | inr live ↦ rw (live, sweep, IsDistinct) (sweep-IsFresh l (update heap id jar) j f, rest)
      ]

  -- The loop sorts the sessions by whether an unexpired cookie is left.
  pub sweep-lookup :
      (l : List (Text × ℕ)) (heap : ℕ → Jar) (key : Text)
      → IsDistinct l
      → IsSeparate l
      → let gone = is_gone heap (lookup text_dec key l) in
        (mem key (sweep now l heap).expired_sessions ≡ gone)
        × (lookup text_dec key (sweep now l heap).survivors
            ≡ (if gone then none else lookup text_dec key l))
  unfolding sweep mem lookup
  sweep-lookup [] heap key d s = (refl, refl)
  sweep-lookup ((k, id) ∷ l) heap key (f, d) (u, s) =
      let jar = remove_expired now (heap id) in
      let heap' = update heap id jar in
      let (m, v) = sweep-lookup l heap' key d s in
      let same = is_gone-update heap id jar key l u in
      let fresh = lookup_of_IsFresh text_dec k l f in
      elim (Bool-cases (jar_is_expired now jar)) [
        | inl gone ↦ rw (gone, sweep) (ground (arith, m, v, same, fresh, gone))
        | inr live ↦ rw (live, sweep) (ground (arith, m, v, same, fresh, live))
      ]
