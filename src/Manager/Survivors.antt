-- ===== src/Manager/Survivors.antt =====
-- internal/cookiejar/manager.go: what holds of the jars holds of those that a cleanup keeps.
use cifera.Base.{
  Bool-cases, All, delete, IsDistinct, delete-IsDistinct, All-delete, Text, text_dec, ℕ, ◌≡◌, refl,
  sym, subst, ◌∙◌, inl, inr, if_pos, if_neg, List, [], ◌∷◌, ℕ_discrete,
}
use cifera.CookieJar.Entry.{}
use cifera.CookieJar.Jar.{Jar, remove_expired, jar_is_expired}
use cifera.CookieJar.Places.{IsValid}
use cifera.CookieJar.Expiry.{remove_expired-IsKept}
use cifera.Manager.Storage.{}
use cifera.Manager.State.{update, sweep, delete_jars}
use cifera.Manager.Handles.{IsUnused, IsSeparate, IsSeparate-delete, update-IsValid}
use cifera.Manager.Stored.{}
use cifera.Manager.Worker.{}
use cifera.Manager.Sweep.{sweep-unused}

module _ (now : ℕ) (P : Jar → Type 0) where
  swept_again :
      (l : List (Text × ℕ)) (heap : ℕ → Jar) (id : ℕ)
      → IsUnused id l
      → All (λ x. P (remove_expired now (heap x.1))) l
      → All (λ x. P (remove_expired now (update heap id (remove_expired now (heap id)) x.1))) l
  swept_again [] heap id u a = tt
  swept_again ((k, n) ∷ l) heap id (ne, u) (p, a) =
      let jar = remove_expired now (heap id) in
      let same = if_neg (ℕ_discrete id n) (λ e. ne (sym e)) jar (heap n) in
      (subst (λ j. P (remove_expired now j)) (sym same) p, swept_again l heap id u a)

  sweep-heap :
      (k : Text) (id : ℕ) (l : List (Text × ℕ)) (heap : ℕ → Jar)
      → (sweep now ((k, id) ∷ l) heap).heap
        ≡ (sweep now l (update heap id (remove_expired now (heap id)))).heap
  unfolding sweep
  sweep-heap k id l heap = elim (Bool-cases (jar_is_expired now (remove_expired now (heap id)))) [
    | inl gone ↦ rw (gone, sweep)
    | inr live ↦ rw (live, sweep)
  ]

  swept-All :
      (l : List (Text × ℕ)) (heap : ℕ → Jar)
      → IsSeparate l
      → All (λ x. P (remove_expired now (heap x.1))) l
      → All (λ x. P ((sweep now l heap).heap x.1)) l
  swept-All [] heap s a = tt
  swept-All ((k, id) ∷ l) heap (u, s) (p, a) =
      let jar = remove_expired now (heap id) in
      let heap' = update heap id jar in
      let same = sweep-heap k id l heap in
      let here = sweep-unused now l heap' id u ∙ if_pos (ℕ_discrete id id) refl jar (heap id) in
      (
        subst (λ h. P (h id)) (sym same) (subst P (sym here) p),
        subst (λ h. All (λ (x : Text × ℕ). P (h x.1)) l) (sym same)
            (swept-All l heap' s (swept_again l heap id u a)),
      )

  survivors-All :
      (Q : Text × ℕ → Type 0) (l : List (Text × ℕ)) (heap : ℕ → Jar)
      → All Q l
      → All Q (sweep now l heap).survivors
  unfolding sweep
  survivors-All Q [] heap a = tt
  survivors-All Q ((k, id) ∷ l) heap (q, a) =
      let jar = remove_expired now (heap id) in
      let rest = survivors-All Q l (update heap id jar) a in
      elim (Bool-cases (jar_is_expired now jar)) [
        | inl gone ↦ rw (gone, sweep, All) rest
        | inr live ↦ rw (live, sweep, All) (q, rest)
      ]

  -- What holds of the jars without their expired cookies holds of the survivors.
  pub sweep-All :
      (l : List (Text × ℕ)) (heap : ℕ → Jar)
      → IsSeparate l
      → All (λ x. P (remove_expired now (heap x.1))) l
      → All (λ x. P ((sweep now l heap).heap x.1)) (sweep now l heap).survivors
  sweep-All l heap s a =
      survivors-All (λ x. P ((sweep now l heap).heap x.1)) l heap (swept-All l heap s a)

pub delete_jars-IsDistinct :
    (ks : List Text) (m : List (Text × ℕ)) → IsDistinct m → IsDistinct (delete_jars ks m)
unfolding delete_jars
delete_jars-IsDistinct [] m u = u
delete_jars-IsDistinct (k ∷ ks) m u =
    delete_jars-IsDistinct ks (delete text_dec k m) (delete-IsDistinct text_dec k m u)

pub delete_jars-IsSeparate :
    (ks : List Text) (m : List (Text × ℕ)) → IsSeparate m → IsSeparate (delete_jars ks m)
unfolding delete_jars
delete_jars-IsSeparate [] m u = u
delete_jars-IsSeparate (k ∷ ks) m u =
    delete_jars-IsSeparate ks (delete text_dec k m) (IsSeparate-delete k m u)

pub delete_jars-All :
    (P : Text × ℕ → Type 0) (ks : List Text) (m : List (Text × ℕ))
    → All P m
    → All P (delete_jars ks m)
unfolding delete_jars
delete_jars-All P [] m a = a
delete_jars-All P (k ∷ ks) m a =
    delete_jars-All P ks (delete text_dec k m) (All-delete text_dec P k m a)

pub sweep-IsValid :
    (now : ℕ) (l : List (Text × ℕ)) (heap : ℕ → Jar)
    → ((n : ℕ) → IsValid (heap n))
    → (n : ℕ) → IsValid ((sweep now l heap).heap n)
unfolding sweep
sweep-IsValid now [] heap v n = v n
sweep-IsValid now ((k, id) ∷ l) heap v n =
    let jar = remove_expired now (heap id) in
    let rest =
      sweep-IsValid now l (update heap id jar)
        (update-IsValid heap id jar v (remove_expired-IsKept now (heap id) (v id)).valid) n in
    elim (Bool-cases (jar_is_expired now jar)) [
      | inl gone ↦ rw (gone, sweep) rest
      | inr live ↦ rw (live, sweep) rest
    ]
