-- ===== src/Manager/Handles.antt =====
-- internal/cookiejar/manager.go: the jars of a manager are handles into one heap, and no two
-- sessions have the same one.
use cifera.Base.{
  eq_of_some, All, lookup, insert, delete, lookup-insert, IsDistinct, insert-IsDistinct, lookup-All,
  All-insert, All-delete, Text, text_dec, ℕ, ◌+◌, ◌<◌, ◌≡◌, refl, sym, ap, ◌∙◌, ◌≢◌, ite, if_pos,
  if_neg, Option, none, some, List, [], ◌∷◌, arith, ℕ_discrete,
}
use cifera.CookieJar.Jar.{Jar}
use cifera.CookieJar.Places.{IsValid}
use cifera.Manager.State.{Manager, update, store_jar}

-- No jar of the list has this handle.
abbrev pub IsUnused : ℕ → List (Text × ℕ) → Type 0
IsUnused id m = All (λ x. x.1 ≢ id) m

-- No handle stands twice.
abbrev pub IsSeparate : List (Text × ℕ) → Type 0
IsSeparate [] = Unit
IsSeparate ((k, id) ∷ m) = IsUnused id m × IsSeparate m

abbrev pub IsBelow : ℕ → List (Text × ℕ) → Type 0
IsBelow n m = All (λ x. x.1 < n) m

-- No session and no handle stands twice, every handle is that of a jar in the heap, and the jars
-- are well formed.
pub record IsConsistent {D : Type 0} (m : Manager D) : Type 0 where
  pub distinct : IsDistinct m.jars
  pub separate : IsSeparate m.jars
  pub below : IsBelow m.next m.jars
  pub valid : (id : ℕ) → IsValid (m.heap id)

IsBelow-IsUnused : (n : ℕ) (m : List (Text × ℕ)) → IsBelow n m → IsUnused n m
IsBelow-IsUnused n [] h = tt
IsBelow-IsUnused n ((k, id) ∷ m) (lt, h) =
    ((λ e. absurd (omega (arith, lt, e))), IsBelow-IsUnused n m h)

IsBelow-suc : (n : ℕ) (m : List (Text × ℕ)) → IsBelow n m → IsBelow (n + 1) m
IsBelow-suc n [] h = tt
IsBelow-suc n ((k, id) ∷ m) (lt, h) = (omega (arith, lt), IsBelow-suc n m h)

IsSeparate-insert :
    (k : Text) (n : ℕ) (m : List (Text × ℕ))
    → IsUnused n m
    → IsSeparate m
    → IsSeparate (insert text_dec k n m)
unfolding insert
IsSeparate-insert k n [] u s = (tt, tt)
IsSeparate-insert k n ((j, id) ∷ m) (ne, u) (f, s) = elim (text_dec j k) [
  | yes p ↦ rw (if_pos _ p) (u, s)
  | no p ↦
      rw (if_neg _ p)
        (All-insert text_dec (λ x. x.1 ≢ id) k n m (λ e. ne (sym e)) f, IsSeparate-insert k n m u s)
]

pub IsSeparate-delete :
    (k : Text) (m : List (Text × ℕ)) → IsSeparate m → IsSeparate (delete text_dec k m)
unfolding delete
IsSeparate-delete k [] s = tt
IsSeparate-delete k ((j, id) ∷ m) (f, s) = elim (text_dec j k) [
  | yes p ↦ rw (if_pos _ p) (IsSeparate-delete k m s)
  | no p ↦ rw (if_neg _ p) (All-delete text_dec (λ x. x.1 ≢ id) k m f, IsSeparate-delete k m s)
]

lookup-IsUnused :
    (k : Text) (id : ℕ) (m : List (Text × ℕ)) → IsUnused id m → ¬ (lookup text_dec k m ≡ some id)
lookup-IsUnused k id m u h = lookup-All text_dec (λ x. x.1 ≢ id) k id m h u refl

-- Two sessions with the same handle are the same.
pub same_session :
    (k j : Text) (id : ℕ) (m : List (Text × ℕ))
    → IsSeparate m
    → lookup text_dec k m ≡ some id
    → lookup text_dec j m ≡ some id
    → k ≡ j
unfolding lookup
same_session k j id [] s p q = absurd (cc p)
same_session k j id ((i, n) ∷ m) (u, s) p q = elim (text_dec i k) [
  | yes ik ↦ elim (text_dec i j) [
    | yes ij ↦ sym ik ∙ ij
    | no ij ↦
        let same = eq_of_some (rw (if_pos _ ik) at p) in
        absurd (lookup-IsUnused j n m u (rw (if_neg _ ij) at q ∙ ap some (sym same)))
  ]
  | no ik ↦ elim (text_dec i j) [
    | yes ij ↦
        let same = eq_of_some (rw (if_pos _ ij) at q) in
        absurd (lookup-IsUnused k n m u (rw (if_neg _ ik) at p ∙ ap some (sym same)))
    | no ij ↦ same_session k j id m s (rw (if_neg _ ik) at p) (rw (if_neg _ ij) at q)
  ]
]

pub update-IsValid :
    (heap : ℕ → Jar) (id : ℕ) (jar : Jar)
    → ((n : ℕ) → IsValid (heap n))
    → IsValid jar
    → (n : ℕ) → IsValid (update heap id jar n)
update-IsValid heap id jar h v n = elim (ℕ_discrete id n) [
  | yes p ↦ rw (if_pos _ p) v
  | no p ↦ rw (if_neg _ p) (h n)
]

pub store_jar-IsConsistent :
    {D : Type 0} (m : Manager D) (key : Text) (jar : Jar)
    → IsConsistent m
    → IsValid jar
    → IsConsistent (store_jar m key jar)
unfolding store_jar
store_jar-IsConsistent m key jar c v = record {
  distinct = insert-IsDistinct text_dec key m.next m.jars c.distinct;
  separate =
      IsSeparate-insert key m.next m.jars (IsBelow-IsUnused m.next m.jars c.below) c.separate;
  below =
      All-insert text_dec (λ x. x.1 < m.next + 1) key m.next m.jars (omega arith)
        (IsBelow-suc m.next m.jars c.below);
  valid = update-IsValid m.heap m.next jar c.valid v;
}

-- The jar of a session.
abbrev pub jar_at_handle : (ℕ → Jar) → Option ℕ → Option Jar
jar_at_handle heap none = none
jar_at_handle heap (some id) = some (heap id)

unfoldable pub jar_at : {D : Type 0} → Manager D → Text → Option Jar
jar_at m key = jar_at_handle m.heap (lookup text_dec key m.jars)

jar_at_handle-store_jar :
    {D : Type 0} (m : Manager D) (key : Text) (jar : Jar) (o : Option ℕ)
    → ((id : ℕ) → o ≡ some id → id < m.next)
    → jar_at_handle (store_jar m key jar).heap o ≡ jar_at_handle m.heap o
unfolding store_jar
jar_at_handle-store_jar m key jar none h = refl
jar_at_handle-store_jar m key jar (some id) h =
    ap some
      (if_neg (ℕ_discrete m.next id) (λ e. absurd (omega (arith, e, h id refl))) jar (m.heap id))

-- A jar that is stored is that of its session, and of no other.
pub jar_at-store_jar :
    {D : Type 0} (m : Manager D) (key : Text) (jar : Jar) (j : Text)
    → IsConsistent m
    → jar_at (store_jar m key jar) j ≡ ite (text_dec key j) (some jar) (jar_at m j)
unfolding jar_at store_jar
jar_at-store_jar m key jar j c =
    let after = lookup-insert text_dec key j m.next m.jars in
    let old = lookup text_dec j m.jars in
    elim (text_dec key j) [
      | yes p ↦
          ap (jar_at_handle (store_jar m key jar).heap)
            (after ∙ if_pos (text_dec key j) p (some m.next) old)
          ∙ ap some (if_pos (ℕ_discrete m.next m.next) refl jar (m.heap m.next))
          ∙ sym (if_pos (text_dec key j) p (some jar) (jar_at m j))
      | no n ↦
          ap (jar_at_handle (store_jar m key jar).heap)
            (after ∙ if_neg (text_dec key j) n (some m.next) old)
          ∙ jar_at_handle-store_jar m key jar old
              (λ id h. lookup-All text_dec (λ x. x.1 < m.next) j id m.jars h c.below)
          ∙ sym (if_neg (text_dec key j) n (some jar) (jar_at m j))
    ]
