-- ===== src/Manager/Restart.antt =====
-- internal/cookiejar/manager.go: what a manager opened on a database hands out.
use cifera.Base.{
  Option-cases, eq_of_some, ℤ, lookup, IsDistinct, lookup_of_IsFresh, Text, text_dec, is_empty, ℕ,
  ◌≡◌, refl, ap, subst, ◌∙◌, inl, inr, if_pos, Bool, false, Option, none, some, List, [], ◌∷◌,
  arith, ℕ_discrete,
}
use cifera.CookieJar.Entry.{CookieEntry}
use cifera.CookieJar.Jar.{Jar, new_jar, restore_from, restore_cookies}
use cifera.CookieJar.Places.{IsValid}
use cifera.CookieJar.Find.{find}
use cifera.CookieJar.Persist.{}
use cifera.CookieJar.Reach.{restore_cookies-IsKept, new_jar-IsSound}
use cifera.Manager.Storage.{Storage, Codec}
use cifera.Manager.State.{
  Config, Manager, positive_or, store_jar, restore_jar, load_jar, load_all_jars, empty_manager,
  stored_jar, load_or_create, get_or_create_jar,
}
use cifera.Manager.Handles.{IsConsistent, store_jar-IsConsistent, jar_at, jar_at-store_jar}
use cifera.Manager.Stored.{non_empty, restored, view, load_jar-view}

abbrev pub or_else {ℓ} : {A : Type ℓ} → Option A → Option A → Option A
or_else none b = b
or_else (some a) b = some a

-- The jar that GetOrCreateJar returns a pointer to.
abbrev pub handed : {D : Type 0} → Manager D × Option (ℕ × Bool) → Option Jar
handed (m, none) = none
handed (m, some (id, is_new)) = some (m.heap id)

abbrev pub or_new : ℤ → Option Jar → Jar
or_new size none = new_jar size
or_new size (some jar) = jar

pub find-or_new :
    (now : ℕ) (size : ℤ) (es : List CookieEntry) (d k : Text)
    → let o = restored now size (non_empty es) in
      find (or_new size (or_else o o)) d k ≡ find (restore_cookies now (new_jar size) es) d k
unfolding restore_cookies restore_from
find-or_new now size [] d k = refl
find-or_new now size (e ∷ es) d k = refl

module _ (db : Storage) (codec : Codec) where
  pub restore_jar-IsValid :
      (now : ℕ) (size : ℤ) (bytes : Text) (jar : Jar)
      → restore_jar db codec now size bytes ≡ some jar
      → IsValid jar
  unfolding restore_jar
  restore_jar-IsValid now size bytes jar h = elim (Option-cases (codec.unmarshal bytes)) [
    | inl bad ↦ absurd (cc (rw (bad, restore_jar) at h))
    | inr (es, good) ↦
        subst IsValid (eq_of_some (rw (good, restore_jar) at h))
          (restore_cookies-IsKept now (new_jar size) es (new_jar-IsSound size).valid).valid
  ]

  abbrev pub decoded_jar : ℕ → ℤ → Option Text → Option Jar
  decoded_jar now size none = none
  decoded_jar now size (some bytes) = restore_jar db codec now size bytes

  pub jar_at-load_all_jars :
      (now : ℕ) (m : Manager db.State) (l : List (Text × Text)) (key : Text)
      → IsConsistent m
      → IsDistinct l
      → jar_at (load_all_jars db codec now m l) key
        ≡ or_else (decoded_jar now m.max_per_jar (lookup text_dec key l)) (jar_at m key)
  unfolding load_all_jars lookup store_jar
  jar_at-load_all_jars now m [] key c u = refl
  jar_at-load_all_jars now m ((k, bytes) ∷ l) key c (f, u) =
      elim (Option-cases (restore_jar db codec now m.max_per_jar bytes)) [
        | inl bad ↦
            rw (bad, load_all_jars)
              (ground (
                arith,
                jar_at-load_all_jars now m l key c u,
                lookup_of_IsFresh text_dec k l f,
                bad,
              ))
        | inr (jar, good) ↦
            rw (good, load_all_jars)
              (ground (
                arith,
                jar_at-load_all_jars now (store_jar m k jar) l key
                    (store_jar-IsConsistent m k jar c
                      (restore_jar-IsValid now m.max_per_jar bytes jar good))
                    u,
                lookup_of_IsFresh text_dec k l f,
                jar_at-store_jar m k jar key c,
                good,
              ))
      ]

  pub load_all_jars-keeps :
      (now : ℕ) (m : Manager db.State) (l : List (Text × Text))
      → ((load_all_jars db codec now m l).max_per_jar ≡ m.max_per_jar)
        × ((load_all_jars db codec now m l).db ≡ m.db)
  unfolding load_all_jars store_jar
  load_all_jars-keeps now m [] = (refl, refl)
  load_all_jars-keeps now m ((k, bytes) ∷ l) =
      elim (Option-cases (restore_jar db codec now m.max_per_jar bytes)) [
        | inl bad ↦ rw (bad, load_all_jars) (load_all_jars-keeps now m l)
        | inr (jar, good) ↦ rw (good, load_all_jars) (load_all_jars-keeps now (store_jar m k jar) l)
      ]

  pub load_all_jars-IsConsistent :
      (now : ℕ) (m : Manager db.State) (l : List (Text × Text))
      → IsConsistent m
      → IsConsistent (load_all_jars db codec now m l)
  unfolding load_all_jars
  load_all_jars-IsConsistent now m [] c = c
  load_all_jars-IsConsistent now m ((k, bytes) ∷ l) c =
      elim (Option-cases (restore_jar db codec now m.max_per_jar bytes)) [
        | inl bad ↦ rw (bad, load_all_jars) (load_all_jars-IsConsistent now m l c)
        | inr (jar, good) ↦
            rw (good, load_all_jars)
              (load_all_jars-IsConsistent now (store_jar m k jar) l (
                store_jar-IsConsistent m k jar c
                  (restore_jar-IsValid now m.max_per_jar bytes jar good)))
      ]

  abbrev pub opened : Config → Option db.State → Manager db.State
  opened cfg o = record (empty_manager db codec cfg) { db = o }

  pub opened-IsConsistent : (cfg : Config) (o : Option db.State) → IsConsistent (opened cfg o)
  unfolding empty_manager
  opened-IsConsistent cfg o = record {
    distinct = tt;
    separate = tt;
    below = tt;
    valid = λ id. (new_jar-IsSound (positive_or 500 cfg.jar_capacity)).valid;
  }

  pub stored_jar-view :
      (now : ℕ) (m : Manager db.State) (s : db.State) (key : Text)
      → m.db ≡ some s
      → stored_jar db codec now m key ≡ restored now m.max_per_jar (view db codec s key)
  unfolding stored_jar
  stored_jar-view now m s key h =
      stored_jar-at m.db h ∙ load_jar-view db codec now m.max_per_jar s key
    where
      stored_jar-at :
          (o : Option db.State)
          → o ≡ some s
          → (elim o [ none ↦ none | some t ↦ load_jar db codec now m.max_per_jar t key ])
            ≡ load_jar db codec now m.max_per_jar s key
      stored_jar-at o h = rw h

  -- GetOrCreateJar hands out the jar of the session, else the stored one, else a new one.
  pub get_or_create_jar-handed :
      (now : ℕ) (m : Manager db.State) (key : Text)
      → is_empty key ≡ false
      → handed (get_or_create_jar db codec now m key)
        ≡ some (or_new m.max_per_jar (or_else (jar_at m key) (stored_jar db codec now m key)))
  unfolding get_or_create_jar jar_at load_or_create store_jar
  get_or_create_jar-handed now m key ne =
      let fresh =
        λ (jar : Jar). ap some (if_pos (ℕ_discrete m.next m.next) refl jar (m.heap m.next)) in
      elim (Option-cases (lookup text_dec key m.jars)) [
        | inr (id, found) ↦ rw (ne, found, get_or_create_jar)
        | inl absent ↦ elim (Option-cases (stored_jar db codec now m key)) [
          | inl nothing ↦
              rw (ne, absent, get_or_create_jar, nothing) (fresh (new_jar m.max_per_jar))
          | inr (jar, stored) ↦ rw (ne, absent, get_or_create_jar, stored) (fresh jar)
        ]
      ]
