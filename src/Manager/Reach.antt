-- ===== src/Manager/Reach.antt =====
-- internal/cookiejar/manager.go: every manager that can be reached, with the jar operations that
-- requests do on the jars they were handed. The steps may follow one another in any order.
use cifera.Base.{
  ltb, Bool-cases, Option-cases, List-cases, eq_of_some, length, lookup, IsDistinct, Text, text_dec,
  is_empty, ℕ, ◌<◌, ◌≡◌, refl, sym, ap, subst, ◌∙◌, inl, inr, ite, if_pos, if_neg, Option, none,
  some, ℕ_discrete,
}
use cifera.CookieJar.Entry.{HttpCookie}
use cifera.CookieJar.Jar.{Jar, new_jar, make_entry, add_cookie, remove_cookie_for_api}
use cifera.CookieJar.Places.{IsValid, remove_cookie-IsValid}
use cifera.CookieJar.Add.{put_entry-IsValid}
use cifera.CookieJar.Outcome.{puts, ignores, deletes, key_of, add_cookie-Outcome}
use cifera.CookieJar.Expiry.{remove_cookie_for_api-IsKept}
use cifera.CookieJar.Reach.{new_jar-IsSound}
use cifera.Manager.Storage.{Storage, Codec}
use cifera.Manager.State.{
  empty_manager, Config, Manager, persist_ch_capacity, update, sweep, delete_jars, load_jar,
  new_manager, stored_jar, load_or_create, get_or_create_jar, persist_jar, persist_worker_step,
  cleanup, set_jar,
}
use cifera.Manager.Handles.{
  IsSeparate, IsBelow, IsConsistent, same_session, update-IsValid, store_jar-IsConsistent,
  jar_at_handle, jar_at,
}
use cifera.Manager.Restart.{
  restore_jar-IsValid, load_all_jars-IsConsistent, opened, opened-IsConsistent,
}
use cifera.Manager.Cleanup.{cleanup-jars}
use cifera.Manager.Sweep.{}
use cifera.Manager.Survivors.{
  delete_jars-IsDistinct, delete_jars-IsSeparate, delete_jars-All, sweep-IsValid,
}

add_cookie-IsValid :
    (now : ℕ) (j : Jar) (c : HttpCookie) (host : Text) (j' : Jar)
    → IsValid j
    → add_cookie now j c host ≡ some j'
    → IsValid j'
add_cookie-IsValid now j c host j' v h = elim (add_cookie-Outcome now j c host) [
  | puts _ _ e ↦ put_entry-IsValid j (make_entry now c host) j' v (sym e ∙ h)
  | ignores _ _ e ↦ subst IsValid (eq_of_some (sym e ∙ h)) v
  | deletes _ e ↦
      subst IsValid (eq_of_some (sym e ∙ h))
        (remove_cookie-IsValid j (make_entry now c host).domain (key_of now c host) v)
]

module _ (db : Storage) (codec : Codec) where
  pub data Reach : Manager db.State → Type 0 where
    start :
        {m : Manager db.State} (now : ℕ) (cfg : Config)
        → new_manager db codec now cfg ≡ some m
        → Reach m
    hand_out :
        {m : Manager db.State} (now : ℕ) (key : Text)
        → Reach m
        → Reach (get_or_create_jar db codec now m key).0
    persist :
        {m : Manager db.State} (now : ℕ) (key : Text) (id : ℕ)
        → Reach m
        → Reach (persist_jar db codec now m key id)
    work : {m : Manager db.State} → Reach m → Reach (persist_worker_step db codec m)
    clean : {m : Manager db.State} (now : ℕ) → Reach m → Reach (cleanup db codec now m)
    add_cookie_to :
        {m : Manager db.State} {jar : Jar} (id now : ℕ) (c : HttpCookie) (host : Text)
        → Reach m
        → add_cookie now (m.heap id) c host ≡ some jar
        → Reach (set_jar m id jar)
    remove_cookie_of :
        {m : Manager db.State} (id : ℕ) (name domain path : Text)
        → Reach m
        → Reach (set_jar m id (remove_cookie_for_api (m.heap id) name domain path).0)

  set_jar-IsConsistent :
      (m : Manager db.State) (id : ℕ) (jar : Jar)
      → IsConsistent m
      → IsValid jar
      → IsConsistent (set_jar m id jar)
  set_jar-IsConsistent m id jar c v = record {
    distinct = c.distinct;
    separate = c.separate;
    below = c.below;
    valid = update-IsValid m.heap id jar c.valid v;
  }

  -- Only the map, the heap and the next handle matter.
  same_jars-IsConsistent :
      (m m' : Manager db.State)
      → m'.jars ≡ m.jars
      → m'.heap ≡ m.heap
      → m'.next ≡ m.next
      → IsConsistent m
      → IsConsistent m'
  same_jars-IsConsistent m m' jars heap next c = record {
    distinct = subst IsDistinct (sym jars) c.distinct;
    separate = subst IsSeparate (sym jars) c.separate;
    below =
        subst (λ l. IsBelow m'.next l) (sym jars)
          (subst (λ n. IsBelow n m.jars) (sym next) c.below);
    valid = λ id. subst (λ h. IsValid (h id)) (sym heap) (c.valid id);
  }

  stored_jar-IsValid :
      (now : ℕ) (m : Manager db.State) (key : Text) (jar : Jar)
      → stored_jar db codec now m key ≡ some jar
      → IsValid jar
  unfolding stored_jar load_jar
  stored_jar-IsValid now m key jar h = elim (Option-cases m.db) [
    | inl off ↦ absurd (cc (rw (off, stored_jar) at h))
    | inr (s, on) ↦ elim (Option-cases (db.get s key)) [
      | inl absent ↦ absurd (cc (rw (on, stored_jar, absent, load_jar) at h))
      | inr (bytes, found) ↦
          restore_jar-IsValid db codec now m.max_per_jar bytes jar
            (rw (on, stored_jar, found, load_jar) at h)
    ]
  ]

  get_or_create_jar-IsConsistent :
      (now : ℕ) (m : Manager db.State) (key : Text)
      → IsConsistent m
      → IsConsistent (get_or_create_jar db codec now m key).0
  unfolding get_or_create_jar load_or_create
  get_or_create_jar-IsConsistent now m key c = elim (Bool-cases (is_empty key)) [
    | inl empty ↦ rw (empty, get_or_create_jar) c
    | inr ne ↦ elim (Option-cases (lookup text_dec key m.jars)) [
      | inr (id, found) ↦ rw (ne, get_or_create_jar, found) c
      | inl absent ↦ elim (Option-cases (stored_jar db codec now m key)) [
        | inl nothing ↦
            rw (ne, get_or_create_jar, absent, nothing, load_or_create)
              (store_jar-IsConsistent m key (new_jar m.max_per_jar) c
                (new_jar-IsSound m.max_per_jar).valid)
        | inr (jar, stored) ↦
            rw (ne, get_or_create_jar, absent, stored, load_or_create)
              (store_jar-IsConsistent m key jar c (stored_jar-IsValid now m key jar stored))
      ]
    ]
  ]

  persist_jar-IsConsistent :
      (now : ℕ) (m : Manager db.State) (key : Text) (id : ℕ)
      → IsConsistent m
      → IsConsistent (persist_jar db codec now m key id)
  unfolding persist_jar
  persist_jar-IsConsistent now m key id c = elim (Option-cases m.db) [
    | inl off ↦ rw (off, persist_jar) c
    | inr (s, on) ↦ elim (Bool-cases (ltb (length m.persist_ch) persist_ch_capacity)) [
      | inl room ↦ rw (on, persist_jar, room) (same_jars-IsConsistent m _ refl refl refl c)
      | inr full ↦ rw (on, persist_jar, full) c
    ]
  ]

  worker_step-IsConsistent :
      (m : Manager db.State) → IsConsistent m → IsConsistent (persist_worker_step db codec m)
  unfolding persist_worker_step
  worker_step-IsConsistent m c = elim (Option-cases m.db) [
    | inl off ↦ rw (off, persist_worker_step) c
    | inr (s, on) ↦ elim (List-cases m.persist_ch) [
      | inl nil ↦ rw (on, persist_worker_step, nil) c
      | inr (t, ts, cons) ↦
          rw (on, persist_worker_step, cons) (same_jars-IsConsistent m _ refl refl refl c)
    ]
  ]

  cleanup-IsConsistent :
      (now : ℕ) (m : Manager db.State) → IsConsistent m → IsConsistent (cleanup db codec now m)
  cleanup-IsConsistent now m c =
      let s = sweep now m.jars m.heap in
      let (jars, heap, next) = cleanup-jars db codec now m in
      same_jars-IsConsistent
        (record m { jars = delete_jars s.expired_sessions m.jars; heap = s.heap })
        (cleanup db codec now m) jars heap next
        (record {
          distinct = delete_jars-IsDistinct s.expired_sessions m.jars c.distinct;
          separate = delete_jars-IsSeparate s.expired_sessions m.jars c.separate;
          below = delete_jars-All (λ x. x.1 < m.next) s.expired_sessions m.jars c.below;
          valid = sweep-IsValid now m.jars m.heap c.valid;
        })

  pub Reach-IsConsistent : (m : Manager db.State) → Reach m → IsConsistent m
  unfolding new_manager empty_manager
  Reach-IsConsistent m (start now cfg h) = elim (Bool-cases (is_empty cfg.persist_path)) [
    | inl off ↦
        subst IsConsistent (eq_of_some (rw (off, new_manager) at h))
          (opened-IsConsistent db codec cfg none)
    | inr on ↦ elim (Option-cases (db.open_at cfg.persist_path)) [
      | inl fails ↦ absurd (cc (rw (on, fails, new_manager) at h))
      | inr (s, ok) ↦ subst IsConsistent (eq_of_some (rw (on, ok, new_manager) at h)) (
          load_all_jars-IsConsistent db codec now (opened db codec cfg (some s)) (db.entries s)
            (opened-IsConsistent db codec cfg (some s)))
    ]
  ]
  Reach-IsConsistent m (hand_out {m = m0} now key r) =
      get_or_create_jar-IsConsistent now m0 key (Reach-IsConsistent m0 r)
  Reach-IsConsistent m (persist {m = m0} now key id r) =
      persist_jar-IsConsistent now m0 key id (Reach-IsConsistent m0 r)
  Reach-IsConsistent m (work {m = m0} r) = worker_step-IsConsistent m0 (Reach-IsConsistent m0 r)
  Reach-IsConsistent m (clean {m = m0} now r) =
      cleanup-IsConsistent now m0 (Reach-IsConsistent m0 r)
  Reach-IsConsistent m (add_cookie_to {m = m0} {jar = jar} id now c host r h) =
      let k = Reach-IsConsistent m0 r in
      set_jar-IsConsistent m0 id jar k
        (add_cookie-IsValid now (m0.heap id) c host jar (k.valid id) h)
  Reach-IsConsistent m (remove_cookie_of {m = m0} id name domain path r) =
      let k = Reach-IsConsistent m0 r in
      set_jar-IsConsistent m0 id (remove_cookie_for_api (m0.heap id) name domain path).0 k
        (remove_cookie_for_api-IsKept (m0.heap id) name domain path (k.valid id)).valid

  -- In every manager that its operations can reach in any order, with requests changing the jars
  -- they were handed, the jar of a session is well formed, and what is written through its handle
  -- changes the jar of that session and of no other.
  pub Reach-isolates :
      (m : Manager db.State) (key : Text) (id : ℕ) (jar : Jar)
      → Reach m
      → lookup text_dec key m.jars ≡ some id
      → IsValid (m.heap id)
        × ((j : Text) → jar_at (set_jar m id jar) j ≡ ite (text_dec key j) (some jar) (jar_at m j))
  unfolding jar_at
  Reach-isolates m key id jar r h =
      let c = Reach-IsConsistent m r in
      (
        c.valid id,
        λ j. elim (text_dec key j) [
          | yes p ↦
              ap (jar_at_handle (update m.heap id jar))
                (ap (λ x. lookup text_dec x m.jars) (sym p) ∙ h)
              ∙ ap some (if_pos (ℕ_discrete id id) refl jar (m.heap id))
              ∙ sym (if_pos (text_dec key j) p (some jar) (jar_at m j))
          | no n ↦
              untouched m id jar (lookup text_dec j m.jars)
                (λ same. n (same_session key j id m.jars c.separate h same))
              ∙ sym (if_neg (text_dec key j) n (some jar) (jar_at m j))
        ],
      )
    where
      untouched :
          (m : Manager db.State) (id : ℕ) (jar : Jar) (o : Option ℕ)
          → ¬ (o ≡ some id)
          → jar_at_handle (update m.heap id jar) o ≡ jar_at_handle m.heap o
      untouched m id jar none ne = refl
      untouched m id jar (some n) ne =
          ap some (if_neg (ℕ_discrete id n) (λ e. ne (ap some (sym e))) jar (m.heap n))
