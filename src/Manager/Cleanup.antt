-- ===== src/Manager/Cleanup.antt =====
-- internal/cookiejar/manager.go: the jars and the database after a cleanup.
use cifera.Base.{
  if◌then◌else◌, Bool-cases, Option-cases, All, lookup, IsDistinct, lookup_of_IsFresh, Text,
  text_dec, ℕ, ◌≡◌, refl, ap, ap₂, ◌∙◌, inl, inr, Option, none, some, List, [], ◌∷◌, arith,
}
use cifera.CookieJar.Entry.{CookieEntry}
use cifera.CookieJar.Jar.{Jar, remove_expired, jar_is_expired, all_cookies}
use cifera.Manager.Storage.{Storage, IsLawful, Codec, IsCoded, IsReliable}
use cifera.Manager.State.{
  PersistTask, Manager, sweep, delete_jars, delete_from_db, write_jar_to_db, delete_all_from_db,
  write_survivors, cleanup,
}
use cifera.Manager.Handles.{IsConsistent, jar_at_handle, jar_at}
use cifera.Manager.Stored.{non_empty, view, view-delete_from_db, view-write_jar_to_db}
use cifera.Manager.Worker.{view_of}
use cifera.Manager.Survivors.{sweep-All}
use cifera.Manager.Sweep.{
  mem, lookup-delete_jars, survivor, sweep-used, sweep-IsDistinct, sweep-lookup,
}

-- What the database has for a session after a cleanup.
abbrev pub recorded_after : ℕ → Option Jar → Option (List CookieEntry) → Option (List CookieEntry)
recorded_after now none old = old
recorded_after now (some j) old =
    if jar_is_expired now (remove_expired now j)
    then none
    else non_empty (all_cookies now (remove_expired now j))

module _ (db : Storage) (codec : Codec) where
  pub cleanup-jars :
      (now : ℕ) (m : Manager db.State)
      → let s = sweep now m.jars m.heap in
        ((cleanup db codec now m).jars ≡ delete_jars s.expired_sessions m.jars)
        × ((cleanup db codec now m).heap ≡ s.heap)
        × ((cleanup db codec now m).next ≡ m.next)
  unfolding cleanup
  cleanup-jars now m =
      let at = λ (o : Option db.State). cleanup db codec now (record m { db = o }) in
      elim (Option-cases m.db) [
        | inl h ↦ (ap (λ o. (at o).jars) h, ap (λ o. (at o).heap) h, ap (λ o. (at o).next) h)
        | inr (d, h) ↦ (ap (λ o. (at o).jars) h, ap (λ o. (at o).heap) h, ap (λ o. (at o).next) h)
      ]

  cleanup-jar_at :
      (now : ℕ) (m : Manager db.State) (key : Text)
      → IsConsistent m
      → jar_at (cleanup db codec now m) key ≡ survivor now (jar_at m key)
  unfolding jar_at
  cleanup-jar_at now m key c =
      let s = sweep now m.jars m.heap in
      let old = lookup text_dec key m.jars in
      let (jars, heap, next) = cleanup-jars now m in
      let (gone, left) = sweep-lookup now m.jars m.heap key c.distinct c.separate in
      let deleted = lookup-delete_jars s.expired_sessions m.jars key in
      ap₂ jar_at_handle heap
        (ap (lookup text_dec key) jars ∙ deleted ∙ ap (λ b. if b then none else old) gone)
      ∙ elim (Option-cases old) [
        | inl absent ↦ rw absent
        | inr (id, found) ↦
            let jar = remove_expired now (m.heap id) in
            let used = sweep-used now m.jars m.heap key id c.separate found in
            elim (Bool-cases (jar_is_expired now jar)) [
              | inl dead ↦ rw (found, dead)
              | inr live ↦ rw (found, live) (ap some used)
            ]
      ]

  abbrev written : ℕ → (ℕ → Jar) → Option ℕ → Option (List CookieEntry) → Option (List CookieEntry)
  written now heap none old = old
  written now heap (some id) old = non_empty (all_cookies now (heap id))

  module _ (lawful : IsLawful db) (reliable : IsReliable db) where
    delete_all-view :
        (ks : List Text) (s : db.State) (key : Text)
        → view db codec (delete_all_from_db db codec s ks) key
          ≡ (if mem key ks then none else view db codec s key)
    unfolding delete_all_from_db mem
    delete_all-view [] s key = refl
    delete_all-view (k ∷ ks) s key = ground (
      arith,
      delete_all-view ks (delete_from_db db codec s k) key,
      view-delete_from_db db codec lawful reliable s k key,
    )

    write_survivors-view :
        (now : ℕ) (heap : ℕ → Jar) (l : List (Text × ℕ)) (s : db.State) (key : Text)
        → IsDistinct l
        → All (λ x. IsCoded codec (all_cookies now (heap x.1))) l
        → view db codec (write_survivors db codec now heap s l) key
          ≡ written now heap (lookup text_dec key l) (view db codec s key)
    unfolding write_survivors lookup
    write_survivors-view now heap [] s key u coded = refl
    write_survivors-view now heap ((k, id) ∷ l) s key (f, u) (coded, all_coded) =
        let t : PersistTask = record { jar_key = k; entries = all_cookies now (heap id) } in
        ground (
          arith,
          write_survivors-view now heap l (write_jar_to_db db codec s t) key u all_coded,
          view-write_jar_to_db db codec lawful reliable s t key coded,
          lookup_of_IsFresh text_dec k l f,
        )

    cleanup-view :
        (now : ℕ) (m : Manager db.State) (s : db.State) (key : Text)
        → IsConsistent m
        → m.db ≡ some s
        → All (λ x. IsCoded codec (all_cookies now (remove_expired now (m.heap x.1)))) m.jars
        → view_of db codec (cleanup db codec now m).db key
          ≡ recorded_after now (jar_at m key) (view db codec s key)
    unfolding jar_at cleanup
    cleanup-view now m s key c h coded =
        let sw = sweep now m.jars m.heap in
        let old = lookup text_dec key m.jars in
        let s1 = delete_all_from_db db codec s sw.expired_sessions in
        let (gone, left) = sweep-lookup now m.jars m.heap key c.distinct c.separate in
        ap (λ o. view_of db codec (cleanup db codec now (record m { db = o })).db key) h
        ∙ write_survivors-view now sw.heap sw.survivors s1 key
            (sweep-IsDistinct now m.jars m.heap c.distinct)
            (sweep-All now (λ j. IsCoded codec (all_cookies now j)) m.jars m.heap c.separate coded)
        ∙ ap₂ (written now sw.heap) left (
            delete_all-view sw.expired_sessions s key
            ∙ ap (λ b. if b then none else view db codec s key) gone)
        ∙ elim (Option-cases old) [
          | inl absent ↦ rw absent
          | inr (id, found) ↦
              let jar = remove_expired now (m.heap id) in
              let used = sweep-used now m.jars m.heap key id c.separate found in
              elim (Bool-cases (jar_is_expired now jar)) [
                | inl dead ↦ rw (found, dead)
                | inr live ↦ rw (found, live) (ap (λ j. non_empty (all_cookies now j)) used)
              ]
        ]

    -- In a consistent manager, over a database with the laws of a map whose updates succeed and
    -- with entries that are coded faithfully, a cleanup leaves every session the jar without its
    -- expired cookies, or no jar if none is left; the database then has, for a session with a jar,
    -- the persistent cookies of what is left of it, or nothing, and for a session without a jar
    -- what it had.
    pub cleanup-survivors :
        (now : ℕ) (m : Manager db.State) (s : db.State) (key : Text)
        → IsConsistent m
        → m.db ≡ some s
        → All (λ x. IsCoded codec (all_cookies now (remove_expired now (m.heap x.1)))) m.jars
        → (jar_at (cleanup db codec now m) key ≡ survivor now (jar_at m key))
          × (view_of db codec (cleanup db codec now m).db key
              ≡ recorded_after now (jar_at m key) (view db codec s key))
    cleanup-survivors now m s key c h coded =
        (cleanup-jar_at now m key c, cleanup-view now m s key c h coded)
