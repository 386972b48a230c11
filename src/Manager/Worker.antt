-- ===== src/Manager/Worker.antt =====
-- internal/cookiejar/manager.go: the worker writes the tasks of the channel, in their order, and
-- closing the manager writes all that are left.
use cifera.Base.{
  length, All, Text, text_dec, ℕ, zero, suc, ◌≡◌, refl, sym, ap, ap₂, ◌∙◌, ite, Option, none, some,
  List, [], ◌∷◌, ◌++◌,
}
use cifera.CookieJar.Entry.{CookieEntry}
use cifera.Manager.Storage.{Storage, IsLawful, Codec, IsCoded, IsReliable}
use cifera.Manager.State.{
  PersistTask, Manager, write_jar_to_db, write_all, persist_worker_step, close,
}
use cifera.Manager.Stored.{non_empty, recorded, view, view-write_jar_to_db}

-- A map of entries by session after tasks that are done one after another.
abbrev pub replay :
    List PersistTask → (Text → Option (List CookieEntry)) → Text → Option (List CookieEntry)
replay [] v = v
replay (t ∷ ts) v = replay ts (recorded t v)

module _ (db : Storage) (codec : Codec) where
  pub write_all-append :
      (s : db.State) (ts us : List PersistTask)
      → write_all db codec s (ts ++ us) ≡ write_all db codec (write_all db codec s ts) us
  unfolding write_all
  write_all-append s [] us = refl
  write_all-append s (t ∷ ts) us = write_all-append (write_jar_to_db db codec s t) ts us

  -- So many rounds of the worker, with nothing sent in between.
  unfoldable pub rounds : ℕ → Manager db.State → Manager db.State
  rounds zero m = m
  rounds (suc n) m = rounds n (persist_worker_step db codec m)

  -- What stands in the database of a manager.
  abbrev pub view_of : Option db.State → Text → Option (List CookieEntry)
  view_of none j = none
  view_of (some s) j = view db codec s j

  worker_step-write :
      (m : Manager db.State) (s : db.State) (t : PersistTask) (ts : List PersistTask)
      → m.db ≡ some s
      → m.persist_ch ≡ t ∷ ts
      → persist_worker_step db codec m
        ≡ record m { db = some (write_jar_to_db db codec s t); persist_ch = ts }
  unfolding persist_worker_step
  worker_step-write m s t ts h e =
      ap₂ (λ d c. persist_worker_step db codec (record m { db = d; persist_ch = c })) h e

  rounds-write_all :
      (ts : List PersistTask) (m : Manager db.State) (s : db.State)
      → m.db ≡ some s
      → m.persist_ch ≡ ts
      → rounds (length ts) m ≡ record m { db = some (write_all db codec s ts); persist_ch = [] }
  unfolding rounds write_all
  rounds-write_all [] m s h e = ap₂ (λ d c. record m { db = d; persist_ch = c }) h e
  rounds-write_all (t ∷ ts) m s h e =
      let s' = write_jar_to_db db codec s t in
      ap (rounds (length ts)) (worker_step-write m s t ts h e)
      ∙ rounds-write_all ts (record m { db = some s'; persist_ch = ts }) s' refl refl

  pub close-write_all :
      (m : Manager db.State) (s : db.State)
      → m.db ≡ some s
      → close db codec m
        ≡ record m { db = some (write_all db codec s m.persist_ch); persist_ch = [] }
  unfolding close
  close-write_all m s h = ap (λ o. close db codec (record m { db = o })) h

  module _ (lawful : IsLawful db) (reliable : IsReliable db) where
    pub view-write_all :
        (ts : List PersistTask) (s : db.State) (v : Text → Option (List CookieEntry))
        → All (λ t. IsCoded codec t.entries) ts
        → ((j : Text) → view db codec s j ≡ v j)
        → (j : Text) → view db codec (write_all db codec s ts) j ≡ replay ts v j
    unfolding write_all
    view-write_all [] s v coded h j = h j
    view-write_all (t ∷ ts) s v (coded, all_coded) h j =
        view-write_all ts (write_jar_to_db db codec s t) (recorded t v) all_coded
          (λ i.
            view-write_jar_to_db db codec lawful reliable s t i coded
            ∙ ap (ite (text_dec t.jar_key i) (non_empty t.entries)) (h i))
          j

    -- Over a database with the laws of a map whose updates succeed, with nothing sent in between
    -- and entries that are coded faithfully, the worker empties the channel in as many rounds as it
    -- has tasks, and the database then is the abstract map from sessions to entries in which the
    -- tasks are done one after another, an empty task deleting the session; closing the manager has
    -- the same effect.
    pub rounds-replay :
        (m : Manager db.State) (s : db.State)
        → m.db ≡ some s
        → All (λ t. IsCoded codec t.entries) m.persist_ch
        → let m' = rounds (length m.persist_ch) m in
          (m'.persist_ch ≡ [])
          × ((j : Text) → view_of m'.db j ≡ replay m.persist_ch (view db codec s) j)
          × (close db codec m ≡ m')
    rounds-replay m s h coded =
        let all = rounds-write_all m.persist_ch m s h refl in
        (
          ap (λ x. x.persist_ch) all,
          (λ j.
              ap (λ x. view_of x.db j) all
              ∙ view-write_all m.persist_ch s (view db codec s) coded (λ i. refl) j),
          close-write_all m s h ∙ sym all,
        )
