-- ===== src/Manager/Reopened.antt =====
-- internal/cookiejar/manager.go: what PersistJar is given comes back after the manager is closed
-- and another is opened on its database.
use cifera.Base.{
  if◌then◌else◌, lt→ltb, length, ℤ, lookup, Text, text_dec, is_empty, ℕ, ◌<◌, ◌≡◌, refl, sym, ap,
  ap₂, ◌∙◌, if_pos, false, Option, none, some, List, [], ◌∷◌, ◌++◌,
}
use cifera.CookieJar.Entry.{CookieEntry}
use cifera.CookieJar.Jar.{Jar, new_jar, all_cookies, restore_cookies}
use cifera.CookieJar.Places.{IsValid}
use cifera.CookieJar.Find.{find}
use cifera.CookieJar.Persist.{persistent}
use cifera.Manager.Storage.{Storage, IsLawful, Codec, IsCoded, IsReliable}
use cifera.Manager.State.{
  Config, PersistTask, Manager, persist_ch_capacity, positive_or, load_all_jars, empty_manager,
  new_manager, stored_jar, get_or_create_jar, persist_jar, write_all, close,
}
use cifera.Manager.Handles.{jar_at}
use cifera.Manager.Stored.{
  unexpired, find-restore_later, find_loaded, non_empty, restored, view, restore_jar-decoded,
  view-write_jar_to_db,
}
use cifera.Manager.Worker.{write_all-append, close-write_all}
use cifera.Manager.Restart.{
  or_else, handed, or_new, find-or_new, decoded_jar, jar_at-load_all_jars, load_all_jars-keeps,
  opened, opened-IsConsistent, stored_jar-view, get_or_create_jar-handed,
}

module _ (db : Storage) (codec : Codec) where
  new_manager-opened :
      (now : ℕ) (cfg : Config) (s : db.State)
      → is_empty cfg.persist_path ≡ false
      → db.open_at cfg.persist_path ≡ some s
      → new_manager db codec now cfg
        ≡ some (load_all_jars db codec now (opened db codec cfg (some s)) (db.entries s))
  unfolding new_manager
  new_manager-opened now cfg s path h = rw (path, h, new_manager)

  persist_jar-sends :
      (now : ℕ) (m : Manager db.State) (s : db.State) (key : Text) (id : ℕ)
      → m.db ≡ some s
      → length m.persist_ch < persist_ch_capacity
      → persist_jar db codec now m key id ≡ record m {
        persist_ch =
            m.persist_ch ++ record { jar_key = key; entries = all_cookies now (m.heap id) } ∷ [];
      }
  unfolding persist_jar
  persist_jar-sends now m s key id h room =
      let sent =
        m.persist_ch ++ record { jar_key = key; entries = all_cookies now (m.heap id) } ∷ [] in
      ap (λ o. persist_jar db codec now (record m { db = o }) key id) h
      ∙ ap
          (λ b. if b then record m { db = some s; persist_ch = sent } else record m { db = some s })
          (lt→ltb _ _ room)
      ∙ ap (λ o. record m { db = o; persist_ch = sent }) (sym h)

  module _ (lawful : IsLawful db) (reliable : IsReliable db) where
    -- What the database has after the channel was drained is what was sent last.
    view-drained :
        (s : db.State) (ts : List PersistTask) (key : Text) (es : List CookieEntry)
        → IsCoded codec es
        → view db codec
            (write_all db codec s (ts ++ record { jar_key = key; entries = es } ∷ []))
            key
          ≡ non_empty es
    unfolding write_all
    view-drained s ts key es coded =
        let t : PersistTask = record { jar_key = key; entries = es } in
        let s' = write_all db codec s ts in
        ap (λ x. view db codec x key) (write_all-append db codec s ts (t ∷ []))
        ∙ view-write_jar_to_db db codec lawful reliable s' t key coded
        ∙ if_pos (text_dec key key) refl (non_empty es) (view db codec s' key)

    decoded_jar-view :
        (now : ℕ) (size : ℤ) (s : db.State) (key : Text) (o : Option Text)
        → o ≡ db.get s key
        → decoded_jar db codec now size o ≡ restored now size (view db codec s key)
    unfolding view
    decoded_jar-view now size s key none h = rw (sym h)
    decoded_jar-view now size s key (some bytes) h =
        rw (sym h) (restore_jar-decoded db codec now size bytes)

    find-opened :
        (now : ℕ) (cfg : Config) (s : db.State) (key : Text) (es : List CookieEntry) (d k : Text)
        → is_empty key ≡ false
        → view db codec s key ≡ non_empty es
        → let size = positive_or 500 cfg.jar_capacity in
          let m = load_all_jars db codec now (opened db codec cfg (some s)) (db.entries s) in
          find_loaded (handed (get_or_create_jar db codec now m key)) d k
          ≡ find (restore_cookies now (new_jar size) es) d k
    unfolding jar_at empty_manager lookup
    find-opened now cfg s key es d k ne h =
        let size = positive_or 500 cfg.jar_capacity in
        let m0 = opened db codec cfg (some s) in
        let m = load_all_jars db codec now m0 (db.entries s) in
        let (cap, same) = load_all_jars-keeps db codec now m0 (db.entries s) in
        let o = restored now size (non_empty es) in
        let here : jar_at m key ≡ o =
          jar_at-load_all_jars db codec now m0 (db.entries s) key
            (opened-IsConsistent db codec cfg (some s)) (lawful.entries-IsDistinct s)
          ∙ ap (λ x. or_else x none)
              (decoded_jar-view now size s key (lookup text_dec key (db.entries s))
                  (lawful.get-entries s key)
                ∙ ap (restored now size) h)
          ∙ or_else-none o in
        let there : stored_jar db codec now m key ≡ o =
          stored_jar-view db codec now m s key same ∙ ap₂ (λ n x. restored now n x) cap h in
        ap (λ x. find_loaded x d k)
          (get_or_create_jar-handed db codec now m key ne
            ∙ ap some (ap₂ (λ n x. or_new n x) cap (ap₂ or_else here there)))
        ∙ find-or_new now size es d k
      where
        or_else-none : (o : Option Jar) → or_else o none ≡ o
        or_else-none none = refl
        or_else-none (some x) = refl

    -- Over a database with the laws of a map whose updates succeed: when a well-formed jar of a
    -- session with a non-empty key is given to PersistJar while the channel has room, its entries
    -- are coded faithfully, the manager is closed and its directory is opened again, NewManager
    -- succeeds and GetOrCreateJar hands out a jar that has, at every place, exactly the cookie that
    -- was there, if it was persistent then and is not expired now.
    pub find-reopened :
        (now later : ℕ) (m : Manager db.State) (s : db.State) (key : Text) (id : ℕ) (cfg : Config)
        → m.db ≡ some s
        → length m.persist_ch < persist_ch_capacity
        → IsValid (m.heap id)
        → IsCoded codec (all_cookies now (m.heap id))
        → is_empty key ≡ false
        → is_empty cfg.persist_path ≡ false
        → db.open_at cfg.persist_path ≡ (close db codec (persist_jar db codec now m key id)).db
        → (m' : Manager db.State) × (new_manager db codec later cfg ≡ some m')
          × ((d k : Text)
              → find_loaded (handed (get_or_create_jar db codec later m' key)) d k
                ≡ unexpired later (persistent now (find (m.heap id) d k)))
    find-reopened now later m s key id cfg h room v coded ne path reopen =
        let es = all_cookies now (m.heap id) in
        let s' =
          write_all db codec s (m.persist_ch ++ record { jar_key = key; entries = es } ∷ []) in
        let closed : (close db codec (persist_jar db codec now m key id)).db ≡ some s' =
          ap (λ x. (close db codec x).db) (persist_jar-sends now m s key id h room)
          ∙ ap (λ x. x.db) (close-write_all db codec _ s h) in
        (
          load_all_jars db codec later (opened db codec cfg (some s')) (db.entries s'),
          new_manager-opened later cfg s' path (reopen ∙ closed),
          λ d k.
              find-opened later cfg s' key es d k ne (view-drained s m.persist_ch key es coded)
              ∙ find-restore_later now later (m.heap id) (positive_or 500 cfg.jar_capacity) d k v,
        )
