-- ===== src/Manager/State.antt =====
-- internal/cookiejar/manager.go: the manager and its operations. A jar is shared by reference, so
-- the map holds handles into a heap of jars. The reading of the clock is an argument, one for each
-- operation.
use cifera.Base.{
  ℕ, zero, suc, ◌+◌, Bool, true, false, Option, none, some, List, [], ◌∷◌, ◌++◌, length, ltb,
  if◌then◌else◌, ite, ℕ_discrete, ◌*◌, ℤ, pos, negsuc, Text, text_dec, is_empty, lookup, insert,
  delete,
}
use cifera.CookieJar.Entry.{CookieEntry}
use cifera.CookieJar.Jar.{
  Jar, new_jar, remove_expired, jar_is_expired, all_cookies, restore_cookies,
}
use cifera.Manager.Storage.{Storage, Codec}

pub record Config : Type 0 where
  pub enabled : Bool
  pub jar_capacity : ℤ
  pub persist_path : Text
  pub cleanup_interval : ℤ

pub record PersistTask : Type 0 where
  pub jar_key : Text
  pub entries : List CookieEntry

pub record Manager (D : Type 0) : Type 0 where
  pub jars : List (Text × ℕ)
  pub heap : ℕ → Jar
  pub next : ℕ
  pub db : Option D
  pub max_per_jar : ℤ
  pub cleanup_interval : ℤ
  pub persist_ch : List PersistTask

abbrev pub persist_ch_capacity : ℕ
persist_ch_capacity = 4096

-- A jar written into the heap.
abbrev pub update : (ℕ → Jar) → ℕ → Jar → ℕ → Jar
update heap id jar n = ite (ℕ_discrete id n) jar (heap n)

-- A jar is changed through its handle.
abbrev pub set_jar : {D : Type 0} → Manager D → ℕ → Jar → Manager D
set_jar m id jar = record m { heap = update m.heap id jar }

abbrev pub positive_or : ℕ → ℤ → ℤ
positive_or default (pos zero) = pos default
positive_or default (pos (suc n)) = pos (suc n)
positive_or default (negsuc n) = pos default

-- The map `m.jars` gets a jar that is new in the heap.
unfoldable pub store_jar : {D : Type 0} → Manager D → Text → Jar → Manager D
store_jar m key jar = record m {
  jars = insert text_dec key m.next m.jars;
  heap = update m.heap m.next jar;
  next = m.next + 1;
}

pub record Swept : Type 0 where
  pub survivors : List (Text × ℕ)
  pub expired_sessions : List Text
  pub heap : ℕ → Jar

-- The loop of cleanup over the jars.
unfoldable pub sweep : ℕ → List (Text × ℕ) → (ℕ → Jar) → Swept
sweep now [] heap = record { survivors = []; expired_sessions = []; heap = heap }
sweep now ((key, id) ∷ rest) heap =
    let jar = remove_expired now (heap id) in
    let s = sweep now rest (update heap id jar) in
    if jar_is_expired now jar
    then record s { expired_sessions = key ∷ s.expired_sessions }
    else record s { survivors = (key, id) ∷ s.survivors }

unfoldable pub delete_jars : List Text → List (Text × ℕ) → List (Text × ℕ)
delete_jars [] m = m
delete_jars (key ∷ keys) m = delete_jars keys (delete text_dec key m)

module _ (db : Storage) (codec : Codec) where
  -- A failed update is logged and leaves the store as it was.
  abbrev or_same : db.State → Option db.State → db.State
  or_same s none = s
  or_same s (some s') = s'

  unfoldable pub delete_from_db : db.State → Text → db.State
  delete_from_db s key = or_same s (db.remove s key)

  unfoldable pub save : db.State → Text → Option Text → db.State
  save s key none = s
  save s key (some bytes) = or_same s (db.set s key bytes)

  unfoldable pub write_jar_to_db : db.State → PersistTask → db.State
  write_jar_to_db s task = elim task.entries [
    | [] ↦ delete_from_db s task.jar_key
    | e ∷ es ↦ save s task.jar_key (codec.marshal (e ∷ es))
  ]

  unfoldable pub restore_jar : ℕ → ℤ → Text → Option Jar
  restore_jar now max_per_jar bytes = elim (codec.unmarshal bytes) [
    | none ↦ none
    | some entries ↦ some (restore_cookies now (new_jar max_per_jar) entries)
  ]

  unfoldable pub load_jar : ℕ → ℤ → db.State → Text → Option Jar
  load_jar now max_per_jar s key = elim (db.get s key) [
    | none ↦ none
    | some bytes ↦ restore_jar now max_per_jar bytes
  ]

  -- The loop of loadAllJars; what cannot be decoded is left out.
  unfoldable pub load_all_jars : ℕ → Manager db.State → List (Text × Text) → Manager db.State
  load_all_jars now m [] = m
  load_all_jars now m ((key, bytes) ∷ rest) = elim (restore_jar now m.max_per_jar bytes) [
    | none ↦ load_all_jars now m rest
    | some jar ↦ load_all_jars now (store_jar m key jar) rest
  ]

  unfoldable pub empty_manager : Config → Manager db.State
  empty_manager cfg = record {
    jars = [];
    heap = λ n. new_jar (positive_or 500 cfg.jar_capacity);
    next = 0;
    db = none;
    max_per_jar = positive_or 500 cfg.jar_capacity;
    cleanup_interval = positive_or (5 * 60 * 1_000_000_000) cfg.cleanup_interval;
    persist_ch = [];
  }

  -- NewManager: none when the database cannot be opened.
  unfoldable pub new_manager : ℕ → Config → Option (Manager db.State)
  new_manager now cfg =
      let m = empty_manager cfg in
      if is_empty cfg.persist_path then some m else (elim (db.open_at cfg.persist_path) [
        | none ↦ none
        | some s ↦ some (load_all_jars now (record m { db = some s }) (db.entries s))
      ])

  -- What the database has for a key, if there is one.
  unfoldable pub stored_jar : ℕ → Manager db.State → Text → Option Jar
  stored_jar now m key = elim m.db [ none ↦ none | some s ↦ load_jar now m.max_per_jar s key ]

  unfoldable pub load_or_create :
      Manager db.State → Text → Option Jar → Manager db.State × Option (ℕ × Bool)
  load_or_create m key (some jar) = (store_jar m key jar, some (m.next, false))
  load_or_create m key none = (store_jar m key (new_jar m.max_per_jar), some (m.next, true))

  -- GetOrCreateJar: the handle of the jar, and whether it is new.
  unfoldable pub get_or_create_jar :
      ℕ → Manager db.State → Text → Manager db.State × Option (ℕ × Bool)
  get_or_create_jar now m key =
      if is_empty key then (m, none) else (elim (lookup text_dec key m.jars) [
        | some id ↦ (m, some (id, false))
        | none ↦ load_or_create m key (stored_jar now m key)
      ])

  -- PersistJar: the task is dropped when the channel is full.
  unfoldable pub persist_jar : ℕ → Manager db.State → Text → ℕ → Manager db.State
  persist_jar now m key id = elim m.db [
    | none ↦ m
    | some s ↦
        if ltb (length m.persist_ch) persist_ch_capacity
        then record m {
          persist_ch =
              m.persist_ch ++ record { jar_key = key; entries = all_cookies now (m.heap id) } ∷ [];
        }
        else m
  ]

  -- The worker writes the tasks in the order of the channel.
  unfoldable pub write_all : db.State → List PersistTask → db.State
  write_all s [] = s
  write_all s (t ∷ ts) = write_all (write_jar_to_db s t) ts

  -- One round of persistWorker.
  unfoldable pub persist_worker_step : Manager db.State → Manager db.State
  persist_worker_step m = elim m.db [
    | none ↦ m
    | some s ↦ elim m.persist_ch [
      | [] ↦ m
      | t ∷ ts ↦ record m { db = some (write_jar_to_db s t); persist_ch = ts }
    ]
  ]

  -- Close drains the channel, and the database is closed.
  unfoldable pub close : Manager db.State → Manager db.State
  close m = elim m.db [
    | none ↦ m
    | some s ↦ record m { db = some (write_all s m.persist_ch); persist_ch = [] }
  ]

  unfoldable pub delete_all_from_db : db.State → List Text → db.State
  delete_all_from_db s [] = s
  delete_all_from_db s (key ∷ keys) = delete_all_from_db (delete_from_db s key) keys

  unfoldable pub write_survivors : ℕ → (ℕ → Jar) → db.State → List (Text × ℕ) → db.State
  write_survivors now heap s [] = s
  write_survivors now heap s ((key, id) ∷ rest) =
      write_survivors now heap
        (write_jar_to_db s (record { jar_key = key; entries = all_cookies now (heap id) })) rest

  unfoldable pub cleanup : ℕ → Manager db.State → Manager db.State
  cleanup now m =
      let s = sweep now m.jars m.heap in
      let m' = record m { jars = delete_jars s.expired_sessions m.jars; heap = s.heap } in
      elim m.db [
        | none ↦ m'
        | some d ↦ record m' {
          db =
              some
                (write_survivors now s.heap (delete_all_from_db d s.expired_sessions) s.survivors);
        }
      ]
