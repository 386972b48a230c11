-- ===== src/Manager/Stored.antt =====
-- internal/cookiejar/manager.go: a jar that is written to the database is loaded again as it was,
-- but for session cookies and those that have expired.
use cifera.Base.{
  if◌then◌else◌, Bool-cases, Option-cases, eq_of_some, IsIn, ℤ, Text, text_dec, ℕ, ◌≡◌, refl, sym,
  ap, ◌∙◌, inl, inr, ite, false≢true, Option, none, some, List, [], ◌∷◌,
}
use cifera.CookieJar.Entry.{CookieEntry, is_expired}
use cifera.CookieJar.Jar.{Jar, new_jar, is_persistent, all_cookies, restore_cookies}
use cifera.CookieJar.Find.{find}
use cifera.CookieJar.Places.{IsValid}
use cifera.CookieJar.Persist.{
  find-IsAt, none_some, persistent, stored_sound, stored_complete, find-new_jar,
  find-restore_cookies,
}
use cifera.CookieJar.Restore.{
  IsAt, restore_from_elsewhere, restore_from_found, restore_from_expired,
}
use cifera.Manager.Storage.{Storage, IsLawful, Codec, IsCoded, IsReliable}
use cifera.Manager.State.{PersistTask, delete_from_db, save, write_jar_to_db, restore_jar, load_jar}

-- A cookie that is still live at a later time.
abbrev pub unexpired : ℕ → Option CookieEntry → Option CookieEntry
unexpired now none = none
unexpired now (some e) = if is_expired now e then none else some e

-- What AllCookies hands out at one time is restored at another.
pub find-restore_later :
    (now later : ℕ) (j : Jar) (size : ℤ) (d k : Text)
    → IsValid j
    → find (restore_cookies later (new_jar size) (all_cookies now j)) d k
      ≡ unexpired later (persistent now (find j d k))
find-restore_later now later j size d k v =
    let all = all_cookies now j in
    let start = (new_jar size).cookies in
    let restored = find-restore_cookies later (new_jar size) all d k in
    elim (Option-cases (find j d k)) [
      | inl absent ↦ rw absent (
          restored
          ∙ restore_from_elsewhere later d k start all
              (λ x i at. none_some absent (stored_sound now j d k x v i at).0)
          ∙ find-new_jar size d k)
      | inr (e, found) ↦
          let unique : (x : CookieEntry) → IsIn x all → IsAt d k x → x ≡ e =
            λ x i at. eq_of_some (sym (stored_sound now j d k x v i at).0 ∙ found) in
          elim (Bool-cases (is_persistent now e)) [
            | inr drops ↦
                rw (found, drops)
                  (restored
                    ∙ restore_from_elsewhere later d k start all (λ x i at.
                      let (f, lasts) = stored_sound now j d k x v i at in
                      false≢true
                        (sym drops ∙ ap (is_persistent now) (eq_of_some (sym found ∙ f)) ∙ lasts))
                    ∙ find-new_jar size d k)
            | inl lasts ↦ elim (Bool-cases (is_expired later e)) [
              | inr live ↦
                  rw (found, lasts, live)
                    (restored
                      ∙ restore_from_found later d k e start all unique
                          (stored_complete now j d k e found lasts) (find-IsAt j d k e v found)
                          live)
              | inl old ↦
                  rw (found, lasts, old)
                    (restored
                      ∙ restore_from_expired later d k e start all unique old
                      ∙ find-new_jar size d k)
            ]
          ]
    ]

-- What is found in a jar that may be missing.
abbrev pub find_loaded : Option Jar → Text → Text → Option CookieEntry
find_loaded none d k = none
find_loaded (some j) d k = find j d k

-- What the database has of the entries of a jar: nothing where there are none.
abbrev pub non_empty : List CookieEntry → Option (List CookieEntry)
non_empty [] = none
non_empty (e ∷ es) = some (e ∷ es)

-- A map of entries by session after a task.
abbrev pub recorded :
    PersistTask → (Text → Option (List CookieEntry)) → Text → Option (List CookieEntry)
recorded t v j = ite (text_dec t.jar_key j) (non_empty t.entries) (v j)

-- The jar with the given entries.
abbrev pub restored : ℕ → ℤ → Option (List CookieEntry) → Option Jar
restored now size none = none
restored now size (some es) = some (restore_cookies now (new_jar size) es)

ite-ap : {A B P : Type 0} (f : A → B) (d : Dec P) (x y : A) → f (ite d x y) ≡ ite d (f x) (f y)
ite-ap f (yes p) x y = refl
ite-ap f (no n) x y = refl

module _ (db : Storage) (codec : Codec) where
  abbrev decoded : Option Text → Option (List CookieEntry)
  decoded none = none
  decoded (some bytes) = codec.unmarshal bytes

  -- What is decoded under a key.
  unfoldable pub view : db.State → Text → Option (List CookieEntry)
  view s j = decoded (db.get s j)

  pub restore_jar-decoded :
      (now : ℕ) (size : ℤ) (bytes : Text)
      → restore_jar db codec now size bytes ≡ restored now size (codec.unmarshal bytes)
  unfolding restore_jar
  restore_jar-decoded now size bytes = elim (Option-cases (codec.unmarshal bytes)) [
    | inl bad ↦ rw (bad, restore_jar)
    | inr (es, good) ↦ rw (good, restore_jar)
  ]

  pub load_jar-view :
      (now : ℕ) (size : ℤ) (s : db.State) (key : Text)
      → load_jar db codec now size s key ≡ restored now size (view s key)
  unfolding load_jar view
  load_jar-view now size s key = elim (Option-cases (db.get s key)) [
    | inl absent ↦ rw (absent, load_jar)
    | inr (bytes, found) ↦ rw (found, load_jar) (restore_jar-decoded now size bytes)
  ]

  module _ (lawful : IsLawful db) (reliable : IsReliable db) where
    get-save :
        (s : db.State) (key bytes j : Text)
        → db.get (save db codec s key (some bytes)) j
          ≡ ite (text_dec key j) (some bytes) (db.get s j)
    unfolding save
    get-save s key bytes j =
        let (s', done) = reliable.sets s key bytes in rw done (lawful.get-set s s' key bytes j done)

    get-delete_from_db :
        (s : db.State) (key j : Text)
        → db.get (delete_from_db db codec s key) j ≡ ite (text_dec key j) none (db.get s j)
    unfolding delete_from_db
    get-delete_from_db s key j =
        let (s', done) = reliable.removes s key in rw done (lawful.get-remove s s' key j done)

    pub view-delete_from_db :
        (s : db.State) (key j : Text)
        → view (delete_from_db db codec s key) j ≡ ite (text_dec key j) none (view s j)
    unfolding view
    view-delete_from_db s key j =
        ap decoded (get-delete_from_db s key j) ∙ ite-ap decoded (text_dec key j) none (db.get s j)

    view-write :
        (s : db.State) (key j : Text) (es : List CookieEntry)
        → IsCoded codec es
        → view (write_jar_to_db db codec s (record { jar_key = key; entries = es })) j
          ≡ ite (text_dec key j) (non_empty es) (view s j)
    unfolding write_jar_to_db view
    view-write s key j [] coded = view-delete_from_db s key j
    view-write s key j (e ∷ es) (bytes, done, back) =
        let old = decoded (db.get s j) in
        rw done (
          ap decoded (get-save s key bytes j)
          ∙ ite-ap decoded (text_dec key j) (some bytes) (db.get s j)
          ∙ ap (λ x. ite (text_dec key j) x old) back)

    pub view-write_jar_to_db :
        (s : db.State) (t : PersistTask) (j : Text)
        → IsCoded codec t.entries
        → view (write_jar_to_db db codec s t) j ≡ recorded t (view s) j
    view-write_jar_to_db s t j coded = view-write s t.jar_key j t.entries coded
