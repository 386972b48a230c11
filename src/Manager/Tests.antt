-- ===== src/Manager/Tests.antt =====
-- internal/cookiejar/manager.go: runs on a database in memory, and the theorems at concrete inputs.
use cifera.Base.{
  eq_of_some, pos, lookup, insert, delete, lookup-insert, lookup-delete, IsDistinct,
  insert-IsDistinct, delete-IsDistinct, Text, codes, text_eq, text_dec, ◌≡◌, refl, sym, ap, ◌∙◌,
  ite, true, false, some, List, [], ◌∷◌, arith,
}
use cifera.CookieJar.Entry.{CookieEntry, is_session_cookie, age_is_over, is_expired, cookie_key}
use cifera.CookieJar.Jar.{
  Jar, new_jar, in_domain, places, fresh_entries, fresh_domains, remove_expired, jar_is_expired,
  is_persistent, all_cookies, restore_one, restore_from, restore_cookies,
}
use cifera.CookieJar.Places.{IsValid}
use cifera.CookieJar.Find.{find_in, find}
use cifera.CookieJar.Persist.{persistent}
use cifera.Manager.Storage.{Storage, IsLawful, Codec, IsReliable}
use cifera.Manager.State.{
  Config, Manager, store_jar, sweep, delete_jars, delete_from_db, save, write_jar_to_db,
  restore_jar, load_jar, load_all_jars, empty_manager, new_manager, stored_jar, load_or_create,
  get_or_create_jar, persist_jar, write_all, persist_worker_step, close, delete_all_from_db,
  write_survivors, cleanup, set_jar,
}
use cifera.Manager.Handles.{IsConsistent, jar_at}
use cifera.Manager.Stored.{unexpired, find_loaded, view}
use cifera.Manager.Worker
use cifera.Manager.Worker.{replay, rounds, view_of, rounds-replay}
use cifera.Manager.Restart.{handed}
use cifera.Manager.Reopened
use cifera.Manager.Sweep.{survivor}
use cifera.Manager.Cleanup
use cifera.Manager.Cleanup.{recorded_after, cleanup-survivors}
use cifera.Manager.Reach
use cifera.Manager.Reach.{start, hand_out, Reach, Reach-isolates}

abbrev Disk : Type 0
Disk = (l : List (Text × Text)) × IsDistinct l

-- A database in memory that has this when it is opened.
abbrev memory : Disk → Storage
memory disk = record {
  State = Disk;
  open_at = λ path. some disk;
  get = λ s k. lookup text_dec k s.0;
  set = λ s k v. some (insert text_dec k v s.0, insert-IsDistinct text_dec k v s.0 s.1);
  remove = λ s k. some (delete text_dec k s.0, delete-IsDistinct text_dec k s.0 s.1);
  entries = λ s. s.0;
}

memory-IsLawful : (disk : Disk) → IsLawful (memory disk)
memory-IsLawful disk = record {
  get-set = λ s s' k v j h.
      ap (λ x. lookup text_dec j x.0) (sym (eq_of_some h)) ∙ lookup-insert text_dec k j v s.0;
  get-remove = λ s s' k j h.
      ap (λ x. lookup text_dec j x.0) (sym (eq_of_some h)) ∙ lookup-delete text_dec k j s.0;
  entries-IsDistinct = λ s. s.1;
  get-entries = λ s j. refl;
}

memory-IsReliable : (disk : Disk) → IsReliable (memory disk)
memory-IsReliable disk = record {
  sets = λ s k v. ((insert text_dec k v s.0, insert-IsDistinct text_dec k v s.0 s.1), refl);
  removes = λ s k. ((delete text_dec k s.0, delete-IsDistinct text_dec k s.0 s.1), refl);
}

abbrev cookie : CookieEntry
cookie = record {
  name = codes "a";
  value = codes "v";
  domain = codes "x.org";
  path = codes "/";
  expires = 900;
  max_age = pos 0;
  secure = false;
  http_only = false;
  same_site = 0;
  host_only = true;
  created = 5;
}

abbrev jar : Jar
jar = record {
  cookies = (codes "x.org", (cookie_key (codes "a") (codes "/"), cookie) ∷ []) ∷ [];
  max_size = 3;
}

-- An encoding of the one list of entries that the tests write.
abbrev codec : Codec
codec = record { marshal = λ es. some (codes "[a]"); unmarshal = λ t. some (cookie ∷ []) }

abbrev empty : Disk
empty = ([], tt)

abbrev key : Text
key = codes "t:1"

abbrev manager : Manager Disk
manager = record {
  jars = (key, 0) ∷ [];
  heap = λ n. jar;
  next = 1;
  db = some empty;
  max_per_jar = pos 3;
  cleanup_interval = pos 9;
  persist_ch = [];
}

abbrev config : Text → Config
config path = record {
  enabled = true;
  jar_capacity = pos 3;
  persist_path = path;
  cleanup_interval = pos 0;
}

abbrev sent : Manager Disk
sent = record manager {
  persist_ch =
      record { jar_key = key; entries = cookie ∷ [] }
      ∷ record { jar_key = codes "t:2"; entries = [] }
      ∷ [];
}

jar-IsValid : IsValid jar
jar-IsValid = record { domains = (tt, tt); good = (((tt, tt), ((refl, refl), tt)), tt) }

program : Unit {0}
unfolding lookup insert delete text_dec text_eq is_session_cookie age_is_over is_expired new_jar
    all_cookies is_persistent places in_domain restore_one restore_from restore_cookies
    remove_expired fresh_domains fresh_entries jar_is_expired find find_in store_jar delete_from_db
    save write_jar_to_db restore_jar load_jar load_all_jars empty_manager new_manager stored_jar
    load_or_create get_or_create_jar persist_jar write_all persist_worker_step close sweep
    delete_jars delete_all_from_db write_survivors cleanup jar_at view rounds
program = tt

abbrev stored : Disk
stored = ((key, codes "[a]") ∷ [], (tt, tt))

close_writes : (close (memory empty) codec sent).db ≡ some stored
unfolding program
close_writes = refl

-- The cookie expires, and the session goes, in memory and on the disk.
cleanup_drops : (cleanup (memory empty) codec 1_000 (record manager { db = some stored })).jars ≡ []
unfolding program
cleanup_drops = refl

reopens_jar :
    (get_or_create_jar
      (memory stored)
      codec
      100
      (record manager { jars = []; db = some stored })
      key).1
    ≡ some (1, false)
unfolding program
reopens_jar = refl

rounds-replay_example :
    let m' = rounds (memory empty) codec 2 sent in
    (m'.persist_ch ≡ [])
    × ((j : Text)
        → view_of (memory empty) codec m'.db j
          ≡ replay sent.persist_ch (view (memory empty) codec empty) j)
    × (close (memory empty) codec sent ≡ m')
rounds-replay_example =
    Worker.rounds-replay (memory empty) codec (memory-IsLawful empty) (memory-IsReliable empty) sent
      empty refl ((codes "[a]", refl, refl), (tt, tt))

find-reopened_example :
    (m' : Manager Disk) × (new_manager (memory stored) codec 200 (config (codes "/d")) ≡ some m')
    × ((d k : Text)
        → find_loaded (handed (get_or_create_jar (memory stored) codec 200 m' key)) d k
          ≡ unexpired 200 (persistent 100 (find jar d k)))
unfolding program
find-reopened_example =
    Reopened.find-reopened (memory stored) codec (memory-IsLawful stored) (memory-IsReliable stored)
      100 200 manager empty key 0 (config (codes "/d")) refl (omega arith) jar-IsValid
      (codes "[a]", refl, refl) refl refl refl

manager-IsConsistent : IsConsistent manager
manager-IsConsistent = record {
  distinct = (tt, tt);
  separate = (tt, tt);
  below = (omega arith, tt);
  valid = λ id. jar-IsValid;
}

cleanup-survivors_example :
    (jar_at (cleanup (memory empty) codec 100 manager) key ≡ survivor 100 (jar_at manager key))
    × (view_of (memory empty) codec (cleanup (memory empty) codec 100 manager).db key
        ≡ recorded_after 100 (jar_at manager key) (view (memory empty) codec empty key))
unfolding program
cleanup-survivors_example =
    Cleanup.cleanup-survivors (memory empty) codec (memory-IsLawful empty) (memory-IsReliable empty)
      100 manager empty key manager-IsConsistent refl ((codes "[a]", refl, refl), tt)

abbrev first : Manager Disk
first = empty_manager (memory empty) codec (config [])

abbrev handed_out : Manager Disk
handed_out = (get_or_create_jar (memory empty) codec 100 first key).0

first-Reach : Reach.Reach (memory empty) codec handed_out
unfolding program
first-Reach = hand_out 100 key (start {m = first} 100 (config []) refl)

Reach-isolates_example :
    IsValid (handed_out.heap 0)
    × ((j : Text)
        → jar_at (set_jar handed_out 0 jar) j
          ≡ ite (text_dec key j) (some jar) (jar_at handed_out j))
unfolding program
Reach-isolates_example =
    Reach.Reach-isolates (memory empty) codec handed_out key 0 jar first-Reach refl
