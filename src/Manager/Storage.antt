-- ===== src/Manager/Storage.antt =====
-- internal/cookiejar/manager.go: what the manager uses of Badger and of encoding/json. Both are
-- parameters; the laws are what their documentation says.
use cifera.Base.{◌≡◌, ite, IsDistinct, Option, none, some, List, [], ◌∷◌, Text, text_dec, lookup}
use cifera.CookieJar.Entry.{CookieEntry}

-- A store of texts by key. An update may fail, and then changes nothing.
pub record Storage : Type 1 where
  pub State : Type 0
  pub open_at : Text → Option State
  pub get : State → Text → Option Text
  pub set : State → Text → Text → Option State
  pub remove : State → Text → Option State
  pub entries : State → List (Text × Text)

pub record IsLawful (db : Storage) : Type 0 where
  pub get-set :
      (s s' : db.State) (k v j : Text)
      → db.set s k v ≡ some s'
      → db.get s' j ≡ ite (text_dec k j) (some v) (db.get s j)
  pub get-remove :
      (s s' : db.State) (k j : Text)
      → db.remove s k ≡ some s'
      → db.get s' j ≡ ite (text_dec k j) none (db.get s j)
  -- An iteration visits every key once.
  pub entries-IsDistinct : (s : db.State) → IsDistinct (db.entries s)
  pub get-entries : (s : db.State) (j : Text) → lookup text_dec j (db.entries s) ≡ db.get s j

-- json.Marshal and json.Unmarshal of the entries of a jar.
pub record Codec : Type 0 where
  pub marshal : List CookieEntry → Option Text
  pub unmarshal : Text → Option (List CookieEntry)

-- The entries can be encoded, and are decoded as they were: so it is for valid UTF-8 and for times
-- of the years 0 to 9999. No entries are never encoded.
abbrev pub IsCoded : Codec → List CookieEntry → Type 0
IsCoded codec [] = Unit
IsCoded codec (e ∷ es) =
    (t : Text) × (codec.marshal (e ∷ es) ≡ some t) × (codec.unmarshal t ≡ some (e ∷ es))

-- Updates that do not fail.
pub record IsReliable (db : Storage) : Type 0 where
  pub sets : (s : db.State) (k v : Text) → (s' : db.State) × (db.set s k v ≡ some s')
  pub removes : (s : db.State) (k : Text) → (s' : db.State) × (db.remove s k ≡ some s')
