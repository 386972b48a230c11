-- ===== src/Header.antt =====
-- http.Header: a map from canonical names to lists of values.
pub mod Laws
use cifera.Base.{
  ℕ, ◌-◌, Bool, true, ◌&&◌, Option, none, some, List, [], ◌∷◌, ◌++◌, leb, ◌==◌, if◌then◌else◌, Text,
  text_dec, lower_byte, lookup, insert, delete,
}

abbrev pub Header : Type 0
Header = List (Text × List Text)

abbrev upper_byte : ℕ → ℕ
upper_byte c = if leb b'a' c && leb c b'z' then c - 32 else c

-- textproto.CanonicalMIMEHeaderKey, on names of valid bytes: a capital in front and behind each
-- dash.
canonical_from : Bool → Text → Text
canonical_from start [] = []
canonical_from start (c ∷ s) =
    (if start then upper_byte c else lower_byte c) ∷ canonical_from (c == b'-') s

unfoldable pub canonical_key : Text → Text
unfolding canonical_from
canonical_key = canonical_from true

abbrev pub first_value : Option (List Text) → Text
first_value none = []
first_value (some []) = []
first_value (some (v ∷ _)) = v

abbrev pub all_values : Option (List Text) → List Text
all_values none = []
all_values (some vs) = vs

-- The first value, or the empty text.
unfoldable pub get : Header → Text → Text
unfolding lookup canonical_key text_dec
get h k = first_value (lookup text_dec (canonical_key k) h)

unfoldable pub values : Header → Text → List Text
unfolding lookup canonical_key text_dec
values h k = all_values (lookup text_dec (canonical_key k) h)

unfoldable pub set : Header → Text → Text → Header
unfolding insert canonical_key text_dec
set h k v = insert text_dec (canonical_key k) (v ∷ []) h

unfoldable pub add : Header → Text → Text → Header
unfolding insert values
add h k v = insert text_dec (canonical_key k) (values h k ++ v ∷ []) h

unfoldable pub del : Header → Text → Header
unfolding delete canonical_key text_dec
del h k = delete text_dec (canonical_key k) h
