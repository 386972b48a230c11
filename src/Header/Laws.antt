-- ===== src/Header/Laws.antt =====
-- http.Header: what is read back after a change.
use cifera.Base.{
  lookup, lookup-insert, lookup-delete, Text, text_dec, ◌≡◌, refl, ap, ◌∙◌, if_pos, if_neg, ◌≢◌,
  ◌++◌, some, none, [], ◌∷◌,
}
use cifera.Header
use cifera.Header.{Header, first_value, all_values}

pub get-set : (h : Header) (k v : Text) → Header.get (Header.set h k v) k ≡ v
unfolding Header.get Header.set
get-set h k v =
    let name = Header.canonical_key k in
    ap first_value (
      lookup-insert text_dec name name (v ∷ []) h
      ∙ if_pos (text_dec name name) refl (some (v ∷ [])) (lookup text_dec name h))

pub get-del : (h : Header) (k : Text) → Header.get (Header.del h k) k ≡ []
unfolding Header.get Header.del
get-del h k =
    let name = Header.canonical_key k in
    ap first_value (
      lookup-delete text_dec name name h
      ∙ if_pos (text_dec name name) refl none (lookup text_dec name h))

-- A name that is written otherwise is not touched.
pub get-add_other :
    (h : Header) (k v j : Text)
    → Header.canonical_key k ≢ Header.canonical_key j
    → Header.get (Header.add h k v) j ≡ Header.get h j
unfolding Header.get Header.add
get-add_other h k v j ne =
    let k' = Header.canonical_key k in
    let j' = Header.canonical_key j in
    let vs = Header.values h k ++ v ∷ [] in
    ap first_value (
      lookup-insert text_dec k' j' vs h
      ∙ if_neg (text_dec k' j') ne (some vs) (lookup text_dec j' h))

pub get-set_other :
    (h : Header) (k v j : Text)
    → Header.canonical_key k ≢ Header.canonical_key j
    → Header.get (Header.set h k v) j ≡ Header.get h j
unfolding Header.get Header.set
get-set_other h k v j ne =
    let k' = Header.canonical_key k in
    let j' = Header.canonical_key j in
    ap first_value (
      lookup-insert text_dec k' j' (v ∷ []) h
      ∙ if_neg (text_dec k' j') ne (some (v ∷ [])) (lookup text_dec j' h))

pub values-add :
    (h : Header) (k v : Text) → Header.values (Header.add h k v) k ≡ Header.values h k ++ v ∷ []
unfolding Header.values Header.add
values-add h k v =
    let name = Header.canonical_key k in
    let vs = Header.values h k ++ v ∷ [] in
    ap all_values (
      lookup-insert text_dec name name vs h
      ∙ if_pos (text_dec name name) refl (some vs) (lookup text_dec name h))

pub values-del : (h : Header) (k : Text) → Header.values (Header.del h k) k ≡ []
unfolding Header.values Header.del
values-del h k =
    let name = Header.canonical_key k in
    ap all_values (
      lookup-delete text_dec name name h
      ∙ if_pos (text_dec name name) refl none (lookup text_dec name h))
