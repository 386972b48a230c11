-- ===== src/Tenant/Session.antt =====
-- internal/cookiejar/manager.go: session ids, which are UUIDs of version 4.
use cifera.Base.{
  ℕ, zero, suc, ◌+◌, ◌%◌, Bool, true, false, ◌&&◌, ◌||◌, List, [], ◌∷◌, ◌++◌, take, drop, leb, ◌==◌,
  Text, codes,
}
use cifera.Tenant.Store.{hex_encode}

abbrev pub is_hex : ℕ → Bool
is_hex c = (leb b'0' c && leb c b'9') || (leb b'a' c && leb c b'f')

-- The pieces of the regular expression of uuidV4Regex.
pub data Piece : Type 0 where
  hex : Piece
  dash : Piece
  version : Piece
  variant : Piece

abbrev pub piece_matches : Piece → ℕ → Bool
piece_matches hex c = is_hex c
piece_matches dash c = c == b'-'
piece_matches version c = c == b'4'
piece_matches variant c = (c == b'8') || (c == b'9') || (c == b'a') || (c == b'b')

unfoldable pub matches : List Piece → Text → Bool
matches [] [] = true
matches [] (c ∷ s) = false
matches (p ∷ ps) [] = false
matches (p ∷ ps) (c ∷ s) = piece_matches p c && matches ps s

abbrev hexes : ℕ → List Piece → List Piece
hexes zero ps = ps
hexes (suc n) ps = hex ∷ hexes n ps

-- ^[0-9a-f]{8}-[0-9a-f]{4}-4[0-9a-f]{3}-[89ab][0-9a-f]{3}-[0-9a-f]{12}$
abbrev pub uuid_v4 : List Piece
uuid_v4 =
    hexes 8
      (dash ∷ hexes 4 (dash ∷ version ∷ hexes 3 (dash ∷ variant ∷ hexes 3 (dash ∷ hexes 12 []))))

unfoldable pub is_valid_uuid : Text → Bool
is_valid_uuid s = matches uuid_v4 s

-- The byte of the version, (b & 0x0f) | 0x40, and that of the variant, (b & 0x3f) | 0x80.
abbrev pub version_byte : ℕ → ℕ
version_byte b = b % 16 + 0x40

abbrev pub variant_byte : ℕ → ℕ
variant_byte b = b % 64 + 0x80

abbrev pub change_at {ℓ} : {A : Type ℓ} → ℕ → (A → A) → List A → List A
change_at n f [] = []
change_at zero f (x ∷ xs) = f x ∷ xs
change_at (suc n) f (x ∷ xs) = x ∷ change_at n f xs

-- newUUID, from its 16 random bytes; %x prints a row of bytes as hex digits.
unfoldable pub new_uuid : List ℕ → Text
new_uuid random =
    let uuid = change_at 8 variant_byte (change_at 6 version_byte random) in
    hex_encode (take 4 uuid)
    ++ (codes "-"
        ++ (hex_encode (take 2 (drop 4 uuid))
            ++ (codes "-"
                ++ (hex_encode (take 2 (drop 6 uuid))
                    ++ (codes "-"
                        ++ (hex_encode (take 2 (drop 8 uuid))
                            ++ (codes "-" ++ hex_encode (take 6 (drop 10 uuid)))))))))
