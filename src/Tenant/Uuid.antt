-- ===== src/Tenant/Uuid.antt =====
-- internal/cookiejar/manager.go: every session id that is made is one that is accepted.
use cifera.Base.{ℕ, ◌/◌, ◌%◌, ◌<◌, ◌≤◌, ◌≡◌, refl, true, List, [], ◌∷◌, All, Text, arith}
use cifera.Tenant.Store.{hex_digit, hex_encode}
use cifera.Tenant.Session.{
  Piece, hex, dash, version, variant, piece_matches, matches, is_valid_uuid, new_uuid, is_hex,
  version_byte, variant_byte,
}

hex_digit-is_hex : (d : ℕ) → d < 16 → is_hex (hex_digit d) ≡ true
hex_digit-is_hex d h = ground arith

is_variant : (d : ℕ) → 8 ≤ d → d < 12 → piece_matches variant (hex_digit d) ≡ true
is_variant d l h = ground arith

is_version : (d : ℕ) → d ≡ 4 → piece_matches version (hex_digit d) ≡ true
is_version d e = rw e

-- The text matches the pieces.
record Fits (ps : List Piece) (s : Text) : Type 0 where
  holds : matches ps s ≡ true

one :
    {ps : List Piece} {s : Text} (p : Piece) (c : ℕ)
    → piece_matches p c ≡ true
    → Fits ps s
    → Fits (p ∷ ps) (c ∷ s)
unfolding matches
one p c here f = record { holds = ground (arith, here, f.holds) }

module _ {ps : List Piece} {s : Text} (f : Fits ps s) where
  byte : (b : ℕ) → b < 256 → Fits (hex ∷ hex ∷ ps) (hex_digit (b / 16) ∷ hex_digit (b % 16) ∷ s)
  byte b small =
      one hex (hex_digit (b / 16)) (hex_digit-is_hex (b / 16) (omega (arith, small)))
        (one hex (hex_digit (b % 16)) (hex_digit-is_hex (b % 16) (omega arith)) f)

  version_bytes :
      (b : ℕ)
      → Fits
          (version ∷ hex ∷ ps)
          (hex_digit (version_byte b / 16) ∷ hex_digit (version_byte b % 16) ∷ s)
  version_bytes b =
      one version (hex_digit (version_byte b / 16)) (is_version (version_byte b / 16) (omega arith))
        (one hex (hex_digit (version_byte b % 16))
          (hex_digit-is_hex (version_byte b % 16) (omega arith)) f)

  variant_bytes :
      (b : ℕ)
      → Fits
          (variant ∷ hex ∷ ps)
          (hex_digit (variant_byte b / 16) ∷ hex_digit (variant_byte b % 16) ∷ s)
  variant_bytes b =
      one variant (hex_digit (variant_byte b / 16))
        (is_variant (variant_byte b / 16) (omega arith) (omega arith))
        (one hex (hex_digit (variant_byte b % 16))
          (hex_digit-is_hex (variant_byte b % 16) (omega arith)) f)

  dashed : Fits (dash ∷ ps) (b'-' ∷ s)
  dashed = one dash b'-' refl f

empty : Fits [] []
unfolding matches
empty = record { holds = refl }

-- Whatever the 16 random bytes are, the session id made of them is a valid one.
pub new_uuid-is_valid_uuid :
    (b0 b1 b2 b3 b4 b5 b6 b7 b8 b9 b10 b11 b12 b13 b14 b15 : ℕ)
    → let bytes =
        b0 ∷ b1 ∷ b2 ∷ b3 ∷ b4 ∷ b5 ∷ b6 ∷ b7 ∷ b8 ∷ b9 ∷ b10 ∷ b11 ∷ b12 ∷ b13 ∷ b14 ∷ b15 ∷ [] in
      All (λ b. b < 256) bytes → is_valid_uuid (new_uuid bytes) ≡ true
unfolding is_valid_uuid new_uuid hex_encode matches
new_uuid-is_valid_uuid b0 b1 b2 b3 b4 b5 b6 b7 b8 b9 b10 b11 b12 b13 b14 b15
      (
        h0,
        (
          h1,
          (
            h2,
            (h3, (h4, (h5, (h6, (h7, (h8, (h9, (h10, (h11, (h12, (h13, (h14, (h15, _))))))))))))),
          ),
        ),
      ) =
    let f5 =
      byte (byte (byte (byte (byte (byte empty b15 h15) b14 h14) b13 h13) b12 h12) b11 h11) b10
        h10 in
    let f4 = variant_bytes (byte (dashed f5) b9 h9) b8 in
    let f3 = version_bytes (byte (dashed f4) b7 h7) b6 in
    let f2 = byte (byte (dashed f3) b5 h5) b4 h4 in
    let f1 = byte (byte (byte (byte (dashed f2) b3 h3) b2 h2) b1 h1) b0 h0 in f1.holds
