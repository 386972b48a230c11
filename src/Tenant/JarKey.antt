-- ===== src/Tenant/JarKey.antt =====
-- internal/tenant/tenant.go and internal/cookiejar/manager.go: jars of different tenants or sessions
-- have different keys.
use cifera.Base.{
  ℕ, suc, ◌≡◌, refl, ◌∙◌, ap, ap₂, sym, true, List, [], ◌∷◌, ◌++◌, drop, length, length-append,
  Text, codes, arith,
}
use cifera.Tenant.Store.{Tenant, jar_key}
use cifera.Tenant.Session.{Piece, matches, uuid_v4, is_valid_uuid}

matches-length : (ps : List Piece) (s : Text) → matches ps s ≡ true → length s ≡ length ps
unfolding matches
matches-length [] [] h = refl
matches-length [] (c ∷ s) h = absurd (cc h)
matches-length (p ∷ ps) [] h = absurd (cc h)
matches-length (p ∷ ps) (c ∷ s) h = ap suc (matches-length ps s (ground arith))

abbrev head_or : ℕ → Text → ℕ
head_or c [] = c
head_or c (x ∷ s) = x

append_inj : (a b s t : Text) → length s ≡ length t → a ++ s ≡ b ++ t → (a ≡ b) × (s ≡ t)
append_inj [] [] s t l e = (refl, e)
append_inj [] (y ∷ b) s t l e = absurd (omega (arith, l, ap (length {A = ℕ}) e, length-append b t))
append_inj (x ∷ a) [] s t l e = absurd (omega (arith, l, ap (length {A = ℕ}) e, length-append a s))
append_inj (x ∷ a) (y ∷ b) s t l e =
    let (ab, st) = append_inj a b s t l (ap (drop 1) e) in (ap₂ ◌∷◌ (ap (head_or 0) e) ab, st)

-- Two valid session ids give one key only for one tenant id and one session.
pub jar_key_injective :
    (t u : Tenant) (s r : Text)
    → is_valid_uuid s ≡ true
    → is_valid_uuid r ≡ true
    → jar_key t s ≡ jar_key u r
    → (t.id ≡ u.id) × (s ≡ r)
unfolding jar_key is_valid_uuid
jar_key_injective t u s r hs hr e =
    let same = matches-length uuid_v4 s hs ∙ sym (matches-length uuid_v4 r hr) in
    let (ids, rest) = append_inj t.id u.id (codes ":" ++ s) (codes ":" ++ r) (ap suc same) e in
    (ids, ap (drop 1) rest)
