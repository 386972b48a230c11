-- ===== src/Tenant/Tests.antt =====
-- internal/tenant: runs at concrete inputs, and the theorems at inputs that meet their hypotheses.
use cifera.Base.{
  ℕ, ◌≡◌, refl, ◌⊎◌, true, false, Option, some, List, [], ◌∷◌, if◌then◌else◌, pos, Text, codes,
  text_dec, text_eq, lookup, insert, delete,
}
use cifera.Tenant.Store.{
  Registration, Store, positive_ttl, register_all, new_store, hex_encode, new_token, refuses, auth,
  valid, revoke, issued, wrong_secret, from_session, jar_key, resolve, cookie_tok,
}
use cifera.Tenant.Session.{matches, is_valid_uuid, new_uuid}
use cifera.Tenant.Grants
use cifera.Tenant.Grants.{Reach, start, sign_in, Grant, IsRightful}
use cifera.Tenant.Tokens
use cifera.Tenant.Tokens.{IsEntitled, IsIssued}
use cifera.Tenant.JarKey

program : Unit {0}
unfolding positive_ttl register_all new_store hex_encode new_token refuses auth valid revoke
    from_session jar_key resolve matches is_valid_uuid new_uuid text_dec text_eq lookup insert
    delete
program = tt

abbrev acme : Registration
acme = record {
  id = codes "acme";
  name = codes "Acme";
  enabled = true;
  token_ttl = pos 100;
  secret = codes "s3";
  addon_params = [];
  enabled_addons = [];
}

abbrev store : Store
store = new_store (acme ∷ [])

abbrev random : Option (List ℕ)
random = some (1 ∷ 255 ∷ [])

abbrev after : Store
after = (auth 5 store (codes "acme") (codes "s3") random).0

abbrev token : Text
token = codes "01ff"

abbrev bytes : List ℕ
bytes = 0 ∷ 1 ∷ 2 ∷ 3 ∷ 4 ∷ 5 ∷ 6 ∷ 7 ∷ 8 ∷ 9 ∷ 10 ∷ 11 ∷ 12 ∷ 13 ∷ 14 ∷ 255 ∷ []

abbrev session : Text
session = codes "00010203-0405-4607-8809-0a0b0c0d0eff"

runs :
    ((auth 5 store (codes "acme") (codes "no") random).1 ≡ wrong_secret)
    × ((auth 5 store (codes "acme") (codes "s3") random).1 ≡ issued token)
    × (valid 105 after (codes "acme") token ≡ true)
    × (valid 106 after (codes "acme") token ≡ false)
    × (valid 5 after (codes "other") token ≡ false)
    × (new_uuid bytes ≡ session)
unfolding program
runs = (refl, refl, refl, refl, refl, refl)

after-Reach :
    Reach
      (acme ∷ [])
      (record { tenant_id = codes "acme"; secret = codes "s3"; token = token; at = 5 } ∷ [])
      after
unfolding program
after-Reach = sign_in 5 (codes "acme") (codes "s3") random start

abbrev grants : List Grant
grants = record { tenant_id = codes "acme"; secret = codes "s3"; token = token; at = 5 } ∷ []

abbrev cookies : Text → Text
cookies name = if text_eq name (codes "_cifera_tid") then codes "acme" else token

valid-IsRightful_example : IsRightful after grants 9 (codes "acme") token
unfolding program
valid-IsRightful_example =
    Grants.valid-IsRightful (acme ∷ []) grants after 9 (codes "acme") token after-Reach refl

resolve-IsRightful_example :
    (resolve (some (valid 9 after)) cookies session ≡ from_session session)
    ⊎ IsRightful after grants 9
        (resolve (some (valid 9 after)) cookies session).id
        (cookies cookie_tok)
resolve-IsRightful_example =
    Tokens.resolve-IsRightful (acme ∷ []) grants after 9 cookies session after-Reach

auth-IsIssued_example : IsIssued 5 store after (codes "acme") (codes "s3") random token
unfolding program
auth-IsIssued_example = Tokens.auth-IsIssued 5 store (codes "acme") (codes "s3") random token refl

jar_key_injective_example :
    (from_session session).id ≡ (from_session session).id × (session ≡ session)
unfolding program
jar_key_injective_example =
    JarKey.jar_key_injective (from_session session) (from_session session) session session refl refl
      refl
