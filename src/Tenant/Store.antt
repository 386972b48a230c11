-- ===== src/Tenant/Store.antt =====
-- internal/tenant/store.go and tenant.go. The clock and the random bytes are arguments.
use cifera.Base.{
  ℕ, zero, suc, ◌+◌, ◌-◌, ◌/◌, ◌%◌, ◌*◌, Bool, true, false, not, ◌&&◌, Option, none, some, List, [],
  ◌∷◌, ◌++◌, length, ltb, if◌then◌else◌, ℤ, pos, negsuc, Text, codes, text_eq, text_dec, is_empty,
  lookup, insert, delete,
}
use cifera.Value.{Value}

pub record Registration : Type 0 where
  pub id : Text
  pub name : Text
  pub enabled : Bool
  pub token_ttl : ℤ
  pub secret : Text
  pub addon_params : List (Text × List (Text × Value))
  pub enabled_addons : List Text

pub record TokenRecord : Type 0 where
  pub tenant_id : Text
  pub expires_at : ℕ

pub record Store : Type 0 where
  pub registrations : List (Text × Registration)
  pub tokens : List (Text × TokenRecord)

-- A lifetime that is not positive means a day.
unfoldable pub positive_ttl : ℤ → ℤ
positive_ttl (pos zero) = pos (24 * 3600 * 1_000_000_000)
positive_ttl (pos (suc n)) = pos (suc n)
positive_ttl (negsuc n) = pos (24 * 3600 * 1_000_000_000)

unfoldable pub register_all :
    List Registration → List (Text × Registration) → List (Text × Registration)
register_all [] m = m
register_all (r ∷ rs) m =
    register_all rs (insert text_dec r.id (record r { token_ttl = positive_ttl r.token_ttl }) m)

unfoldable pub new_store : List Registration → Store
new_store regs = record { registrations = register_all regs []; tokens = [] }

unfoldable pub registration : Store → Text → Option Registration
registration s id = lookup text_dec id s.registrations

abbrev pub hex_digit : ℕ → ℕ
hex_digit d = if ltb d 10 then b'0' + d else b'a' + (d - 10)

-- hex.EncodeToString
unfoldable pub hex_encode : List ℕ → Text
hex_encode [] = []
hex_encode (b ∷ bs) = hex_digit (b / 16) ∷ hex_digit (b % 16) ∷ hex_encode bs

-- newToken: 32 random bytes, or the failure of the source of randomness.
unfoldable pub new_token : Option (List ℕ) → Option Text
new_token none = none
new_token (some bytes) = some (hex_encode bytes)

pub data AuthResult : Type 0 where
  unknown_tenant : AuthResult
  disabled_tenant : AuthResult
  wrong_secret : AuthResult
  no_randomness : AuthResult
  issued : Text → AuthResult

-- time.Now().Add(ttl)
abbrev pub add_time : ℕ → ℤ → ℕ
add_time now (pos n) = now + n
add_time now (negsuc n) = now - suc n

unfoldable pub refuses : Registration → Text → Bool
refuses reg secret = not (is_empty reg.secret) && not (text_eq reg.secret secret)

unfoldable pub auth : ℕ → Store → Text → Text → Option (List ℕ) → Store × AuthResult
auth now s tenant_id secret random = elim (lookup text_dec tenant_id s.registrations) [
  | none ↦ (s, unknown_tenant)
  | some reg ↦
      if not reg.enabled
      then (s, disabled_tenant)
      else if refuses reg secret
      then (s, wrong_secret)
      else (elim (new_token random) [
        | none ↦ (s, no_randomness)
        | some token ↦ (
          record s {
            tokens =
                insert text_dec token
                  (record { tenant_id = tenant_id; expires_at = add_time now reg.token_ttl })
                  s.tokens;
          },
          issued token,
        )
      ])
]

unfoldable pub valid : ℕ → Store → Text → Text → Bool
valid now s tenant_id token =
    if is_empty token then false else (elim (lookup text_dec token s.tokens) [
      | none ↦ false
      | some rec ↦
          if not (text_eq rec.tenant_id tenant_id)
          then false
          else if ltb rec.expires_at now
          then false
          else true
    ])

unfoldable pub revoke : Store → Text → Store
revoke s token = record s { tokens = delete text_dec token s.tokens }

unfoldable pub registered_tenant_count : Store → ℕ
registered_tenant_count s = length s.registrations

pub data Mode : Type 0 where
  auto : Mode
  managed : Mode

pub record Tenant : Type 0 where
  pub id : Text
  pub mode : Mode

unfoldable pub from_session : Text → Tenant
from_session session_id = record { id = session_id; mode = auto }

unfoldable pub jar_key : Tenant → Text → Text
jar_key t session_id = t.id ++ (codes ":" ++ session_id)

abbrev pub cookie_tid : Text
cookie_tid = codes "_cifera_tid"

abbrev pub cookie_tok : Text
cookie_tok = codes "_cifera_tok"

-- Resolve, with the check of the token store (none for a resolver without one) and the cookies.
unfoldable pub resolve : Option (Text → Text → Bool) → (Text → Text) → Text → Tenant
resolve none get session_id = from_session session_id
resolve (some is_valid) get session_id =
    let tid = get cookie_tid in
    if is_empty tid
    then from_session session_id
    else if is_valid tid (get cookie_tok)
    then record { id = tid; mode = managed }
    else from_session session_id
