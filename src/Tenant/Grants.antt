-- ===== src/Tenant/Grants.antt =====
-- internal/tenant/store.go: a token is valid for no one but the tenant that it was issued to, which
-- is registered, enabled and gave its secret, and only until it expires or is revoked.
use cifera.Base.{
  ℕ, ◌≡◌, ◌≢◌, refl, ◌∙◌, subst, inl, inr, true, false, Option, some, List, [], ◌∷◌, ◌++◌, IsIn,
  All, All-map, All-insert, All-delete, lookup-All, Text, text_dec, text_eq_iff, lookup, insert,
  ◌≤◌, arith, Bool-cases, Option-cases,
}
use cifera.Tenant.Store.{
  Registration, TokenRecord, Store, new_store, new_token, AuthResult, unknown_tenant,
  disabled_tenant, wrong_secret, no_randomness, issued, add_time, refuses, auth, valid, revoke,
}

-- The two ways of Auth.
pub data AuthOutcome (now : ℕ) (s : Store) (tenant_id secret : Text) (random : Option (List ℕ))
    : Store × AuthResult → Type 0 where
  refused :
      {r : Store × AuthResult} (answer : AuthResult)
      → ((token : Text) → answer ≢ issued token)
      → r ≡ (s, answer)
      → AuthOutcome now s tenant_id secret random r
  granted :
      {r : Store × AuthResult} (reg : Registration) (token : Text)
      → lookup text_dec tenant_id s.registrations ≡ some reg
      → reg.enabled ≡ true
      → refuses reg secret ≡ false
      → new_token random ≡ some token
      → r ≡ (
        record s {
          tokens =
              insert text_dec token
                (record { tenant_id = tenant_id; expires_at = add_time now reg.token_ttl })
                s.tokens;
        },
        issued token,
      )
      → AuthOutcome now s tenant_id secret random r

pub auth-AuthOutcome :
    (now : ℕ) (s : Store) (tenant_id secret : Text) (random : Option (List ℕ))
    → AuthOutcome now s tenant_id secret random (auth now s tenant_id secret random)
unfolding auth
auth-AuthOutcome now s tenant_id secret random =
    elim (Option-cases (lookup text_dec tenant_id s.registrations)) [
      | inl unknown ↦ refused unknown_tenant (λ t e. absurd (cc e)) (rw (unknown, auth))
      | inr (reg, known) ↦ elim (Bool-cases reg.enabled) [
        | inr off ↦ refused disabled_tenant (λ t e. absurd (cc e)) (ground (arith, known, off))
        | inl on ↦ elim (Bool-cases (refuses reg secret)) [
          | inl wrong ↦
              refused wrong_secret (λ t e. absurd (cc e)) (ground (arith, known, on, wrong))
          | inr right ↦ elim (Option-cases (new_token random)) [
            | inl failed ↦
                refused no_randomness (λ t e. absurd (cc e))
                  (ground (arith, known, on, right, failed))
            | inr (token, made) ↦
                granted reg token known on right made (ground (arith, known, on, right, made))
          ]
        ]
      ]
    ]

-- A token that was issued: to whom, on which secret, and when.
pub record Grant : Type 0 where
  pub tenant_id : Text
  pub secret : Text
  pub token : Text
  pub at : ℕ

-- What Auth adds to the history.
abbrev pub grants_of : AuthResult → ℕ → Text → Text → List Grant
grants_of (issued token) now tenant_id secret =
    record { tenant_id = tenant_id; secret = secret; token = token; at = now } ∷ []
grants_of unknown_tenant now tenant_id secret = []
grants_of disabled_tenant now tenant_id secret = []
grants_of wrong_secret now tenant_id secret = []
grants_of no_randomness now tenant_id secret = []

-- The stores that the configuration becomes, each with the tokens issued so far, the latest first.
pub data Reach (regs : List Registration) : List Grant → Store → Type 0 where
  start : Reach regs [] (new_store regs)
  sign_in :
      {l : List Grant} {s : Store} (now : ℕ) (tenant_id secret : Text) (random : Option (List ℕ))
      → Reach regs l s
      → Reach regs
          (grants_of (auth now s tenant_id secret random).1 now tenant_id secret ++ l)
          (auth now s tenant_id secret random).0
  sign_out :
      {l : List Grant} {s : Store} (token : Text) → Reach regs l s → Reach regs l (revoke s token)

-- A token with its record rests on a grant to a tenant that is registered, enabled and whose secret
-- was given, and expires when the tenant's lifetime after the grant is over.
pub record IsGranted (registrations : List (Text × Registration)) (l : List Grant)
    (x : Text × TokenRecord) : Type 0 where
  pub grant : Grant
  pub given : IsIn grant l
  pub token : grant.token ≡ x.0
  pub tenant : grant.tenant_id ≡ x.1.tenant_id
  pub reg : Registration
  pub known : lookup text_dec x.1.tenant_id registrations ≡ some reg
  pub enabled : reg.enabled ≡ true
  pub accepted : refuses reg grant.secret ≡ false
  pub expiry : x.1.expires_at ≡ add_time grant.at reg.token_ttl

later :
    (registrations : List (Text × Registration)) (g : Grant) (l : List Grant)
    (x : Text × TokenRecord)
    → IsGranted registrations l x
    → IsGranted registrations (g ∷ l) x
later registrations g l x w = record {
  grant = w.grant;
  given = inr w.given;
  token = w.token;
  tenant = w.tenant;
  reg = w.reg;
  known = w.known;
  enabled = w.enabled;
  accepted = w.accepted;
  expiry = w.expiry;
}

abbrev AllGranted : List Grant → Store → Type 0
AllGranted l s = All (IsGranted s.registrations l) s.tokens

no_grants :
    (answer : AuthResult) (now : ℕ) (tenant_id secret : Text)
    → ((token : Text) → answer ≢ issued token)
    → grants_of answer now tenant_id secret ≡ []
no_grants (issued token) now tenant_id secret h = absurd (h token refl)
no_grants unknown_tenant now tenant_id secret h = refl
no_grants disabled_tenant now tenant_id secret h = refl
no_grants wrong_secret now tenant_id secret h = refl
no_grants no_randomness now tenant_id secret h = refl

auth-AllGranted :
    (now : ℕ) (s : Store) (tenant_id secret : Text) (random : Option (List ℕ)) (l : List Grant)
    → AllGranted l s
    → AllGranted
        (grants_of (auth now s tenant_id secret random).1 now tenant_id secret ++ l)
        (auth now s tenant_id secret random).0
auth-AllGranted now s tenant_id secret random l h =
    elim (auth-AuthOutcome now s tenant_id secret random) [
      | refused answer none_there e ↦ rw (e, no_grants answer now tenant_id secret none_there) h
      | granted reg token known on right made e ↦
          let g : Grant = record {
            tenant_id = tenant_id;
            secret = secret;
            token = token;
            at = now;
          } in
          let x : TokenRecord = record {
            tenant_id = tenant_id;
            expires_at = add_time now reg.token_ttl;
          } in
          let first : IsGranted s.registrations (g ∷ l) (token, x) = record {
            grant = g;
            given = inl refl;
            token = refl;
            tenant = refl;
            reg = reg;
            known = known;
            enabled = on;
            accepted = right;
            expiry = refl;
          } in
          rw e (
            All-insert text_dec (IsGranted s.registrations (g ∷ l)) token x s.tokens first (
              All-map (IsGranted s.registrations l) (IsGranted s.registrations (g ∷ l)) s.tokens
                (later s.registrations g l) h))
    ]

Reach-AllGranted :
    (regs : List Registration) (l : List Grant) (s : Store) → Reach regs l s → AllGranted l s
unfolding new_store revoke
Reach-AllGranted regs l s start = tt
Reach-AllGranted regs l s (sign_in {l = l0} {s = s0} now tenant_id secret random r) =
    auth-AllGranted now s0 tenant_id secret random l0 (Reach-AllGranted regs l0 s0 r)
Reach-AllGranted regs l s (sign_out {s = s0} token r) =
    All-delete text_dec (IsGranted s0.registrations l) token s0.tokens
      (Reach-AllGranted regs l s0 r)

-- A token that is valid for a tenant was issued to that very tenant, on its secret, and its lifetime
-- is not over.
pub record IsRightful (s : Store) (l : List Grant) (now : ℕ) (tenant_id token : Text) : Type 0 where
  pub grant : Grant
  pub given : IsIn grant l
  pub same_token : grant.token ≡ token
  pub same_tenant : grant.tenant_id ≡ tenant_id
  pub reg : Registration
  pub known : lookup text_dec tenant_id s.registrations ≡ some reg
  pub enabled : reg.enabled ≡ true
  pub accepted : refuses reg grant.secret ≡ false
  pub live : now ≤ add_time grant.at reg.token_ttl

valid_inv :
    (now : ℕ) (s : Store) (tenant_id token : Text)
    → valid now s tenant_id token ≡ true
    → (rec : TokenRecord) × (lookup text_dec token s.tokens ≡ some rec)
      × (rec.tenant_id ≡ tenant_id)
      × (now ≤ rec.expires_at)
unfolding valid
valid_inv now s tenant_id token h = elim (Option-cases (lookup text_dec token s.tokens)) [
  | inl absent ↦ absurd (ground (arith, absent))
  | inr (rec, found) ↦
      (rec, found, (text_eq_iff rec.tenant_id tenant_id).0 (ground arith), ground arith)
]

pub valid-IsRightful :
    (regs : List Registration) (l : List Grant) (s : Store) (now : ℕ) (tenant_id token : Text)
    → Reach regs l s
    → valid now s tenant_id token ≡ true
    → IsRightful s l now tenant_id token
valid-IsRightful regs l s now tenant_id token r h =
    let (rec, found, same, live) = valid_inv now s tenant_id token h in
    let w =
      lookup-All text_dec (IsGranted s.registrations l) token rec s.tokens found
        (Reach-AllGranted regs l s r) in
    record {
      grant = w.grant;
      given = w.given;
      same_token = w.token;
      same_tenant = w.tenant ∙ same;
      reg = w.reg;
      known = subst (λ x. lookup text_dec x s.registrations ≡ some w.reg) same w.known;
      enabled = w.enabled;
      accepted = w.accepted;
      live = omega (arith, live, w.expiry);
    }
