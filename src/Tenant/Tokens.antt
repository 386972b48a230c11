-- ===== src/Tenant/Tokens.antt =====
-- internal/tenant/store.go: what Auth and Revoke change of what Valid answers, and what Resolve
-- makes of it.
use cifera.Base.{
  ℕ, subst, insert, [], ◌≡◌, ◌≢◌, ◌∙◌, ap, sym, if_pos, if_neg, inl, inr, ◌⊎◌, ◌↔◌, Bool, true,
  false, not, ◌&&◌, Option, none, some, List, Text, text_dec, text_eq, text_eq_iff, is_empty,
  lookup, lookup-insert, lookup-delete, ltb, arith, Bool-cases,
}
use cifera.Tenant.Store.{
  AuthResult, unknown_tenant, disabled_tenant, wrong_secret, no_randomness, Registration,
  TokenRecord, Store, Tenant, managed, new_token, issued, add_time, refuses, auth, valid, revoke,
  resolve, from_session, cookie_tid, cookie_tok,
}
use cifera.Tenant.Grants.{
  Grant, Reach, IsRightful, valid-IsRightful, refused, granted, auth-AuthOutcome,
}

-- What Valid reads of the store: the record of the token.
abbrev check : ℕ → Text → Option TokenRecord → Bool
check now tenant_id none = false
check now tenant_id (some rec) = text_eq rec.tenant_id tenant_id && not (ltb rec.expires_at now)

valid-check :
    (now : ℕ) (s : Store) (tenant_id token : Text)
    → valid now s tenant_id token
      ≡ not (is_empty token) && check now tenant_id (lookup text_dec token s.tokens)
unfolding valid
valid-check now s tenant_id token = ground arith

text_eq_differ : (a b : Text) → a ≢ b → text_eq a b ≡ false
text_eq_differ a b n = elim (Bool-cases (text_eq a b)) [
  | inl equal ↦ absurd (n ((text_eq_iff a b).0 equal))
  | inr other ↦ other
]

-- Once revoked a token is valid for nobody, and every other token is as valid as before.
pub valid-revoke :
    (now : ℕ) (s : Store) (tenant_id token other : Text)
    → valid now (revoke s token) tenant_id other
      ≡ not (text_eq token other) && valid now s tenant_id other
unfolding revoke
valid-revoke now s tenant_id token other = elim (text_dec token other) [
  | yes same ↦
      valid-check now (revoke s token) tenant_id other
      ∙ ground (
        arith,
        (text_eq_iff token other).1 same,
        lookup-delete text_dec token other s.tokens,
        same,
      )
  | no differ ↦
      let old = lookup text_dec other s.tokens in
      valid-check now (revoke s token) tenant_id other
      ∙ ap (λ x. not (is_empty other) && check now tenant_id x)
          (lookup-delete text_dec token other s.tokens
            ∙ if_neg (text_dec token other) differ none old)
      ∙ sym (valid-check now s tenant_id other)
      ∙ rw (text_eq_differ token other differ)
]

-- Auth issues a token exactly to a tenant that is registered, enabled and whose secret, if it has
-- one, was given, when there is randomness; otherwise it changes nothing.
pub record IsEntitled (s : Store) (tenant_id secret : Text) (random : Option (List ℕ))
    (token : Text) : Type 0 where
  pub reg : Registration
  pub known : lookup text_dec tenant_id s.registrations ≡ some reg
  pub enabled : reg.enabled ≡ true
  pub accepted : (is_empty reg.secret ≡ true) ⊎ (reg.secret ≡ secret)
  pub made : new_token random ≡ some token

-- The token is valid for this tenant from now to the end of the lifetime; what is valid of the other
-- tokens stays as it was.
pub record IsIssued (now : ℕ) (s s' : Store) (tenant_id secret : Text) (random : Option (List ℕ))
    (token : Text) : Type 0 where
  pub entitled : IsEntitled s tenant_id secret random token
  pub usable :
      (t : ℕ) (id : Text)
      → valid t s' id token
        ≡ not (is_empty token)
          && (text_eq tenant_id id && not (ltb (add_time now entitled.reg.token_ttl) t))
  pub others :
      (t : ℕ) (id other : Text) → (token ≡ other) ⊎ (valid t s' id other ≡ valid t s id other)

refuses_inv :
    (reg : Registration) (secret : Text)
    → refuses reg secret ≡ false
    → (is_empty reg.secret ≡ true) ⊎ (reg.secret ≡ secret)
unfolding refuses
refuses_inv reg secret h = elim (Bool-cases (is_empty reg.secret)) [
  | inl none_set ↦ inl none_set
  | inr set ↦ inr ((text_eq_iff reg.secret secret).0 (ground (arith, set)))
]

abbrev token_of : AuthResult → Text
token_of (issued token) = token
token_of unknown_tenant = []
token_of disabled_tenant = []
token_of wrong_secret = []
token_of no_randomness = []

accepted-refuses :
    (reg : Registration) (secret : Text)
    → (is_empty reg.secret ≡ true) ⊎ (reg.secret ≡ secret)
    → refuses reg secret ≡ false
unfolding refuses
accepted-refuses reg secret (inl none_set) = ground arith
accepted-refuses reg secret (inr same) = ground (arith, (text_eq_iff reg.secret secret).1 same)

auth_complete :
    (now : ℕ) (s : Store) (tenant_id secret : Text) (random : Option (List ℕ)) (token : Text)
    → IsEntitled s tenant_id secret random token
    → (auth now s tenant_id secret random).1 ≡ issued token
unfolding auth
auth_complete now s tenant_id secret random token w =
    let accepts = accepted-refuses w.reg secret w.accepted in
    ground (arith, w.known, w.enabled, accepts, w.made)

module _ (now : ℕ) (s : Store) (tenant_id secret : Text) (random : Option (List ℕ)) where
  issue-IsIssued :
      {tok : Text} (token : Text) (entitled : IsEntitled s tenant_id secret random token)
      → tok ≡ token
      → IsIssued now s
          (record s {
            tokens =
                insert text_dec tok
                  (record {
                    tenant_id = tenant_id;
                    expires_at = add_time now entitled.reg.token_ttl;
                  })
                  s.tokens;
          })
          tenant_id
          secret
          random
          token
  issue-IsIssued {tok} token entitled same =
      let x : TokenRecord = record {
        tenant_id = tenant_id;
        expires_at = add_time now entitled.reg.token_ttl;
      } in
      let s' : Store = record s { tokens = insert text_dec tok x s.tokens } in
      record {
        entitled = entitled;
        usable = λ t id.
            valid-check t s' id token
            ∙ ap (λ y. not (is_empty token) && check t id y)
                (lookup-insert text_dec tok token x s.tokens
                  ∙ if_pos (text_dec tok token) same (some x) (lookup text_dec token s.tokens));
        others = λ t id other. elim (text_dec token other) [
          | yes same_token ↦ inl same_token
          | no n ↦ inr (
              valid-check t s' id other
              ∙ ap (λ y. not (is_empty other) && check t id y)
                  (lookup-insert text_dec tok other x s.tokens
                    ∙ if_neg (text_dec tok other) (λ e. n (sym same ∙ e)) (some x)
                        (lookup text_dec other s.tokens))
              ∙ sym (valid-check t s id other))
        ];
      }

pub auth-IsIssued :
    (now : ℕ) (s : Store) (tenant_id secret : Text) (random : Option (List ℕ)) (token : Text)
    → (auth now s tenant_id secret random).1 ≡ issued token
    → IsIssued now s (auth now s tenant_id secret random).0 tenant_id secret random token
auth-IsIssued now s tenant_id secret random token h =
    elim (auth-AuthOutcome now s tenant_id secret random) [
      | refused answer none_there e ↦ absurd (none_there token (sym (ap (λ x. x.1) e) ∙ h))
      | granted reg tok known on right made e ↦
          let x : TokenRecord = record {
            tenant_id = tenant_id;
            expires_at = add_time now reg.token_ttl;
          } in
          let same = sym (ap (λ y. token_of y.1) e) ∙ ap token_of h in
          subst (λ y. IsIssued now s y.0 tenant_id secret random token) (sym e)
            (issue-IsIssued now s tenant_id secret random token
              (record {
                reg = reg;
                known = known;
                enabled = on;
                accepted = refuses_inv reg secret right;
                made = made ∙ ap some same;
              })
              same)
    ]

-- Auth issues a token exactly to those entitled to it.
pub auth_issues_iff :
    (now : ℕ) (s : Store) (tenant_id secret : Text) (random : Option (List ℕ)) (token : Text)
    → ((auth now s tenant_id secret random).1 ≡ issued token)
      ↔ IsEntitled s tenant_id secret random token
auth_issues_iff now s tenant_id secret random token = (
  λ h. (auth-IsIssued now s tenant_id secret random token h).entitled,
  auth_complete now s tenant_id secret random token,
)

-- A request is taken for a registered tenant only on a token of that tenant that is valid now;
-- otherwise the tenant is the session itself.
pub resolve_cases :
    (is_valid : Text → Text → Bool) (get : Text → Text) (session_id : Text)
    → ((resolve (some is_valid) get session_id ≡ from_session session_id)
        ⊎ ((resolve (some is_valid) get session_id ≡ record { id = get cookie_tid; mode = managed })
            × (is_valid (get cookie_tid) (get cookie_tok) ≡ true)))
unfolding resolve
resolve_cases is_valid get session_id = elim (Bool-cases (is_empty (get cookie_tid))) [
  | inl absent ↦ inl (ground (arith, absent))
  | inr present ↦ elim (Bool-cases (is_valid (get cookie_tid) (get cookie_tok))) [
    | inl good ↦ inr (ground (arith, present, good), good)
    | inr bad ↦ inl (ground (arith, present, bad))
  ]
]

pub resolve-IsRightful :
    (regs : List Registration) (l : List Grant) (s : Store) (now : ℕ) (get : Text → Text)
    (session_id : Text)
    → Reach regs l s
    → (resolve (some (valid now s)) get session_id ≡ from_session session_id)
      ⊎ IsRightful s l now (resolve (some (valid now s)) get session_id).id (get cookie_tok)
resolve-IsRightful regs l s now get session_id r =
    elim (resolve_cases (valid now s) get session_id) [
      | inl own ↦ inl own
      | inr (e, good) ↦ inr (
          subst (λ (t : Tenant). IsRightful s l now t.id (get cookie_tok)) (sym e)
            (valid-IsRightful regs l s now (get cookie_tid) (get cookie_tok) r good))
    ]
