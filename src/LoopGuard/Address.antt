-- ===== src/LoopGuard/Address.antt =====
-- internal/loopguard.go: the host and the port of a target, and the remaining hops of a request.
use cifera.Base.{
  ◌^◌, ◌-◌, ℕ, zero, suc, Bool, not, ◌||◌, Option, none, some, [], ◌∷◌, any, ◌==◌, if◌then◌else◌, ℤ,
  pos, negsuc, ltb_ℤ, Text, codes, text_eq, is_empty, to_lower, trim, trim_space, atoi, itoa,
}

abbrev has : ℕ → Text → Bool
has c = any (λ x. x == c)

-- The text before and behind the last occurrence of a byte.
unfoldable pub cut_last : ℕ → Text → Option (Text × Text)
cut_last c [] = none
cut_last c (x ∷ s) = elim (cut_last c s) [
  | none ↦ if x == c then some ([], s) else none
  | some p ↦ some (x ∷ p.0, p.1)
]

-- The text before and behind the first occurrence of a byte.
unfoldable pub cut_first : ℕ → Text → Option (Text × Text)
cut_first c [] = none
cut_first c (x ∷ s) =
    let rest = cut_first c s in
    if x == c then some ([], s) else (elim rest [ none ↦ none | some p ↦ some (x ∷ p.0, p.1) ])

-- A bracketed host: the bracket must close right before the last colon.
split_bracketed : Text → Option (Text × Text)
split_bracketed s = elim (cut_first b']' s) [
  | none ↦ none
  | some (host, []) ↦ none
  | some (host, x ∷ port) ↦
      if not (x == b':') || has b':' port || has b'[' host || has b'[' port || has b']' port
      then none
      else some (host, port)
]

split_plain : Text → Option (Text × Text)
split_plain s = elim (cut_last b':' s) [
  | none ↦ none
  | some (host, port) ↦
      if has b':' host || has b'[' s || has b']' s then none else some (host, port)
]

-- net.SplitHostPort
unfoldable pub split_host_port : Text → Option (Text × Text)
unfolding split_bracketed split_plain
split_host_port [] = none
split_host_port (x ∷ s) = if x == b'[' then split_bracketed s else split_plain (x ∷ s)

abbrev pub is_bracket : ℕ → Bool
is_bracket c = (c == b'[') || (c == b']')

unfoldable pub default_port_for_schema : Text → Text
default_port_for_schema schema =
    if text_eq (to_lower schema) (codes "https") || text_eq (to_lower schema) (codes "wss")
    then codes "443"
    else codes "80"

unfoldable pub split_target_host : Text → Text → Text × Text
split_target_host host schema = elim (split_host_port (trim_space host)) [
  | none ↦ (trim is_bracket (trim_space host), default_port_for_schema schema)
  | some (hostname, port) ↦
      if is_empty port then (hostname, default_port_for_schema schema) else (hostname, port)
]

abbrev pub max_forwards_limit : ℕ
max_forwards_limit = 10

abbrev pub max_int64 : ℕ
max_int64 = 2 ^ 63 - 1

-- n - 1 in an int64: the least value wraps to the greatest.
abbrev pub pred_int64 : ℤ → ℤ
pred_int64 (pos zero) = negsuc 0
pred_int64 (pos (suc n)) = pos n
pred_int64 (negsuc n) = if n == max_int64 then pos max_int64 else negsuc (suc n)

abbrev pub lower_of : ℤ → ℤ
lower_of n = if ltb_ℤ n (pos max_forwards_limit) then n else pos max_forwards_limit

unfoldable pub remaining : Text → ℤ
remaining s =
    if is_empty s
    then pos max_forwards_limit
    else (elim (atoi s) [ none ↦ pos max_forwards_limit | some n ↦ lower_of n ])

-- nextMaxForwards
unfoldable pub next_max_forwards : Text → ℤ
unfolding remaining
next_max_forwards header = pred_int64 (remaining (trim_space header))

-- The hop of a request in internal/server.go: a negative number is refused, otherwise the number is
-- the Max-Forwards header of the outgoing request.
unfoldable pub hop : Text → Option Text
hop header = elim (next_max_forwards header) [ pos n ↦ some (itoa n) | negsuc n ↦ none ]
