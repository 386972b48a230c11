-- ===== src/Compress/Negotiate.antt =====
-- internal/compress/compress.go: the negotiator, and its choice among the codings that a client
-- accepts. A quality is a float64, which with the operations on it is a parameter.
use cifera.Base.{
  if◌then◌else◌, ltb, ℤ, pos, lookup, Text, codes, text_eq, text_dec, is_empty, has_prefix, drop,
  split, trim_space, ℕ, Bool, true, false, not, ◌&&◌, ◌||◌, Option, none, some, List, [], ◌∷◌,
}
use cifera.LoopGuard.Address.{cut_first}

pub data Algorithm : Type 0 where
  gzip : Algorithm
  brotli : Algorithm
  zstd : Algorithm

abbrev pub name_of : Algorithm → Text
name_of gzip = codes "gzip"
name_of brotli = codes "br"
name_of zstd = codes "zstd"

pub record AlgorithmConfig : Type 0 where
  pub enabled : Bool
  pub level : ℤ

abbrev pub Algos : Type 0
Algos = List (Text × AlgorithmConfig)

pub record Config : Type 0 where
  pub enabled : Bool
  pub algos : Option Algos

pub record Negotiator : Type 0 where
  pub enabled : Bool
  pub algos : Algos

-- strconv.ParseFloat and the tests > and == on float64.
pub record Floats : Type 1 where
  pub Float : Type 0
  pub one : Float
  pub minus_one : Float
  pub parse : Text → Option Float
  pub above : Float → Float → Bool
  pub same : Float → Float → Bool

abbrev on_at : ℕ → AlgorithmConfig
on_at level = record { enabled = true; level = pos level }

abbrev pub default_algos : Algos
default_algos = (codes "gzip", on_at 5) ∷ (codes "br", on_at 4) ∷ (codes "zstd", on_at 3) ∷ []

abbrev pub algos_or : Algos → Option Algos → Algos
algos_or default none = default
algos_or default (some algos) = algos

unfoldable pub new_negotiator : Config → Negotiator
new_negotiator cfg =
    if not cfg.enabled
    then record { enabled = false; algos = algos_or [] cfg.algos }
    else record { enabled = true; algos = algos_or default_algos cfg.algos }

abbrev pub enabled_of : Option AlgorithmConfig → Bool
enabled_of none = false
enabled_of (some cfg) = cfg.enabled

unfoldable pub is_algo_enabled : Negotiator → Algorithm → Bool
is_algo_enabled n algo =
    if not n.enabled then false else enabled_of (lookup text_dec (name_of algo) n.algos)

abbrev pub algo_priority : Option Algorithm → ℕ
algo_priority none = 0
algo_priority (some gzip) = 1
algo_priority (some brotli) = 2
algo_priority (some zstd) = 3

unfoldable pub algo_named : Text → Option Algorithm
algo_named name =
    if text_eq name (codes "zstd")
    then some zstd
    else if text_eq name (codes "br")
    then some brotli
    else if text_eq name (codes "gzip")
    then some gzip
    else none

-- The text behind the first "q=", if there is one.
unfoldable pub behind_q : Text → Option Text
behind_q [] = none
behind_q (c ∷ s) =
    let rest = behind_q s in if has_prefix (c ∷ s) (codes "q=") then some (drop 2 (c ∷ s)) else rest

abbrev pub before_semicolon : Text → Option (Text × Text) → Text
before_semicolon s none = s
before_semicolon s (some (value, rest)) = value

module _ (fl : Floats) where
  abbrev pub parsed_or : fl.Float → Option fl.Float → fl.Float
  parsed_or default none = default
  parsed_or default (some q) = q

  abbrev pub quality_in : Option Text → fl.Float
  quality_in none = fl.one
  quality_in (some s) =
      parsed_or fl.one (fl.parse (trim_space (before_semicolon s (cut_first b';' s))))

  -- The name and the quality of a part of the header.
  abbrev pub named_part : Text → Option (Text × Text) → Text × fl.Float
  named_part part none = (part, fl.one)
  named_part part (some (name, params)) = (trim_space name, quality_in (behind_q params))

  unfoldable pub read_part : Text → Text × fl.Float
  read_part part = named_part part (cut_first b';' part)

  -- An algorithm that is known and enabled, with its quality; the other parts are passed over.
  unfoldable pub usable : Negotiator → fl.Float → Option Algorithm → Option (Algorithm × fl.Float)
  usable n q none = none
  usable n q (some algo) = if is_algo_enabled n algo then some (algo, q) else none

  unfoldable pub offer_of : Negotiator → Text → Option (Algorithm × fl.Float)
  offer_of n piece =
      let part = trim_space piece in
      if is_empty part
      then none
      else (let (name, q) = read_part part in usable n q (algo_named name))

  -- The better one of the best so far and an offer.
  unfoldable pub better :
      Option Algorithm × fl.Float → Algorithm × fl.Float → Option Algorithm × fl.Float
  better (best, best_q) (algo, q) =
      if fl.above q best_q
        || (fl.same q best_q && ltb (algo_priority best) (algo_priority (some algo)))
      then (some algo, q)
      else (best, best_q)

  -- The loop over the parts.
  unfoldable pub negotiate_from :
      Negotiator → Option Algorithm × fl.Float → List Text → Option Algorithm × fl.Float
  negotiate_from n best [] = best
  negotiate_from n best (part ∷ parts) = elim (offer_of n part) [
    | none ↦ negotiate_from n best parts
    | some offer ↦ negotiate_from n (better best offer) parts
  ]

  unfoldable pub negotiate : Negotiator → Text → Option Algorithm
  negotiate n accept_encoding =
      if not n.enabled || is_empty accept_encoding
      then none
      else (negotiate_from n (none, fl.minus_one) (split b',' accept_encoding)).0
