-- ===== src/Value.antt =====
-- The values that a configuration file decodes to (Go's `any`): what the code tells apart by a type
-- switch. A float64 is given by its integer value, if it has one, and its printed form.
use cifera.Base.{ℤ, Bool, Option, Text}

pub data Value : Type 0 where
  nil : Value
  string : Text → Value
  int : ℤ → Value
  int64 : ℤ → Value
  float64 : Option ℤ → Text → Value
  bool : Bool → Value
  other : Text → Value
