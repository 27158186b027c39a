-- ===== src/Prelude/Float.antt =====
-- Go's float64, which antt has no counterpart of: an abstract type with the operations that the
-- code uses, of which nothing is assumed.
use mathlib.Core.Bool.{Bool}
use statixagent.Prelude.Text.{Str}

pub record Float64 : Type 1 where
  pub F : Type 0
  pub zero : F
  pub fle : F → F → Bool
  pub flt : F → F → Bool
  pub add : F → F → F
  pub sub : F → F → F
  -- `fmt.Sprintf("%.1f", x)`
  pub show1 : F → Str
