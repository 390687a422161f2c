-- ===== src/Go/Float.antt =====
-- float64 as an interface: the operations that the program applies to it. A constant such as 1.5 is
-- written as the quotient of two integers, to which division rounds it correctly.
use fluffy_dollop.Base.{Bool}
use fluffy_dollop.Base.Int.{ℤ}

pub record Float64 : Type 1 where
  pub Float : Type 0
  -- float64(n)
  pub of_int : ℤ → Float
  -- int64(x)
  pub truncate : Float → ℤ
  pub div : Float → Float → Float
  pub mul : Float → Float → Float
  pub sub : Float → Float → Float
  -- x < y
  pub lt : Float → Float → Bool
  -- x <= y
  pub le : Float → Float → Bool
