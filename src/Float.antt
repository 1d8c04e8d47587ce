-- ===== src/Float.antt =====
-- Go's float64 as an abstract type: the operations of loader/engine.go on it. Times are readings of
-- the monotonic clock in nanoseconds, and a duration is an int64 of nanoseconds.
use beacon_guard.Prelude.{ℕ, Bool, sub64, quot64, rem64}

pub record Float64 (F : Type 0) : Type 0 where
  pub add : F → F → F
  pub sub : F → F → F
  pub mul : F → F → F
  pub div : F → F → F
  pub lt : F → F → Bool
  pub of_int : ℕ → F  -- float64(n) of an int
  pub literal : ℕ → ℕ → F  -- the constant that stands for a fraction
  pub round : F → F  -- math.Round

module _ {F : Type 0} (fl : Float64 F) where
  open fl use {add, div, of_int, literal}

  -- `Duration.Seconds`: whole seconds, and the rest of the nanoseconds divided by 1e9.
  unfoldable pub seconds : ℕ → F
  seconds d =
      add (of_int (quot64 d 1_000_000_000))
        (div (of_int (rem64 d 1_000_000_000)) (literal 1_000_000_000 1))

  -- `later.Sub(earlier).Seconds()`. `Sub` saturates only beyond 292 years.
  unfoldable pub elapsed : ℕ → ℕ → F
  unfolding seconds
  elapsed earlier later = seconds (sub64 later earlier)
