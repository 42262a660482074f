-- ===== src/Common/Sql.antt =====
-- What the code relies on of `database/sql` and of the clock: a statement may fail, and
-- `time.Now()` gives some time. Both are functions of the number of statements sent so far.
use boost.Common.Tests.{if◌then◌else◌}
use boost.Common.Monad.{Result, ok, err}
use Prim.Native.Nat.{ℕ}
use mathlib.Core.Bool.{Bool, false}

pub record Driver : Type 0 where
  pub fault : ℕ → Bool
  pub clock : ℕ → ℕ

-- The answer to one statement: `e`, or nothing.
abbrev pub answer : {E : Type 0} → Driver → ℕ → E → Result E (Unit {0})
answer d n e = if d.fault n then err e else ok tt

-- A driver on which no statement fails.
abbrev pub healthy : Driver
healthy = record { fault = λ n. false; clock = λ n. n }
