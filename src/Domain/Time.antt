-- ===== src/Domain/Time.antt =====
-- Python datetimes. An aware one is an instant, in microseconds since the year 1 in UTC, with the
-- offset in which it is written; two aware ones are compared by their instants.
use ai_infrastructure_as_cod.Prelude.{ℕ, Bool, Option, none, some, nat_eq, ltb}
use native.Mathlib.Decide.{ℕ_discrete}
use ai_infrastructure_as_cod.Errors.{Result, ok, err, value_error}

-- `offset` is the UTC offset in seconds, counted from 24 hours west of UTC.
pub record Instant : Type 0 where
  pub utc : ℕ
  pub offset : ℕ

unfoldable pub Instant-discrete : Discrete Instant
Instant-discrete = hlevel ℕ_discrete

pub data Datetime : Type 0 where
  naive : ℕ → Datetime
  aware : Instant → Datetime

-- a < b, of aware datetimes
abbrev pub precedes : Instant → Instant → Bool
precedes a b = ltb a.utc b.utc

-- `_aware_time` of storage/sqlite.py, and the same test in `transition_task`; `now` is what
-- `datetime.now(UTC)` returns.
unfoldable pub aware_time : Instant → Option Datetime → Result Instant
aware_time now none = ok now
aware_time now (some (naive t)) = err value_error
aware_time now (some (aware t)) = ok t
