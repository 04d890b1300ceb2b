-- ===== src/Commands/Wait.antt =====
-- cmd/waitforpostgres/main.go: the command that waits until a PostgreSQL server answers.
pub mod Ends
use modern_mcs.Prelude.{
  ℕ, zero, suc, ◌+◌, ◌-◌, ◌/◌, String, Bool, not, Option, none, some, ℤ, pos, negsuc, pos_part, ltb,
  ◌==◌, if◌then◌else◌,
}
use modern_mcs.Config.Number.{atoi, seconds}

-- How the command ends: with status 0, or with an error and status 1 or 2.
pub data Exit : Type 0 where
  ready no_dsn bad_timeout open_failed not_ready : Exit

unfoldable pub status : Exit → ℕ
status ready = 0
status no_dsn = 2
status bad_timeout = 2
status open_failed = 1
status not_ready = 1

-- A call of `PingContext`: whether the server answered, and how many nanoseconds the call took.
pub record Ping : Type 0 where
  pub succeeds : Bool
  pub takes : ℕ

-- What happens around the loop: the ping that starts at an instant, and by how much `time.Sleep` that
-- starts at an instant is late.
pub record Surroundings : Type 0 where
  pub ping : ℕ → Ping
  pub late : ℕ → ℕ

-- Two seconds.
abbrev pub pause : ℕ
pause = 2_000_000_000

-- `t.Add(d)`
abbrev pub add_duration : ℕ → ℤ → ℕ
add_duration now (pos n) = now + n
add_duration now (negsuc n) = now - suc n

module _ (around : Surroundings) where
  -- The loop, from the instant at which a ping starts; `none` where the fuel is used up.
  unfoldable pub wait : ℕ → ℕ → ℕ → Option Exit
  wait zero deadline now = none
  wait (suc fuel) deadline now =
      let p = around.ping now in
      let after = now + p.takes in
      let rest = wait fuel deadline (after + pause + around.late after) in
      if p.succeeds then some ready else if ltb deadline after then some not_ready else rest

-- The time limit: 60 seconds, or the number of seconds in `WAIT_FOR_POSTGRES_TIMEOUT_SEC`.
unfoldable pub time_limit : String → Option ℤ
time_limit raw = if raw == "" then some (seconds (pos 60)) else elim (atoi raw) [
  | none ↦ none
  | some secs ↦ if not (ltb 0 (pos_part secs)) then none else some (seconds secs)
]

-- Enough rounds for a loop that starts at an instant and ends at the first ping behind the deadline.
unfoldable pub rounds : ℕ → ℕ → ℕ
rounds deadline now = suc (suc ((deadline - now) / pause))

-- `main`, which starts at an instant; `opens` is whether `sql.Open` succeeds.
unfoldable pub main : Surroundings → String → String → Bool → ℕ → Option Exit
unfolding wait time_limit rounds
main around dsn raw opens now = if dsn == "" then some no_dsn else elim (time_limit raw) [
  | none ↦ some bad_timeout
  | some limit ↦
      if not opens
      then some open_failed
      else wait around (rounds (add_duration now limit) now) (add_duration now limit) now
]
