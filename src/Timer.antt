-- ===== src/Timer.antt =====
-- service/timeout.go: the view timer. `armed` says whether the Go timer runs; it fires once and is
-- then not armed, and the module's Go version drops a firing that was not received before a Reset
-- or a Stop.
use basic_hotstuff.Prelude.{Bool, true, false, if◌then◌else◌}

pub record Timer : Type 0 where
  pub is_started : Bool
  pub armed : Bool

unfoldable pub reset : Timer → Timer
reset t = record t { armed = true }

unfoldable pub stop : Timer → Timer
stop t = record { is_started = false; armed = false }

unfoldable pub soft_start : Timer → Timer
unfolding reset
soft_start t = if t.is_started then t else record (reset t) { is_started = true }

-- `NewTimeoutService`.
unfoldable pub new_timer : Timer
unfolding stop
new_timer = stop (record { is_started = false; armed = true })

-- The timer fires.
unfoldable pub fire : Timer → Timer
fire t = record t { armed = false }
