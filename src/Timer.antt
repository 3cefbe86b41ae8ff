-- ===== src/Timer.antt =====
-- PeriodicTimer of xcom_core/src/runtime/periodic_timer.cpp: the loop of its thread. Times are the
-- uint64_t nanoseconds of monotonic_ns.
pub mod Pace
mod Tests
use xcom_lua.Prelude.{ℕ, suc, ◌+◌, ◌-◌, ◌*◌, ◌/◌, ◌%◌, Bool, true, false, List, [], ◌∷◌}
use xcom_lua.Prelude.Tests.{ltb, leb, if◌then◌else◌}

abbrev pub ns_per_ms : ℕ
ns_per_ms = 1000000

abbrev pub u64_mod : ℕ
u64_mod = 18446744073709551616

-- The timeout of the wait, a DWORD.
unfoldable pub wait_milliseconds : ℕ → ℕ
wait_milliseconds remaining_ns =
    let rounded_ms = (remaining_ns + (ns_per_ms - 1)) % u64_mod / ns_per_ms in
    if ltb 4294967294 rounded_ms then 4294967294 else rounded_ms

-- `interval` of start, from milliseconds.
abbrev pub interval_ns : ℕ → ℕ
interval_ns interval_ms = interval_ms * ns_per_ms % u64_mod

-- The deadline after a callback that ended at `after`.
unfoldable pub next_deadline : (interval deadline after : ℕ) → ℕ
next_deadline interval deadline after =
    let next = (deadline + interval) % u64_mod in
    let skipped = (after - next) / interval + 1 in
    if leb next after then (next + skipped * interval % u64_mod) % u64_mod else next

-- What the loop keeps, with the number of the callbacks so far and the timeout of the last wait.
pub record Timer : Type 0 where
  pub deadline : ℕ
  pub calls : ℕ
  pub waited_ms : ℕ

-- One turn of the loop, with its two readings of the clock.
unfoldable pub turn : (interval now after : ℕ) → Timer → Timer
unfolding next_deadline wait_milliseconds
turn interval now after t =
    if ltb now t.deadline
    then record t { waited_ms = wait_milliseconds (t.deadline - now) }
    else record t { deadline = next_deadline interval t.deadline after; calls = suc t.calls }

-- The loop over the readings of the clock, before the stop.
unfoldable pub run : (interval : ℕ) → List (ℕ × ℕ) → Timer → Timer
unfolding turn
run interval [] t = t
run interval ((now, after) ∷ readings) t = run interval readings (turn interval now after t)

-- The state when the loop begins.
abbrev pub start_at : (interval begin : ℕ) → Timer
start_at interval begin = record {
  deadline = (begin + interval) % u64_mod;
  calls = 0;
  waited_ms = 0;
}
