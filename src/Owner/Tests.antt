-- ===== src/Owner/Tests.antt =====
-- The owner sinks over an adapter whose device stalls.
use Prim.{Unit, tt}
use Prim.Native.String.{String}
use xcom_lua.Prelude.{ℕ, ◌≡◌, refl, false, true, [], ◌∷◌, none, some, arith}
use xcom_lua.Core.{CoreCtx}
use xcom_lua.Core.Sample.{core_with}
use xcom_lua.Backend.{Attempt, timed_out, Backend, serial_write, write_loop, one_attempt}
use xcom_lua.Backend.Wire.{IsSent}
use xcom_lua.Owner.{raise_fault, record_failure, sink_owner_write, sink_owner_open}
use xcom_lua.Owner.Strikes.{Counts, sink_owner_write-Counts, reopened_strike}

abbrev stalled : ℕ → Attempt
stalled i = timed_out 1 none

abbrev adapter : Backend
adapter = record { port_valid = true; opened = true; write_in_flight = false; wire = [] }

abbrev message : String → ℕ → ℕ → String
message reason written len = reason

abbrev struck : CoreCtx Unit
struck = record (core_with tt) { tx_fail_streak = 3 }

sink_owner_write-Counts_example :
    Counts 2 struck
      (serial_write stalled (some (7 ∷ 8 ∷ [])) 2 adapter)
      (sink_owner_write none message stalled (7 ∷ 8 ∷ []) 2 struck adapter)
    × IsSent stalled (7 ∷ 8 ∷ []) 2 true [] (serial_write stalled (some (7 ∷ 8 ∷ [])) 2 adapter)
sink_owner_write-Counts_example =
    sink_owner_write-Counts none message stalled (7 ∷ 8 ∷ []) 2 struck adapter (λ d. refl) refl refl
      refl

reopened_strike_example :
    let (opened, live) = sink_owner_open none true struck adapter in
    (sink_owner_write none message stalled (7 ∷ 8 ∷ []) 2 opened live).0
    ≡ raise_fault none message
        (record_failure none message 2 (serial_write stalled (some (7 ∷ 8 ∷ [])) 2 live) opened)
unfolding sink_owner_open serial_write write_loop one_attempt
reopened_strike_example =
    reopened_strike none message stalled (7 ∷ 8 ∷ []) 2 struck adapter (omega arith) (omega arith)
      refl refl
