-- ===== src/Serial/Tests.antt =====
-- The lifecycle with a concrete owner. The display lane is the number of its undrained batches, of
-- 10 unlogged bytes each.
use xcom_lua.Prelude.{ℕ, ◌*◌, ◌≡◌, ◌↔◌, refl, inl, true, false, some}
use xcom_lua.Prelude.Word.{pos}
use xcom_lua.Port.{closed, opened, faulted}
use xcom_lua.Core.{CoreCtx}
use xcom_lua.Core.Sample.{core_with}
use xcom_lua.Serial.{
  SerialCtx, DispatchSink, open_succeeded, serial_do_open, serial_do_close, serial_do_fault,
}
use xcom_lua.Serial.Table.{SinkKeepsView, ViewAgrees}
use xcom_lua.Serial.Lifecycle.{IsResting, Reach, here, next, opens, closes, faults, Reach-agrees}
use xcom_lua.Serial.Reopen.{attempt, serial_do_open-outcome, serial_do_open-success}

abbrev reset : ℕ → ℕ × ℕ × ℕ
reset n = (0, n, 10 * n)

-- An owner whose open succeeds, and a dispatcher that takes every signal.
abbrev sink : DispatchSink ℕ
sink = record {
  owner_open = some (λ c. record c { last_open_result = pos 0 });
  owner_close = some (λ c. record c { callback_admission = true });
  submit_control = some (λ c signal critical. (c, true));
}

-- An owner whose open succeeds while a fault is reported that cannot be signalled.
abbrev faulty_sink : DispatchSink ℕ
faulty_sink = record sink {
  owner_open =
      some (λ c. record c { last_open_result = pos 0; port_state = faulted; fault_pending = true });
}

abbrev idle : CoreCtx ℕ
idle = record (core_with 2) { generation = 4; open_generation = 3 }

abbrev start : SerialCtx ℕ
start = record { core = idle; state = closed }

sink-KeepsView : SinkKeepsView sink
sink-KeepsView = record {
  on_open = λ c. inl refl;
  on_close = λ c. inl refl;
  on_submit = λ c signal critical. inl refl;
}

serial_do_open-outcome_example :
    let tried = attempt sink 7 idle in
    let s = serial_do_open reset sink 7 start in
    ((s.state ≡ opened) ↔ ((open_succeeded tried ≡ true) × (tried.cancel_open ≡ false)))
    × ((s.state ≡ closed) ↔ (open_succeeded tried ≡ false))
serial_do_open-outcome_example = serial_do_open-outcome reset sink 7 idle closed tt refl

-- The lost fault: the port is published OPEN with the latch set.
serial_do_open-success_example :
    let s = serial_do_open reset faulty_sink 7 start in
    (s.state ≡ opened)
    × (s.core.port_state ≡ opened)
    × (s.core.generation ≡ 4)
    × (s.core.fault_pending ≡ true)
serial_do_open-success_example =
    serial_do_open-success reset faulty_sink 7 idle closed tt refl refl refl

abbrev latched : CoreCtx ℕ
latched = record idle { port_state = faulted; fault_pending = true }

-- Open, fault, open, close.
abbrev history : Reach reset sink start (
    serial_do_close reset sink 4 (
      serial_do_open reset sink 3
        (serial_do_fault reset sink 2 (serial_do_open reset sink 1 start))))
history = next (next (next (next here (opens 1)) (faults 2)) (opens 3)) (closes 4)

Reach-agrees_example :
    let end = serial_do_close reset sink 4 (
      serial_do_open reset sink 3
        (serial_do_fault reset sink 2 (serial_do_open reset sink 1 start))) in
    ViewAgrees end × IsResting end.state
Reach-agrees_example = Reach-agrees reset sink sink-KeepsView history (inl refl, tt)
