-- ===== src/Transmit/Traffic.antt =====
-- The send path with its write thread, SessionWriter of xcom_core/src/runtime/xcom_core.cpp, as a system
-- that one event at a time moves on.
use xcom_lua.Prelude.{ℕ, ◌+◌, ◌-◌, Bool, true, false, List, [], ◌∷◌, Option, none, some}
use xcom_lua.Prelude.Tests.{◌==◌, if◌then◌else◌}
use xcom_lua.Prelude.Word.{ℤ}
use xcom_lua.Status.{SubmitDisposition}
use xcom_lua.Core.{CoreCtx}
use xcom_lua.Writer.{Job, max_jobs, try_pop, reject_job, release_leftover_jobs, run_job}
use xcom_lua.Transmit.{Transmit, release_stock, xcom_send, xcom_set_auto_template}
use xcom_lua.Transmit.Actions.{
  autosend_config_action, send_autosend_action, send_user_action, autosend_tick,
}

module _ {D : Type 0} where
  -- SessionWriter::start; `created` says whether the thread could start.
  unfoldable pub start_writer : (created : Bool) → Transmit D → Transmit D × Bool
  start_writer created s =
      let fresh : Transmit D = record s { writer = record (s.writer) { write = 0; read = 0 } } in
      if s.active
      then (s, false)
      else (if created then (record fresh { active = true }, true) else (fresh, false))

  -- What sink_owner_close does with an active writer whose worker has ended. The fuel is one more than
  -- the jobs that the ring can hold.
  unfoldable pub close_writer : Transmit D → Transmit D
  close_writer s =
      if s.active
      then elim (release_leftover_jobs release_stock (max_jobs + 1) s.writer s.core
          (s.tx, s.bytes)) [
            | some (writer, core, (tx, bytes)) ↦ record s {
              writer = writer;
              core = core;
              tx = tx;
              bytes = bytes;
              active = false;
            }
            | none ↦ s
          ]
      else s

-- The path with its write thread: `current` is the job in hand.
pub record SendSystem (D : Type 0) : Type 0 where
  pub path : Transmit D
  pub current : Option Job

-- What can happen next, with the parameters of the model: a call of a client or of the timer, an event
-- that the Dispatcher handles, a step of the write thread, the writer's start and end, and a change of
-- the core by other code.
pub data Event (D : Type 0) : Type 0 where
  sends : Option SubmitDisposition → Option (List ℕ) → (size : ℕ) → Event D
  configures : Option SubmitDisposition → Option (List ℕ) → (size interval : ℕ) → Event D
  ticks : (accepted : Bool) → Event D
  handles_send : (now_ms : ℕ) → Event D
  handles_config : (now_ms : ℕ) (created : Bool) → Event D
  handles_autosend : (now_ms : ℕ) → Event D
  pops : Event D
  writes : Option (CoreCtx D → ℕ → ℕ → CoreCtx D × ℤ) → Event D
  rejects : Event D
  starts : (created : Bool) → Event D
  closes : Event D
  changes : CoreCtx D → Event D

module _ {D : Type 0} where
  -- An event that cannot happen in the state leaves it as it is: no event waits, no job is queued or in
  -- hand. The worker rejects jobs once it is asked to stop, and ends between two jobs.
  unfoldable pub step : Event D → SendSystem D → SendSystem D
  step (sends disposition content size) s = record s {
    path = (xcom_send disposition content size s.path).0;
  }
  step (configures disposition content size interval) s = record s {
    path = (xcom_set_auto_template disposition content size interval s.path).0;
  }
  step (ticks accepted) s = record s { path = autosend_tick accepted s.path }
  step (handles_send now_ms) s = elim s.path.sends [
    | [] ↦ s
    | desc ∷ later ↦ record s {
      path = send_user_action now_ms desc (record (s.path) { sends = later });
    }
  ]
  step (handles_config now_ms created) s = elim s.path.configs [
    | [] ↦ s
    | desc ∷ later ↦ record s {
      path = autosend_config_action now_ms created desc (record (s.path) { configs = later });
    }
  ]
  step (handles_autosend now_ms) s =
      let later : Transmit D = record (s.path) { ticks = s.path.ticks - 1 } in
      if s.path.ticks == 0 then s else record s { path = send_autosend_action now_ms later }
  step pops s = elim s.current [
    | some j ↦ s
    | none ↦ elim (try_pop s.path.writer) [
      | none ↦ s
      | some (j, w) ↦ record s { path = record (s.path) { writer = w }; current = some j }
    ]
  ]
  step (writes owner_write) s = elim s.current [
    | none ↦ s
    | some j ↦
        let (core, (tx, bytes)) =
          run_job release_stock owner_write j s.path.core (s.path.tx, s.path.bytes) in
        record s { path = record (s.path) { core = core; tx = tx; bytes = bytes }; current = none }
  ]
  step rejects s = elim s.current [
    | none ↦ s
    | some j ↦
        let (core, (tx, bytes)) =
          reject_job release_stock j s.path.core (s.path.tx, s.path.bytes) in
        record s { path = record (s.path) { core = core; tx = tx; bytes = bytes }; current = none }
  ]
  step (starts created) s = record s { path = (start_writer created s.path).0 }
  step closes s = elim s.current [ some j ↦ s | none ↦ record s { path = close_writer s.path } ]
  step (changes core) s = record s { path = record (s.path) { core = core } }
