-- ===== src/Log/Admission.antt =====
-- The admission of appenders, and how a close waits for them: acquire_append_lease,
-- release_append_lease and close_append_admission of xcom_core/src/io/log_writer.cpp. Each step here
-- is one atomic access of one thread, and the threads may take turns in any order; the last one out
-- counts down and signals in one step.
pub mod Safety
pub mod Drains
mod Tests
use xcom_lua.Prelude.{ℕ, zero, suc, ◌+◌, ◌%◌, ◌<◌, ◌≡◌, ◌⊎◌, Bool, true, false, ◌||◌}
use xcom_lua.Prelude.Tests.{◌==◌, if◌then◌else◌}
use xcom_lua.Prelude.Word.{add32, sub32}

-- Where a thread stands in acquire_append_lease or under its lease. `seen` has read the gate open,
-- `counted` has incremented the counter, `refused` has then read the gate shut.
pub data Appender : Type 0 where
  outside seen counted refused leased : Appender

-- Where the caller of close_append_admission stands. `drained` is a result of true, and `gave_up`
-- of false.
pub data Closer : Type 0 where
  not_closing checking waiting drained gave_up : Closer

pub record Gate : Type 0 where
  pub accepting_log : Bool
  pub appenders_in_flight : ℕ
  pub drained_signalled : Bool

-- `fetch_sub`, and the signal of the last one out.
unfoldable pub release_append_lease : Gate → Gate
release_append_lease g = record {
  accepting_log = g.accepting_log;
  appenders_in_flight = sub32 g.appenders_in_flight 1;
  drained_signalled = if g.appenders_in_flight == 1 then true else g.drained_signalled;
}

-- The next access of an appender. From `leased` it ends its lease.
unfoldable pub appender_step : Gate → Appender → Gate × Appender
unfolding release_append_lease
appender_step g outside = (g, if g.accepting_log then seen else outside)
appender_step g seen = (record g { appenders_in_flight = add32 g.appenders_in_flight 1 }, counted)
appender_step g counted = (g, if g.accepting_log then leased else refused)
appender_step g refused = (release_append_lease g, outside)
appender_step g leased = (release_append_lease g, outside)

-- The next access of the closer; a call begins by shutting the gate. After a check `expired` says that
-- the event is invalid or the deadline is past; in a wait, that its timeout is over. A wait ends only by
-- the event, which it takes, or by its timeout, and without either the closer stays where it is.
unfoldable pub closer_step : Gate → (expired : Bool) → Closer → Gate × Closer
closer_step g expired checking =
    (g, if g.appenders_in_flight == 0 then drained else if expired then gave_up else waiting)
closer_step g expired waiting =
    if g.drained_signalled || expired
    then (record g { drained_signalled = false }, checking)
    else (g, waiting)
closer_step g expired not_closing = (record g { accepting_log = false }, checking)
closer_step g expired drained = (record g { accepting_log = false }, checking)
closer_step g expired gave_up = (record g { accepting_log = false }, checking)

pub record System : Type 0 where
  pub gate : Gate
  pub closer : Closer
  pub appenders : ℕ → Appender

abbrev pub update {ℓ} : {A : Type ℓ} → (ℕ → A) → ℕ → A → ℕ → A
update f i a j = if i == j then a else f j

-- One of `n` appenders or the closer makes its next access, or a file is opened, which stores
-- whether that succeeded: the writer opens a file only when none is open, so not during a close.
pub data Step (n : ℕ) (s t : System) : Type 0 where
  append :
      (i : ℕ)
      → i < n
      → t ≡ record s {
        gate = (appender_step s.gate (s.appenders i)).0;
        appenders = update s.appenders i (appender_step s.gate (s.appenders i)).1;
      }
      → Step n s t
  close :
      (expired : Bool)
      → t ≡ record s {
        gate = (closer_step s.gate expired s.closer).0;
        closer = (closer_step s.gate expired s.closer).1;
      }
      → Step n s t
  reopen :
      (success : Bool)
      → (s.closer ≡ not_closing) ⊎ (s.closer ≡ drained)
      → t ≡ record s { gate = record (s.gate) { accepting_log = success }; closer = not_closing }
      → Step n s t

abbrev pub initial : System
initial = record {
  gate = record { accepting_log = false; appenders_in_flight = 0; drained_signalled = false };
  closer = not_closing;
  appenders = λ i. outside;
}

pub data Reach (n : ℕ) (s : System) : System → Type 0 where
  here : Reach n s s
  next : {t u : System} → Reach n s t → Step n t u → Reach n s u
