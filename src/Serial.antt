-- ===== src/Serial.antt =====
-- SerialAo of xcom_core/src/ao/xcom_ao.cpp: the port lifecycle, its table and its three actions.
-- The owner operations are the function pointers of DispatchSink; what other threads do while one
-- of them blocks is part of its effect on CoreCtx.
pub mod Table
pub mod Lifecycle
pub mod Reopen
mod Tests
use xcom_lua.Prelude.{
  ℕ, ◌+◌, ◌≡◌, Bool, true, false, not, ◌&&◌, ◌||◌, List, [], ◌∷◌, Option, none, some,
}
use xcom_lua.Prelude.Tests.{◌==◌, if◌then◌else◌}
use xcom_lua.Prelude.Word.{ℤ, pos, negsuc, ◌==ℤ◌, add32, to_u32}
use xcom_lua.Port.{PortState, closed, opening, opened, closing, faulted}
use xcom_lua.Status.{xcom_ok, xcom_err_full, xcom_err_io}
use xcom_lua.Format.{outside}
use xcom_lua.Core.{
  CoreCtx, DiagEvent, open_ok, open_fail, close_ok, push_error, emit_diag, beat_dispatcher,
  reset_display_committed,
}

-- S_CLOSED, S_OPENING, S_OPEN, S_CLOSING, S_FAULT by their values.
abbrev pub state_code : PortState → ℕ
state_code closed = 0
state_code opening = 1
state_code opened = 2
state_code closing = 3
state_code faulted = 4

pub data SerialEvent : Type 0 where
  open_request close_request fault_report open_done close_done cancel : SerialEvent

abbrev pub event_code : SerialEvent → ℕ
event_code open_request = 0
event_code close_request = 1
event_code fault_report = 2
event_code open_done = 3
event_code close_done = 4
event_code cancel = 5

pub data SerialAction : Type 0 where
  no_action owner_open owner_close cancel_close open_commit open_fail_action close_commit :
      SerialAction

-- `guarded` is the guard serial_open_succeeded, the only one of the table.
pub record SerialEdge : Type 0 where
  pub from : PortState
  pub event : SerialEvent
  pub guarded : Bool
  pub to : PortState
  pub action : SerialAction
  pub publish_first : Bool

abbrev edge : PortState → SerialEvent → Bool → PortState → SerialAction → Bool → SerialEdge
edge from event guarded to action publish_first = record {
  from = from;
  event = event;
  guarded = guarded;
  to = to;
  action = action;
  publish_first = publish_first;
}

unfoldable pub serial_edges : List SerialEdge
serial_edges =
    edge closed open_request false opening owner_open true
    ∷ edge faulted open_request false opening owner_open true
    ∷ edge opening open_done true opened open_commit false
    ∷ edge opening open_done false closed open_fail_action false
    ∷ edge opening cancel false closing cancel_close true
    ∷ edge opened close_request false closing owner_close true
    ∷ edge faulted close_request false closing owner_close true
    ∷ edge closing close_request false closing owner_close true
    ∷ edge closing close_done false closed close_commit false
    ∷ edge opening fault_report false faulted owner_close true
    ∷ edge opened fault_report false faulted owner_close true
    ∷ edge closing fault_report false closed owner_close true
    ∷ []

-- The first row that matches and whose guard passes.
unfoldable pub serial_find_edge :
    (succeeded : Bool) → PortState → SerialEvent → List SerialEdge → Option SerialEdge
serial_find_edge succeeded state event [] = none
serial_find_edge succeeded state event (e ∷ es) =
    if (state_code e.from == state_code state)
      && ((event_code e.event == event_code event) && (not e.guarded || succeeded))
    then some e
    else serial_find_edge succeeded state event es

-- The signals that the modelled code submits.
pub data Signal : Type 0 where
  open_signal close_signal fault_signal autosend_signal : Signal

-- The function pointers of DispatchSink that SerialAo calls. `submit_control` returns whether the
-- event was accepted.
pub record DispatchSink (D : Type 0) : Type 0 where
  pub owner_open : Option (CoreCtx D → CoreCtx D)
  pub owner_close : Option (CoreCtx D → CoreCtx D)
  pub submit_control : Option (CoreCtx D → Signal → Bool → CoreCtx D × Bool)

pub record SerialCtx (D : Type 0) : Type 0 where
  pub core : CoreCtx D
  pub state : PortState

module _ {D : Type 0} where
  -- serial_open_succeeded
  abbrev pub open_succeeded : CoreCtx D → Bool
  open_succeeded c = c.last_open_result ==ℤ xcom_ok

  -- The only writer of the published state.
  abbrev pub serial_publish : SerialCtx D → PortState → SerialCtx D
  serial_publish s state = record { core = record (s.core) { port_state = state }; state = state }

  -- `if (sink.f != nullptr) sink.f(core)`
  abbrev pub call_sink : Option (CoreCtx D → CoreCtx D) → CoreCtx D → CoreCtx D
  call_sink none c = c
  call_sink (some f) c = f c

  -- CoreCtx::submit_control
  abbrev pub call_submit :
      Option (CoreCtx D → Signal → Bool → CoreCtx D × Bool)
      → CoreCtx D
      → Signal
      → Bool
      → CoreCtx D × Bool
  call_submit none c signal critical = (c, false)
  call_submit (some f) c signal critical = f c signal critical

  -- The three assignments of both commits.
  abbrev pub reset_text : CoreCtx D → CoreCtx D
  reset_text c = record c {
    text = record { at_line_start = true; strip_state = outside; pending_cr = false };
  }

module _ {D : Type 0} (reset : D → D × ℕ × ℕ) (sink : DispatchSink D) where
  -- The rejected hand-off of a cancelled open closes the session itself.
  unfoldable pub cancel_close_action : CoreCtx D → PortState → CoreCtx D × PortState
  cancel_close_action core target =
      let (c, accepted) = call_submit sink.submit_control core close_signal true in
      if accepted then (c, target) else (
        push_error xcom_err_full 0 "open cancellation close event rejected"
            (call_sink sink.owner_close c),
        faulted,
      )

  unfoldable pub open_commit_action : CoreCtx D → CoreCtx D
  open_commit_action core =
      let c : CoreCtx D = record core {
        open_generation = add32 core.open_generation 1;
        generation = add32 core.open_generation 1;
      } in
      let c' = reset_display_committed reset (reset_text c) in
      emit_diag open_ok c'.cfg.baud c'.generation 0 0 c'

  unfoldable pub close_commit_action : CoreCtx D → CoreCtx D
  close_commit_action core =
      let c : CoreCtx D = record core { generation = add32 core.generation 1 } in
      let c' = reset_display_committed reset (reset_text c) in
      emit_diag close_ok c'.generation 0 0 0 c'

  unfoldable pub serial_run_action : CoreCtx D → SerialAction → PortState → CoreCtx D × PortState
  unfolding cancel_close_action open_commit_action close_commit_action
  serial_run_action core owner_open target = (call_sink sink.owner_open core, target)
  serial_run_action core owner_close target = (call_sink sink.owner_close core, target)
  serial_run_action core cancel_close target = cancel_close_action core target
  serial_run_action core open_commit target = (open_commit_action core, target)
  serial_run_action core open_fail_action target =
      (emit_diag open_fail (to_u32 core.last_open_result) core.generation 0 0 core, target)
  serial_run_action core close_commit target = (close_commit_action core, target)
  serial_run_action core no_action target = (core, target)

  -- One row of the table, applied.
  unfoldable pub take_edge : SerialCtx D → SerialEdge → SerialCtx D
  unfolding serial_run_action
  take_edge s e =
      if e.publish_first
      then (let entered = serial_publish s e.to in
          let (c, outcome) = serial_run_action entered.core e.action e.to in
          let after : SerialCtx D = record { core = c; state = e.to } in
          if state_code outcome == state_code e.to then after else serial_publish after outcome)
      else let (c, outcome) = serial_run_action s.core e.action e.to in
        serial_publish (record { core = c; state = s.state }) outcome

  unfoldable pub serial_transition : SerialCtx D → SerialEvent → SerialCtx D
  unfolding take_edge
  serial_transition s event =
      elim (serial_find_edge (open_succeeded s.core) s.state event serial_edges) [
        | none ↦ s
        | some e ↦ take_edge s e
      ]

  unfoldable pub serial_reconcile_pending_fault : SerialCtx D → SerialCtx D
  serial_reconcile_pending_fault s =
      if s.core.fault_pending
      then serial_transition (record s { core = record (s.core) { fault_pending = false } })
          fault_report
      else s

  -- The second half of serial_do_open, after the Open edge.
  unfoldable pub finish_open : SerialCtx D → SerialCtx D
  finish_open s =
      if not (open_succeeded s.core)
      then serial_transition s open_done
      else if s.core.cancel_open
      then serial_transition (record s { core = record (s.core) { cancel_open = false } }) cancel
      else serial_transition s open_done

  -- The actions take the time of their heartbeat.
  unfoldable pub serial_do_open : (now_ms : ℕ) → SerialCtx D → SerialCtx D
  serial_do_open now_ms s =
      let beaten : SerialCtx D = record s { core = beat_dispatcher now_ms s.core } in
      finish_open (serial_transition (serial_reconcile_pending_fault beaten) open_request)

  unfoldable pub serial_do_close : (now_ms : ℕ) → SerialCtx D → SerialCtx D
  serial_do_close now_ms s =
      let beaten : SerialCtx D = record s { core = beat_dispatcher now_ms s.core } in
      let s' = serial_transition (serial_transition beaten close_request) close_done in
      record s' { core = record (s'.core) { fault_pending = false } }

  unfoldable pub serial_do_fault : (now_ms : ℕ) → SerialCtx D → SerialCtx D
  serial_do_fault now_ms s =
      if state_code s.state == 4
      then s
      else let beaten = beat_dispatcher now_ms s.core in
        let s' =
          serial_transition (record s { core = record beaten { fault_pending = false } })
            fault_report in
        let c =
          push_error xcom_err_io 0 "serial device removed / port fault; close then reopen"
            s'.core in
        record s' { core = emit_diag DiagEvent.fault (to_u32 xcom_err_io) c.generation 0 0 c }
