-- ===== src/Serial/Lifecycle.antt =====
-- The three actions of SerialAo, alone and in any order.
use xcom_lua.Prelude.{ℕ, ◌≡◌, refl, false, arith}
use xcom_lua.Port.{PortState, closed, opening, opened, closing, faulted}
use xcom_lua.Core.{CoreCtx, beat_dispatcher}
use xcom_lua.Serial.{
  SerialCtx, DispatchSink, open_request, call_sink, serial_transition, serial_find_edge,
  serial_edges, serial_reconcile_pending_fault, finish_open, serial_do_open, serial_do_close,
  serial_do_fault, close_commit_action,
}
use xcom_lua.Serial.Table.{KeepsView, SinkKeepsView, ViewAgrees, serial_transition-ViewAgrees}

-- A state that SerialAo is in between two actions.
abbrev pub IsResting : PortState → Type 0
IsResting opening = ⊥
IsResting _ = Unit

module _ {D : Type 0} (reset : D → D × ℕ × ℕ) (sink : DispatchSink D) where
  -- From a state that owns a session, close publishes CLOSING, releases the session, and commits:
  -- it ends CLOSED, with the display lane and the text state reset, a new generation, and no fault
  -- left to be reconciled. In CLOSED it changes nothing but the heartbeat and that latch.
  pub serial_do_close_lem :
      (now_ms : ℕ) (c : CoreCtx D)
      → let beaten = beat_dispatcher now_ms c in
        let released = call_sink sink.owner_close (record beaten { port_state = closing }) in
        let committed : SerialCtx D = record {
          core = record (close_commit_action reset sink released) {
            port_state = closed;
            fault_pending = false;
          };
          state = closed;
        } in
        (serial_do_close reset sink now_ms (record { core = c; state = opened }) ≡ committed)
        × (serial_do_close reset sink now_ms (record { core = c; state = faulted }) ≡ committed)
        × (serial_do_close reset sink now_ms (record { core = c; state = closing }) ≡ committed)
        × (serial_do_close reset sink now_ms (record { core = c; state = closed })
            ≡ record { core = record beaten { fault_pending = false }; state = closed })
  unfolding serial_do_close serial_transition serial_find_edge serial_edges
  serial_do_close_lem now_ms c = (refl, refl, refl, refl)

  finish_open-IsResting :
      (c : CoreCtx D)
      → IsResting (finish_open reset sink (record { core = c; state = opening })).state
  unfolding finish_open serial_transition serial_find_edge serial_edges
  finish_open-IsResting c = ground arith

  open-IsResting :
      (c : CoreCtx D) (st : PortState)
      → IsResting st
      → let entered = serial_transition reset sink (record { core = c; state = st }) open_request in
        IsResting (finish_open reset sink entered).state
  unfolding finish_open serial_transition serial_find_edge serial_edges
  open-IsResting c closed h = ground arith
  open-IsResting c opening h = absurd h
  open-IsResting c opened h = ground arith
  open-IsResting c closing h = ground arith
  open-IsResting c faulted h = ground arith

  reconcile-IsResting :
      (c : CoreCtx D) (st : PortState)
      → IsResting st
      → IsResting
          (serial_reconcile_pending_fault reset sink (record { core = c; state = st })).state
  unfolding serial_reconcile_pending_fault serial_transition serial_find_edge serial_edges
  reconcile-IsResting c closed h = ground arith
  reconcile-IsResting c opening h = absurd h
  reconcile-IsResting c opened h = ground arith
  reconcile-IsResting c closing h = ground arith
  reconcile-IsResting c faulted h = ground arith

  do_open-IsResting :
      (now_ms : ℕ) (c : CoreCtx D) (st : PortState)
      → IsResting st
      → IsResting (serial_do_open reset sink now_ms (record { core = c; state = st })).state
  unfolding serial_do_open
  do_open-IsResting now_ms c st h =
      open-IsResting _ _ (reconcile-IsResting (beat_dispatcher now_ms c) st h)

  do_close-IsResting :
      (now_ms : ℕ) (c : CoreCtx D) (st : PortState)
      → IsResting st
      → IsResting (serial_do_close reset sink now_ms (record { core = c; state = st })).state
  unfolding serial_do_close serial_transition serial_find_edge serial_edges
  do_close-IsResting now_ms c closed h = tt
  do_close-IsResting now_ms c opening h = absurd h
  do_close-IsResting now_ms c _ h = tt

  do_fault-IsResting :
      (now_ms : ℕ) (c : CoreCtx D) (st : PortState)
      → IsResting st
      → IsResting (serial_do_fault reset sink now_ms (record { core = c; state = st })).state
  unfolding serial_do_fault serial_transition serial_find_edge serial_edges
  do_fault-IsResting now_ms c closed h = tt
  do_fault-IsResting now_ms c opening h = absurd h
  do_fault-IsResting now_ms c _ h = tt

  -- A fault in an open session publishes FAULT, then releases the session, and reports once; a
  -- fault in FAULT changes nothing; in CLOSED it reports and moves no state; and in CLOSING, where
  -- the release is under way, it ends in CLOSED.
  pub serial_do_fault_lem :
      (now_ms : ℕ) (c : CoreCtx D)
      → let run =
          λ (st : PortState). serial_do_fault reset sink now_ms (record { core = c; state = st }) in
        let beaten : CoreCtx D = record (beat_dispatcher now_ms c) { fault_pending = false } in
        let released = call_sink sink.owner_close (record beaten { port_state = faulted }) in
        ((run opened).state ≡ faulted)
        × ((run opened).core.port_state ≡ released.port_state)
        × ((run opened).core.generation ≡ released.generation)
        × (run faulted ≡ record { core = c; state = faulted })
        × ((run closed).state ≡ closed)
        × ((run closed).core.port_state ≡ c.port_state)
        × ((run closed).core.generation ≡ c.generation)
        × ((run closing).state ≡ closed)
        × ((run closing).core.port_state
            ≡ (call_sink sink.owner_close (record beaten { port_state = closed })).port_state)
  unfolding serial_do_fault serial_transition serial_find_edge serial_edges
  serial_do_fault_lem now_ms c = (refl, refl, refl, refl, refl, refl, refl, refl, refl)

-- SerialAo runs its actions one at a time; between two of them other threads may change CoreCtx,
-- but publish no state other than FAULT.
pub data Step {D : Type 0} (reset : D → D × ℕ × ℕ) (sink : DispatchSink D) (s : SerialCtx D)
    : SerialCtx D → Type 0 where
  opens : (now_ms : ℕ) → Step reset sink s (serial_do_open reset sink now_ms s)
  closes : (now_ms : ℕ) → Step reset sink s (serial_do_close reset sink now_ms s)
  faults : (now_ms : ℕ) → Step reset sink s (serial_do_fault reset sink now_ms s)
  others : (c : CoreCtx D) → KeepsView s.core c → Step reset sink s (record s { core = c })

-- What the actions and the other threads can make of a state.
pub data Reach {D : Type 0} (reset : D → D × ℕ × ℕ) (sink : DispatchSink D) (s : SerialCtx D)
    : SerialCtx D → Type 0 where
  here : Reach reset sink s s
  next : {t u : SerialCtx D} → Reach reset sink s t → Step reset sink t u → Reach reset sink s u

module _ {D : Type 0} (reset : D → D × ℕ × ℕ) (sink : DispatchSink D)
    (keeps : SinkKeepsView sink) where
  do_open-ViewAgrees :
      (now_ms : ℕ) (s : SerialCtx D)
      → ViewAgrees s
      → ViewAgrees (serial_do_open reset sink now_ms s)
  unfolding serial_do_open serial_reconcile_pending_fault finish_open
  do_open-ViewAgrees now_ms s v = grind (arith, serial_transition-ViewAgrees reset sink keeps)

  do_close-ViewAgrees :
      (now_ms : ℕ) (s : SerialCtx D)
      → ViewAgrees s
      → ViewAgrees (serial_do_close reset sink now_ms s)
  unfolding serial_do_close
  do_close-ViewAgrees now_ms s v = grind (arith, serial_transition-ViewAgrees reset sink keeps)

  do_fault-ViewAgrees :
      (now_ms : ℕ) (s : SerialCtx D)
      → ViewAgrees s
      → ViewAgrees (serial_do_fault reset sink now_ms s)
  unfolding serial_do_fault
  do_fault-ViewAgrees now_ms s v = grind (arith, serial_transition-ViewAgrees reset sink keeps)

  Step-agrees :
      {s t : SerialCtx D}
      → Step reset sink s t
      → ViewAgrees s × IsResting s.state
      → ViewAgrees t × IsResting t.state
  Step-agrees {s} (opens now_ms) v =
      (do_open-ViewAgrees now_ms s v.0, do_open-IsResting reset sink now_ms s.core s.state v.1)
  Step-agrees {s} (closes now_ms) v =
      (do_close-ViewAgrees now_ms s v.0, do_close-IsResting reset sink now_ms s.core s.state v.1)
  Step-agrees {s} (faults now_ms) v =
      (do_fault-ViewAgrees now_ms s v.0, do_fault-IsResting reset sink now_ms s.core s.state v.1)
  Step-agrees (others c h) v = (ground arith, v.1)

  -- However open, close and fault actions and the changes of other threads follow one another,
  -- from a state in which the published port state is the true one, or FAULT, and SerialAo is not
  -- inside an open, both hold again: the snapshot never shows a state that the port is not in,
  -- FAULT excepted, and no action leaves the port OPENING. The owner operations publish no state
  -- but FAULT, and neither do the other threads.
  pub Reach-agrees :
      {s t : SerialCtx D}
      → Reach reset sink s t
      → ViewAgrees s × IsResting s.state
      → ViewAgrees t × IsResting t.state
  Reach-agrees here v = v
  Reach-agrees (next r st) v = Step-agrees st (Reach-agrees r v)
