-- ===== src/Owner.antt =====
-- The owner sinks that write and set lines, sink_owner_write and sink_owner_set_lines of
-- xcom_core/src/runtime/xcom_core.cpp, over the serial adapter.
pub mod Strikes
mod Tests
use Prim.Native.String.{String}
use xcom_lua.Prelude.{
  ℕ, ◌+◌, ◌-◌, ◌/◌, Bool, true, false, not, ◌&&◌, ◌||◌, List, Option, none, some,
}
use xcom_lua.Prelude.Tests.{ltb, leb, ◌==◌, if◌then◌else◌}
use xcom_lua.Prelude.Word.{ℤ, pos, negsuc, ◌==ℤ◌, u32_mod, add32}
use xcom_lua.Status.{XcomStatus, xcom_ok, xcom_err_not_open, xcom_err_io, xcom_err_unsupported}
use xcom_lua.Port.{faulted}
use xcom_lua.Core.{CoreCtx, Metrics, push_error}
use xcom_lua.Serial.{Signal, fault_signal, call_submit}
use xcom_lua.Backend.{Attempt, Backend, WriteResult, describe_write_failure, serial_write}

-- kTxFailStreakLimit, and the errors that end the session at once: ERROR_ACCESS_DENIED,
-- ERROR_INVALID_HANDLE, ERROR_OPERATION_ABORTED and ERROR_DEVICE_REMOVED.
abbrev pub tx_fail_streak_limit : ℕ
tx_fail_streak_limit = 3

unfoldable pub fatal : (error : ℕ) → Bool
fatal error = error == 1617 || error == 5 || error == 6 || error == 995

-- The cast of a DWORD to int32_t, and XCOM_ERR_IO for no error.
unfoldable pub reported_code : (error : ℕ) → ℤ
reported_code error =
    if error == 0
    then xcom_err_io
    else if ltb error 2147483648
    then pos error
    else negsuc (u32_mod - 1 - error)

-- The source divides doubles. Between the clamps a quotient that is not whole is too far from the next
-- whole number to be rounded to it.
unfoldable pub compute_write_timeout_ms : (baud : ℕ) → ℕ
compute_write_timeout_ms baud =
    let ms = if baud == 0 then 0 else 327680000 / baud in
    if ltb ms 2000 then 2000 else if ltb 60000 ms then 60000 else ms

module _ {D : Type 0} (submit_control : Option (CoreCtx D → Signal → Bool → CoreCtx D × Bool))
    (truncated : (reason : String) (written len : ℕ) → String) where
  -- The fault of a dead port.
  unfoldable pub raise_fault : CoreCtx D → CoreCtx D
  raise_fault c =
      let (c', accepted) = call_submit submit_control c fault_signal true in
      if accepted then c' else record (push_error xcom_err_io 0 "writer fault signal rejected" c') {
        port_state = faulted;
        fault_pending = true;
      }

  abbrev pub count_sent : ℕ → CoreCtx D → CoreCtx D
  count_sent n c = record c { metrics = record (c.metrics) { tx_bytes = add32 c.tx_bytes n } }

  -- What a failed write leaves, before the test for a dead port.
  unfoldable pub record_failure : (len : ℕ) → WriteResult → CoreCtx D → CoreCtx D
  record_failure len r c =
      let counted = if r.written == 0 then c else count_sent r.written c in
      let reason = describe_write_failure r.error r.line_status in
      let message =
        if not (r.written == 0) && ltb r.written len
        then truncated reason r.written len
        else reason in
      record (push_error (reported_code r.error) 2 message counted) {
        tx_fail_streak = add32 c.tx_fail_streak 1;
      }

  -- `snprintf` makes the message of a truncated write.
  unfoldable pub sink_owner_write :
      (attempts : ℕ → Attempt) (content : List ℕ) (len : ℕ)
      → CoreCtx D
      → Backend
      → CoreCtx D × XcomStatus × Backend
  unfolding raise_fault record_failure
  sink_owner_write attempts content len c b =
      let r = serial_write attempts (some content) len b in
      let c' = record_failure len r c in
      let dead = fatal r.error || leb tx_fail_streak_limit c'.tx_fail_streak in
      if c.virtual_port
      then (count_sent len c, xcom_ok, b)
      else if not b.opened
      then (c, xcom_err_not_open, b)
      else if r.ok
      then (count_sent r.written (record c { tx_fail_streak = 0 }), xcom_ok, r.backend)
      else ((if dead then raise_fault c' else c'), xcom_err_io, r.backend)

module _ {D : Type 0} where
  -- sink_owner_open from the test for a virtual port on, less the heartbeat of the read thread. `failure`
  -- is the error of the adapter's open, if it failed; `starts` says whether the writer runs in the end.
  unfoldable pub sink_owner_open :
      (failure : Option ℕ) (starts : Bool) → CoreCtx D → Backend → CoreCtx D × Backend
  sink_owner_open failure starts c b =
      let fresh : CoreCtx D = record c {
        metrics = if c.virtual_port then c.metrics else record (c.metrics) { modem_lines = 0 };
        last_open_result = if c.virtual_port then xcom_ok else c.last_open_result;
      } in
      let adapter : Backend =
        if c.virtual_port then b else record b { port_valid = true; opened = true } in
      let ready : CoreCtx D × Backend =
        if starts
        then (record fresh { callback_admission = true; last_open_result = xcom_ok }, adapter)
        else (
          record (push_error xcom_err_io 0 "serial writer start failed" fresh) {
            last_open_result = xcom_err_io;
          },
          record adapter { port_valid = false; opened = false },
        ) in
      if c.virtual_port then ready else elim failure [
        | none ↦ ready
        | some error ↦ (
          record (push_error (reported_code error) 2 "Win32 serial open failed" fresh) {
            last_open_result = reported_code error;
          },
          record b { port_valid = false; opened = false },
        )
      ]

-- LineApplyResult
pub data LineApplyResult : Type 0 where
  applied driver_owned not_applied no_port : LineApplyResult

-- The status of set_dtr, and that status after set_rts.
unfoldable pub dtr_status : LineApplyResult → XcomStatus
dtr_status applied = xcom_ok
dtr_status driver_owned = xcom_err_io
dtr_status not_applied = xcom_err_io
dtr_status no_port = xcom_err_not_open

unfoldable pub rts_status : LineApplyResult → (result : XcomStatus) → XcomStatus
rts_status applied result = result
rts_status driver_owned result = if result ==ℤ xcom_ok then xcom_err_unsupported else result
rts_status not_applied result = if result ==ℤ xcom_ok then xcom_err_io else result
rts_status no_port result = if result ==ℤ xcom_ok then xcom_err_not_open else result

-- set_dtr and set_rts of the adapter; `applies` is what EscapeCommFunction returns.
unfoldable pub set_dtr : (applies : Bool) → Backend → LineApplyResult
set_dtr applies b = if not b.port_valid then no_port else if applies then applied else not_applied

unfoldable pub set_rts : (applies rts_handshake : Bool) → Backend → LineApplyResult
set_rts applies rts_handshake b =
    if not b.port_valid
    then no_port
    else if rts_handshake
    then driver_owned
    else if applies
    then applied
    else not_applied

unfoldable pub sink_owner_set_lines :
    (dtr_applies rts_applies rts_handshake virtual_port : Bool) → Backend → XcomStatus
unfolding dtr_status rts_status set_dtr set_rts
sink_owner_set_lines dtr_applies rts_applies rts_handshake virtual_port b =
    if virtual_port || not b.opened
    then xcom_err_not_open
    else rts_status (set_rts rts_applies rts_handshake b) (dtr_status (set_dtr dtr_applies b))
