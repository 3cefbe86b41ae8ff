-- ===== src/Backend.antt =====
-- The write side of the serial adapter, WinSerialBackend of xcom_core/src/io/serial_backend_win.cpp.
-- What Win32 does in an attempt to write is an argument.
pub mod Wire
pub mod Reader
pub mod Options
pub mod Poll
mod Tests
use Prim.Native.Nat.{bit_and}
use Prim.Native.String.{String}
use xcom_lua.Prelude.{
  ℕ, zero, suc, ◌+◌, ◌-◌, Bool, true, false, not, ◌&&◌, ◌||◌, List, ◌++◌, Option, none, some,
}
use xcom_lua.Prelude.Tests.{ltb, leb, ◌==◌, if◌then◌else◌}
use xcom_lua.Prelude.Lists.{take, drop}

-- The Win32 codes that the adapter sets or compares with.
abbrev pub error_success : ℕ
error_success = 0

abbrev pub serial_write_fault : ℕ
serial_write_fault = 29

abbrev pub error_invalid_parameter : ℕ
error_invalid_parameter = 87

abbrev pub error_timeout : ℕ
error_timeout = 1460

abbrev pub max_write_iterations : ℕ
max_write_iterations = 8

-- The COMSTAT holds that capture_line_status reads.
pub record Comstat : Type 0 where
  pub cts_hold : Bool
  pub dsr_hold : Bool
  pub xoff_hold : Bool

-- What becomes of one WriteFile: it completes at once, fails at once, or is pending and then completes,
-- fails, runs into the timeout, or the wait fails. `moved` bytes have reached the driver by then. At a
-- timeout `stat` is `none` when ClearCommError fails.
pub data Attempt : Type 0 where
  completes : (native_written : ℕ) → Attempt
  fails : (error : ℕ) → Attempt
  reaped : (native_written : ℕ) → Attempt
  reap_fails : (moved error : ℕ) → Attempt
  timed_out : (moved : ℕ) → Option Comstat → Attempt
  wait_fails : (moved error : ℕ) → Attempt

-- `wire` is what the driver has taken, in order.
pub record Backend : Type 0 where
  pub port_valid : Bool
  pub opened : Bool
  pub write_in_flight : Bool
  pub wire : List ℕ

pub record WriteResult : Type 0 where
  pub ok : Bool
  pub written : ℕ
  pub error : ℕ
  pub line_status : ℕ
  pub backend : Backend

-- The bits kLineStatusCtsHold, kLineStatusDsrHold and kLineStatusXoffHold.
unfoldable pub capture_line_status : Option Comstat → ℕ
capture_line_status none = 0
capture_line_status (some stat) =
    (if stat.cts_hold then 1 else 0)
    + ((if stat.dsr_hold then 2 else 0) + (if stat.xoff_hold then 4 else 0))

unfoldable pub describe_write_failure : (error line_status : ℕ) → String
describe_write_failure error line_status =
    if not (error == error_timeout)
    then "Win32 serial serial_write write_failed"
    else if not (bit_and line_status 1 == 0)
    then "Win32 serial serial_write timeout: CTS not asserted (peer not ready or flow control stalled)"
    else if not (bit_and line_status 2 == 0)
    then "Win32 serial serial_write timeout: DSR not asserted (peer not ready)"
    else if not (bit_and line_status 4 == 0)
    then "Win32 serial serial_write timeout: peer sent XOFF (software flow control paused)"
    else "Win32 serial serial_write timeout: peer not reading (TX buffer full)"

abbrev pub write_failed : (written error : ℕ) → Backend → WriteResult
write_failed written error b = record {
  ok = false;
  written = written;
  error = error;
  line_status = 0;
  backend = b;
}

abbrev pub min_of : ℕ → ℕ → ℕ
min_of a b = if ltb b a then b else a

-- The driver takes the next bytes, of the message from `total` on.
abbrev pub takes : (content : List ℕ) → (total moved : ℕ) → Backend → Backend
takes content total moved b = record b { wire = b.wire ++ take moved (drop total content) }

-- What an attempt leads to: the end of the write, or another attempt with so many bytes sent.
pub data WriteRound : Type 0 where
  ends : WriteResult → WriteRound
  goes_on : (total : ℕ) → Backend → WriteRound

-- A completion of `native_written` bytes, clamped to the chunk.
unfoldable pub settle_write :
    (content : List ℕ) (size total native_written : ℕ) → Backend → WriteRound
settle_write content size total native_written b =
    let n = min_of native_written (size - total) in
    let b' : Backend = takes content total n b in
    if leb size (total + n)
    then ends (record {
      ok = true;
      written = total + n;
      error = error_success;
      line_status = 0;
      backend = b';
    })
    else if n == 0
    then ends (write_failed (total + n) serial_write_fault b')
    else goes_on (total + n) b'

-- One turn of the loop. write_in_flight is set while an operation is pending, and cleared after. After a
-- timeout or a failed wait the operation is cancelled, and the source clears the flag even if the 200 ms
-- that it gives the cancelled operation run out; here the operation is over then.
unfoldable pub one_attempt : Attempt → (content : List ℕ) (size total : ℕ) → Backend → WriteRound
unfolding settle_write capture_line_status
one_attempt (completes native_written) content size total b =
    settle_write content size total native_written b
one_attempt (fails error) content size total b = ends (write_failed total error b)
one_attempt (reaped native_written) content size total b =
    settle_write content size total native_written (record b { write_in_flight = false })
one_attempt (reap_fails moved error) content size total b = ends (
    write_failed total error
      (record (takes content total (min_of moved (size - total)) b) { write_in_flight = false }))
one_attempt (timed_out moved stat) content size total b =
    ends
      (record (write_failed total error_timeout
        (record (takes content total (min_of moved (size - total)) b) {
          write_in_flight = false;
        })) { line_status = capture_line_status stat })
one_attempt (wait_fails moved error) content size total b = ends (
    write_failed total error
      (record (takes content total (min_of moved (size - total)) b) { write_in_flight = false }))

-- The loop, with `left` iterations before kMaxWriteIterations.
unfoldable pub write_loop :
    (left : ℕ) (attempts : ℕ → Attempt) (content : List ℕ) (size iteration total : ℕ)
    → Backend
    → WriteResult
unfolding one_attempt
write_loop zero attempts content size iteration total b = write_failed total serial_write_fault b
write_loop (suc left) attempts content size iteration total b =
    elim (one_attempt (attempts iteration) content size total b) [
      | ends r ↦ r
      | goes_on total' b' ↦ write_loop left attempts content size (iteration + 1) total' b'
    ]

-- A null `data` is `none`. The caller's `line_status` is not null.
unfoldable pub serial_write :
    (attempts : ℕ → Attempt) → Option (List ℕ) → (size : ℕ) → Backend → WriteResult
serial_write attempts none size b = write_failed 0 error_invalid_parameter b
serial_write attempts (some content) size b =
    if not b.opened || not b.port_valid || size == 0
    then write_failed 0 error_invalid_parameter b
    else write_loop max_write_iterations attempts content size 0 0 b
