-- ===== src/Backend/Reader.antt =====
-- The read thread of the serial adapter, WinSerialBackend::read_loop of
-- xcom_core/src/io/serial_backend_win.cpp. What Win32 does in a round is an argument, with the stop flag
-- as the round reads it last; on_read_, on_fault_ and on_beat_ are set.
mod Tests
pub mod Deliveries
use xcom_lua.Prelude.{ℕ, Bool, true, false, not, List, [], ◌∷◌, ◌++◌}
use xcom_lua.Prelude.Tests.{if◌then◌else◌}
use xcom_lua.Prelude.Lists.{take}

abbrev pub read_chunk_bytes : ℕ
read_chunk_bytes = 4096

abbrev pub error_operation_aborted : ℕ
error_operation_aborted = 995

-- One round: ReadFile completes at once or fails at once; or it is pending, and then the bounded wait of a
-- close runs out, the stop event alone is set, the wait fails, or the read is reaped or fails.
pub data Reading : Type 0 where
  complete : (bytes : List ℕ) → Reading
  read_fails : (error : ℕ) (stopped : Bool) → Reading
  never_released : Reading
  stop_alone : Reading
  wait_failed : (error : ℕ) (stopped : Bool) → Reading
  reaped_read : (bytes : List ℕ) (stopped : Bool) → Reading
  reap_failed : (bytes : List ℕ) (error : ℕ) (stopped : Bool) → Reading

-- The calls that the thread makes, in order.
pub data Call : Type 0 where
  read_beat line_poll : Call
  on_read : (bytes : List ℕ) → Call
  on_fault : (error : ℕ) → Call

pub record Reader : Type 0 where
  pub opened : Bool
  pub calls : List Call

abbrev pub call : Call → Reader → Reader
call made r = record r { calls = r.calls ++ (made ∷ []) }

-- `if (received != 0U && on_read_)`, with the count clamped to the buffer.
unfoldable pub deliver : List ℕ → Reader → Reader
deliver [] r = r
deliver (byte ∷ bytes) r = call (on_read (take read_chunk_bytes (byte ∷ bytes))) r

-- A fault, unless a stop was asked for.
unfoldable pub fault_unless : (stopped : Bool) (error : ℕ) → Reader → Reader
fault_unless true error r = r
fault_unless false error r = record (call (on_fault error) r) { opened = false }

-- One turn of the loop, and whether another follows.
unfoldable pub one_read : Reading → Reader → Reader × Bool
unfolding deliver fault_unless
one_read (complete bytes) r = (deliver bytes (call line_poll (call read_beat r)), true)
one_read (read_fails error stopped) r = (fault_unless stopped error (call read_beat r), false)
one_read never_released r = (fault_unless false error_operation_aborted (call read_beat r), false)
one_read stop_alone r = (call read_beat r, false)
one_read (wait_failed error stopped) r = (fault_unless stopped error (call read_beat r), false)
one_read (reaped_read bytes stopped) r =
    (deliver bytes (call line_poll (call read_beat r)), not stopped)
one_read (reap_failed bytes error stopped) r =
    (fault_unless stopped error (deliver bytes (call read_beat r)), false)

-- The loop; at the end of the list the thread sees the stop at the head of the loop.
unfoldable pub read_loop : List Reading → Reader → Reader
unfolding one_read
read_loop [] r = r
read_loop (reading ∷ readings) r =
    let (r', more) = one_read reading r in
    let rest = read_loop readings r' in if more then rest else r'
