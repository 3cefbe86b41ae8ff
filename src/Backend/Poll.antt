-- ===== src/Backend/Poll.antt =====
-- WinSerialBackend::poll_line_status of xcom_core/src/io/serial_backend_win.cpp, of an open port whose
-- owner listens. The two Win32 calls are arguments: `none` when they fail.
use Prim.Native.Nat.{bit_and}
use xcom_lua.Prelude.{ℕ, ◌+◌, ◌≡◌, Bool, not, ◌&&◌, ◌||◌, Option, none, some, arith}
use xcom_lua.Prelude.Tests.{◌==◌, if◌then◌else◌}

-- What ClearCommError gives: the error mask, and the fields of COMSTAT.
pub record CommState : Type 0 where
  pub errors : ℕ
  pub cts_held : Bool
  pub dsr_held : Bool
  pub xoff_held : Bool
  pub rlsd_held : Bool
  pub cb_in_que : ℕ
  pub cb_out_que : ℕ

pub record SerialLineStatus : Type 0 where
  pub error_flags : ℕ
  pub framing_errors : ℕ
  pub parity_errors : ℕ
  pub overrun_errors : ℕ
  pub break_events : ℕ
  pub hold_events : ℕ
  pub modem_lines : ℕ
  pub cb_in_que : ℕ
  pub cb_out_que : ℕ

pub record LineWatch : Type 0 where
  pub last_holds : ℕ
  pub last_modem : ℕ

unfoldable pub holds_of : CommState → ℕ
holds_of stat =
    (if stat.cts_held then 1 else 0)
    + ((if stat.dsr_held then 2 else 0)
        + ((if stat.xoff_held then 4 else 0) + (if stat.rlsd_held then 8 else 0)))

-- MS_CTS_ON, MS_DSR_ON, MS_RING_ON and MS_RLSD_ON, as kModemCts and its like beside kModemValid.
unfoldable pub modem_of : Option ℕ → ℕ
modem_of none = 0
modem_of (some raw) =
    2147483648
    + ((if bit_and raw 16 == 0 then 0 else 1)
        + ((if bit_and raw 32 == 0 then 0 else 2)
            + ((if bit_and raw 64 == 0 then 0 else 4) + (if bit_and raw 128 == 0 then 0 else 8))))

abbrev pub flag : (errors mask : ℕ) → ℕ
flag errors mask = if bit_and errors mask == 0 then 0 else 1

-- CE_FRAME is 8, CE_RXPARITY 4, CE_RXOVER and CE_OVERRUN 1 and 2, CE_BREAK 16.
unfoldable pub poll_line_status :
    Option CommState → (modem_raw : Option ℕ) → LineWatch → LineWatch × Option SerialLineStatus
unfolding holds_of modem_of
poll_line_status none modem_raw watch = (watch, none)
poll_line_status (some stat) modem_raw watch =
    let holds = holds_of stat in
    let hold_edge = not (holds == watch.last_holds) in
    let modem = modem_of modem_raw in
    let modem_edge = not (modem == watch.last_modem) in
    let status : SerialLineStatus = record {
      error_flags = stat.errors;
      framing_errors = flag stat.errors 8;
      parity_errors = flag stat.errors 4;
      overrun_errors = flag stat.errors 3;
      break_events = flag stat.errors 16;
      hold_events = if hold_edge && not (holds == 0) then 1 else 0;
      modem_lines = modem;
      cb_in_que = stat.cb_in_que;
      cb_out_que = stat.cb_out_que;
    } in
    let quiet = stat.errors == 0 && (not hold_edge || holds == 0) && not modem_edge in
    (record { last_holds = holds; last_modem = modem }, (if quiet then none else some status))

-- A line that stays as it is and has no error is reported once at most: the second of two polls that see
-- the same state reports nothing, and leaves the watch as it is.
pub poll_line_status_again :
    (stat : CommState) (modem_raw : Option ℕ) (watch : LineWatch)
    → stat.errors ≡ 0
    → let (later, report) = poll_line_status (some stat) modem_raw watch in
      poll_line_status (some stat) modem_raw later ≡ (later, none)
unfolding poll_line_status
poll_line_status_again stat modem_raw watch clean = ground (arith, clean)
