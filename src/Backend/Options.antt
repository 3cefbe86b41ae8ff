-- ===== src/Backend/Options.antt =====
-- The options of a port in xcom_core/src/io/serial_backend_win.cpp and its header: validate_serial_options
-- and WinSerialBackend::configure. A LineDrive is its number. The Win32 calls are arguments; where they
-- may fail, the error is `some`.
mod Tests
pub mod Checks
use xcom_lua.Prelude.{
  ℕ, Bool, true, false, not, ◌&&◌, ◌||◌, List, [], ◌∷◌, ◌++◌, Option, none, some,
}
use xcom_lua.Prelude.Tests.{ltb, leb, ◌==◌, if◌then◌else◌}

pub record SerialPortOptions : Type 0 where
  pub baud : ℕ
  pub data_bits : ℕ
  pub stop_bits : ℕ
  pub parity : ℕ
  pub flow_control : ℕ
  pub dtr_drive : ℕ
  pub rts_drive : ℕ

abbrev pub line_assert : ℕ
line_assert = 1

abbrev pub leave_alone : ℕ
leave_alone = 2

unfoldable pub valid_line_drive : ℕ → Bool
valid_line_drive drive = drive == 0 || drive == line_assert || drive == leave_alone

unfoldable pub valid_line_format : (data_bits stop_bits : ℕ) → Bool
valid_line_format data_bits stop_bits =
    if ltb data_bits 5 || ltb 8 data_bits
    then false
    else if ltb 2 stop_bits
    then false
    else not (stop_bits == 1 && not (data_bits == 5))

unfoldable pub validate_serial_options : SerialPortOptions → Bool
unfolding valid_line_drive valid_line_format
validate_serial_options options =
    if options.baud == 0 || ltb 4 options.parity || ltb 2 options.flow_control
    then false
    else if not (valid_line_format options.data_bits options.stop_bits)
    then false
    else valid_line_drive options.dtr_drive && valid_line_drive options.rts_drive

-- map_stop_bits and map_parity, to the numbers of Win32.
unfoldable pub map_stop_bits : ℕ → ℕ
map_stop_bits value = if value == 1 then 1 else if value == 2 then 2 else 0

unfoldable pub map_parity : ℕ → ℕ
map_parity value =
    if value == 1
    then 1
    else if value == 2
    then 2
    else if value == 3
    then 3
    else if value == 4
    then 4
    else 0

-- The fields of the DCB that configure programs and compares.
pub record Dcb : Type 0 where
  pub baud_rate : ℕ
  pub byte_size : ℕ
  pub stop_width : ℕ
  pub parity_kind : ℕ
  pub binary : Bool
  pub check_parity : Bool
  pub cts_flow : Bool
  pub rts_control : ℕ
  pub dtr_control : ℕ
  pub out_x : Bool
  pub in_x : Bool
  pub abort_on_error : Bool

-- *_CONTROL_DISABLE is 0, *_CONTROL_ENABLE is 1 and RTS_CONTROL_HANDSHAKE is 2.
unfoldable pub requested : SerialPortOptions → Dcb
unfolding map_stop_bits map_parity
requested options = record {
  baud_rate = options.baud;
  byte_size = options.data_bits;
  stop_width = map_stop_bits options.stop_bits;
  parity_kind = map_parity options.parity;
  binary = true;
  check_parity = not (options.parity == 0);
  cts_flow = options.flow_control == 1;
  rts_control =
      if options.flow_control == 1 then 2 else if options.rts_drive == line_assert then 1 else 0;
  dtr_control = if options.dtr_drive == line_assert then 1 else 0;
  out_x = options.flow_control == 2;
  in_x = options.flow_control == 2;
  abort_on_error = false;
}

abbrev pub same_bit : Bool → Bool → Bool
same_bit true b = b
same_bit false b = not b

-- The comparison of the two DCBs, in two halves.
unfoldable pub same_format : Dcb → Dcb → Bool
same_format a b =
    a.baud_rate == b.baud_rate
    && (a.byte_size == b.byte_size
        && (a.stop_width == b.stop_width
            && (a.parity_kind == b.parity_kind
                && (same_bit a.binary b.binary && same_bit a.check_parity b.check_parity))))

unfoldable pub same_control : Dcb → Dcb → Bool
same_control a b =
    same_bit a.cts_flow b.cts_flow
    && (a.rts_control == b.rts_control
        && (a.dtr_control == b.dtr_control
            && (same_bit a.out_x b.out_x
                && (same_bit a.in_x b.in_x && same_bit a.abort_on_error b.abort_on_error))))

unfoldable pub same_dcb : Dcb → Dcb → Bool
unfolding same_format same_control
same_dcb a b = same_format a b && same_control a b

pub data Pin : Type 0 where
  dtr rts : Pin

pub record CommCalls : Type 0 where
  pub setup_comm : Option ℕ
  pub get_state : Option ℕ
  pub set_state : Option ℕ
  pub get_verified : Option ℕ
  pub verified : Dcb
  pub escape : Pin → Option ℕ
  pub set_timeouts : Option ℕ

-- What configure leaves: its result, rts_handshake_, the levels it asked of the pins in order, and the
-- pins it warned of.
pub record Configured : Type 0 where
  pub error : Option ℕ
  pub rts_handshake : Bool
  pub driven : List (Pin × Bool)
  pub warned : List Pin

-- The replay of one pin.
unfoldable pub replay : CommCalls → Pin → (drive : ℕ) → Configured → Configured
replay calls pin drive c =
    let c' : Configured = record c { driven = c.driven ++ ((pin, drive == line_assert) ∷ []) } in
    elim (calls.escape pin) [
      | none ↦ c'
      | some error ↦ record c' { warned = c.warned ++ (pin ∷ []) }
    ]

-- The end of configure, once the DCB is verified.
unfoldable pub drive_pins : CommCalls → SerialPortOptions → Configured
unfolding replay
drive_pins calls options =
    let handshake = options.flow_control == 1 in
    let c : Configured = record {
      error = calls.set_timeouts;
      rts_handshake = handshake;
      driven = [];
      warned = [];
    } in
    let c' = if options.dtr_drive == leave_alone then c else replay calls dtr options.dtr_drive c in
    if handshake || options.rts_drive == leave_alone
    then c'
    else replay calls rts options.rts_drive c'

abbrev pub not_configured : (before : Bool) → ℕ → Configured
not_configured before error = record {
  error = some error;
  rts_handshake = before;
  driven = [];
  warned = [];
}

abbrev pub error_not_supported : ℕ
error_not_supported = 50

-- `before` is rts_handshake_ until then.
unfoldable pub configure : CommCalls → (before : Bool) → SerialPortOptions → Configured
unfolding drive_pins requested same_dcb
configure calls before options = elim calls.setup_comm [
  | some error ↦ not_configured before error
  | none ↦ elim calls.get_state [
    | some error ↦ not_configured before error
    | none ↦ elim calls.set_state [
      | some error ↦ not_configured before error
      | none ↦ elim calls.get_verified [
        | some error ↦ not_configured before error
        | none ↦
            if not (same_dcb calls.verified (requested options))
            then not_configured before error_not_supported
            else drive_pins calls options
      ]
    ]
  ]
]
