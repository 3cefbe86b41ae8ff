-- ===== src/Backend/Options/Tests.antt =====
-- The options 1200 baud with five data bits and 1.5 stop bits, and a driver that programs what is asked.
use xcom_lua.Prelude.{ℕ, ◌≡◌, ◌⊎◌, refl, not, ◌&&◌, true, false, none}
use xcom_lua.Prelude.Tests.{◌==◌}
use xcom_lua.Abi.{PortConfig, out_of_range}
use xcom_lua.Backend.Options.{
  validate_serial_options, Dcb, requested, map_stop_bits, map_parity, CommCalls, not_configured,
  configure, drive_pins, replay, same_dcb, same_format, same_control,
}
use xcom_lua.Backend.Options.Checks.{
  options_of, levels, unmoved, HasCause, validate_serial_options-out_of_range, configure_verified,
}

abbrev config : PortConfig
config = record {
  struct_size = 24;
  port = none;
  baud_rate = 1200;
  data_bits = 5;
  stop_bits = 1;
  parity = 2;
  flow_control = 1;
  dtr_enable = 1;
  rts_enable = 2;
}

abbrev programmed : Dcb
programmed = record {
  baud_rate = 1200;
  byte_size = 5;
  stop_width = 1;
  parity_kind = 2;
  binary = true;
  check_parity = true;
  cts_flow = true;
  rts_control = 2;
  dtr_control = 1;
  out_x = false;
  in_x = false;
  abort_on_error = false;
}

abbrev calls : CommCalls
calls = record {
  setup_comm = none;
  get_state = none;
  set_state = none;
  get_verified = none;
  verified = programmed;
  escape = λ pin. none;
  set_timeouts = none;
}

honoured : requested (options_of config) ≡ programmed
unfolding requested map_stop_bits map_parity
honoured = refl

validate_serial_options-out_of_range_example :
    validate_serial_options (options_of config)
    ≡ (not (out_of_range config) && not (1 == 1 && not (5 == 5)))
validate_serial_options-out_of_range_example = validate_serial_options-out_of_range config

configure_verified_example :
    ((error : ℕ) × (configure calls false (options_of config) ≡ not_configured false error)
      × HasCause calls (options_of config) error)
    ⊎ (calls.setup_comm ≡ none)
      × (calls.get_state ≡ none)
      × (calls.set_state ≡ none)
      × (calls.get_verified ≡ none)
      × (programmed ≡ requested (options_of config))
      × ((configure calls false (options_of config)).error ≡ none)
      × ((configure calls false (options_of config)).driven ≡ levels (options_of config))
      × ((configure calls false (options_of config)).warned
          ≡ unmoved calls (levels (options_of config)))
      × ((configure calls false (options_of config)).rts_handshake ≡ true)
configure_verified_example = configure_verified calls false (options_of config)

configured : (configure calls false (options_of config)).error ≡ none
unfolding configure drive_pins replay requested map_stop_bits map_parity same_dcb same_format
    same_control
configured = refl
