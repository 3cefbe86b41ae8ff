-- ===== src/Backend/Options/Checks.antt =====
-- Which options are accepted, and what a port is that was configured.
use xcom_lua.Prelude.{
  ℕ, ◌≡◌, ◌≢◌, refl, ap, ◌∙◌, ◌⊎◌, inl, inr, Bool, true, false, not, ◌&&◌, ◌||◌, List, [], ◌∷◌,
  ◌++◌, none, some, arith,
}
use xcom_lua.Prelude.Tests.{◌==◌, if◌then◌else◌, Bool-cases, Option-cases}
use xcom_lua.Abi.{PortConfig, out_of_range}
use xcom_lua.Backend.Options.{
  SerialPortOptions, line_assert, leave_alone, valid_line_drive, valid_line_format,
  validate_serial_options, Dcb, requested, same_bit, same_format, same_control, same_dcb, Pin, dtr,
  rts, CommCalls, Configured, replay, drive_pins, not_configured, error_not_supported, configure,
}

-- The options that an open hands to the adapter.
abbrev pub options_of : PortConfig → SerialPortOptions
options_of config = record {
  baud = config.baud_rate;
  data_bits = config.data_bits;
  stop_bits = config.stop_bits;
  parity = config.parity;
  flow_control = config.flow_control;
  dtr_drive = config.dtr_enable;
  rts_drive = config.rts_enable;
}

-- The adapter accepts what the C interface accepts, but for 1.5 stop bits with other than five data bits.
pub validate_serial_options-out_of_range :
    (config : PortConfig)
    → validate_serial_options (options_of config)
      ≡ (not (out_of_range config) && not (config.stop_bits == 1 && not (config.data_bits == 5)))
unfolding validate_serial_options out_of_range valid_line_format valid_line_drive
validate_serial_options-out_of_range config = ground arith

same_bit→≡ : (a b : Bool) → same_bit a b ≡ true → a ≡ b
same_bit→≡ true true h = refl
same_bit→≡ true false h = ground (arith, h)
same_bit→≡ false true h = ground (arith, h)
same_bit→≡ false false h = refl

both : (a b : Bool) → (a && b) ≡ true → (a ≡ true) × (b ≡ true)
both true b h = (refl, h)
both false b h = absurd (ground (arith, h))

same_number : (a b : ℕ) → (a == b) ≡ true → a ≡ b
same_number a b h = ground (arith, h)

same_format→≡ :
    (a b : Dcb)
    → same_format a b ≡ true
    → (a.baud_rate ≡ b.baud_rate)
      × (a.byte_size ≡ b.byte_size)
      × (a.stop_width ≡ b.stop_width)
      × (a.parity_kind ≡ b.parity_kind)
      × (a.binary ≡ b.binary)
      × (a.check_parity ≡ b.check_parity)
unfolding same_format
same_format→≡ a b h =
    let (h1, t1) = both (a.baud_rate == b.baud_rate) _ h in
    let (h2, t2) = both (a.byte_size == b.byte_size) _ t1 in
    let (h3, t3) = both (a.stop_width == b.stop_width) _ t2 in
    let (h4, t4) = both (a.parity_kind == b.parity_kind) _ t3 in
    let (h5, h6) = both (same_bit a.binary b.binary) _ t4 in
    (
      same_number _ _ h1,
      same_number _ _ h2,
      same_number _ _ h3,
      same_number _ _ h4,
      same_bit→≡ _ _ h5,
      same_bit→≡ _ _ h6,
    )

same_control→≡ :
    (a b : Dcb)
    → same_control a b ≡ true
    → (a.cts_flow ≡ b.cts_flow)
      × (a.rts_control ≡ b.rts_control)
      × (a.dtr_control ≡ b.dtr_control)
      × (a.out_x ≡ b.out_x)
      × (a.in_x ≡ b.in_x)
      × (a.abort_on_error ≡ b.abort_on_error)
unfolding same_control
same_control→≡ a b h =
    let (h1, t1) = both (same_bit a.cts_flow b.cts_flow) _ h in
    let (h2, t2) = both (a.rts_control == b.rts_control) _ t1 in
    let (h3, t3) = both (a.dtr_control == b.dtr_control) _ t2 in
    let (h4, t4) = both (same_bit a.out_x b.out_x) _ t3 in
    let (h5, h6) = both (same_bit a.in_x b.in_x) _ t4 in
    (
      same_bit→≡ _ _ h1,
      same_number _ _ h2,
      same_number _ _ h3,
      same_bit→≡ _ _ h4,
      same_bit→≡ _ _ h5,
      same_bit→≡ _ _ h6,
    )

same_dcb→≡ : (a b : Dcb) → same_dcb a b ≡ true → a ≡ b
unfolding same_dcb
same_dcb→≡ a b h =
    let (h1, h2) = both (same_format a b) _ h in
    let (e1, e2, e3, e4, e5, e6) = same_format→≡ a b h1 in
    let (f1, f2, f3, f4, f5, f6) = same_control→≡ a b h2 in cc

-- The levels that configure asks of the pins: none of a pin that is to be left alone, nor of RTS where the
-- driver owns it.
abbrev pub levels : SerialPortOptions → List (Pin × Bool)
levels options =
    (if options.dtr_drive == leave_alone then [] else (dtr, options.dtr_drive == line_assert) ∷ [])
    ++ (if options.flow_control == 1 || options.rts_drive == leave_alone
        then []
        else (rts, options.rts_drive == line_assert) ∷ [])

-- The pins among these that do not move.
abbrev pub unmoved : CommCalls → List (Pin × Bool) → List Pin
unmoved calls [] = []
unmoved calls ((pin, level) ∷ pins) =
    let rest = unmoved calls pins in
    elim (calls.escape pin) [ none ↦ rest | some error ↦ pin ∷ rest ]

drive_pins-levels :
    (calls : CommCalls) (options : SerialPortOptions)
    → ((drive_pins calls options).driven ≡ levels options)
      × ((drive_pins calls options).warned ≡ unmoved calls (levels options))
      × ((drive_pins calls options).rts_handshake ≡ (options.flow_control == 1))
      × ((drive_pins calls options).error ≡ calls.set_timeouts)
unfolding drive_pins replay
drive_pins-levels calls options = (ground arith, ground arith, ground arith, ground arith)

same_bit_refl : (b : Bool) → same_bit b b ≡ true
same_bit_refl true = refl
same_bit_refl false = refl

same_dcb_refl : (a : Dcb) → same_dcb a a ≡ true
unfolding same_dcb same_format same_control
same_dcb_refl a = ground (
  arith,
  same_bit_refl a.binary,
  same_bit_refl a.check_parity,
  same_bit_refl a.cts_flow,
  same_bit_refl a.out_x,
  same_bit_refl a.in_x,
  same_bit_refl a.abort_on_error,
)

other_dcb : (a b : Dcb) → same_dcb a b ≡ false → a ≢ b
other_dcb a b h e = ground (arith, h, ap (λ (d : Dcb). same_dcb a d) e, same_dcb_refl a)

-- Why a configuration is refused with this error before it gets to the pins: the first of the Win32 calls
-- that failed gave it, or they all succeeded, and the driver reads back another DCB than was requested.
abbrev pub HasCause : CommCalls → SerialPortOptions → (error : ℕ) → Type 0
HasCause calls options error =
    (calls.setup_comm ≡ some error)
    ⊎ (calls.setup_comm ≡ none)
      × ((calls.get_state ≡ some error)
          ⊎ (calls.get_state ≡ none)
            × ((calls.set_state ≡ some error)
                ⊎ (calls.set_state ≡ none)
                  × ((calls.get_verified ≡ some error)
                      ⊎ (calls.get_verified ≡ none)
                        × (error ≡ error_not_supported)
                        × (calls.verified ≢ requested options))))

-- A configuration either is refused before it gets to the pins, with the state of RTS/CTS as it was, and
-- then the error is that of the first Win32 call that failed, or says that the driver reads back another
-- DCB than was requested; or none of these calls failed, the DCB read back is the very one requested,
-- each pin was asked for its level once, DTR first, unless it is to be left alone or, for RTS, the driver
-- owns it, just those pins are warned of that did not move, which does not fail the configuration, the
-- choice of RTS/CTS is noted, and the result is that of setting the timeouts.
pub configure_verified :
    (calls : CommCalls) (before : Bool) (options : SerialPortOptions)
    → ((error : ℕ) × (configure calls before options ≡ not_configured before error)
        × HasCause calls options error)
      ⊎ (calls.setup_comm ≡ none)
        × (calls.get_state ≡ none)
        × (calls.set_state ≡ none)
        × (calls.get_verified ≡ none)
        × (calls.verified ≡ requested options)
        × ((configure calls before options).error ≡ calls.set_timeouts)
        × ((configure calls before options).driven ≡ levels options)
        × ((configure calls before options).warned ≡ unmoved calls (levels options))
        × ((configure calls before options).rts_handshake ≡ (options.flow_control == 1))
unfolding configure
configure_verified calls before options = elim (Option-cases calls.setup_comm) [
  | inr (error, e) ↦ inl (error, ground (arith, e), inl e)
  | inl e ↦ elim (Option-cases calls.get_state) [
    | inr (error, f) ↦ inl (error, ground (arith, e, f), inr (e, inl f))
    | inl f ↦ elim (Option-cases calls.set_state) [
      | inr (error, g) ↦ inl (error, ground (arith, e, f, g), inr (e, inr (f, inl g)))
      | inl g ↦ elim (Option-cases calls.get_verified) [
        | inr (error, h) ↦ inl (error, ground (arith, e, f, g, h), inr (e, inr (f, inr (g, inl h))))
        | inl h ↦ elim (Bool-cases (same_dcb calls.verified (requested options))) [
          | inr i ↦ inl (
            error_not_supported,
            ground (arith, e, f, g, h, i),
            inr (
              e,
              inr (f, inr (g, inr (h, refl, other_dcb calls.verified (requested options) i))),
            ),
          )
          | inl i ↦
              let (driven, warned, handshake, last) = drive_pins-levels calls options in
              let past : configure calls before options ≡ drive_pins calls options =
                ground (arith, e, f, g, h, i) in
              inr (
                e,
                f,
                g,
                h,
                same_dcb→≡ calls.verified (requested options) i,
                ap (λ (c : Configured). c.error) past ∙ last,
                ap (λ (c : Configured). c.driven) past ∙ driven,
                ap (λ (c : Configured). c.warned) past ∙ warned,
                ap (λ (c : Configured). c.rts_handshake) past ∙ handshake,
              )
        ]
      ]
    ]
  ]
]
