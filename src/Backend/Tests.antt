-- ===== src/Backend/Tests.antt =====
-- The adapter at a write of five bytes: two are taken at once, then the operation stays pending and three
-- more are reaped.
use xcom_lua.Prelude.{ℕ, ◌≡◌, refl, false, true, List, [], ◌∷◌, some}
use xcom_lua.Prelude.Tests.{◌==◌, if◌then◌else◌}
use xcom_lua.Backend.{
  Attempt, completes, reaped, timed_out, Backend, serial_write, write_loop, one_attempt,
  settle_write, capture_line_status,
}
use xcom_lua.Backend.Wire.{IsSent, serial_write-IsSent}

abbrev device : ℕ → Attempt
device i = if i == 0 then completes 2 else reaped 3

abbrev stalled : ℕ → Attempt
stalled i =
    if i == 0
    then completes 2
    else timed_out 1 (some (record { cts_hold = true; dsr_hold = false; xoff_hold = true }))

abbrev adapter : Backend
adapter = record { port_valid = true; opened = true; write_in_flight = false; wire = 9 ∷ [] }

abbrev text : List ℕ
text = 1 ∷ 2 ∷ 3 ∷ 4 ∷ 5 ∷ []

serial_write-IsSent_example :
    IsSent device text 5 true (9 ∷ []) (serial_write device (some text) 5 adapter)
serial_write-IsSent_example = serial_write-IsSent device (some text) 5 adapter refl

whole_text : (serial_write device (some text) 5 adapter).backend.wire ≡ 9 ∷ 1 ∷ 2 ∷ 3 ∷ 4 ∷ 5 ∷ []
unfolding serial_write write_loop one_attempt settle_write
whole_text = refl

-- Three bytes reach the driver, and two are reported.
unreported_byte : (serial_write stalled (some text) 5 adapter).written ≡ 2
unfolding serial_write write_loop one_attempt settle_write
unreported_byte = refl

stalled_wire : (serial_write stalled (some text) 5 adapter).backend.wire ≡ 9 ∷ 1 ∷ 2 ∷ 3 ∷ []
unfolding serial_write write_loop one_attempt settle_write
stalled_wire = refl

stalled_status : (serial_write stalled (some text) 5 adapter).line_status ≡ 5
unfolding serial_write write_loop one_attempt settle_write capture_line_status
stalled_status = refl
