-- ===== src/Abi/Tests.antt =====
-- queue_open and xcom_open at concrete inputs.
use Prim.{Unit, tt}
use xcom_lua.Prelude.{ℕ, ◌≡◌, ◌≢◌, refl, ◌⊎◌, Bool, true, false, [], ◌∷◌, Option, none, some, arith}
use xcom_lua.Status.{xcom_ok, xcom_err_busy}
use xcom_lua.Prelude.Tests.{◌==◌, if◌then◌else◌}
use xcom_lua.Prelude.Word.{◌==ℤ◌}
use xcom_lua.Port.{opened}
use xcom_lua.Core.{CoreCtx}
use xcom_lua.Core.Sample.{core_with}
use xcom_lua.Serial.{Signal}
use xcom_lua.Abi.{
  PortConfig, port_name_from_config, out_of_range, is_virtual_port, snapshot, request_open,
  queue_open,
}
use xcom_lua.Abi.Wait.{xcom_open, IsResolved, xcom_open-IsResolved}
use xcom_lua.Abi.Open.{queue_open_twice}

abbrev com3 : PortConfig
com3 = record {
  struct_size = 32;
  port = some (67 ∷ (79 ∷ (77 ∷ (51 ∷ []))));
  baud_rate = 115200;
  data_bits = 8;
  stop_bits = 0;
  parity = 0;
  flow_control = 0;
  dtr_enable = 2;
  rts_enable = 2;
}

abbrev submit_control : Option (CoreCtx Unit → Signal → Bool → CoreCtx Unit × Bool)
submit_control = some (λ c signal critical. (c, true))

abbrev session : CoreCtx Unit
session = core_with tt

com3_accepted : (queue_open submit_control 32 com3 session).1 ≡ xcom_ok
unfolding port_name_from_config out_of_range is_virtual_port queue_open request_open snapshot
com3_accepted = refl

com3_ranged : out_of_range com3 ≡ false
unfolding out_of_range
com3_ranged = refl

com3_named : port_name_from_config 32 com3 ≢ none
unfolding port_name_from_config
com3_named e = ground arith

queue_open_twice_example :
    queue_open submit_control 32 com3 (queue_open submit_control 32 com3 session).0
    ≡ ((queue_open submit_control 32 com3 session).0, xcom_err_busy)
queue_open_twice_example =
    queue_open_twice submit_control (λ c. refl) (λ c. refl) 32 com3 com3 session com3_accepted
      com3_named com3_ranged

-- The owner opens the port in the third round.
abbrev meanwhile : ℕ → CoreCtx Unit → CoreCtx Unit
meanwhile round c =
    if round == 2 then record c { last_open_result = xcom_ok; port_state = opened } else c

xcom_open-IsResolved_example :
    let (c', status) = queue_open submit_control 32 com3 session in
    (((status ==ℤ xcom_ok) ≡ false)
      × (xcom_open meanwhile submit_control 32 com3 session ≡ (c', status)))
    ⊎ ((status ==ℤ xcom_ok) ≡ true)
      × IsResolved meanwhile 200 0 c' (xcom_open meanwhile submit_control 32 com3 session)
xcom_open-IsResolved_example = xcom_open-IsResolved meanwhile submit_control 32 com3 session
