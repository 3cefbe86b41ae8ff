-- ===== src/Abi.antt =====
-- queue_open of xcom_core/src/abi/xcom_abi.cpp: the shared first half of xcom_open and its
-- asynchronous twin. A C string is the list of its bytes, without the terminator.
pub mod Open
pub mod Wait
mod Tests
use xcom_lua.Prelude.{ℕ, Bool, true, false, not, ◌&&◌, ◌||◌, List, [], ◌∷◌, Option, none, some}
use xcom_lua.Prelude.Tests.{ltb, leb, ◌==◌, if◌then◌else◌}
use xcom_lua.Prelude.Lists.{take, length}
use xcom_lua.Prelude.Word.{◌==ℤ◌}
use xcom_lua.Status.{
  XcomStatus, xcom_ok, xcom_err_param, xcom_err_already_open, xcom_err_busy, xcom_err_full,
  xcom_err_io,
}
use xcom_lua.Port.{PortState, closed, faulted, is_open}
use xcom_lua.Core.{CoreCtx, PortOptions, push_error}
use xcom_lua.Serial.{Signal, open_signal, call_submit}

-- XcomPortConfig; a null `port` is `none`.
pub record PortConfig : Type 0 where
  pub struct_size : ℕ
  pub port : Option (List ℕ)
  pub baud_rate : ℕ
  pub data_bits : ℕ
  pub stop_bits : ℕ
  pub parity : ℕ
  pub flow_control : ℕ
  pub dtr_enable : ℕ
  pub rts_enable : ℕ

abbrev same_bytes : List ℕ → List ℕ → Bool
same_bytes [] [] = true
same_bytes [] (y ∷ ys) = false
same_bytes (x ∷ xs) [] = false
same_bytes (x ∷ xs) (y ∷ ys) = (x == y) && same_bytes xs ys

-- "VIRTUAL", or a name that begins with "TEST".
unfoldable pub is_virtual_port : List ℕ → Bool
is_virtual_port name =
    same_bytes name (86 ∷ (73 ∷ (82 ∷ (84 ∷ (85 ∷ (65 ∷ (76 ∷ [])))))))
    || same_bytes (take 4 name) (84 ∷ (69 ∷ (83 ∷ (84 ∷ []))))

-- copy_text into an array of 64 keeps 63 bytes. `size` is sizeof(XcomPortConfig).
unfoldable pub port_name_from_config : (size : ℕ) → PortConfig → Option (List ℕ)
port_name_from_config size config =
    if ltb config.struct_size size
    then none
    else elim config.port [ none ↦ none | some name ↦ some (take 63 name) ]

-- The range checks that return XCOM_ERR_PARAM.
unfoldable pub out_of_range : PortConfig → Bool
out_of_range config =
    (config.baud_rate == 0)
    || (ltb config.data_bits 5
        || (ltb 8 config.data_bits
            || (ltb 2 config.stop_bits
                || (ltb 4 config.parity
                    || (ltb 2 config.flow_control
                        || (ltb 2 config.dtr_enable || ltb 2 config.rts_enable))))))

-- `current_state != XCOM_PORT_CLOSED && current_state != XCOM_PORT_FAULT`, negated.
abbrev pub may_open : PortState → Bool
may_open closed = true
may_open faulted = true
may_open _ = false

module _ {D : Type 0} where
  -- CoreCtx::sync_port_name on the 64 bytes of port_name.
  abbrev pub sync_port_name : List ℕ → CoreCtx D → CoreCtx D × Bool
  sync_port_name name c =
      if leb 64 (length name)
      then (record c { cfg = record (c.cfg) { name = [] } }, false)
      else (record c { cfg = record (c.cfg) { name = name } }, true)

  -- The snapshot for the owner, and the sentinel.
  unfoldable pub snapshot : PortConfig → List ℕ → CoreCtx D → CoreCtx D
  snapshot config name c = push_error xcom_ok 0 "open requested" (record c {
    virtual_port = is_virtual_port name;
    cfg = record {
      name = c.cfg.name;
      baud = config.baud_rate;
      data_bits = config.data_bits;
      stop_bits = config.stop_bits;
      parity = config.parity;
      flow_control = config.flow_control;
      dtr_enable = config.dtr_enable;
      rts_enable = config.rts_enable;
    };
    last_open_result = xcom_err_busy;
    cancel_open = false;
  })

  module _ (submit_control : Option (CoreCtx D → Signal → Bool → CoreCtx D × Bool)) where
    -- The part after the preconditions.
    unfoldable pub request_open : PortConfig → List ℕ → CoreCtx D → CoreCtx D × XcomStatus
    unfolding snapshot
    request_open config name c =
        let (c1, fits) = sync_port_name name c in
        let (c2, accepted) =
          call_submit submit_control (snapshot config name c1) open_signal false in
        if not fits
        then (
          push_error xcom_err_param 0 "serial port name exceeds fixed capacity" c1,
          xcom_err_param,
        )
        else if not accepted
        then (
          push_error xcom_err_full 0 "open event rejected"
              (record c2 { last_open_result = xcom_err_io }),
          xcom_err_full,
        )
        else (c2, xcom_ok)

    unfoldable pub queue_open : (size : ℕ) → PortConfig → CoreCtx D → CoreCtx D × XcomStatus
    unfolding request_open
    queue_open size config c = elim (port_name_from_config size config) [
      | none ↦ (c, xcom_err_param)
      | some name ↦
          if out_of_range config
          then (c, xcom_err_param)
          else if is_open c.port_state
          then (c, xcom_err_already_open)
          else if c.last_open_result ==ℤ xcom_err_busy
          then (c, xcom_err_busy)
          else if not (may_open c.port_state)
          then (c, xcom_err_busy)
          else request_open config name c
    ]
