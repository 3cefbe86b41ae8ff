-- ===== src/Port.antt =====
-- The port states of xcom_core/include/xcom/xcom.h (XCOM_PORT_*), which SerialState of
-- xcom_core/src/ao/xcom_ao.hpp mirrors value by value.
use xcom_lua.Prelude.{Bool, true, false}

pub data PortState : Type 0 where
  closed opening opened closing faulted : PortState

-- `state == XCOM_PORT_OPEN`
abbrev pub is_open : PortState → Bool
is_open opened = true
is_open _ = false

-- `state == XCOM_PORT_OPENING || state == XCOM_PORT_CLOSING || state == XCOM_PORT_FAULT`
abbrev pub is_transitioning : PortState → Bool
is_transitioning opening = true
is_transitioning closing = true
is_transitioning faulted = true
is_transitioning _ = false
