-- ===== src/Abi/Open.antt =====
-- When queue_open accepts a request, and what a refusal leaves behind.
use xcom_lua.Prelude.{
  ℕ, ◌≤◌, ◌≡◌, ◌≢◌, ◌↔◌, ◌⊎◌, inl, inr, Bool, true, false, List, Option, none, some, arith, zero,
  suc, [], ◌∷◌,
}
use xcom_lua.Prelude.Tests.{if◌then◌else◌, Option-cases}
use xcom_lua.Prelude.Lists.{take, length}
use xcom_lua.Prelude.Word.{ℤ, ◌==ℤ◌}
use xcom_lua.Status.{xcom_ok, xcom_err_busy, xcom_err_full, xcom_err_io}
use xcom_lua.Port.{PortState, is_open}
use xcom_lua.Core.{CoreCtx, push_error}
use xcom_lua.Serial.{Signal, open_signal, call_submit}
use xcom_lua.Abi.{
  PortConfig, port_name_from_config, out_of_range, may_open, sync_port_name, snapshot, request_open,
  queue_open,
}

length-take : {A : Type 0} (n : ℕ) (xs : List A) → length (take n xs) ≤ n
length-take zero xs = omega arith
length-take (suc n) [] = omega arith
length-take (suc n) (x ∷ xs) = omega (arith, length-take n xs)

-- The name always fits: it was cut to 63 bytes.
name_fits :
    (size : ℕ) (config : PortConfig) (name : List ℕ)
    → port_name_from_config size config ≡ some name
    → length name ≤ 63
unfolding port_name_from_config
name_fits size config name h = ground (arith, length-take {A = ℕ} 63)

is_busy : (z : ℤ) → ((z ==ℤ xcom_err_busy) ≡ true) ↔ (z ≡ xcom_err_busy)
is_busy z = ground arith

is_open-may_open : (s : PortState) → is_open s ≡ true → may_open s ≡ false
is_open-may_open s h = ground arith

module _ {D : Type 0} (submit_control : Option (CoreCtx D → Signal → Bool → CoreCtx D × Bool)) where
  request_open_lem :
      (config : PortConfig) (name : List ℕ) (c : CoreCtx D)
      → length name ≤ 63
      → let (c', accepted) =
          call_submit submit_control
            (snapshot config name (sync_port_name name c).0)
            open_signal
            false in
        request_open submit_control config name c ≡ (
          if accepted then (c', xcom_ok) else (
            push_error xcom_err_full 0 "open event rejected"
                (record c' { last_open_result = xcom_err_io }),
            xcom_err_full,
          ))
  unfolding request_open
  request_open_lem config name c fits = ground arith

  request_open_status :
      (config : PortConfig) (name : List ℕ) (c : CoreCtx D)
      → length name ≤ 63
      → ((request_open submit_control config name c).1 ≡ xcom_ok)
        ⊎ ((request_open submit_control config name c).1 ≡ xcom_err_full)
  request_open_status config name c fits = ground (arith, request_open_lem config name c fits)

  -- A request is queued, or refused only by a full queue, exactly if it names a port, its options
  -- are in range, the port is CLOSED or in FAULT, and no earlier request is unresolved; every other
  -- refusal leaves the core as it was.
  pub queue_open_admits :
      (size : ℕ) (config : PortConfig) (c : CoreCtx D)
      → ((((queue_open submit_control size config c).1 ≡ xcom_ok)
            ⊎ ((queue_open submit_control size config c).1 ≡ xcom_err_full))
          ↔ ((port_name_from_config size config ≢ none)
              × (out_of_range config ≡ false)
              × (may_open c.port_state ≡ true)
              × (c.last_open_result ≢ xcom_err_busy)))
        × (((queue_open submit_control size config c).1 ≡ xcom_ok)
            ⊎ ((queue_open submit_control size config c).1 ≡ xcom_err_full)
            ⊎ ((queue_open submit_control size config c).0 ≡ c))
  unfolding queue_open
  queue_open_admits size config c = elim (Option-cases (port_name_from_config size config)) [
    | inl e ↦ ground (arith, e)
    | inr (name, e) ↦ ground (
      arith,
      e,
      is_busy c.last_open_result,
      is_open-may_open c.port_state,
      request_open_status config name c (name_fits size config name e),
    )
  ]

  queue_open_pending :
      (size : ℕ) (other : PortConfig) (c : CoreCtx D)
      → port_name_from_config size other ≢ none
      → out_of_range other ≡ false
      → is_open c.port_state ≡ false
      → c.last_open_result ≡ xcom_err_busy
      → queue_open submit_control size other c ≡ (c, xcom_err_busy)
  unfolding queue_open
  queue_open_pending size other c named ranged not_open pending =
      ground (arith, is_busy c.last_open_result)

  module _
      (posts_result : (c : CoreCtx D)
        → (call_submit submit_control c open_signal false).0.last_open_result ≡ c.last_open_result)
      (posts_state : (c : CoreCtx D)
        → (call_submit submit_control c open_signal false).0.port_state ≡ c.port_state) where
    request_open_queued :
        (config : PortConfig) (name : List ℕ) (c : CoreCtx D)
        → length name ≤ 63
        → (request_open submit_control config name c).1 ≡ xcom_ok
        → ((request_open submit_control config name c).0.last_open_result ≡ xcom_err_busy)
          × ((request_open submit_control config name c).0.port_state ≡ c.port_state)
    unfolding snapshot
    request_open_queued config name c fits h =
        let c1 = snapshot config name (sync_port_name name c).0 in
        ground (arith, request_open_lem config name c fits, posts_result c1, posts_state c1)

    queue_open_queued :
        (size : ℕ) (config : PortConfig) (c : CoreCtx D)
        → (queue_open submit_control size config c).1 ≡ xcom_ok
        → ((queue_open submit_control size config c).0.last_open_result ≡ xcom_err_busy)
          × (is_open (queue_open submit_control size config c).0.port_state ≡ false)
    unfolding queue_open
    queue_open_queued size config c h = elim (Option-cases (port_name_from_config size config)) [
      | inl e ↦ ground (arith, e)
      | inr (name, e) ↦
          ground (arith, e, request_open_queued config name c (name_fits size config name e))
    ]

    -- Once a request is queued, any other that is itself in order is refused as BUSY and changes
    -- nothing, until the owner resolves the first: there is no double open. This supposes that
    -- submit_control only posts the event.
    pub queue_open_twice :
        (size : ℕ) (config other : PortConfig) (c : CoreCtx D)
        → (queue_open submit_control size config c).1 ≡ xcom_ok
        → port_name_from_config size other ≢ none
        → out_of_range other ≡ false
        → queue_open submit_control size other (queue_open submit_control size config c).0
          ≡ ((queue_open submit_control size config c).0, xcom_err_busy)
    queue_open_twice size config other c first named ranged =
        let (pending, not_open) = queue_open_queued size config c first in
        queue_open_pending size other (queue_open submit_control size config c).0 named ranged
          not_open pending
