-- ===== src/Receive.antt =====
-- ReceiveAo of xcom_core/src/ao/xcom_ao.cpp: rx_format_block and rx_kick_action, on the display lane
-- and the receive lane. `payload` is RxBlockLane::payload, the bytes of a block.
pub mod Whole
pub mod Paused
mod Tests
use xcom_lua.Prelude.{
  ℕ, zero, suc, ◌+◌, ◌-◌, ◌/◌, ◌%◌, Bool, true, false, not, ◌&&◌, ◌||◌, List, [], ◌∷◌, Option, none,
  some,
}
use xcom_lua.Prelude.Tests.{ltb, leb, ◌==◌, if◌then◌else◌}
use xcom_lua.Prelude.Lists.{length, take, get_or}
use xcom_lua.Prelude.Word.{add32}
use xcom_lua.Ring.{RingOps}
use xcom_lua.Format.{TextState, format_text, format_hex}
use xcom_lua.Core.{CoreCtx, Metrics, beat_dispatcher, try_arm, disarm}
use xcom_lua.Lane.{RxBlockRef, PoolOps, Lane, rx_block_bytes, file_backed_len, display_unlogged_bit}
use xcom_lua.Ingress.{submit_rx_kick}
use xcom_lua.Display.{DisplayDesc, DisplayLane, try_acquire, release_buf, push_ready}

-- kDisplayBatchBytes
abbrev pub display_batch_bytes : ℕ
display_batch_bytes = 16384

-- The bytes of the block that a descriptor shows.
abbrev pub payload_len : RxBlockRef → ℕ
payload_len d =
    if ltb rx_block_bytes (file_backed_len d.len) then rx_block_bytes else file_backed_len d.len

-- RxCtx, with the receive lane of its core.
pub record RxCtx (P R Q : Type 0) : Type 0 where
  pub core : CoreCtx (DisplayLane Q)
  pub rx : Lane P R
  pub deferred : RxBlockRef
  pub has_deferred : Bool

module _ {Q : Type 0} where
  -- What the formatter writes into the batch, and the text state after it. The hex view only notes
  -- whether the last byte that it wrote ends a line.
  unfoldable pub formatted : List ℕ → CoreCtx (DisplayLane Q) → TextState × List ℕ
  formatted bytes c =
      let out = format_hex display_batch_bytes bytes in
      let last = get_or out (length out - 1) 0 in
      let marked : TextState = record (c.text) { at_line_start = last == 10 || last == 13 } in
      if c.hex_view
      then ((if ltb 0 (length out) then marked else c.text), out)
      else format_text display_batch_bytes bytes c.text

  -- The batch's buffer after the formatter wrote into it.
  abbrev pub write_batch : (id : ℕ) → List ℕ → DisplayLane Q → DisplayLane Q
  write_batch id out lane = record lane { bytes = λ i. if i == id then out else lane.bytes i }

module _ {Q : Type 0} (ring : RingOps DisplayDesc Q) where
  unfoldable pub rx_format_block :
      (bytes : List ℕ) (len ingress_ms : ℕ) (unlogged : Bool)
      → CoreCtx (DisplayLane Q)
      → CoreCtx (DisplayLane Q) × Bool
  unfolding formatted push_ready
  rx_format_block bytes len ingress_ms unlogged c =
      let paused : CoreCtx (DisplayLane Q) = record c {
        metrics = record (c.metrics) { display_paused_bytes = add32 c.display_paused_bytes len };
      } in
      if c.pause_display then (paused, false) else elim (try_acquire c.display) [
        | none ↦ (c, false)
        | some (bid, acquired) ↦
            let (text, out) = formatted bytes c in
            let lane = write_batch bid out acquired in
            let (queued, pushed) =
              push_ready ring bid (length out) ingress_ms c.generation len unlogged lane in
            let c' : CoreCtx (DisplayLane Q) = record c { text = text } in
            if length out == 0
            then (record c' { display = release_buf bid lane }, true)
            else if pushed
            then (
              record c' {
                display = queued;
                metrics = record (c'.metrics) { display_pending = add32 c'.display_pending 1 };
              },
              true,
            )
            else (record c' { display = release_buf bid queued }, false)
      ]

module _ {P R Q : Type 0} (ops : PoolOps P) (payload : ℕ → P → List ℕ)
    (ring : RingOps DisplayDesc Q) where
  -- A turn with the block `d`: whether it was formatted. A block that was not is kept in `deferred`.
  unfoldable pub rx_round : RxBlockRef → RxCtx P R Q → RxCtx P R Q × Bool
  unfolding rx_format_block
  rx_round d x =
      let unlogged = d.len / display_unlogged_bit % 2 == 1 in
      let len = payload_len d in
      let (core, ok) =
        rx_format_block ring (take len (payload d.event x.rx.pool)) len d.ingress_ms unlogged
          x.core in
      if ok
      then (
        record x {
          core = record core { rx_backpressured = false };
          rx = record (x.rx) { pool = ops.gc d.event x.rx.pool };
        },
        true,
      )
      else (record x { core = core; deferred = d; has_deferred = true }, false)

  module _ (rx_ring : RingOps RxBlockRef R) where
    -- The loop: `left` turns are left.
    unfoldable pub rx_rounds : (left : ℕ) → RxCtx P R Q → RxCtx P R Q
    unfolding rx_round
    rx_rounds zero x = x
    rx_rounds (suc left) x =
        let (x', ok) = rx_round x.deferred (record x { has_deferred = false }) in
        let again = rx_rounds left x' in
        if x.has_deferred
        then if ok then again else x'
        else elim (rx_ring.try_pop x.rx.display_ready) as (λ _. RxCtx P R Q) [
          | none ↦ x
          | some (d, r) ↦
              let (y, fine) = rx_round d (record x { rx = record (x.rx) { display_ready = r } }) in
              let rest = rx_rounds left y in if fine then rest else y
        ]

    module _ (empty : R → Bool) where
      -- `submit` is the sink of submit_rx_kick, and `now` the clock.
      unfoldable pub rx_kick_action :
          (submit : CoreCtx (DisplayLane Q) → CoreCtx (DisplayLane Q) × Bool) (now : ℕ)
          → RxCtx P R Q
          → RxCtx P R Q
      unfolding rx_rounds submit_rx_kick
      rx_kick_action submit now x =
          let y = rx_rounds 4 (record x { core = beat_dispatcher now x.core }) in
          let idle = disarm y.core in
          let (armed, mine) = try_arm idle in
          if not y.has_deferred && not (empty y.rx.display_ready)
          then if mine
            then record y { core = submit_rx_kick submit armed }
            else record y { core = armed }
          else record y { core = idle }
