-- ===== src/Receive/Paused.antt =====
-- A kick while the display is paused.
use xcom_lua.Prelude.{ℕ, suc, ◌≡◌, refl, Bool, true, false, List}
use xcom_lua.Prelude.Word.{add32}
use xcom_lua.Ring.{RingOps}
use xcom_lua.Core.{CoreCtx, beat_dispatcher}
use xcom_lua.Lane.{RxBlockRef, PoolOps}
use xcom_lua.Display.{DisplayDesc, DisplayLane}
use xcom_lua.Receive.{RxCtx, payload_len, rx_format_block, rx_round, rx_rounds, rx_kick_action}

module _ {P R Q : Type 0} (ops : PoolOps P) (payload : ℕ → P → List ℕ)
    (ring : RingOps DisplayDesc Q) where
  -- The state after a block was refused because of the pause.
  abbrev refused : RxBlockRef → RxCtx P R Q → RxCtx P R Q
  refused d x = record x {
    core = record (x.core) {
      metrics = record (x.core.metrics) {
        display_paused_bytes = add32 x.core.display_paused_bytes (payload_len d);
      };
    };
    deferred = d;
    has_deferred = true;
  }

  round_refused :
      (d : RxBlockRef) (x : RxCtx P R Q)
      → x.core.pause_display ≡ true
      → rx_round ops payload ring d x ≡ (refused d x, false)
  unfolding rx_round rx_format_block
  round_refused d x paused = rw (paused, rx_round, rx_format_block) refl

  module _ (rx_ring : RingOps RxBlockRef R) where
    rounds_refused :
        (left : ℕ) (x : RxCtx P R Q)
        → x.core.pause_display ≡ true
        → x.has_deferred ≡ true
        → rx_rounds ops payload ring rx_ring (suc left) x ≡ refused x.deferred x
    unfolding rx_rounds
    rounds_refused left x paused held =
        rw (held, round_refused x.deferred (record x { has_deferred = false }) paused) refl

    module _ (empty : R → Bool) where
      -- A kick while the display is paused and a block is deferred keeps the block, the receive lane, the
      -- display lane and the text state as they are, and adds the length of the block to
      -- display_paused_bytes, whether or not an earlier kick has added it.
      pub rx_kick_action_paused :
          (submit : CoreCtx (DisplayLane Q) → CoreCtx (DisplayLane Q) × Bool) (now : ℕ)
          (x : RxCtx P R Q)
          → x.core.pause_display ≡ true
          → x.has_deferred ≡ true
          → let y = rx_kick_action ops payload ring rx_ring empty submit now x in
            (y.has_deferred ≡ true)
            × (y.deferred ≡ x.deferred)
            × (y.rx ≡ x.rx)
            × (y.core.display ≡ x.core.display)
            × (y.core.text ≡ x.core.text)
            × (y.core.display_paused_bytes
                ≡ add32 x.core.display_paused_bytes (payload_len x.deferred))
      unfolding rx_kick_action
      rx_kick_action_paused submit now x paused held =
          rw (rounds_refused 3 (record x { core = beat_dispatcher now x.core }) paused held)
            (refl, refl, refl, refl, refl, refl)
