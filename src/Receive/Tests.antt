-- ===== src/Receive/Tests.antt =====
-- The receive path at concrete inputs.
use xcom_lua.Prelude.{ℕ, ◌+◌, ◌≡◌, refl, inr, Bool, true, false, List, [], ◌∷◌, arith}
use Prim.{tt}
use xcom_lua.Core.{CoreCtx}
use xcom_lua.Core.Sample.{core_with}
use xcom_lua.Lane.{RxBlockRef}
use xcom_lua.Lane.Sample.{pool_ops, ring_ops}
use xcom_lua.Log.Sample.{bounded, bounded_laws, bounded_capacity}
use xcom_lua.Display.{DisplayDesc, DisplayLane}
use xcom_lua.Receive.{RxCtx, rx_format_block, rx_kick_action}
use xcom_lua.Receive.Whole.{AllOther, IsSpare, Formatted, rx_format_block_whole}
use xcom_lua.Receive.Paused.{rx_kick_action_paused}

abbrev ready : List DisplayDesc
ready = record { buf = 2; rx_meta = 5; len = 2; ingress_ms = 72; gen = 0 } ∷ []

-- Buffer 0 is held, 2 is ready, and 1 is free.
abbrev lane : DisplayLane (List DisplayDesc)
lane = record {
  buffers = record { storage = 0 ∷ (4294967295 ∷ (0 ∷ [])); head = 1 };
  bytes = λ id. (id + 65) ∷ (98 ∷ (99 ∷ []));
  ready_ring = ready;
  consumer_desc = record { buf = 0; rx_meta = 5; len = 3; ingress_ms = 70; gen = 0 };
  consumer_offset = 1;
  consumer_active = true;
}

lane-IsSpare : IsSpare (bounded_laws {X = DisplayDesc} 32) lane
unfolding AllOther
lane-IsSpare = record { unready = (ground arith, tt); unheld = inr (ground arith) }

abbrev block : List ℕ
block = 72 ∷ (13 ∷ (10 ∷ (105 ∷ [])))

rx_format_block_whole_example :
    Formatted
      (bounded_laws {X = DisplayDesc} 32)
      block
      (core_with lane)
      (rx_format_block (bounded DisplayDesc 32) block 4 71 true (core_with lane))
rx_format_block_whole_example =
    rx_format_block_whole (bounded_laws 32) (bounded_capacity 32) block 4 71 true (core_with lane)
      (omega arith) lane-IsSpare

abbrev paused : RxCtx (List ℕ) (List RxBlockRef) (List DisplayDesc)
paused = record {
  core = record (core_with lane) { pause_display = true };
  rx = record { pool = 7 ∷ []; display_ready = []; raw_ready = [] };
  deferred = record { event = 7; len = 4; gen = 0; ingress_ms = 71 };
  has_deferred = true;
}

abbrev submit :
    CoreCtx (DisplayLane (List DisplayDesc)) → CoreCtx (DisplayLane (List DisplayDesc)) × Bool
submit c = (c, true)

abbrev is_empty : List RxBlockRef → Bool
is_empty [] = true
is_empty (x ∷ xs) = false

abbrev kicked : RxCtx (List ℕ) (List RxBlockRef) (List DisplayDesc)
kicked =
    rx_kick_action pool_ops (λ event pool. block) (bounded DisplayDesc 32) ring_ops is_empty submit
      90 paused

rx_kick_action_paused_example :
    (kicked.has_deferred ≡ true)
    × (kicked.deferred ≡ paused.deferred)
    × (kicked.rx ≡ paused.rx)
    × (kicked.core.display ≡ lane)
    × (kicked.core.text ≡ paused.core.text)
    × (kicked.core.display_paused_bytes ≡ 4)
rx_kick_action_paused_example =
    rx_kick_action_paused pool_ops (λ event pool. block) (bounded DisplayDesc 32) ring_ops is_empty
      submit 90 paused refl refl
