-- ===== src/Lane/Deferred.antt =====
-- The display descriptor that ReceiveAo holds back, and its release at a session boundary:
-- count_deferred_display_loss and release_deferred_rx of xcom_core/src/runtime/xcom_core.hpp.
use xcom_lua.Prelude.{ℕ, ◌+◌, ◌/◌, ◌%◌, ◌≤◌, ◌≡◌, Bool, true, false, not, arith}
use xcom_lua.Prelude.Tests.{◌==◌, if◌then◌else◌}
use xcom_lua.Prelude.Word.{u32_mod}
use xcom_lua.Core.{CoreCtx, count_rejected_rx}
use xcom_lua.Lane.{RxBlockRef, file_backed_len, display_unlogged_bit, rx_block_bytes}
use xcom_lua.Lane.References.{display_copy}

-- RxDesc{}
abbrev pub no_desc : RxBlockRef
no_desc = record { event = 0; len = 0; gen = 0; ingress_ms = 0 }

module _ {D : Type 0} where
  -- The bytes charged, and the core. The mask test of the uint16_t `len` is on its bit 15.
  unfoldable pub count_deferred_display_loss : RxBlockRef → CoreCtx D → CoreCtx D × ℕ
  unfolding count_rejected_rx
  count_deferred_display_loss deferred c =
      let bytes = file_backed_len deferred.len in
      if deferred.len / display_unlogged_bit % 2 == 0
      then (c, 0)
      else (count_rejected_rx bytes c, bytes)

  -- The slot is `deferred` with `has_deferred`; `release` is RxBlockLane::release on the blocks.
  module _ {B : Type 0} (release : ℕ → B → B) where
    unfoldable pub release_deferred_rx :
        RxBlockRef
        → (has_deferred : Bool) → CoreCtx D
        → B
        → (RxBlockRef × Bool × CoreCtx D × B) × Bool
    unfolding count_deferred_display_loss
    release_deferred_rx deferred has_deferred c blocks =
        if not has_deferred then ((deferred, has_deferred, c, blocks), false) else (
          (
            no_desc,
            false,
            (count_deferred_display_loss deferred c).0,
            release deferred.event blocks,
          ),
          true,
        )

    -- Releasing the display's copy of a segment charges its bytes to the ledger exactly if no file
    -- lane holds them too, and releases its block; a second release right after it charges and
    -- releases nothing. This is for a segment that fits a block.
    pub release_deferred_once :
        (file_lane : Bool) (ref : RxBlockRef) (c : CoreCtx D) (blocks : B)
        → ref.len ≤ rx_block_bytes
        → let ((slot, held, c', blocks'), released) =
            release_deferred_rx (display_copy file_lane ref) true c blocks in
          (c'.save_rejected_bytes % u32_mod
            ≡ (c.save_rejected_bytes + (if file_lane then 0 else ref.len)) % u32_mod)
          × (blocks' ≡ release ref.event blocks)
          × (released ≡ true)
          × (release_deferred_rx slot held c' blocks' ≡ ((slot, held, c', blocks'), false))
    unfolding release_deferred_rx count_deferred_display_loss count_rejected_rx
    release_deferred_once file_lane ref c blocks small = ground arith
