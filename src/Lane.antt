-- ===== src/Lane.antt =====
-- RxBlockLane of xcom_core/src/foundation/rx_block_lane.hpp. The event pool and the rings are those
-- of the coact framework, which is not part of the repository: they are parameters.
pub mod Reserve
pub mod References
pub mod Drain
pub mod Deferred
pub mod Sample
mod Tests
use xcom_lua.Prelude.{
  ℕ, zero, suc, ◌+◌, ◌%◌, Bool, true, false, not, ◌&&◌, ◌||◌, List, Option, none, some,
}
use xcom_lua.Prelude.Tests.{ltb, if◌then◌else◌}
use xcom_lua.Prelude.Word.{add32}
use xcom_lua.Ring.{RingOps}

-- kRxBlockCount, kRxBlockBytes and kRxRawReserveBlocks of xcom_config.hpp.
abbrev pub rx_block_count : ℕ
rx_block_count = 128

abbrev pub rx_block_bytes : ℕ
rx_block_bytes = 4096

abbrev pub rx_raw_reserve_blocks : ℕ
rx_raw_reserve_blocks = 96

-- A block is named by its event.
pub record RxBlockRef : Type 0 where
  pub event : ℕ
  pub len : ℕ
  pub gen : ℕ
  pub ingress_ms : ℕ

-- The operations of coact::EventPool on a pool state `P`, with event_ref_inc, event_gc and the
-- copy into a block's payload.
pub record PoolOps (P : Type 0) : Type 0 where
  pub alloc : P → Option (ℕ × P)
  pub alloc_with_margin : ℕ → P → Option (ℕ × P)
  pub used : P → ℕ
  pub ref_inc : ℕ → P → P
  pub gc : ℕ → P → P
  pub write_payload : ℕ → List ℕ → P → P

pub record Lane (P R : Type 0) : Type 0 where
  pub pool : P
  pub display_ready : R
  pub raw_ready : R

-- kFileBackedLenMask keeps the low 15 bits, and kDisplayUnloggedBit is bit 15.
abbrev pub file_backed_len : ℕ → ℕ
file_backed_len len = len % 32768

abbrev pub display_unlogged_bit : ℕ
display_unlogged_bit = 32768

module _ {P : Type 0} (ops : PoolOps P) where
  -- The event, and whether the display lane may hold a reference too.
  unfoldable pub try_alloc : (file_lane : Bool) → P → Option (ℕ × Bool × P)
  try_alloc file_lane pool =
      let margin = if file_lane then rx_raw_reserve_blocks else 0 in
      elim (ops.alloc_with_margin margin pool) [
        | some (event, pool') ↦ some (event, true, pool')
        | none ↦ if not file_lane then none else elim (ops.alloc pool) [
          | some (event, pool') ↦ some (event, false, pool')
          | none ↦ none
        ]
      ]

  module _ {R : Type 0} (ring : RingOps RxBlockRef R) where
    -- `none` is a failed COACT_ASSERT. The result says whether the display took its reference.
    unfoldable pub publish :
        RxBlockRef → (file_lane display_ok : Bool) → Lane P R → Option (Lane P R × Bool)
    publish ref file_lane display_ok lane =
        let pool = if file_lane && display_ok then ops.ref_inc ref.event lane.pool else lane.pool in
        let (raw, raw_pushed) =
          if file_lane then ring.try_push ref lane.raw_ready else (lane.raw_ready, true) in
        let tagged : RxBlockRef = record ref {
          len = file_backed_len ref.len + (if file_lane then 0 else display_unlogged_bit);
        } in
        let (display, display_pushed) =
          if display_ok
          then ring.try_push tagged lane.display_ready
          else (lane.display_ready, true) in
        if raw_pushed && display_pushed
        then some (record { pool = pool; display_ready = display; raw_ready = raw }, display_ok)
        else none

    -- The loops of drain_display and drain_raw, on fuel; `none` means that the fuel ran out.
    unfoldable pub drain_ring : (length_of : RxBlockRef → ℕ) → ℕ → ℕ → R → P → Option (ℕ × R × P)
    drain_ring length_of zero bytes r pool = none
    drain_ring length_of (suc fuel) bytes r pool = elim (ring.try_pop r) [
      | none ↦ some (bytes, r, pool)
      | some (ref, r') ↦
          drain_ring length_of fuel (add32 bytes (length_of ref)) r' (ops.gc ref.event pool)
    ]

    unfoldable pub drain_display : ℕ → Lane P R → Option (ℕ × R × P)
    drain_display fuel lane =
        drain_ring (λ ref. file_backed_len ref.len) fuel 0 lane.display_ready lane.pool

    unfoldable pub drain_raw : ℕ → Lane P R → Option (ℕ × R × P)
    drain_raw fuel lane = drain_ring (λ ref. ref.len) fuel 0 lane.raw_ready lane.pool
