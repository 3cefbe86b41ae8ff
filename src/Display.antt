-- ===== src/Display.antt =====
-- DisplayLane of xcom_core/src/runtime/xcom_core.hpp: the batches of formatted text between the
-- Dispatcher and the caller that drains them. `bytes` is what the buffers hold, by their id.
pub mod Steps
pub mod Order
pub mod Discard
mod Tests
use xcom_lua.Prelude.{
  ℕ, zero, suc, ◌+◌, ◌-◌, ◌%◌, Bool, true, false, not, ◌&&◌, ◌||◌, List, [], Option, none, some,
}
use xcom_lua.Prelude.Tests.{ltb, leb, ◌==◌, if◌then◌else◌}
use xcom_lua.Prelude.Lists.{take, drop}
use xcom_lua.Prelude.Word.{add32, sub32}
use xcom_lua.Ring.{RingOps}
use xcom_lua.Pool.{FixedPool, allocate, release}

-- kRxUnloggedFlag, which is also the size of the part below it.
abbrev pub rx_unlogged_flag : ℕ
rx_unlogged_flag = 32768

pub record DisplayDesc : Type 0 where
  pub buf : ℕ
  pub rx_meta : ℕ
  pub len : ℕ
  pub ingress_ms : ℕ
  pub gen : ℕ

-- `Q` is the state of the ready ring.
pub record DisplayLane (Q : Type 0) : Type 0 where
  pub buffers : FixedPool
  pub bytes : ℕ → List ℕ
  pub ready_ring : Q
  pub consumer_desc : DisplayDesc
  pub consumer_offset : ℕ
  pub consumer_active : Bool

-- `rx_meta & kRxUnloggedFlag` and `rx_meta & kRxLenMask`, of a uint16_t.
abbrev pub is_unlogged : ℕ → Bool
is_unlogged rx_meta = leb rx_unlogged_flag rx_meta

abbrev pub source_len : ℕ → ℕ
source_len rx_meta = rx_meta % rx_unlogged_flag

module _ {Q : Type 0} where
  unfoldable pub try_acquire : DisplayLane Q → Option (ℕ × DisplayLane Q)
  try_acquire lane = elim (allocate [] lane.buffers) [
    | none ↦ none
    | some (block, pool) ↦ some (block % 65536, record lane { buffers = pool })
  ]

  abbrev pub release_buf : ℕ → DisplayLane Q → DisplayLane Q
  release_buf id lane = record lane { buffers = release [] id lane.buffers }

  -- A batch of another session that the consumer holds is given back.
  unfoldable pub drop_stale : (current_generation : ℕ) → DisplayLane Q → DisplayLane Q
  drop_stale current_generation lane =
      if lane.consumer_active && not (lane.consumer_desc.gen == current_generation)
      then record (release_buf lane.consumer_desc.buf lane) { consumer_active = false }
      else lane

-- What drain_into returns and stores; `ingress_ms` is `none` if it is left untouched.
pub record DrainResult (Q : Type 0) : Type 0 where
  pub ok : Bool
  pub output : List ℕ
  pub written : ℕ
  pub completed : Bool
  pub ingress_ms : Option ℕ
  pub lane : DisplayLane Q

module _ {Q : Type 0} where
  abbrev pub nothing_drained : DisplayLane Q → DrainResult Q
  nothing_drained lane = record {
    ok = false;
    output = [];
    written = 0;
    completed = false;
    ingress_ms = none;
    lane = lane;
  }

  -- The copy at the end of drain_into.
  unfoldable pub copy_out : (capacity : ℕ) → DisplayLane Q → DrainResult Q
  copy_out capacity lane =
      let desc = lane.consumer_desc in
      let remaining = sub32 desc.len lane.consumer_offset in
      let count = if ltb remaining capacity then remaining else capacity in
      let offset = add32 lane.consumer_offset count in
      let moved : DisplayLane Q = record lane { consumer_offset = offset } in
      let completed = offset == desc.len in
      record {
        ok = true;
        output = take count (drop lane.consumer_offset (lane.bytes desc.buf));
        written = count;
        completed = completed;
        ingress_ms = some desc.ingress_ms;
        lane =
            if completed
            then record (release_buf desc.buf moved) { consumer_active = false }
            else moved;
      }

module _ {Q : Type 0} (ring : RingOps DisplayDesc Q) where
  unfoldable pub push_ready :
      (id len ingress_ms generation source_len : ℕ) (unlogged : Bool)
      → DisplayLane Q
      → DisplayLane Q × Bool
  push_ready id len ingress_ms generation source_len unlogged lane =
      let desc : DisplayDesc = record {
        buf = id;
        rx_meta = source_len % rx_unlogged_flag + (if unlogged then rx_unlogged_flag else 0);
        len = len;
        ingress_ms = ingress_ms;
        gen = generation;
      } in
      let (queue, pushed) = ring.try_push desc lane.ready_ring in
      (record lane { ready_ring = queue }, pushed)

  -- The loop of reset: the batches drained and the unlogged bytes, beside those counted so far. On
  -- fuel; `none` means that it ran out.
  unfoldable pub reset_loop :
      ℕ → (drained unlogged : ℕ) → DisplayLane Q → Option (ℕ × ℕ × DisplayLane Q)
  reset_loop zero drained unlogged lane = none
  reset_loop (suc fuel) drained unlogged lane = elim (ring.try_pop lane.ready_ring) [
    | none ↦ some (drained, unlogged, lane)
    | some (stale, queue) ↦
        reset_loop fuel (add32 drained 1)
          (if is_unlogged stale.rx_meta
            then add32 unlogged (source_len stale.rx_meta)
            else unlogged)
          (release_buf stale.buf (record lane { ready_ring = queue }))
  ]

  unfoldable pub reset : ℕ → DisplayLane Q → Option (ℕ × ℕ × DisplayLane Q)
  unfolding reset_loop
  reset fuel lane = reset_loop fuel 0 0 lane

  -- The loop that takes the oldest batch of the current session: whether there is one.
  unfoldable pub next_batch :
      ℕ → (current_generation : ℕ) → DisplayLane Q → Option (Bool × DisplayLane Q)
  next_batch zero current_generation lane = none
  next_batch (suc fuel) current_generation lane = elim (ring.try_pop lane.ready_ring) [
    | none ↦ some (false, lane)
    | some (desc, queue) ↦
        let popped : DisplayLane Q = record lane { ready_ring = queue; consumer_desc = desc } in
        let rest = next_batch fuel current_generation (release_buf desc.buf popped) in
        if desc.gen == current_generation
        then some (true, record popped { consumer_offset = 0; consumer_active = true })
        else rest
  ]

  -- `writable` says that `output` is not null.
  unfoldable pub drain_into :
      ℕ
      → (writable : Bool) (capacity current_generation : ℕ) → DisplayLane Q
      → Option (DrainResult Q)
  unfolding drop_stale next_batch copy_out
  drain_into fuel writable capacity current_generation lane =
      let fresh = drop_stale current_generation lane in
      if not writable || capacity == 0
      then some (nothing_drained lane)
      else if fresh.consumer_active
      then some (copy_out capacity fresh)
      else elim (next_batch fuel current_generation fresh) [
        | none ↦ none
        | some (found, lane') ↦
            some (if found then copy_out capacity lane' else nothing_drained lane')
      ]
