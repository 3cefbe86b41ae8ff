-- ===== src/Ingress.antt =====
-- rx_ingress of xcom_core/src/runtime/xcom_core.cpp: what the read thread does with a batch of
-- received bytes. What the other threads do while it waits for a free block, and the submission of
-- the wake, are parameters. Whether the lease of the file lane was
-- granted is an argument; its release is not modelled.
mod Tests
pub mod Ledger
pub mod Progress
use xcom_lua.Prelude.{
  ℕ, zero, suc, ◌+◌, ◌-◌, ◌%◌, Bool, true, false, not, ◌&&◌, ◌||◌, List, Option, none, some,
}
use xcom_lua.Prelude.Tests.{ltb, ◌==◌, if◌then◌else◌}
use xcom_lua.Prelude.Lists.{take, drop}
use xcom_lua.Prelude.Word.{u32_mod, add32, sub32}
use xcom_lua.Status.{xcom_err_io}
use xcom_lua.Port.{is_open}
use xcom_lua.Core.{
  CoreCtx, Metrics, rx_drop, push_error, emit_diag, count_rejected_rx, try_arm, disarm,
}
use xcom_lua.Ring.{RingOps}
use xcom_lua.Lane.{RxBlockRef, PoolOps, Lane, rx_block_bytes, try_alloc, publish}

pub data RxIngressResult : Type 0 where
  all_accepted partial_accepted : RxIngressResult

-- The shared state with the receive lane, the monotonic clock, and the calls of wake_rx.
pub record Ingress (D P R : Type 0) : Type 0 where
  pub core : CoreCtx D
  pub rx : Lane P R
  pub clock_ms : ℕ
  pub log_wakes : ℕ

-- The local variables of rx_ingress; `p` is what the pointer still has before it.
pub record Segments : Type 0 where
  pub remaining : ℕ
  pub p : List ℕ
  pub display_backlog : ℕ
  pub unowned_drop : ℕ
  pub block_episode : Bool
  pub block_start : ℕ

-- How a round of the loop ends: it goes on, it leaves the loop, or an assertion fails.
pub data Round (D P R : Type 0) : Type 0 where
  again : Segments → Ingress D P R → Round D P R
  done : Segments → Ingress D P R → Round D P R
  failed : Round D P R

abbrev pub segment_len : ℕ → ℕ
segment_len remaining = if ltb rx_block_bytes remaining then rx_block_bytes else remaining

-- `break` with the tail counted.
abbrev pub drop_tail : Segments → Segments
drop_tail g = record g { unowned_drop = add32 g.unowned_drop g.remaining }

module _ {D P R : Type 0} where
  -- The first round that finds no block starts a storage stall.
  unfoldable pub begin_block : Segments → Ingress D P R → Segments × Ingress D P R
  begin_block g s =
      if g.block_episode
      then (g, s)
      else let c : CoreCtx D = record (s.core) {
        metrics = record (s.core.metrics) {
          rx_file_block_events = add32 s.core.rx_file_block_events 1;
          rx_backpressure_events =
              if s.core.rx_backpressured
              then s.core.rx_backpressure_events
              else add32 s.core.rx_backpressure_events 1;
        };
        rx_backpressured = true;
      } in
        (
          record g { block_episode = true; block_start = s.clock_ms },
          record s { core = push_error xcom_err_io 0 "storage stalled: RX file lane full" c },
        )

  -- The descriptor of a segment of `n` bytes.
  abbrev pub segment_ref : (event n : ℕ) → Ingress D P R → RxBlockRef
  segment_ref event n s = record {
    event = event;
    len = n % 65536;
    gen = s.core.generation % 65536;
    ingress_ms = s.clock_ms % u32_mod;
  }

  module _ (ops : PoolOps P) (ring : RingOps RxBlockRef R) (file_lane : Bool) where
    -- The part of the round after a claim: copy, describe, publish, count.
    unfoldable pub store_segment :
        (event : ℕ) (display_ok : Bool) → Segments → Ingress D P R → Round D P R
    store_segment event display_ok g s =
        let n = segment_len g.remaining in
        let pool = ops.write_payload event (take n g.p) s.rx.pool in
        elim (publish ops ring (segment_ref event n s) file_lane display_ok
          (record (s.rx) { pool = pool })) [
            | none ↦ failed
            | some (rx', shown) ↦
                again
                  (record g {
                    remaining = g.remaining - n;
                    p = drop n g.p;
                    display_backlog =
                        if shown then g.display_backlog else add32 g.display_backlog n;
                  })
                  (record s {
                    core = record (s.core) {
                      metrics = record (s.core.metrics) {
                        rx_seq = add32 s.core.rx_seq 1;
                        rx_bytes = add32 s.core.rx_bytes n;
                      };
                    };
                    rx = rx';
                    log_wakes = if file_lane then s.log_wakes + 1 else s.log_wakes;
                  })
          ]

    module _ (wait_for_free : Ingress D P R → Ingress D P R) where
      -- The part of the round after no block was found.
      unfoldable pub no_block : Segments → Ingress D P R → Round D P R
      unfolding begin_block
      no_block g s =
          let (g', s') = begin_block g s in
          if not file_lane
          then done (drop_tail g) s
          else if not s'.core.callback_admission || not (is_open s'.core.port_state)
          then done (drop_tail g') s'
          else again g' (wait_for_free s')

      unfoldable pub ingress_round : Segments → Ingress D P R → Round D P R
      unfolding store_segment no_block
      ingress_round g s = elim (try_alloc ops file_lane s.rx.pool) [
        | none ↦ no_block g s
        | some (event, display_ok, pool) ↦
            store_segment event display_ok g (record s { rx = record (s.rx) { pool = pool } })
      ]

      -- The loop, on fuel; `none` is a failed assertion, or that the fuel ran out.
      unfoldable pub ingress_loop : ℕ → Segments → Ingress D P R → Option (Segments × Ingress D P R)
      ingress_loop zero g s = none
      ingress_loop (suc fuel) g s =
          if g.remaining == 0 then some (g, s) else elim (ingress_round g s) [
            | again g' s' ↦ ingress_loop fuel g' s'
            | done g' s' ↦ some (g', s')
            | failed ↦ none
          ]

module _ {D : Type 0} where
  -- The counters of what the loop left, after it.
  unfoldable pub account : Segments → CoreCtx D → (now_ms : ℕ) → CoreCtx D
  unfolding count_rejected_rx
  account g c now_ms =
      let c1 : CoreCtx D =
        if g.block_episode
        then record c {
          metrics = record (c.metrics) {
            rx_file_blocked_ms = add32 c.rx_file_blocked_ms ((now_ms - g.block_start) % u32_mod);
          };
        }
        else c in
      let c2 : CoreCtx D =
        if g.display_backlog == 0
        then c1
        else let total = add32 c1.rx_pool_exhausted_bytes g.display_backlog in
          emit_diag rx_drop g.display_backlog total 0 0 (record c1 {
            metrics = record (c1.metrics) {
              rx_pool_exhausted_bytes = total;
              rx_loss_offset = c1.rx_bytes;
            };
          }) in
      if g.unowned_drop == 0
      then c2
      else let c3 : CoreCtx D = count_rejected_rx g.unowned_drop c2 in
        emit_diag rx_drop g.unowned_drop c3.save_rejected_bytes 0 0 c3

  -- CoreCtx::submit_rx_kick; `submit` is the sink, with whether it accepted the wake.
  unfoldable pub submit_rx_kick : (CoreCtx D → CoreCtx D × Bool) → CoreCtx D → CoreCtx D
  submit_rx_kick submit c = let (c', accepted) = submit c in if accepted then c' else disarm c'

  -- The end of rx_ingress.
  unfoldable pub finish :
      (CoreCtx D → CoreCtx D × Bool)
      → (size : ℕ) → Segments
      → CoreCtx D
      → RxIngressResult × CoreCtx D
  unfolding submit_rx_kick
  finish submit size g c =
      let (armed_core, armed) = try_arm c in
      let c' : CoreCtx D =
        if sub32 size g.remaining == 0
        then c
        else (if armed then submit_rx_kick submit armed_core else armed_core) in
      ((if g.remaining == 0 then all_accepted else partial_accepted), c')

-- The local variables at their declarations.
abbrev pub start : (size : ℕ) (bytes : List ℕ) → Segments
start size bytes = record {
  remaining = size;
  p = bytes;
  display_backlog = 0;
  unowned_drop = 0;
  block_episode = false;
  block_start = 0;
}

module _ {D P R : Type 0} where
  -- `callback_count.fetch_add(1U)`
  abbrev pub enter : Ingress D P R → Ingress D P R
  enter s = record s {
    core = record (s.core) {
      metrics = record (s.core.metrics) { callback_count = add32 s.core.callback_count 1 };
    };
  }

module _ {D : Type 0} where
  -- A batch that no open session owns.
  unfoldable pub reject_batch : (size : ℕ) → CoreCtx D → CoreCtx D
  unfolding count_rejected_rx
  reject_batch size c =
      let c' : CoreCtx D = count_rejected_rx size c in
      emit_diag rx_drop size c'.save_rejected_bytes 0 0 c'

module _ {D P R : Type 0} where
  module _ (ops : PoolOps P) (ring : RingOps RxBlockRef R)
      (wait_for_free : Ingress D P R → Ingress D P R) (submit : CoreCtx D → CoreCtx D × Bool) where
    unfoldable pub rx_ingress :
        ℕ
        → (file_lane : Bool) (size : ℕ) (bytes : List ℕ) → Ingress D P R
        → Option (RxIngressResult × Ingress D P R)
    unfolding account finish reject_batch
    rx_ingress fuel file_lane size bytes s =
        if size == 0
        then some (all_accepted, s)
        else if not (is_open s.core.port_state)
        then some (partial_accepted, record s { core = reject_batch size s.core })
        else elim (ingress_loop ops ring file_lane wait_for_free fuel (start size bytes)
            (enter s)) [
              | none ↦ none
              | some (g, s') ↦
                  let (result, c) = finish submit size g (account g s'.core s'.clock_ms) in
                  some (result, record s' { core = c })
            ]
