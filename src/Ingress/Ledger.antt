-- ===== src/Ingress/Ledger.antt =====
-- Every received byte is counted once: as accepted, or as lost.
use xcom_lua.Prelude.{
  ℕ, zero, suc, ◌+◌, ◌%◌, ◌≤◌, ◌<◌, ◌≡◌, refl, ◌↔◌, inl, inr, Bool, true, List, none, some, arith,
}
use xcom_lua.Prelude.Tests.{◌==◌, Option-cases, Bool-cases}
use xcom_lua.Prelude.Word.{u32_mod, add32}
use xcom_lua.Port.{is_open}
use xcom_lua.Core.{CoreCtx, count_rejected_rx}
use xcom_lua.Ring.{RingOps}
use xcom_lua.Lane.{RxBlockRef, PoolOps, try_alloc}
use xcom_lua.Ingress.{
  RxIngressResult, all_accepted, Ingress, Segments, Round, again, done, failed, segment_len,
  begin_block, store_segment, no_block, ingress_round, ingress_loop, account, submit_rx_kick,
  finish, reject_batch, start, enter, rx_ingress,
}

-- The two counters that the conservation is about.
abbrev pub SameCounts : {D : Type 0} → CoreCtx D → CoreCtx D → Type 0
SameCounts c d = (c.rx_bytes ≡ d.rx_bytes) × (c.save_rejected_bytes ≡ d.save_rejected_bytes)

-- What one round does to the counters and to the local variables.
abbrev pub RoundCounts : {D P R : Type 0} → Segments → Ingress D P R → Round D P R → Type 0
RoundCounts g s (again g' s') =
    (g'.remaining ≤ g.remaining)
    × (g'.unowned_drop ≡ g.unowned_drop)
    × (s'.core.save_rejected_bytes ≡ s.core.save_rejected_bytes)
    × ((s'.core.rx_bytes + g'.remaining) % u32_mod ≡ (s.core.rx_bytes + g.remaining) % u32_mod)
RoundCounts g s (done g' s') =
    (g'.remaining ≡ g.remaining)
    × (g'.unowned_drop ≡ add32 g.unowned_drop g.remaining)
    × SameCounts s'.core s.core
RoundCounts g s failed = Unit

-- What the loop does to them.
abbrev LoopCounts : {D P R : Type 0} (g g' : Segments) (s s' : Ingress D P R) → Type 0
LoopCounts g g' s s' =
    (g'.remaining ≤ g.remaining)
    × (g'.unowned_drop ≡ g'.remaining)
    × (s'.core.save_rejected_bytes ≡ s.core.save_rejected_bytes)
    × ((s'.core.rx_bytes + g'.remaining) % u32_mod ≡ (s.core.rx_bytes + g.remaining) % u32_mod)

segment_len_le : (n : ℕ) → segment_len n ≤ n
segment_len_le n = ground arith

module _ {D P R : Type 0} where
  begin_block_counts :
      (g : Segments) (s : Ingress D P R)
      → ((begin_block g s).0.remaining ≡ g.remaining)
        × ((begin_block g s).0.unowned_drop ≡ g.unowned_drop)
        × SameCounts (begin_block g s).1.core s.core
  unfolding begin_block
  begin_block_counts g s = ground arith

  module _ (ops : PoolOps P) (ring : RingOps RxBlockRef R) (file_lane : Bool) where
    store_segment_counts :
        (event : ℕ) (display_ok : Bool) (g : Segments) (s : Ingress D P R)
        → RoundCounts g s (store_segment ops ring file_lane event display_ok g s)
    unfolding store_segment
    store_segment_counts event display_ok g s = ground (arith, segment_len_le g.remaining)

    module _ (wait_for_free : Ingress D P R → Ingress D P R)
        (wait_keeps : (s : Ingress D P R) → SameCounts (wait_for_free s).core s.core) where
      no_block_counts :
          (g : Segments) (s : Ingress D P R)
          → RoundCounts g s (no_block ops ring file_lane wait_for_free g s)
      unfolding no_block
      no_block_counts g s = ground (arith, begin_block_counts g s, wait_keeps (begin_block g s).1)

      ingress_round_counts :
          (g : Segments) (s : Ingress D P R)
          → RoundCounts g s (ingress_round ops ring file_lane wait_for_free g s)
      unfolding ingress_round
      ingress_round_counts g s = elim (Option-cases (try_alloc ops file_lane s.rx.pool)) [
        | inl e ↦ rw (e, ingress_round) (no_block_counts g s)
        | inr ((event, display_ok, pool), e) ↦
            rw (e, ingress_round)
              (store_segment_counts event display_ok g
                (record s { rx = record (s.rx) { pool = pool } }))
      ]

      loop_round :
          (fuel : ℕ) (g g' : Segments) (s s' : Ingress D P R) (r : Round D P R)
          → g.remaining < u32_mod
          → g.unowned_drop ≡ 0
          → RoundCounts g s r
          → elim r [
            | again g1 s1 ↦ ingress_loop ops ring file_lane wait_for_free fuel g1 s1
            | done g1 s1 ↦ some (g1, s1)
            | failed ↦ none
          ]
            ≡ some (g', s')
          → ((g1 : Segments) (s1 : Ingress D P R)
              → g1.remaining < u32_mod
              → g1.unowned_drop ≡ 0
              → ingress_loop ops ring file_lane wait_for_free fuel g1 s1 ≡ some (g', s')
              → LoopCounts g1 g' s1 s')
          → LoopCounts g g' s s'
      loop_round fuel g g' s s' (again g1 s1) small none_yet (le, same, kept, sum) h rest =
          let (le', unowned, kept', sum') = rest g1 s1 (omega arith) (omega arith) h in
          (omega arith, unowned, omega arith, omega arith)
      loop_round fuel g g' s s' (done g1 s1) small none_yet (same, counted, c12) h rest =
          ground arith
      loop_round fuel g g' s s' failed small none_yet counts h rest = ground arith

      pub ingress_loop_counts :
          (fuel : ℕ) (g g' : Segments) (s s' : Ingress D P R)
          → g.remaining < u32_mod
          → g.unowned_drop ≡ 0
          → ingress_loop ops ring file_lane wait_for_free fuel g s ≡ some (g', s')
          → LoopCounts g g' s s'
      unfolding ingress_loop
      ingress_loop_counts zero g g' s s' small none_yet h = ground arith
      ingress_loop_counts (suc fuel) g g' s s' small none_yet h =
          elim (Bool-cases (g.remaining == 0)) [
            | inl e ↦ ground arith
            | inr e ↦
                loop_round fuel g g' s s' (ingress_round ops ring file_lane wait_for_free g s) small
                  none_yet (ingress_round_counts g s) (ground arith)
                  (λ g1 s1. ingress_loop_counts fuel g1 g' s1 s')
          ]

module _ {D : Type 0} where
  count_rejected_rx_counts :
      (n : ℕ) (c : CoreCtx D)
      → ((count_rejected_rx n c).rx_bytes ≡ c.rx_bytes)
        × ((count_rejected_rx n c).save_rejected_bytes % u32_mod
            ≡ (c.save_rejected_bytes + n) % u32_mod)
  unfolding count_rejected_rx
  count_rejected_rx_counts n c = ground arith

  account_counts :
      (g : Segments) (c : CoreCtx D) (now_ms : ℕ)
      → ((account g c now_ms).rx_bytes ≡ c.rx_bytes)
        × ((account g c now_ms).save_rejected_bytes % u32_mod
            ≡ (c.save_rejected_bytes + g.unowned_drop) % u32_mod)
  unfolding account
  account_counts g c now_ms = ground (arith, count_rejected_rx_counts g.unowned_drop)

  reject_batch_counts :
      (size : ℕ) (c : CoreCtx D)
      → ((reject_batch size c).rx_bytes ≡ c.rx_bytes)
        × ((reject_batch size c).save_rejected_bytes % u32_mod
            ≡ (c.save_rejected_bytes + size) % u32_mod)
  unfolding reject_batch
  reject_batch_counts size c = count_rejected_rx_counts size c

  module _ (submit : CoreCtx D → CoreCtx D × Bool)
      (submit_keeps : (c : CoreCtx D) → SameCounts (submit c).0 c) where
    finish_counts :
        (size : ℕ) (g : Segments) (c : CoreCtx D)
        → SameCounts (finish submit size g c).1 c
          × (((finish submit size g c).0 ≡ all_accepted) ↔ (g.remaining ≡ 0))
    unfolding finish submit_rx_kick
    finish_counts size g c = ground (arith, submit_keeps (record c { kick_armed = true }))

module _ {D P R : Type 0} (ops : PoolOps P) (ring : RingOps RxBlockRef R)
    (wait_for_free : Ingress D P R → Ingress D P R) (submit : CoreCtx D → CoreCtx D × Bool)
    (wait_keeps : (s : Ingress D P R) → SameCounts (wait_for_free s).core s.core)
    (submit_keeps : (c : CoreCtx D) → SameCounts (submit c).0 c) where
  -- Every byte of a batch is counted exactly once, on every path of rx_ingress: modulo 2^32 the
  -- accepted and the rejected bytes together grow by the size of the batch, and the result is
  -- all_accepted exactly if no byte of it was rejected. This supposes that no other thread counts
  -- bytes while the read thread waits for a block or submits the wake.
  pub rx_ingress_conserves :
      (fuel : ℕ) (file_lane : Bool) (size : ℕ) (bytes : List ℕ) (s s' : Ingress D P R)
      (r : RxIngressResult)
      → size < u32_mod
      → rx_ingress ops ring wait_for_free submit fuel file_lane size bytes s ≡ some (r, s')
      → ((s'.core.rx_bytes + s'.core.save_rejected_bytes) % u32_mod
          ≡ (s.core.rx_bytes + s.core.save_rejected_bytes + size) % u32_mod)
        × ((r ≡ all_accepted)
            ↔ (s'.core.save_rejected_bytes % u32_mod ≡ s.core.save_rejected_bytes % u32_mod))
  unfolding rx_ingress
  rx_ingress_conserves fuel file_lane size bytes s s' r small h = elim (Bool-cases (size == 0)) [
    | inl e ↦ ground arith
    | inr e ↦ elim (Bool-cases (is_open s.core.port_state)) [
      | inl o ↦
          elim (Option-cases
            (ingress_loop ops ring file_lane wait_for_free fuel (start size bytes) (enter s))) [
              | inl f ↦ ground arith
              | inr ((g, s1), f) ↦
                  let (le, unowned, kept, sum) =
                    ingress_loop_counts ops ring file_lane wait_for_free wait_keeps fuel
                      (start size bytes) g (enter s) s1 small refl f in
                  ground (
                    arith,
                    le,
                    unowned,
                    kept,
                    sum,
                    account_counts g s1.core s1.clock_ms,
                    finish_counts submit submit_keeps size g (account g s1.core s1.clock_ms),
                  )
            ]
      | inr o ↦ ground (arith, reject_batch_counts size s.core)
    ]
  ]
