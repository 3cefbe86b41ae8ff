-- ===== src/Ingress/Progress.antt =====
-- How the receive path ends, and what it has counted by then.
use native.Mathlib.Nat.{mul-le-mul_right}
use Prim.{Unit}
use mathlib.Core.Path.{subst}
use xcom_lua.Prelude.Word.{u32_mod}
use xcom_lua.Ingress.Ledger.{SameCounts, rx_ingress_conserves}
use xcom_lua.Prelude.{
  refl, ◌⊎◌, ◌↔◌, ◌%◌, ℕ, zero, suc, ◌+◌, ◌-◌, ◌*◌, ◌≤◌, ◌<◌, ◌≡◌, inl, inr, Bool, true, false,
  ◌&&◌, List, none, some, arith,
}
use xcom_lua.Prelude.Tests.{◌==◌, if◌then◌else◌, Option-cases, Bool-cases}
use xcom_lua.Prelude.Lists.{take}
use xcom_lua.Port.{is_open}
use xcom_lua.Core.{CoreCtx}
use xcom_lua.Ring.{RingOps}
use xcom_lua.Lane.{RxBlockRef, PoolOps, Lane, try_alloc, publish}
use xcom_lua.Lane.References.{display_copy}
use xcom_lua.Ingress.{
  RxIngressResult, all_accepted, partial_accepted, Ingress, Segments, Round, again, done, failed,
  segment_len, segment_ref, begin_block, store_segment, no_block, ingress_round, ingress_loop,
  account, finish, reject_batch, start, enter, rx_ingress,
}

module _ {D P R : Type 0} (ops : PoolOps P) (file_lane : Bool) where
  -- No block can be claimed, and the session is still open.
  abbrev pub stalled : Ingress D P R → Bool
  stalled s = elim (try_alloc ops file_lane s.rx.pool) [
    | none ↦ s.core.callback_admission && is_open s.core.port_state
    | some _ ↦ false
  ]

-- The wait for a block is fair: of the waits of a reader that stay without a block while the session is
-- open, at most `bound` follow one another. `left` bounds those to come, by the lane and the clock.
pub record WaitPatience {D P R : Type 0} (ops : PoolOps P) (file_lane : Bool)
    (wait_for_free : Ingress D P R → Ingress D P R) : Type 0 where
  pub bound : ℕ
  pub left : Lane P R → ℕ → ℕ
  pub left_le : (lane : Lane P R) (clock_ms : ℕ) → left lane clock_ms ≤ bound
  pub wait_left :
      (s : Ingress D P R)
      → stalled ops file_lane (wait_for_free s) ≡ true
      → left (wait_for_free s).rx (wait_for_free s).clock_ms < left s.rx s.clock_ms

-- One of the rings of the lane has refused a push.
abbrev pub HasFullRing : {P R : Type 0} → RingOps RxBlockRef R → Lane P R → Type 0
HasFullRing ring lane =
    (x : RxBlockRef) × (((ring.try_push x lane.raw_ready).1 ≡ false)
      ⊎ ((ring.try_push x lane.display_ready).1 ≡ false))

take_less : (n : ℕ) → (n == 0) ≡ false → n - segment_len n < n
take_less n h = ground arith

module _ {P R : Type 0} (ops : PoolOps P) (ring : RingOps RxBlockRef R) where
  publish-HasFullRing :
      (ref : RxBlockRef) (file_lane display_ok : Bool) (lane : Lane P R)
      → publish ops ring ref file_lane display_ok lane ≡ none
      → HasFullRing ring lane
  unfolding publish
  publish-HasFullRing ref file_lane display_ok lane h =
      elim (Bool-cases (ring.try_push ref lane.raw_ready).1) [
        | inr e ↦ (ref, inl e)
        | inl e ↦ (display_copy file_lane ref, inr (ground (arith, h, e)))
      ]

begin_block_keeps :
    {D P R : Type 0} (g : Segments) (s : Ingress D P R)
    → ((begin_block g s).0.remaining ≡ g.remaining)
      × ((begin_block g s).1.rx ≡ s.rx)
      × ((begin_block g s).1.clock_ms ≡ s.clock_ms)
      × ((begin_block g s).1.core.callback_admission ≡ s.core.callback_admission)
      × ((begin_block g s).1.core.port_state ≡ s.core.port_state)
unfolding begin_block
begin_block_keeps g s = ground arith

Round-cases :
    {D P R : Type 0} (r : Round D P R)
    → ((g : Segments) × (s : Ingress D P R) × (r ≡ again g s))
      ⊎ (((g : Segments) × (s : Ingress D P R) × (r ≡ done g s)) ⊎ (r ≡ failed))
Round-cases (again g s) = inl (g, s, refl)
Round-cases (done g s) = inr (inl (g, s, refl))
Round-cases failed = inr (inr refl)

-- A round that takes bytes and goes on.
abbrev Takes : {D P R : Type 0} → Segments → Round D P R → Type 0
Takes g (again g' s') = g'.remaining < g.remaining
Takes g (done g' s') = ⊥
Takes g failed = ⊥

-- Fewer bytes cost less, whatever is added that is below the price of one.
fewer_cost : (r r' k w w' : ℕ) → r' < r → w' < k → r' * k + w' < r * k + w
fewer_cost r r' k w w' less low =
    let product = mul-le-mul_right {m = r' + 1} {n = r} k (omega (arith, less)) in
    omega (arith, product, low)

enough_fuel : (size k w fuel : ℕ) → w < k → (size + 1) * k < fuel → size * k + w < fuel
enough_fuel size k w fuel low enough = omega (arith, low, enough)

module _ {D P R : Type 0} (ops : PoolOps P) (ring : RingOps RxBlockRef R) (file_lane : Bool)
    (wait_for_free : Ingress D P R → Ingress D P R)
    (patience : WaitPatience ops file_lane wait_for_free) where
  -- The loop, from these variables on, comes to a block that it has claimed and filled, and that one of
  -- the rings refuses: a failed assertion.
  pub data Overflows : Segments → Ingress D P R → Type 0 where
    refused :
        {g : Segments} {s : Ingress D P R} (event : ℕ) (display_ok : Bool) (pool : P)
        → try_alloc ops file_lane s.rx.pool ≡ some (event, display_ok, pool)
        → HasFullRing ring s.rx
        → Overflows g s
    later :
        {g g' : Segments} {s s' : Ingress D P R}
        → ingress_round ops ring file_lane wait_for_free g s ≡ again g' s'
        → Overflows g' s'
        → Overflows g s

  -- So much for each byte that is left, and the waits to come of a state that has to wait.
  abbrev cost : Segments → Ingress D P R → ℕ
  cost g s =
      g.remaining * (patience.bound + 2)
      + (if stalled ops file_lane s then 1 + patience.left s.rx s.clock_ms else 0)

  abbrev Decreases : Segments → Ingress D P R → Round D P R → Type 0
  Decreases g s (again g' s') = cost g' s' < cost g s
  Decreases g s (done g' s') = Unit
  Decreases g s failed = Overflows g s

  wait_cost :
      (s : Ingress D P R)
      → (if stalled ops file_lane s then 1 + patience.left s.rx s.clock_ms else 0)
        < patience.bound + 2
  wait_cost s = elim (Bool-cases (stalled ops file_lane s)) [
    | inl e ↦ ground (arith, e, patience.left_le s.rx s.clock_ms)
    | inr e ↦ ground (arith, e)
  ]

  Takes-Decreases :
      (g : Segments) (s : Ingress D P R) (r : Round D P R) → Takes g r → Decreases g s r
  Takes-Decreases g s (again g' s') h =
      fewer_cost g.remaining g'.remaining (patience.bound + 2)
        (if stalled ops file_lane s then 1 + patience.left s.rx s.clock_ms else 0)
        (if stalled ops file_lane s' then 1 + patience.left s'.rx s'.clock_ms else 0) h
        (wait_cost s')
  Takes-Decreases g s (done g' s') h = elim h [ ]
  Takes-Decreases g s failed h = elim h [ ]

  store_segment-Decreases :
      (event : ℕ) (display_ok : Bool) (pool : P) (g : Segments) (s : Ingress D P R)
      → (g.remaining == 0) ≡ false
      → try_alloc ops file_lane s.rx.pool ≡ some (event, display_ok, pool)
      → Decreases g s (
          store_segment ops ring file_lane event display_ok g
            (record s { rx = record (s.rx) { pool = pool } }))
  unfolding store_segment
  store_segment-Decreases event display_ok pool g s nonzero claimed =
      let t : Ingress D P R = record s { rx = record (s.rx) { pool = pool } } in
      let ref : RxBlockRef = segment_ref event (segment_len g.remaining) t in
      let lane : Lane P R = record (t.rx) {
        pool = ops.write_payload event (take (segment_len g.remaining) g.p) pool;
      } in
      elim (Option-cases (publish ops ring ref file_lane display_ok lane)) [
        | inl e ↦
            rw (e, store_segment)
              (refused event display_ok pool claimed
                (publish-HasFullRing ops ring ref file_lane display_ok lane e))
        | inr ((lane', shown), e) ↦
            Takes-Decreases g s (store_segment ops ring file_lane event display_ok g t)
              (rw (e, store_segment) (take_less g.remaining nonzero))
      ]

  no_block-Decreases :
      (g : Segments) (s : Ingress D P R)
      → try_alloc ops file_lane s.rx.pool ≡ none
      → Decreases g s (no_block ops ring file_lane wait_for_free g s)
  unfolding no_block
  no_block-Decreases g s full = ground (
    arith,
    full,
    begin_block_keeps g s,
    patience.wait_left (begin_block g s).1,
    Bool-cases (stalled ops file_lane (wait_for_free (begin_block g s).1)),
  )

  ingress_round-Decreases :
      (g : Segments) (s : Ingress D P R)
      → (g.remaining == 0) ≡ false
      → Decreases g s (ingress_round ops ring file_lane wait_for_free g s)
  unfolding ingress_round
  ingress_round-Decreases g s nonzero = elim (Option-cases (try_alloc ops file_lane s.rx.pool)) [
    | inl e ↦ rw (e, ingress_round) (no_block-Decreases g s e)
    | inr ((event, display_ok, pool), e) ↦
        rw (e, ingress_round) (store_segment-Decreases event display_ok pool g s nonzero e)
  ]

  ingress_loop_ends :
      (fuel : ℕ) (g : Segments) (s : Ingress D P R)
      → cost g s < fuel
      → ((g' : Segments) × (s' : Ingress D P R) × (ingress_loop ops ring file_lane wait_for_free
              fuel g s
            ≡ some (g', s')))
        ⊎ Overflows g s
  unfolding ingress_loop
  ingress_loop_ends zero g s enough = absurd (omega arith)
  ingress_loop_ends (suc fuel) g s enough =
      let round = ingress_round ops ring file_lane wait_for_free g s in
      elim (Bool-cases (g.remaining == 0)) [
        | inl e ↦ inl (g, s, ground (arith, e))
        | inr e ↦
            let less = ingress_round-Decreases g s e in
            elim (Round-cases round) [
              | inl (g1, s1, f) ↦
                  let less1 : cost g1 s1 < cost g s = subst (Decreases g s) f less in
                  elim (ingress_loop_ends fuel g1 s1 (omega (arith, less1, enough))) [
                    | inl (g', s', ran) ↦ inl (g', s', rw (e, f) ran)
                    | inr full ↦ inr (later f full)
                  ]
              | inr (inl (g1, s1, f)) ↦ inl (g1, s1, rw (e, f) refl)
              | inr (inr f) ↦ inr (subst (Decreases g s) f less)
            ]
      ]

  rx_ingress_ends :
      (submit : CoreCtx D → CoreCtx D × Bool) (fuel size : ℕ) (bytes : List ℕ) (s : Ingress D P R)
      → (size + 1) * (patience.bound + 2) < fuel
      → ((r : RxIngressResult) × (s' : Ingress D P R) × (rx_ingress ops ring wait_for_free submit
              fuel file_lane size bytes s
            ≡ some (r, s')))
        ⊎ Overflows (start size bytes) (enter s)
  unfolding rx_ingress
  rx_ingress_ends submit fuel size bytes s enough = elim (Bool-cases (size == 0)) [
    | inl e ↦ inl (all_accepted, s, ground arith)
    | inr e ↦ elim (Bool-cases (is_open s.core.port_state)) [
      | inr o ↦ inl (partial_accepted, record s { core = reject_batch size s.core }, ground arith)
      | inl o ↦
          elim (ingress_loop_ends fuel (start size bytes) (enter s)
            (enough_fuel size (patience.bound + 2) _ fuel (wait_cost (enter s)) enough)) [
              | inl (g, s1, ran) ↦
                  let c = finish submit size g (account g s1.core s1.clock_ms) in
                  inl (c.0, record s1 { core = c.1 }, ground (arith, e, o, ran))
              | inr full ↦ inr full
            ]
    ]
  ]

  -- The receive path ends, with a log open or not, and by then it has counted every byte of the batch
  -- exactly once: modulo 2^32 the accepted and the rejected bytes together grow by the size of the batch,
  -- and the result is all_accepted exactly if no byte of it was rejected. The one other outcome is a failed
  -- assertion: a ring of the lane refuses a block that the loop has claimed. If at most `bound` waits fail
  -- one after the other, fuel for `bound` and two rounds for each byte, and for one more, is enough. No
  -- other thread counts bytes while the read thread waits for a block or submits the wake.
  pub rx_ingress_counts :
      (submit : CoreCtx D → CoreCtx D × Bool)
      → ((s : Ingress D P R) → SameCounts (wait_for_free s).core s.core)
      → ((c : CoreCtx D) → SameCounts (submit c).0 c)
      → (fuel size : ℕ) (bytes : List ℕ) (s : Ingress D P R) → size < u32_mod
      → (size + 1) * (patience.bound + 2) < fuel
      → ((r : RxIngressResult) × (s' : Ingress D P R) × (rx_ingress ops ring wait_for_free submit
              fuel file_lane size bytes s
            ≡ some (r, s'))
          × ((s'.core.rx_bytes + s'.core.save_rejected_bytes) % u32_mod
              ≡ (s.core.rx_bytes + s.core.save_rejected_bytes + size) % u32_mod)
          × ((r ≡ all_accepted)
              ↔ (s'.core.save_rejected_bytes % u32_mod ≡ s.core.save_rejected_bytes % u32_mod)))
        ⊎ Overflows (start size bytes) (enter s)
  rx_ingress_counts submit wait_keeps submit_keeps fuel size bytes s small enough =
      elim (rx_ingress_ends submit fuel size bytes s enough) [
        | inl (r, s', ran) ↦
            let (sum, told) =
              rx_ingress_conserves ops ring wait_for_free submit wait_keeps submit_keeps fuel
                file_lane size bytes s s' r small ran in
            inl (r, s', ran, sum, told)
        | inr full ↦ inr full
      ]
