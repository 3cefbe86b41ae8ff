-- ===== src/Log/Process/Books.antt =====
-- Each job is answered once.
use xcom_lua.Prelude.{ℕ, zero, suc, ◌≡◌, inl, inr, Bool, true, not, ◌&&◌, List, some, arith}
use xcom_lua.Prelude.Tests.{ltb, leb, ◌==◌, if◌then◌else◌, Bool-cases, Option-cases}
use xcom_lua.Prelude.Word.{ℤ, ◌==ℤ◌, add32}
use xcom_lua.Status.{xcom_ok}
use xcom_lua.Ring.{RingOps}
use xcom_lua.Lane.{RxBlockRef, PoolOps}
use xcom_lua.Pool.{FixedPool}
use xcom_lua.Log.{FileOps, LogWriter, beat}
use xcom_lua.Log.Write.{
  Written, pending, write_all, append_retry, write_rx, process_rx_ref, drain_rx, report_stall,
}
use xcom_lua.Log.Write.Contents.{write-cases}

-- What the callers see of the writer: its queues, its blocks and the answers it gave.
abbrev pub Books : (J C : Type 0) → Type 0
Books J C = C × FixedPool × List (ℕ × ℤ) × J × ℕ × Bool

abbrev pub books : {D P R J C W : Type 0} → LogWriter D P R J C W → Books J C
books s = (s.completions, s.data_pool, s.done, s.jobs, s.pending_completions, s.running)

module _ {D P R J C W : Type 0} (ops : FileOps W) where
  pub write_all-books :
      (fuel file size : ℕ) (bytes : List ℕ) (offset : ℕ) (s : LogWriter D P R J C W)
      (w : Written (LogWriter D P R J C W))
      → write_all ops fuel file size bytes offset s ≡ some w
      → books w.state ≡ books s
  unfolding write_all
  write_all-books zero file size bytes offset s w h = ground arith
  write_all-books (suc fuel) file size bytes offset s w h = elim (Bool-cases (leb size offset)) [
    | inl e ↦ ground arith
    | inr e ↦ elim (write-cases (ops.write file (pending size offset bytes) s.os).0) [
      | inl f ↦ ground arith
      | inr (inl f) ↦ ground arith
      | inr (inr (n, f)) ↦ ground (
        arith,
        write_all-books fuel file size bytes (add32 offset (suc n))
            (record (beat ops s) { os = (ops.write file (pending size offset bytes) s.os).1 }) w,
      )
    ]
  ]

  pub append_retry-books :
      (fuel file size : ℕ) (bytes : List ℕ) (offset : ℕ) (stalled : Bool)
      (s : LogWriter D P R J C W) (status : ℤ) (to : ℕ) (s' : LogWriter D P R J C W)
      → append_retry ops fuel file size bytes offset stalled s ≡ some (status, to, s')
      → books s' ≡ books s
  unfolding append_retry
  append_retry-books zero file size bytes offset stalled s status to s' h = ground arith
  append_retry-books (suc fuel) file size bytes offset stalled s status to s' h =
      elim (Option-cases (write_all ops (suc size) file size bytes offset (beat ops s))) [
        | inl e ↦ ground (arith, e)
        | inr (w, e) ↦
            let wrote = write_all-books (suc size) file size bytes offset (beat ops s) w e in
            let os' = if ops.stopping w.state.os then w.state.os else ops.sleep w.state.os in
            let rested : LogWriter D P R J C W = record (w.state) {
              core = report_stall stalled w.win32_error w.state.core;
              os = os';
            } in
            elim (Bool-cases (w.status ==ℤ xcom_ok)) [
              | inl ok ↦ ground (arith, e, ok, wrote)
              | inr bad ↦ elim (Bool-cases (ops.stopping os')) [
                | inl stop ↦ ground (arith, e, bad, stop, wrote)
                | inr go ↦ ground (
                  arith,
                  e,
                  bad,
                  go,
                  wrote,
                  append_retry-books fuel file size bytes w.offset true rested status to s',
                )
              ]
            ]
      ]

  write_rx-books :
      (fuel file len : ℕ) (bytes : List ℕ) (offset : ℕ) (s : LogWriter D P R J C W) (to : ℕ)
      (s' : LogWriter D P R J C W)
      → write_rx ops fuel file len bytes offset s ≡ some (to, s')
      → books s' ≡ books s
  unfolding write_rx
  write_rx-books zero file len bytes offset s to s' h = ground arith
  write_rx-books (suc fuel) file len bytes offset s to s' h =
      let os' = (ops.write file (pending len offset bytes) s.os).1 in
      let tried : LogWriter D P R J C W = record (beat ops s) { os = os' } in
      let slept : LogWriter D P R J C W = record tried { os = ops.sleep os' } in
      let rest = write_rx-books fuel file len bytes offset slept to s' in
      elim (Bool-cases (ltb offset len && not (ops.stopping s.os))) [
        | inr e ↦ ground arith
        | inl e ↦ elim (write-cases (ops.write file (pending len offset bytes) s.os).0) [
          | inl f ↦ elim (Bool-cases (ops.stopping os')) [
            | inl stop ↦ ground (arith, e, f, stop)
            | inr go ↦ ground (arith, e, f, go, rest)
          ]
          | inr (inl f) ↦ elim (Bool-cases (ops.stopping os')) [
            | inl stop ↦ ground (arith, e, f, stop)
            | inr go ↦ ground (arith, e, f, go, rest)
          ]
          | inr (inr (n, f)) ↦
              ground
                (arith, e, f, write_rx-books fuel file len bytes (add32 offset (suc n)) tried to s')
        ]
      ]

  module _ (pool_ops : PoolOps P) (payload : ℕ → P → List ℕ) where
    pub process_rx_ref-books :
        (fuel : ℕ) (ref : RxBlockRef) (s s' : LogWriter D P R J C W)
        → process_rx_ref ops pool_ops payload fuel ref s ≡ some s'
        → books s' ≡ books s
    unfolding process_rx_ref
    process_rx_ref-books fuel ref s s' h = elim (Bool-cases (ref.len == 0)) [
      | inl e ↦ ground arith
      | inr e ↦ elim (Option-cases s.log_file) [
        | inl f ↦ ground (arith, e, f)
        | inr (file, f) ↦
            elim (Option-cases (write_rx ops fuel file ref.len (payload ref.event s.rx.pool) 0 s)) [
              | inl g ↦ ground (arith, e, f, g)
              | inr ((to, t), g) ↦ ground (
                arith,
                e,
                f,
                g,
                write_rx-books fuel file ref.len (payload ref.event s.rx.pool) 0 s to t g,
              )
            ]
      ]
    ]

    module _ (ring : RingOps RxBlockRef R) where
      pub drain_rx-books :
          (blocks fuel : ℕ) (s s' : LogWriter D P R J C W)
          → drain_rx ops pool_ops payload ring blocks fuel s ≡ some s'
          → books s' ≡ books s
      unfolding drain_rx
      drain_rx-books zero fuel s s' h = ground arith
      drain_rx-books (suc blocks) fuel s s' h = elim (Option-cases (ring.try_pop s.rx.raw_ready)) [
        | inl e ↦ ground (arith, e)
        | inr ((ref, r), e) ↦
            let popped : LogWriter D P R J C W = record s {
              rx = record (s.rx) { raw_ready = r };
            } in
            elim (Option-cases (process_rx_ref ops pool_ops payload fuel ref popped)) [
              | inl f ↦ ground (arith, e, f)
              | inr (t, f) ↦ ground (
                arith,
                e,
                f,
                process_rx_ref-books fuel ref popped t f,
                drain_rx-books blocks fuel t s',
              )
            ]
      ]
