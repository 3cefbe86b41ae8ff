-- ===== src/Log/Process/Returns.antt =====
-- A job that is taken from the queue is finished: process of xcom_core/src/io/log_writer.cpp.
use xcom_lua.Prelude.{
  ℕ, zero, suc, ◌≤◌, ◌<◌, ◌≡◌, ◌≢◌, refl, ap, ◌⊎◌, inl, inr, false, List, Option, none, some, arith,
}
use xcom_lua.Prelude.Tests.{◌==◌, Bool-cases, Option-cases}
use xcom_lua.Prelude.Word.{ℤ, u32_mod}
use xcom_lua.Prelude.Lists.{length}
use xcom_lua.Ring.{RingOps, RingLaws, RingCapacity}
use xcom_lua.Lane.{RxBlockRef, PoolOps}
use xcom_lua.Log.{
  FileOps, Kind, open_log, append, flush_log, close_log, atomic_write, stream_begin, stream_append,
  stream_commit, stream_abort, FileJob, AtomicCompletion, LogWriter,
}
use xcom_lua.Log.Write.{drain_rx}
use xcom_lua.Log.Write.Contents.{FileLaws, Patience}
use xcom_lua.Log.Write.All.{write_all_lem}
use xcom_lua.Log.Write.Retry.{append_retry_lem}
use xcom_lua.Log.Process.{
  process_atomic, process_stream_append, process_close, process_kind, process,
}
use xcom_lua.Log.Process.Books.{Books}
use xcom_lua.Log.Process.Once.{process_kind-books}
use xcom_lua.Log.Process.Answers.{completion_of, Answered, process_kind-Answered, finish-returns}

-- No raw block waits, or the job is not a Close.
abbrev pub IsPrompt :
    {D P R J C W : Type 0} → RingOps RxBlockRef R → Kind → LogWriter D P R J C W → Type 0
IsPrompt raw_ring kind s = (kind ≢ close_log) ⊎ (raw_ring.try_pop s.rx.raw_ready ≡ none)

length-completion_of : (job : FileJob) (status : ℤ) → length (completion_of job status) ≤ 1
length-completion_of job status = ground arith

some_of : {A : Type 0} (o : Option A) → o ≢ none → (r : A) × (o ≡ some r)
some_of none h = absurd (h refl)
some_of (some r) h = (r, refl)

module _ {D P R J C W : Type 0} (ops : FileOps W) (laws : FileLaws ops) (patience : Patience ops)
    (pool_ops : PoolOps P) (payload : ℕ → P → List ℕ) (raw_ring : RingOps RxBlockRef R)
    (job : FileJob) (small : job.size < u32_mod) (whole : job.size ≤ length job.bytes)
    (begun : job.offset ≤ job.size) where
  process_atomic-ends : (s : LogWriter D P R J C W) → process_atomic ops job s ≢ none
  unfolding process_atomic
  process_atomic-ends s h = elim (Option-cases (ops.temporary_name job.path job.request_id)) [
    | inl e ↦ ground (arith, h, e)
    | inr (temporary, e) ↦
        let t : LogWriter D P R J C W = record s { os = (ops.create temporary false s.os).1 } in
        elim (Option-cases (ops.create temporary false s.os).0) [
          | inl f ↦ ground (arith, h, e, f)
          | inr (file, f) ↦
              let (w, ran, all) =
                write_all_lem ops laws patience (suc job.size) file job.size job.bytes job.offset t
                  small whole begun (omega arith) in
              ground (arith, h, e, f, ran)
        ]
  ]

  process_stream_append-ends : (s : LogWriter D P R J C W) → process_stream_append ops job s ≢ none
  unfolding process_stream_append
  process_stream_append-ends s h = elim (Option-cases s.atomic_stream) [
    | inl e ↦ ground (arith, h, e)
    | inr (stream, e) ↦ elim (Bool-cases (stream.id == job.stream_id)) [
      | inr f ↦ ground (arith, h, e, f)
      | inl f ↦
          let (w, ran, all) =
            write_all_lem ops laws patience (suc job.size) stream.file job.size job.bytes job.offset
              s small whole begun (omega arith) in
          ground (arith, h, e, f, ran)
    ]
  ]

  process_close-ends :
      (fuel blocks : ℕ) (s : LogWriter D P R J C W)
      → 0 < blocks
      → raw_ring.try_pop s.rx.raw_ready ≡ none
      → process_close ops pool_ops payload raw_ring fuel blocks s ≢ none
  unfolding process_close drain_rx
  process_close-ends fuel zero s some_fuel empty h = ground arith
  process_close-ends fuel (suc blocks) s some_fuel empty h = elim (Option-cases s.log_file) [
    | inl e ↦ ground (arith, h, e)
    | inr (file, e) ↦ ground (arith, h, e, empty)
  ]

  process_kind-ends :
      (fuel blocks : ℕ) (kind : Kind) (s : LogWriter D P R J C W)
      → patience.left s.os < fuel
      → 0 < blocks
      → IsPrompt raw_ring kind s
      → process_kind ops pool_ops payload raw_ring fuel blocks kind job s ≢ none
  unfolding process_kind
  process_kind-ends fuel blocks open_log s enough some_fuel prompt h = ground (arith, h)
  process_kind-ends fuel blocks append s enough some_fuel prompt h =
      elim (Option-cases s.log_file) [
        | inl e ↦ ground (arith, h, e)
        | inr (file, e) ↦
            let (status, to, s', ran, retried) =
              append_retry_lem ops laws patience fuel file job.size job.bytes job.offset false s
                small whole begun enough in
            ground (arith, h, e, ran)
      ]
  process_kind-ends fuel blocks flush_log s enough some_fuel prompt h = ground (arith, h)
  process_kind-ends fuel blocks close_log s enough some_fuel prompt h = elim prompt [
    | inl other ↦ absurd (other refl)
    | inr empty ↦
        let (r, ran) =
          some_of (process_close ops pool_ops payload raw_ring fuel blocks s)
            (process_close-ends fuel blocks s some_fuel empty) in
        ground (arith, h, ran)
  ]
  process_kind-ends fuel blocks atomic_write s enough some_fuel prompt h = process_atomic-ends s h
  process_kind-ends fuel blocks stream_begin s enough some_fuel prompt h = ground (arith, h)
  process_kind-ends fuel blocks stream_append s enough some_fuel prompt h =
      process_stream_append-ends s h
  process_kind-ends fuel blocks stream_commit s enough some_fuel prompt h = ground (arith, h)
  process_kind-ends fuel blocks stream_abort s enough some_fuel prompt h = ground (arith, h)

  module _ {ring : RingOps AtomicCompletion C} {queue_laws : RingLaws ring} {places : ℕ} where
    -- A job ends, and has one answer, with the status that its operation gave: an asynchronous one has a
    -- completion with its request and this status at the end of the ring, whoever waits has the status
    -- once, and its block is free again. Nothing else of the queues has changed. This is for a job whose
    -- buffer has its bytes, a disk that recovers, or is given up, before the failed writes have used up the
    -- fuel, a ring with room for one more completion, and, for a Close, a raw ring that is empty.
    pub process_answers_once :
        RingCapacity queue_laws places
        → (fuel blocks : ℕ) (s : LogWriter D P R J C W) → patience.left s.os < fuel
        → 0 < blocks
        → IsPrompt raw_ring job.kind s
        → length (queue_laws.items s.completions) < places
        → (to : ℕ) × (status : ℤ) × (t : LogWriter D P R J C W) × (s' : LogWriter D P R J C W)
          × (process_kind ops pool_ops payload raw_ring fuel blocks job.kind job s
              ≡ some (to, status, t))
          × (process ops pool_ops payload raw_ring ring fuel blocks job s ≡ some s')
          × Answered queue_laws job status s s'
    unfolding process
    process_answers_once capacity fuel blocks s enough some_fuel prompt room =
        let ((to, status, t), ran) =
          some_of (process_kind ops pool_ops payload raw_ring fuel blocks job.kind job s)
            (process_kind-ends fuel blocks job.kind s enough some_fuel prompt) in
        let kept =
          process_kind-books ops pool_ops payload raw_ring fuel blocks job.kind job s to status t
            ran in
        let same : length (queue_laws.items t.completions)
            ≡ length (queue_laws.items s.completions) =
          ap (λ (b : Books J C). length (queue_laws.items b.0)) kept in
        let moved : FileJob = record job { offset = to } in
        let (s', ended) =
          finish-returns capacity moved status t
            (omega (arith, same, length-completion_of moved status, room)) in
        (
          to,
          status,
          t,
          s',
          ran,
          ground (arith, ran, ended),
          process_kind-Answered ops pool_ops payload raw_ring queue_laws fuel blocks job s s' to
              status t ran ended,
        )
