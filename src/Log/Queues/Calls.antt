-- ===== src/Log/Queues/Calls.antt =====
-- What each call does to the accounts.
use xcom_lua.Prelude.{ℕ, ◌≡◌, refl, sym, ap, ◌⊎◌, inl, inr, true, List, [], Option, arith}
use mathlib.Core.Path.{subst}
use xcom_lua.Prelude.Tests.{ltb, ◌==◌, Bool-cases, Option-cases}
use xcom_lua.Prelude.Lists.{take}
use xcom_lua.Ring.{RingOps, RingLaws}
use xcom_lua.Log.{
  FileOps, FileJob, AtomicCompletion, LogWriter, is_async, atomic_write, stream_begin,
  stream_append, stream_commit, stream_abort,
}
use xcom_lua.Log.Submit.{
  file_block_bytes, submit_atomic_copy, path_capacity, utf8_to_wide, file_job, submit_atomic,
  submit_atomic_borrowed, submit_stream_begin, stream_append_borrowed, submit_stream_commit,
  submit_stream_abort, submit_reserved,
}
use xcom_lua.Log.Queues.Accounts.{
  tally, Accounted, kept-Accounted, submit_reserved-Accounted, submit_atomic_copy-Accounted,
}

module _ {D P R J C W : Type 0} (ops : FileOps W) {job_ring : RingOps FileJob J}
    {completion_ring : RingOps AtomicCompletion C} (convert : List ℕ → Option (List ℕ))
    (job_laws : RingLaws job_ring) (completion_laws : RingLaws completion_ring) where
  -- A call either changes nothing or submits a job that is answered by a completion.
  abbrev pub Submits : (s s' : LogWriter D P R J C W) → Type 0
  Submits s s' =
      (s' ≡ s)
      ⊎ (job : FileJob) × (is_async job.kind ≡ true) × (s' ≡ (submit_reserved ops job_ring job s).1)

  pub Submits-Accounted :
      (working : ℕ) (s s' : LogWriter D P R J C W)
      → Submits s s'
      → Accounted job_laws completion_laws working s
      → Accounted job_laws completion_laws working s'
  Submits-Accounted working s s' (inl h) acc =
      kept-Accounted job_laws completion_laws working s s' (ap (tally job_laws completion_laws) h)
        acc
  Submits-Accounted working s s' (inr (job, async, h)) acc =
      subst (λ t. Accounted job_laws completion_laws working t) (sym h)
        (submit_reserved-Accounted job_laws completion_laws ops job working s async acc)

  pub submit_stream_commit-Submits :
      (stream_id request_id : ℕ) (s : LogWriter D P R J C W)
      → Submits s (submit_stream_commit ops job_ring stream_id request_id s).1
  unfolding submit_stream_commit
  submit_stream_commit-Submits stream_id request_id s = elim (Bool-cases (stream_id == 0)) [
    | inl e ↦ inl (ground (arith, e))
    | inr e ↦ inr (
      record (file_job stream_commit) { stream_id = stream_id; request_id = request_id },
      refl,
      ground (arith, e),
    )
  ]

  pub submit_stream_abort-Submits :
      (stream_id request_id : ℕ) (s : LogWriter D P R J C W)
      → Submits s (submit_stream_abort ops job_ring stream_id request_id s).1
  unfolding submit_stream_abort
  submit_stream_abort-Submits stream_id request_id s = elim (Bool-cases (stream_id == 0)) [
    | inl e ↦ inl (ground (arith, e))
    | inr e ↦ inr (
      record (file_job stream_abort) { stream_id = stream_id; request_id = request_id },
      refl,
      ground (arith, e),
    )
  ]

  pub stream_append_borrowed-Submits :
      (stream_id : ℕ) (ptr : Option (List ℕ)) (size request_id : ℕ) (s : LogWriter D P R J C W)
      → Submits s (stream_append_borrowed ops job_ring stream_id ptr size request_id s).1
  unfolding stream_append_borrowed
  stream_append_borrowed-Submits stream_id ptr size request_id s =
      let job : List ℕ → FileJob = λ bytes. record (file_job stream_append) {
        stream_id = stream_id;
        request_id = request_id;
        size = size;
        bytes = take size bytes;
      } in
      elim (Bool-cases (stream_id == 0)) [
        | inl e ↦ inl (ground (arith, e))
        | inr e ↦ elim (Option-cases ptr) [
          | inr (bytes, f) ↦ inr (job bytes, refl, ground (arith, e, f))
          | inl f ↦ elim (Bool-cases (size == 0)) [
            | inl g ↦ inr (job [], refl, ground (arith, e, f, g))
            | inr g ↦ inl (ground (arith, e, f, g))
          ]
        ]
      ]

  pub submit_stream_begin-Submits :
      (path : Option (List ℕ)) (stream_id request_id : ℕ) (s : LogWriter D P R J C W)
      → Submits s (submit_stream_begin ops job_ring convert path stream_id request_id s).1
  unfolding submit_stream_begin
  submit_stream_begin-Submits path stream_id request_id s = elim (Bool-cases (stream_id == 0)) [
    | inl e ↦ inl (ground (arith, e))
    | inr e ↦ elim (Option-cases (utf8_to_wide convert path_capacity path)) [
      | inl f ↦ inl (ground (arith, e, f))
      | inr (wide, f) ↦ inr (
        record (file_job stream_begin) {
          stream_id = stream_id;
          request_id = request_id;
          path = wide;
        },
        refl,
        ground (arith, e, f),
      )
    ]
  ]

  pub submit_atomic_borrowed-Submits :
      (path ptr : Option (List ℕ)) (size request_id : ℕ) (s : LogWriter D P R J C W)
      → Submits s (submit_atomic_borrowed ops job_ring convert path ptr size request_id s).1
  unfolding submit_atomic_borrowed
  submit_atomic_borrowed-Submits path ptr size request_id s =
      let job : List ℕ → List ℕ → FileJob = λ bytes wide. record (file_job atomic_write) {
        request_id = request_id;
        size = size;
        bytes = take size bytes;
        path = wide;
      } in
      elim (Option-cases (utf8_to_wide convert path_capacity path)) [
        | inl e ↦ inl (ground (arith, e))
        | inr (wide, e) ↦ elim (Option-cases ptr) [
          | inr (bytes, f) ↦ inr (job bytes wide, refl, ground (arith, e, f))
          | inl f ↦ elim (Bool-cases (size == 0)) [
            | inl g ↦ inr (job [] wide, refl, ground (arith, e, f, g))
            | inr g ↦ inl (ground (arith, e, f, g))
          ]
        ]
      ]

  pub submit_atomic-Accounted :
      (path ptr : Option (List ℕ)) (size request_id working : ℕ) (s : LogWriter D P R J C W)
      → Accounted job_laws completion_laws working s
      → Accounted job_laws completion_laws working
          (submit_atomic ops job_ring convert path ptr size request_id s).1
  unfolding submit_atomic
  submit_atomic-Accounted path ptr size request_id working s acc =
      let s' = (submit_atomic ops job_ring convert path ptr size request_id s).1 in
      let same : s' ≡ s → Accounted job_laws completion_laws working s' = λ h.
        kept-Accounted job_laws completion_laws working s s' (ap (tally job_laws completion_laws) h)
          acc in
      elim (Bool-cases (ltb file_block_bytes size)) [
        | inl e ↦ same (ground (arith, e))
        | inr e ↦ elim (Option-cases ptr) [
          | inl f ↦ same (ground (arith, e, f))
          | inr (bytes, f) ↦ elim (Option-cases (utf8_to_wide convert path_capacity path)) [
            | inl g ↦ same (ground (arith, e, f, g))
            | inr (wide, g) ↦
                let copied : s' ≡ (submit_atomic_copy ops job_ring wide bytes size request_id s).1 =
                  ground (arith, e, f, g) in
                subst (λ t. Accounted job_laws completion_laws working t) (sym copied)
                  (submit_atomic_copy-Accounted job_laws completion_laws ops wide bytes size
                    request_id working s acc)
          ]
        ]
      ]
