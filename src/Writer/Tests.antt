-- ===== src/Writer/Tests.antt =====
-- The job ring and the write thread at concrete jobs. The pool is the list of released blocks.
use xcom_lua.Prelude.{ℕ, ◌≡◌, ◌≢◌, refl, true, List, [], ◌∷◌, none, some, arith}
use xcom_lua.Prelude.Lists.{set, replicate}
use xcom_lua.Prelude.Word.{sub32}
use xcom_lua.Core.{CoreCtx}
use xcom_lua.Core.Sample.{core_with}
use xcom_lua.Writer.{Job, no_job, SessionWriter, try_enqueue, try_pop, release_leftover_jobs}
use xcom_lua.Writer.Fifo.{
  IsValid, contents, enqueue_spec, Pops, try_enqueue_refines, try_pop_refines,
}
use xcom_lua.Writer.Jobs.{Drained, release_leftover_jobs_lem}
use xcom_lua.Writer.Wrap.{enqueue_all, try_pop_stuck}

abbrev job : ℕ → Job
job block = record { block = block; len = 100; gen = 1; auto_send = true }

-- Three jobs round the end of the array.
abbrev ring : SessionWriter
ring = record {
  jobs = set (set (set (replicate 256 no_job) 254 (job 5)) 255 (job 6)) 0 (job 7);
  write = 513;
  read = 510;
}

ring-IsValid : IsValid ring
ring-IsValid = omega arith

contents-ring : contents ring ≡ job 5 ∷ job 6 ∷ job 7 ∷ []
contents-ring = refl

try_enqueue_refines_example :
    let (s', accepted) = try_enqueue (job 8) ring in
    ((contents s', accepted) ≡ enqueue_spec (job 8) (contents ring)) × IsValid s'
try_enqueue_refines_example = try_enqueue_refines (job 8) ring ring-IsValid (omega arith)

try_pop_refines_example : Pops (contents ring) (try_pop ring)
try_pop_refines_example = try_pop_refines ring ring-IsValid

abbrev keep : ℕ → List ℕ → List ℕ
keep block released = block ∷ released

abbrev core : CoreCtx ℕ
core = record (core_with 0) { generation = 2; autosend_armed = true }

release_leftover_jobs_lem_example :
    (r : SessionWriter × CoreCtx ℕ × List ℕ) × (release_leftover_jobs keep 257 ring core []
      ≡ some r)
    × Drained keep ring core [] r
release_leftover_jobs_lem_example =
    release_leftover_jobs_lem keep 257 ring core [] ring-IsValid (omega arith)

-- Two jobs wait, one at the last value of the counter and one past it.
abbrev wrapped : SessionWriter
wrapped = record { jobs = replicate 256 no_job; write = 1; read = 4294967295 }

try_pop_stuck_example :
    (try_pop (enqueue_all (job 1 ∷ job 2 ∷ []) wrapped) ≡ none)
    × (sub32
          (enqueue_all (job 1 ∷ job 2 ∷ []) wrapped).write
          (enqueue_all (job 1 ∷ job 2 ∷ []) wrapped).read
        ≢ 0)
try_pop_stuck_example = try_pop_stuck (job 1 ∷ job 2 ∷ []) wrapped (omega arith)
