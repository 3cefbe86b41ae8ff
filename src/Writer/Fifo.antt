-- ===== src/Writer/Fifo.antt =====
-- The job ring is a queue of at most 256 jobs, as long as its counters have not wrapped.
use xcom_lua.Prelude.{
  ℕ, zero, suc, ◌+◌, ◌-◌, ◌%◌, ◌≤◌, ◌<◌, ◌≡◌, ◌≢◌, refl, ap, Bool, true, false, List, [], ◌∷◌, ◌++◌,
  inl, inr, ◌⊎◌, Option, none, some, arith,
}
use xcom_lua.Prelude.Tests.{leb, if◌then◌else◌}
use xcom_lua.Prelude.Lists.{get_or, set, length, length-set, get_or-set_self, get_or-set_ne}
use xcom_lua.Prelude.Word.{u32_mod, add32}
use native.Mathlib.Decide.{dec_lt}
use xcom_lua.Writer.{Job, no_job, max_jobs, SessionWriter, try_enqueue, try_pop}

pub record IsValid (s : SessionWriter) : Type 0 where
  pub slots : length s.jobs ≡ max_jobs
  pub ordered : s.read ≤ s.write
  pub bounded : s.write - s.read ≤ max_jobs
  pub unwrapped : s.write < u32_mod

-- The `n` jobs from counter `h` on.
abbrev pub window : List Job → ℕ → ℕ → List Job
window jobs h zero = []
window jobs h (suc n) = get_or jobs (h % max_jobs) no_job ∷ window jobs (h + 1) n

abbrev pub contents : SessionWriter → List Job
contents s = window s.jobs s.read (s.write - s.read)

-- The specification: a queue that refuses its 257th job.
unfoldable pub enqueue_spec : Job → List Job → List Job × Bool
enqueue_spec j q = if leb max_jobs (length q) then (q, false) else (q ++ (j ∷ []), true)

pub length-window : (jobs : List Job) (h n : ℕ) → length (window jobs h n) ≡ n
length-window jobs h zero = refl
length-window jobs h (suc n) = ap suc (length-window jobs (h + 1) n)

window-set :
    (jobs : List Job) (j : Job) (n h w : ℕ)
    → length jobs ≡ max_jobs
    → n < max_jobs
    → w ≡ h + n
    → window (set jobs (w % max_jobs) j) h (suc n) ≡ window jobs h n ++ (j ∷ [])
window-set jobs j zero h w l lt e =
    let same : h ≡ w = omega arith in
    rw same (rw (get_or-set_self jobs (w % max_jobs) j no_job (omega arith)))
window-set jobs j (suc n) h w l lt e = ground (
  arith,
  get_or-set_ne jobs {i = w % max_jobs} {j = h % max_jobs} j no_job (omega arith),
  window-set jobs j n (h + 1) w l,
)

window_step :
    (jobs : List Job) (h n : ℕ)
    → n ≢ 0
    → window jobs h n ≡ get_or jobs (h % max_jobs) no_job ∷ window jobs (h + 1) (n - 1)
window_step jobs h zero p = absurd (p refl)
window_step jobs h (suc n) p = ap (λ k. window jobs h (suc k)) (omega arith)

try_enqueue-IsValid :
    (j : Job) (s : SessionWriter) → IsValid s → s.write + 1 < u32_mod → IsValid (try_enqueue j s).0
unfolding try_enqueue
try_enqueue-IsValid j s v h = ground (arith, length-set s.jobs (s.write % max_jobs) j)

-- While fewer than 2 ^ 32 jobs have been queued since the start, an enqueue is the queue's: it is
-- refused exactly at 256 waiting jobs, otherwise the job goes to the end and the others stay.
pub try_enqueue_refines :
    (j : Job) (s : SessionWriter)
    → IsValid s
    → s.write + 1 < u32_mod
    → let (s', accepted) = try_enqueue j s in
      ((contents s', accepted) ≡ enqueue_spec j (contents s)) × IsValid s'
unfolding try_enqueue enqueue_spec
try_enqueue_refines j s v h = (
  ground (
    arith,
    length-window s.jobs s.read (s.write - s.read),
    window-set s.jobs j (s.write - s.read) s.read s.write,
  ),
  try_enqueue-IsValid j s v h,
)

-- What a pop may do to the queue `q`.
abbrev pub Pops : List Job → Option (Job × SessionWriter) → Type 0
Pops q r =
    ((q ≡ []) × (r ≡ none))
    ⊎ ((j : Job) × (s : SessionWriter) × (r ≡ some (j, s)) × (q ≡ j ∷ contents s) × IsValid s)

-- In the same range a pop is the queue's: it fails exactly on the empty queue, and otherwise takes
-- the oldest job and keeps the others.
pub try_pop_refines : (s : SessionWriter) → IsValid s → Pops (contents s) (try_pop s)
unfolding try_pop
try_pop_refines s v = elim (dec_lt s.read s.write) [
  | yes h ↦ inr (
    get_or s.jobs (s.read % max_jobs) no_job,
    record s { read = add32 s.read 1 },
    ground arith,
    ground (arith, window_step s.jobs s.read (s.write - s.read)),
    ground arith,
  )
  | no h ↦ inl (ground arith, ground arith)
]
