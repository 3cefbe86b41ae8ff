-- ===== src/Writer/Wrap.antt =====
-- The job ring after its 32-bit write counter has wrapped.
use xcom_lua.Prelude.{◌≤◌, ◌<◌, ◌≡◌, ◌≢◌, List, [], ◌∷◌, none, arith}
use xcom_lua.Prelude.Word.{u32_mod, sub32}
use xcom_lua.Writer.{Job, SessionWriter, max_jobs, try_enqueue, try_pop}

-- The write counter has wrapped and the read counter has not; `sub32` counts the waiting jobs.
pub record HasWrapped (s : SessionWriter) : Type 0 where
  pub behind : s.write < s.read
  pub in_range : s.read < u32_mod
  pub waiting : sub32 s.write s.read ≤ max_jobs

unfoldable pub enqueue_all : List Job → SessionWriter → SessionWriter
enqueue_all [] s = s
enqueue_all (j ∷ js) s = enqueue_all js (try_enqueue j s).0

try_enqueue-HasWrapped :
    (j : Job) (s : SessionWriter) → HasWrapped s → HasWrapped (try_enqueue j s).0
unfolding try_enqueue
try_enqueue-HasWrapped j s v = ground arith

try_pop_wrapped :
    (s : SessionWriter) → HasWrapped s → (try_pop s ≡ none) × (sub32 s.write s.read ≢ 0)
unfolding try_pop
try_pop_wrapped s v = ground arith

-- From the moment at which the write counter has wrapped past the read counter, with at most 256
-- jobs waiting, no pop succeeds again, however many jobs are queued behind, although jobs wait.
pub try_pop_stuck :
    (js : List Job) (s : SessionWriter)
    → HasWrapped s
    → (try_pop (enqueue_all js s) ≡ none)
      × (sub32 (enqueue_all js s).write (enqueue_all js s).read ≢ 0)
unfolding enqueue_all
try_pop_stuck [] s v = try_pop_wrapped s v
try_pop_stuck (j ∷ js) s v = try_pop_stuck js (try_enqueue j s).0 (try_enqueue-HasWrapped j s v)
