-- ===== src/Pool/Tests.antt =====
-- A pool of three blocks.
use Prim.{tt}
use xcom_lua.Prelude.{ℕ, ◌≡◌, refl, ◌⊎◌, true, false, List, [], ◌∷◌, ◌++◌, some, arith}
use xcom_lua.Pool.{FixedPool, allocate_cas, allocate, load_next}
use xcom_lua.Pool.Stack.{HasFree}
use xcom_lua.Pool.Race.{Op, claim, give, write, run_ops, allocate_cas_atomic}

abbrev two_free : FixedPool
two_free = record { storage = 1 ∷ (4294967295 ∷ (77 ∷ [])); head = 0 }

two_free-HasFree : HasFree two_free (0 ∷ (1 ∷ []))
two_free-HasFree = (
  omega arith,
  (refl, omega arith, (refl, omega arith, refl)),
  (((λ e. omega arith), tt), (tt, tt)),
)

-- Both free blocks are claimed, and the first comes back, in part before the link is loaded: the
-- classic reuse.
abbrev first_half : List Op
first_half = claim ∷ (claim ∷ [])

abbrev second_half : List Op
second_half = write 0 5 ∷ (give 0 ∷ [])

abbrev reused : FixedPool
reused = run_ops (first_half ++ second_half) two_free

abbrev loaded : ℕ
loaded = load_next 0 (run_ops first_half two_free)

allocate_cas_atomic_example :
    (allocate_cas two_free.head loaded reused ≡ (reused, false))
    ⊎ (q : FixedPool) × (allocate_cas two_free.head loaded reused ≡ (q, true))
      × (allocate [] reused ≡ some (0, q))
allocate_cas_atomic_example =
    allocate_cas_atomic first_half second_half two_free 0 (1 ∷ []) two_free-HasFree
      (tt, (omega arith, tt, tt)) (omega arith)
