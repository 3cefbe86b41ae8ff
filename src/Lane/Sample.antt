-- ===== src/Lane/Sample.antt =====
-- A concrete pool and ring for the tests.
use xcom_lua.Prelude.{ℕ, ◌+◌, true, List, [], ◌∷◌, ◌++◌, Option, none, some}
use xcom_lua.Prelude.Tests.{ltb, ◌==◌, if◌then◌else◌}
use xcom_lua.Prelude.Lists.{length}
use xcom_lua.Ring.{RingOps}
use xcom_lua.Lane.{RxBlockRef, PoolOps, rx_block_count}

-- The references that are held, one entry for each.
abbrev pub take_one : ℕ → List ℕ → Option (ℕ × List ℕ)
take_one margin held =
    if ltb rx_block_count (length held + 1 + margin)
    then none
    else some (length held, length held ∷ held)

abbrev pub drop_one : ℕ → List ℕ → List ℕ
drop_one e [] = []
drop_one e (x ∷ xs) = if e == x then xs else x ∷ drop_one e xs

abbrev pub held_of : ℕ → List ℕ → ℕ
held_of e [] = 0
held_of e (x ∷ xs) = held_of e xs + (if e == x then 1 else 0)

abbrev pub pool_ops : PoolOps (List ℕ)
pool_ops = record {
  alloc = take_one 0;
  alloc_with_margin = take_one;
  used = length;
  ref_inc = λ e held. e ∷ held;
  gc = drop_one;
  write_payload = λ e bytes held. held;
}

abbrev pub ring_ops : RingOps RxBlockRef (List RxBlockRef)
ring_ops = record {
  try_push = λ x r. (r ++ (x ∷ []), true);
  try_pop = λ r. elim r [ [] ↦ none | x ∷ xs ↦ some (x, xs) ];
}
