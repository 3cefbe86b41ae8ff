-- ===== src/Lane/Tests.antt =====
-- The lemmas of the lane at concrete inputs.
use xcom_lua.Prelude.{ℕ, ◌+◌, ◌<◌, ◌≡◌, refl, ◌↔◌, true, List, [], ◌∷◌, none, some, arith}
use xcom_lua.Prelude.Lists.{length}
use xcom_lua.Ring.{RingLaws}
use xcom_lua.Lane.{RxBlockRef, Lane, rx_block_count, try_alloc, publish}
use xcom_lua.Lane.Sample.{take_one, held_of, pool_ops, ring_ops}
use xcom_lua.Lane.Reserve.{PoolLaws}
use xcom_lua.Lane.References.{RefLaws, display_copy, queued, publish_references}

take_one-none : (m : ℕ) (p : List ℕ) → (take_one m p ≡ none) ↔ (rx_block_count < length p + 1 + m)
take_one-none m p = ground arith

take_one_takes : (m e : ℕ) (p q : List ℕ) → take_one m p ≡ some (e, q) → length q ≡ length p + 1
take_one_takes m e p q h = ground arith

take_zero-none : (p : List ℕ) → (take_one 0 p ≡ none) ↔ (rx_block_count < length p + 1)
take_zero-none p = ground arith

abbrev pool_laws : PoolLaws pool_ops
pool_laws = record {
  margin_fails = take_one-none;
  alloc_fails = take_zero-none;
  margin_takes = take_one_takes;
  alloc_takes = take_one_takes 0;
}

abbrev ref_laws : RefLaws pool_ops
ref_laws = record { refs = held_of; ref_inc_counts = λ e event p. refl }

pop_empty : (r : List RxBlockRef) → r ≡ [] → ring_ops.try_pop r ≡ none
pop_empty r h = rw h refl

pop_oldest :
    (r : List RxBlockRef) (x : RxBlockRef) (xs : List RxBlockRef)
    → r ≡ x ∷ xs
    → (s : List RxBlockRef) × (ring_ops.try_pop r ≡ some (x, s)) × (s ≡ xs)
pop_oldest r x xs h = rw h (xs, refl, refl)

abbrev ring_laws : RingLaws ring_ops
ring_laws = record {
  items = λ r. r;
  push_items = λ x r. refl;
  pop_empty = pop_empty;
  pop_oldest = pop_oldest;
}

abbrev one_ref : RxBlockRef
one_ref = record { event = 7; len = 32768; gen = 1; ingress_ms = 0 }

abbrev small_ref : RxBlockRef
small_ref = record { event = 8; len = 5; gen = 1; ingress_ms = 0 }

abbrev two_lanes : Lane (List ℕ) (List RxBlockRef)
two_lanes = record {
  pool = 7 ∷ (8 ∷ []);
  display_ready = small_ref ∷ [];
  raw_ready = small_ref ∷ (one_ref ∷ []);
}

abbrev published : Lane (List ℕ) (List RxBlockRef)
published = record {
  pool = 7 ∷ (7 ∷ (8 ∷ []));
  display_ready = small_ref ∷ (display_copy true one_ref ∷ []);
  raw_ready = small_ref ∷ (one_ref ∷ (one_ref ∷ []));
}

publish-two_lanes : publish pool_ops ring_ops one_ref true true two_lanes ≡ some (published, true)
unfolding publish
publish-two_lanes = refl

alloc_two_lanes : try_alloc pool_ops true (8 ∷ []) ≡ some (1, true, 1 ∷ (8 ∷ []))
unfolding try_alloc
alloc_two_lanes = refl

publish_references_example :
    held_of 7 published.pool + queued ring_laws 7 two_lanes + 1
    ≡ held_of 7 two_lanes.pool + queued ring_laws 7 published
publish_references_example =
    publish_references pool_ops ring_ops ring_laws ref_laws 7 one_ref true true true two_lanes
      published publish-two_lanes refl
