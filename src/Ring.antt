-- ===== src/Ring.antt =====
-- coact::SpscRing, which is not part of the repository: a parameter, with the behaviour relied on.
use xcom_lua.Prelude.{
  ℕ, ◌<◌, ◌≡◌, inl, inr, arith, Bool, true, List, [], ◌∷◌, ◌++◌, Option, none, some,
}
use xcom_lua.Prelude.Tests.{if◌then◌else◌, List-cases}
use xcom_lua.Prelude.Lists.{length}

-- The operations on a ring state `R` with items of type `X`.
pub record RingOps (X R : Type 0) : Type 0 where
  pub try_push : X → R → R × Bool
  pub try_pop : R → Option (X × R)

-- What a ring holds, oldest first: a push that succeeds appends, one that fails changes nothing,
-- and a pop takes the oldest and fails exactly on the empty ring.
pub record RingLaws {X R : Type 0} (ring : RingOps X R) : Type 0 where
  pub items : R → List X
  pub push_items :
      (x : X) (r : R)
      → items (ring.try_push x r).0
        ≡ (if (ring.try_push x r).1 then items r ++ (x ∷ []) else items r)
  pub pop_empty : (r : R) → items r ≡ [] → ring.try_pop r ≡ none
  pub pop_oldest :
      (r : R) (x : X) (xs : List X)
      → items r ≡ x ∷ xs
      → (s : R) × (ring.try_pop r ≡ some (x, s)) × (items s ≡ xs)

-- A push succeeds as long as the ring holds fewer items than its capacity.
pub record RingCapacity {X R : Type 0} {ring : RingOps X R} (laws : RingLaws ring) (capacity : ℕ)
    : Type 0 where
  pub push_room : (x : X) (r : R) → length (laws.items r) < capacity → (ring.try_push x r).1 ≡ true

module _ {X R : Type 0} {ring : RingOps X R} (laws : RingLaws ring) where
  pub try_pop-items :
      (r : R) (x : X) (s : R) → ring.try_pop r ≡ some (x, s) → laws.items r ≡ x ∷ laws.items s
  try_pop-items r x s h = elim (List-cases (laws.items r)) [
    | inl e ↦ ground (arith, laws.pop_empty r e)
    | inr (y, ys, e) ↦
        let (t, popped, rest) = laws.pop_oldest r y ys e in ground (arith, popped, rest)
  ]
