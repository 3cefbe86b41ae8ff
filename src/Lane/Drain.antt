-- ===== src/Lane/Drain.antt =====
-- Draining a ring at teardown.
use xcom_lua.Prelude.{ℕ, zero, suc, ◌+◌, ◌%◌, ◌<◌, ◌≡◌, refl, List, [], ◌∷◌, some, arith}
use xcom_lua.Prelude.Lists.{length}
use xcom_lua.Prelude.Word.{u32_mod, add32}
use xcom_lua.Ring.{RingOps, RingLaws}
use xcom_lua.Lane.{RxBlockRef, PoolOps, Lane, file_backed_len, drain_ring, drain_display, drain_raw}

-- The bytes that the descriptors stand for.
abbrev pub total : (RxBlockRef → ℕ) → List RxBlockRef → ℕ
total len [] = 0
total len (x ∷ xs) = len x + total len xs

-- One release for each descriptor, in their order.
abbrev pub gc_all : {P : Type 0} → PoolOps P → List RxBlockRef → P → P
gc_all ops [] p = p
gc_all ops (x ∷ xs) p = gc_all ops xs (ops.gc x.event p)

module _ {P R : Type 0} (ops : PoolOps P) (ring : RingOps RxBlockRef R) (laws : RingLaws ring) where
  drain_ring_lem :
      (len : RxBlockRef → ℕ) (xs : List RxBlockRef) (fuel bytes : ℕ) (r : R) (p : P)
      → laws.items r ≡ xs
      → length xs < fuel
      → (n : ℕ) × (s : R) × (drain_ring ops ring len fuel bytes r p ≡ some (n, s, gc_all ops xs p))
        × (n % u32_mod ≡ (bytes + total len xs) % u32_mod)
        × (laws.items s ≡ [])
  unfolding drain_ring
  drain_ring_lem len xs zero bytes r p e h = absurd (omega arith)
  drain_ring_lem len [] (suc fuel) bytes r p e h =
      rw (laws.pop_empty r e, drain_ring) (bytes, r, refl, omega arith, e)
  drain_ring_lem len (x ∷ xs) (suc fuel) bytes r p e h =
      let (s, popped, rest) = laws.pop_oldest r x xs e in
      let (n, t, ran, sum, empty) =
        drain_ring_lem len xs fuel (add32 bytes (len x)) s (ops.gc x.event p) rest (omega arith) in
      rw (popped, drain_ring) (n, t, ran, omega arith, empty)

  -- Draining the display ring, with fuel for more rounds than it has descriptors, ends with the
  -- ring empty and one release for each descriptor, in their order; what it returns is the sum of
  -- their lengths without the tag, as a uint32_t.
  pub drain_display_lem :
      (fuel : ℕ) (lane : Lane P R)
      → length (laws.items lane.display_ready) < fuel
      → (n : ℕ) × (s : R) × (drain_display ops ring fuel lane
          ≡ some (n, s, gc_all ops (laws.items lane.display_ready) lane.pool))
        × (n % u32_mod
            ≡ total (λ ref. file_backed_len ref.len) (laws.items lane.display_ready) % u32_mod)
        × (laws.items s ≡ [])
  unfolding drain_display
  drain_display_lem fuel lane h =
      let (n, s, ran, sum, empty) =
        drain_ring_lem (λ ref. file_backed_len ref.len) (laws.items lane.display_ready) fuel 0
          lane.display_ready lane.pool refl h in
      (n, s, ran, omega arith, empty)

  -- Draining the raw ring likewise: it counts the whole lengths.
  pub drain_raw_lem :
      (fuel : ℕ) (lane : Lane P R)
      → length (laws.items lane.raw_ready) < fuel
      → (n : ℕ) × (s : R) × (drain_raw ops ring fuel lane
          ≡ some (n, s, gc_all ops (laws.items lane.raw_ready) lane.pool))
        × (n % u32_mod ≡ total (λ ref. ref.len) (laws.items lane.raw_ready) % u32_mod)
        × (laws.items s ≡ [])
  unfolding drain_raw
  drain_raw_lem fuel lane h =
      let (n, s, ran, sum, empty) =
        drain_ring_lem (λ ref. ref.len) (laws.items lane.raw_ready) fuel 0 lane.raw_ready lane.pool
          refl h in
      (n, s, ran, omega arith, empty)
