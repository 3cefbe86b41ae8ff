-- ===== src/Lane/Reserve.antt =====
-- The reserve of the file lane.
use xcom_lua.Prelude.{ℕ, ◌+◌, ◌≤◌, ◌<◌, ◌≡◌, ◌↔◌, inl, inr, Bool, true, false, none, some, arith}
use xcom_lua.Prelude.Tests.{Option-cases}
use xcom_lua.Lane.{PoolOps, rx_block_count, rx_raw_reserve_blocks, try_alloc}

-- What the lane relies on of the event pool of 128 blocks: a claim with a margin succeeds exactly
-- if the margin stays free after it, a plain claim exactly if a block is free, and a claim takes
-- one block.
pub record PoolLaws {P : Type 0} (ops : PoolOps P) : Type 0 where
  pub margin_fails :
      (m : ℕ) (p : P) → (ops.alloc_with_margin m p ≡ none) ↔ (rx_block_count < ops.used p + 1 + m)
  pub alloc_fails : (p : P) → (ops.alloc p ≡ none) ↔ (rx_block_count < ops.used p + 1)
  pub margin_takes :
      (m e : ℕ) (p q : P) → ops.alloc_with_margin m p ≡ some (e, q) → ops.used q ≡ ops.used p + 1
  pub alloc_takes : (e : ℕ) (p q : P) → ops.alloc p ≡ some (e, q) → ops.used q ≡ ops.used p + 1

module _ {P : Type 0} (ops : PoolOps P) (laws : PoolLaws ops) where
  try_alloc_file-none : (p : P) → (try_alloc ops true p ≡ none) ↔ (ops.alloc p ≡ none)
  unfolding try_alloc
  try_alloc_file-none p =
      ground (arith, laws.margin_fails rx_raw_reserve_blocks p, laws.alloc_fails p)

  try_alloc_display-none :
      (p : P) → (try_alloc ops false p ≡ none) ↔ (ops.alloc_with_margin 0 p ≡ none)
  unfolding try_alloc
  try_alloc_display-none p = ground arith

  -- A claim fails exactly if no block of the pool is free, with a log open or not: the file lane
  -- may use its reserve, so its reader blocks only on a pool that is used up, and a session with
  -- no log has the whole pool.
  pub try_alloc-none :
      (file_lane : Bool) (p : P)
      → (try_alloc ops file_lane p ≡ none) ↔ (rx_block_count < ops.used p + 1)
  try_alloc-none true p = ground (arith, try_alloc_file-none p, laws.alloc_fails p)
  try_alloc-none false p = ground (arith, try_alloc_display-none p, laws.margin_fails 0 p)

  -- While a log is open the display shares a block only if at least 96 blocks are still free after
  -- the claim; otherwise the block is the file's alone, and then fewer than 96 would be left.
  pub try_alloc_reserve :
      (p q : P) (event : ℕ) (display_ok : Bool)
      → try_alloc ops true p ≡ some (event, display_ok, q)
      → (display_ok ≡ true) ↔ (ops.used q + rx_raw_reserve_blocks ≤ rx_block_count)
  unfolding try_alloc
  try_alloc_reserve p q event display_ok h =
      elim (Option-cases (ops.alloc_with_margin rx_raw_reserve_blocks p)) [
        | inl e ↦
            ground (arith, laws.margin_fails rx_raw_reserve_blocks p, laws.alloc_takes event p q)
        | inr ((ev, p'), e) ↦ ground (
          arith,
          laws.margin_fails rx_raw_reserve_blocks p,
          laws.margin_takes rx_raw_reserve_blocks ev p p',
        )
      ]
