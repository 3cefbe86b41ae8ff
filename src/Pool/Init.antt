-- ===== src/Pool/Init.antt =====
-- The constructor of the pool.
use Prim.{tt}
use mathlib.Core.Path.{subst}
use xcom_lua.Prelude.{ℕ, zero, suc, ◌+◌, ◌<◌, ◌≡◌, refl, ap, ◌∙◌, List, [], ◌∷◌, arith}
use xcom_lua.Prelude.Lists.{get_or, length}
use xcom_lua.Pool.{k_empty, links, fixed_pool}
use xcom_lua.Pool.Stack.{NotIn, NoRepeats, IsChain, HasFree}

-- 0, 1, and so on, for the blocks from `i` on with `left` after it.
abbrev pub blocks_from : (i left : ℕ) → List ℕ
blocks_from i zero = i ∷ []
blocks_from i (suc left) = i ∷ blocks_from (i + 1) left

length-links : (i left : ℕ) → length (links i left) ≡ suc left
unfolding links
length-links i zero = refl
length-links i (suc left) = ap suc (length-links (i + 1) left)

get_or-links : (i left j : ℕ) → j < left → get_or (links i left) j k_empty ≡ i + j + 1
unfolding links
get_or-links i zero j h = absurd (omega arith)
get_or-links i (suc left) zero h = omega arith
get_or-links i (suc left) (suc j) h = get_or-links (i + 1) left j (omega arith) ∙ omega arith

get_or-links_last : (i left : ℕ) → get_or (links i left) left k_empty ≡ k_empty
unfolding links
get_or-links_last i zero = refl
get_or-links_last i (suc left) = get_or-links_last (i + 1) left

links-IsChain : (n i left : ℕ) → i + left ≡ n → IsChain (links 0 n) i (blocks_from i left)
links-IsChain n i zero h = (
  refl,
  omega (arith, length-links 0 n),
  subst (λ k. get_or (links 0 n) k k_empty ≡ k_empty) (omega arith) (get_or-links_last 0 n),
)
links-IsChain n i (suc left) h = (
  refl,
  omega (arith, length-links 0 n),
  subst (λ k. IsChain (links 0 n) k (blocks_from (i + 1) left))
      (omega (arith, get_or-links 0 n i (omega arith)))
      (links-IsChain n (i + 1) left (omega arith)),
)

blocks_from-NotIn : (b i left : ℕ) → b < i → NotIn b (blocks_from i left)
blocks_from-NotIn b i zero h = ((λ e. omega arith), tt)
blocks_from-NotIn b i (suc left) h =
    ((λ e. omega arith), blocks_from-NotIn b (i + 1) left (omega arith))

blocks_from-NoRepeats : (i left : ℕ) → NoRepeats (blocks_from i left)
blocks_from-NoRepeats i zero = (tt, tt)
blocks_from-NoRepeats i (suc left) =
    (blocks_from-NotIn i (i + 1) left (omega arith), blocks_from-NoRepeats (i + 1) left)

-- A new pool has every block free, each once, as long as the number of blocks is below kEmpty.
pub fixed_pool-HasFree :
    (count : ℕ) → suc count < k_empty → HasFree (fixed_pool count) (blocks_from 0 count)
unfolding fixed_pool
fixed_pool-HasFree count h = (
  omega (arith, length-links 0 count),
  links-IsChain count 0 count (omega arith),
  blocks_from-NoRepeats 0 count,
)
