-- ===== src/Pool.antt =====
-- FixedPool of xcom_core/src/foundation/fixed_pool.hpp: blocks on a free list whose head carries a
-- tag against reuse. Of a block only its first word is kept, where a free block has its link. An
-- atomic access is one step; what other threads do between a load and its CAS is an argument.
pub mod Stack
pub mod Init
pub mod Race
mod Tests
use xcom_lua.Prelude.{
  ℕ, zero, suc, ◌+◌, ◌*◌, ◌/◌, ◌%◌, Bool, true, false, List, [], ◌∷◌, Option, none, some,
}
use xcom_lua.Prelude.Tests.{ltb, ◌==◌, if◌then◌else◌}
use xcom_lua.Prelude.Lists.{get_or, set, replicate}
use xcom_lua.Prelude.Word.{u32_mod, add32}

-- kEmpty
abbrev pub k_empty : ℕ
k_empty = 4294967295

-- `head` is the uint64_t with the index in its low half and the tag in its high half.
pub record FixedPool : Type 0 where
  pub storage : List ℕ
  pub head : ℕ

abbrev pub pack : (index_value tag_value : ℕ) → ℕ
pack index_value tag_value = index_value + tag_value * u32_mod

abbrev pub index : ℕ → ℕ
index head = head % u32_mod

abbrev pub tag : ℕ → ℕ
tag head = head / u32_mod % u32_mod

abbrev pub store_next : (block next : ℕ) → FixedPool → FixedPool
store_next block next p = record p { storage = set p.storage block next }

abbrev pub load_next : ℕ → FixedPool → ℕ
load_next block p = get_or p.storage block k_empty

-- compare_exchange on the head.
abbrev pub compare_exchange : (expected desired : ℕ) → FixedPool → FixedPool × Bool
compare_exchange expected desired p =
    if p.head == expected then (record p { head = desired }, true) else (p, false)

-- The links that the constructor stores, from block `i` on, with `left` blocks after it.
unfoldable pub links : (i left : ℕ) → List ℕ
links i zero = k_empty ∷ []
links i (suc left) = (i + 1) ∷ links (i + 1) left

-- The constructor, for a pool of `count` + 1 blocks.
unfoldable pub fixed_pool : ℕ → FixedPool
unfolding links
fixed_pool count = record { storage = links 0 count; head = pack 0 0 }

-- One CAS of allocate, on the head and the link loaded before it.
unfoldable pub allocate_cas : (head next : ℕ) → FixedPool → FixedPool × Bool
allocate_cas head next p = compare_exchange head (pack next (add32 (tag head) 1)) p

-- One CAS of release, on the head loaded before it.
unfoldable pub release_cas : (current head : ℕ) → FixedPool → FixedPool × Bool
release_cas current head p =
    compare_exchange head (pack current (add32 (tag head) 1)) (store_next current (index head) p)

-- The loop of allocate. A round has the other threads come between its loads of the head and of the
-- link, and between these and its CAS; the round after the last of them is undisturbed. A block is named
-- by its index.
unfoldable pub allocate :
    List ((FixedPool → FixedPool) × (FixedPool → FixedPool)) → FixedPool → Option (ℕ × FixedPool)
unfolding allocate_cas
allocate [] p =
    if index p.head == k_empty
    then none
    else some (index p.head, (allocate_cas p.head (load_next (index p.head) p) p).0)
allocate ((between, others) ∷ later) p =
    let linked = between p in
    let met = others linked in
    let (p', ok) = allocate_cas p.head (load_next (index p.head) linked) met in
    let again = allocate later met in
    if index p.head == k_empty then none else if ok then some (index p.head, p') else again

-- The loop of release likewise.
unfoldable pub release : List (FixedPool → FixedPool) → (current : ℕ) → FixedPool → FixedPool
unfolding release_cas
release [] current p = (release_cas current p.head p).0
release (others ∷ later) current p =
    let (p', ok) = release_cas current p.head (others p) in
    let again = release later current p' in if ok then p' else again
