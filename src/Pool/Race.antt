-- ===== src/Pool/Race.antt =====
-- A claim that other threads come between: why the head has a tag.
use Prim.{Unit}
use mathlib.Core.Path.{subst}
use xcom_lua.Prelude.{
  ℕ, suc, ◌+◌, ◌%◌, ◌≤◌, ◌<◌, ◌≡◌, refl, sym, ap, ◌∙◌, ◌⊎◌, inl, inr, true, false, List, [], ◌∷◌,
  ◌++◌, append-nil, none, some, arith,
}
use xcom_lua.Prelude.Tests.{◌==◌, Bool-cases, ==_iff}
use xcom_lua.Prelude.Lists.{length, length-set, get_or-set_ne}
use xcom_lua.Prelude.Word.{u32_mod, add32}
use xcom_lua.Pool.{
  FixedPool, k_empty, pack, index, tag, load_next, store_next, allocate_cas, release_cas, allocate,
  release,
}
use xcom_lua.Pool.Stack.{
  NotIn, HasFree, popped, pushed, allocate-popped, release-pushed, IsChain-set, pushed-HasFree,
  popped-HasFree, IsChain-small, tag-pack,
}

-- What another thread does in one step: a claim that succeeds, a release of a block, or a write to
-- the first word of a block that it holds.
pub data Op : Type 0 where
  claim : Op
  give : ℕ → Op
  write : ℕ → ℕ → Op

abbrev pub run_op : Op → FixedPool → FixedPool
run_op claim p = elim (allocate [] p) [ none ↦ p | some (b, q) ↦ q ]
run_op (give b) p = release [] b p
run_op (write b v) p = store_next b v p

abbrev pub run_ops : List Op → FixedPool → FixedPool
run_ops [] p = p
run_ops (o ∷ os) p = run_ops os (run_op o p)

-- The steps are those of owners: no block is released or written that is free at that time.
abbrev pub IsFair : List Op → (count : ℕ) (free : List ℕ) → Type 0
IsFair [] count free = Unit
IsFair (claim ∷ os) count [] = IsFair os count []
IsFair (claim ∷ os) count (x ∷ free) = IsFair os count free
IsFair (give b ∷ os) count free = (b < count) × NotIn b free × IsFair os count (b ∷ free)
IsFair (write b v ∷ os) count free = NotIn b free × IsFair os count free

-- How many of the steps change the head.
abbrev changes : List Op → (free : List ℕ) → ℕ
changes [] free = 0
changes (claim ∷ os) [] = changes os []
changes (claim ∷ os) (x ∷ free) = suc (changes os free)
changes (give b ∷ os) free = suc (changes os (b ∷ free))
changes (write b v ∷ os) free = changes os free

changes_le : (os : List Op) (free : List ℕ) → changes os free ≤ length os
changes_le [] free = omega arith
changes_le (claim ∷ os) [] = omega (arith, changes_le os [])
changes_le (claim ∷ os) (x ∷ free) = omega (arith, changes_le os free)
changes_le (give b ∷ os) free = omega (arith, changes_le os (b ∷ free))
changes_le (write b v ∷ os) free = omega (arith, changes_le os free)

run_claim : (p : FixedPool) → index p.head < k_empty → run_op claim p ≡ popped p
run_claim p h =
    ap (λ o. elim o as (λ _. FixedPool) [ none ↦ p | some r ↦ r.1 ]) (allocate-popped p h)

run_claim_empty : (p : FixedPool) → index p.head ≡ k_empty → run_op claim p ≡ p
unfolding allocate
run_claim_empty p h = ground arith

top_small : (p : FixedPool) (x : ℕ) (xs : List ℕ) → HasFree p (x ∷ xs) → index p.head < k_empty
top_small p x xs (small, (top, bound, chain), once) = omega arith

store_next-HasFree :
    (p : FixedPool) (b v : ℕ) (xs : List ℕ)
    → HasFree p xs
    → NotIn b xs
    → HasFree (store_next b v p) xs
store_next-HasFree p b v xs (small, chain, once) out = (
  omega (arith, length-set p.storage b v),
  IsChain-set p.storage (index p.head) b v xs out chain,
  once,
)

tag-popped :
    (p : FixedPool) (x : ℕ) (xs : List ℕ)
    → HasFree p (x ∷ xs)
    → tag (popped p).head ≡ add32 (tag p.head) 1
tag-popped p x xs (small, (top, bound, chain), once) =
    tag-pack (load_next (index p.head) p) (add32 (tag p.head) 1)
      (IsChain-small p.storage (load_next (index p.head) p) xs small (rw top chain))
    ∙ omega arith

-- The tag counts the changes of the head.
tag-run_ops :
    (os : List Op) (p : FixedPool) (free : List ℕ)
    → HasFree p free
    → IsFair os (length p.storage) free
    → tag (run_ops os p).head ≡ (tag p.head + changes os free) % u32_mod
tag-run_ops [] p free h fair = omega arith
tag-run_ops (claim ∷ os) p [] (small, top, once) fair =
    ap (λ q. tag (run_ops os q).head) (run_claim_empty p top)
    ∙ tag-run_ops os p [] (small, top, once) fair
tag-run_ops (claim ∷ os) p (x ∷ free) h fair =
    ap (λ q. tag (run_ops os q).head) (run_claim p (top_small p x free h))
    ∙ tag-run_ops os (popped p) free (popped-HasFree p x free h) fair
    ∙ omega (arith, tag-popped p x free h)
tag-run_ops (give b ∷ os) p free h (bound, out, fair) =
    ap (λ q. tag (run_ops os q).head) (release-pushed p b)
    ∙ tag-run_ops os (pushed b p) (b ∷ free) (pushed-HasFree p b free h bound out)
        (subst (λ n. IsFair os n (b ∷ free)) (sym (length-set p.storage b (index p.head))) fair)
    ∙ omega arith
tag-run_ops (write b v ∷ os) p free h (out, fair) =
    tag-run_ops os (store_next b v p) free (store_next-HasFree p b v free h out)
      (subst (λ n. IsFair os n free) (sym (length-set p.storage b v)) fair)

-- As long as no step changes the head, no link of a free block changes, on the way there neither.
run_ops_link :
    (os later : List Op) (p : FixedPool) (x : ℕ) (free : List ℕ)
    → HasFree p (x ∷ free)
    → IsFair (os ++ later) (length p.storage) (x ∷ free)
    → changes (os ++ later) (x ∷ free) ≡ 0
    → load_next x (run_ops os p) ≡ load_next x p
run_ops_link [] later p x free h fair none_changed = refl
run_ops_link (claim ∷ os) later p x free h fair none_changed = absurd (omega arith)
run_ops_link (give b ∷ os) later p x free h fair none_changed = absurd (omega arith)
run_ops_link (write b v ∷ os) later p x free h ((ne, out), fair) none_changed =
    run_ops_link os later (store_next b v p) x free
      (store_next-HasFree p b v (x ∷ free) h (ne, out))
      (subst (λ n. IsFair (os ++ later) n (x ∷ free)) (sym (length-set p.storage b v)) fair)
      none_changed
    ∙ get_or-set_ne p.storage v k_empty (λ e. ne (sym e))

-- The head word comes back only if no step changed it, for fewer than 2^32 steps.
run_ops_same :
    (os : List Op) (p : FixedPool) (free : List ℕ)
    → HasFree p free
    → IsFair os (length p.storage) free
    → length os < u32_mod
    → (run_ops os p).head ≡ p.head
    → changes os free ≡ 0
run_ops_same os p free h fair few same =
    let counted = tag-run_ops os p free h fair in
    let again = ap tag same in omega (arith, changes_le os free, counted, again)

abbrev with_head : FixedPool → ℕ → FixedPool
with_head r w = record r { head = w }

-- The pool after a CAS that succeeds.
abbrev swapped : (p r : FixedPool) → FixedPool
swapped p r = record r { head = pack (load_next (index p.head) p) (add32 (tag p.head) 1) }

popped-swapped :
    (p r : FixedPool)
    → r.head ≡ p.head
    → load_next (index p.head) r ≡ load_next (index p.head) p
    → popped r ≡ swapped p r
popped-swapped p r same link =
    let at = ap (λ w. load_next (index w) r) same in
    let tags = ap tag same in ap (with_head r) (omega (arith, at, tags, link))

cas_fails :
    (head next : ℕ) (r : FixedPool)
    → (r.head == head) ≡ false
    → allocate_cas head next r ≡ (r, false)
unfolding allocate_cas
cas_fails head next r e = ground arith

cas_succeeds :
    (head next : ℕ) (r : FixedPool)
    → (r.head == head) ≡ true
    → allocate_cas head next r ≡ (record r { head = pack next (add32 (tag head) 1) }, true)
unfolding allocate_cas
cas_succeeds head next r e = ground arith

-- A claim that other threads come between is atomic: whatever fewer than 2^32 of their steps do to
-- the pool after the head was loaded, some of them `before` its link is loaded and some after, the CAS
-- either fails and changes nothing, or it does to the pool as it then is what an undisturbed claim would
-- do, and yields the same block. The steps are those of owners, which release and write no free block.
pub allocate_cas_atomic :
    (before os : List Op) (p : FixedPool) (x : ℕ) (free : List ℕ)
    → HasFree p (x ∷ free)
    → IsFair (before ++ os) (length p.storage) (x ∷ free)
    → length (before ++ os) < u32_mod
    → let next = load_next (index p.head) (run_ops before p) in
      let met = run_ops (before ++ os) p in
      (allocate_cas p.head next met ≡ (met, false))
      ⊎ (q : FixedPool) × (allocate_cas p.head next met ≡ (q, true))
        × (allocate [] met ≡ some (x, q))
allocate_cas_atomic before os p x free (small, (top, bound, chain), once) fair few =
    let h : HasFree p (x ∷ free) = (small, (top, bound, chain), once) in
    let met = run_ops (before ++ os) p in
    let next = load_next (index p.head) (run_ops before p) in
    elim (Bool-cases (met.head == p.head)) [
      | inr e ↦ inl (cas_fails p.head next met e)
      | inl e ↦
          let same = (==_iff met.head p.head).0 e in
          let unchanged = run_ops_same (before ++ os) p (x ∷ free) h fair few same in
          let loaded : next ≡ load_next (index p.head) p =
            ap (λ i. load_next i (run_ops before p)) top
            ∙ run_ops_link before os p x free h fair unchanged
            ∙ ap (λ i. load_next i p) (sym top) in
          let link =
            ap (λ i. load_next i met) top
            ∙ run_ops_link (before ++ os) [] p x free h
                (subst (λ l. IsFair l (length p.storage) (x ∷ free))
                  (sym (append-nil (before ++ os))) fair)
                (ap (λ l. changes l (x ∷ free)) (append-nil (before ++ os)) ∙ unchanged)
            ∙ ap (λ i. load_next i p) (sym top) in
          inr (
            swapped p met,
            cas_succeeds p.head next met e
                ∙ ap (λ (n : ℕ). (record met { head = pack n (add32 (tag p.head) 1) }, true))
                    loaded,
            allocate-popped met (omega (arith, ap index same))
                ∙ ap (λ i. some (i, popped met)) (ap index same ∙ top)
                ∙ ap (λ q. some (x, q)) (popped-swapped p met same link),
          )
    ]

-- A release that other threads come between is atomic: whatever they made of the pool since the head
-- was loaded, a CAS that succeeds does to the pool as it then is what an undisturbed release would
-- do.
pub release_cas_atomic :
    (b : ℕ) (p r : FixedPool)
    → (release_cas b p.head r).1 ≡ true
    → (release_cas b p.head r).0 ≡ release [] b r
unfolding release release_cas
release_cas_atomic b p r h = elim (Bool-cases (r.head == p.head)) [
  | inl e ↦ let same = (==_iff r.head p.head).0 e in ground (arith, same)
  | inr e ↦ ground arith
]
