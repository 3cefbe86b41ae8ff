-- ===== src/Pool/Stack.antt =====
-- The free list as a stack.
use Prim.{Unit}
use mathlib.Core.Path.{subst}
use xcom_lua.Prelude.{
  ℕ, ◌%◌, ◌≤◌, ◌<◌, ◌≡◌, ◌≢◌, refl, sym, ap, ◌∙◌, List, [], ◌∷◌, none, some, arith,
}
use xcom_lua.Prelude.Lists.{get_or, set, length, length-set, get_or-set_self, get_or-set_ne}
use xcom_lua.Prelude.Word.{u32_mod, add32}
use xcom_lua.Pool.{
  FixedPool, k_empty, pack, index, tag, load_next, allocate_cas, release_cas, allocate, release,
}

abbrev pub NotIn : ℕ → List ℕ → Type 0
NotIn b [] = Unit
NotIn b (x ∷ xs) = (x ≢ b) × NotIn b xs

abbrev pub NoRepeats : List ℕ → Type 0
NoRepeats [] = Unit
NoRepeats (x ∷ xs) = NotIn x xs × NoRepeats xs

-- The links from `h` on lead through the blocks listed, and end.
abbrev pub IsChain : List ℕ → ℕ → List ℕ → Type 0
IsChain storage h [] = h ≡ k_empty
IsChain storage h (x ∷ xs) =
    (h ≡ x) × (x < length storage) × IsChain storage (get_or storage x k_empty) xs

-- The free blocks of a pool, from the top: each once, on the chain of links.
abbrev pub HasFree : FixedPool → List ℕ → Type 0
HasFree p xs = (length p.storage ≤ k_empty) × IsChain p.storage (index p.head) xs × NoRepeats xs

pub IsChain-set :
    (storage : List ℕ) (h b v : ℕ) (xs : List ℕ)
    → NotIn b xs
    → IsChain storage h xs
    → IsChain (set storage b v) h xs
IsChain-set storage h b v [] out chain = chain
IsChain-set storage h b v (x ∷ xs) (ne, out) (top, bound, chain) = (
  top,
  omega (arith, length-set storage b v),
  rw (get_or-set_ne storage v k_empty (λ e. ne (sym e)))
      (IsChain-set storage (get_or storage x k_empty) b v xs out chain),
)

pub IsChain-small :
    (storage : List ℕ) (h : ℕ) (xs : List ℕ)
    → length storage ≤ k_empty
    → IsChain storage h xs
    → h < u32_mod
IsChain-small storage h [] small top = omega arith
IsChain-small storage h (x ∷ xs) small (top, bound, chain) = omega arith

pub index-pack : (n t : ℕ) → n < u32_mod → index (pack n t) ≡ n
index-pack n t h = omega arith

pub tag-pack : (n t : ℕ) → n < u32_mod → tag (pack n t) ≡ t % u32_mod
tag-pack n t h = omega arith

-- The head after a claim.
abbrev pub popped : FixedPool → FixedPool
popped p = record p { head = pack (load_next (index p.head) p) (add32 (tag p.head) 1) }

pub allocate-popped :
    (p : FixedPool) → index p.head < k_empty → allocate [] p ≡ some (index p.head, popped p)
unfolding allocate allocate_cas
allocate-popped p h = ground arith

pub popped-HasFree :
    (p : FixedPool) (x : ℕ) (xs : List ℕ) → HasFree p (x ∷ xs) → HasFree (popped p) xs
popped-HasFree p x xs (small, (top, bound, chain), (out, once)) =
    let next = get_or p.storage x k_empty in
    (
      small,
      rw (top, index-pack next (add32 (tag p.head) 1) (IsChain-small p.storage next xs small chain))
          chain,
      once,
    )

-- The undisturbed claim takes the top of the free list, and changes no block.
pub allocate_pops :
    (p : FixedPool) (x : ℕ) (xs : List ℕ)
    → HasFree p (x ∷ xs)
    → (q : FixedPool) × (allocate [] p ≡ some (x, q)) × HasFree q xs × (q.storage ≡ p.storage)
allocate_pops p x xs (small, (top, bound, chain), once) = (
  popped p,
  allocate-popped p (omega arith) ∙ ap (λ i. some (i, popped p)) top,
  popped-HasFree p x xs (small, (top, bound, chain), once),
  refl,
)

pub allocate_empty : (p : FixedPool) → HasFree p [] → allocate [] p ≡ none
unfolding allocate
allocate_empty p (small, top, once) = ground arith

-- The pool after a release.
abbrev pub pushed : ℕ → FixedPool → FixedPool
pushed b p = record {
  storage = set p.storage b (index p.head);
  head = pack b (add32 (tag p.head) 1);
}

pub release-pushed : (p : FixedPool) (b : ℕ) → release [] b p ≡ pushed b p
unfolding release release_cas
release-pushed p b = ground arith

pub pushed-HasFree :
    (p : FixedPool) (b : ℕ) (xs : List ℕ)
    → HasFree p xs
    → b < length p.storage
    → NotIn b xs
    → HasFree (pushed b p) (b ∷ xs)
pushed-HasFree p b xs (small, chain, once) bound out = (
  omega (arith, length-set p.storage b (index p.head)),
  (
    index-pack b (add32 (tag p.head) 1) (omega arith),
    omega (arith, length-set p.storage b (index p.head)),
    rw (get_or-set_self p.storage b (index p.head) k_empty bound)
        (IsChain-set p.storage (index p.head) b (index p.head) xs out chain),
  ),
  (out, once),
)

-- An undisturbed release of a block that is not free puts it on top of the free list.
pub release_pushes :
    (p : FixedPool) (b : ℕ) (xs : List ℕ)
    → HasFree p xs
    → b < length p.storage
    → NotIn b xs
    → HasFree (release [] b p) (b ∷ xs)
release_pushes p b xs free bound out =
    subst (λ q. HasFree q (b ∷ xs)) (sym (release-pushed p b))
      (pushed-HasFree p b xs free bound out)
