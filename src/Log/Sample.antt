-- ===== src/Log/Sample.antt =====
-- A disk with one file for the tests: a WriteFile takes up to two bytes, and fails a given number of
-- times first. Rings are lists of a given capacity.
use xcom_lua.Prelude.{
  ℕ, zero, suc, ◌≤◌, ◌<◌, ◌≡◌, refl, ◌⊎◌, true, false, List, [], ◌∷◌, ◌++◌, Option, none, some,
  arith,
}
use xcom_lua.Prelude.Tests.{ltb, if◌then◌else◌}
use xcom_lua.Prelude.Lists.{length, take}
use xcom_lua.Prelude.Word.{pos}
use xcom_lua.Ring.{RingOps, RingLaws, RingCapacity}
use xcom_lua.Log.{FileOps}
use xcom_lua.Log.Write.Contents.{FileLaws, Patience}

pub record Disk : Type 0 where
  pub text : List ℕ
  pub faults : ℕ

abbrev pub write_disk : List ℕ → Disk → Option ℕ × Disk
write_disk bytes w = elim w.faults [
  | suc left ↦ (none, record w { faults = left })
  | zero ↦ (some (length (take 2 bytes)), record w { text = w.text ++ take 2 bytes })
]

abbrev pub file_ops : FileOps Disk
file_ops = record {
  create = λ path keep w. (some 5, w);
  temporary_name = λ path n. some (n ∷ path);
  seek_end = λ file w. w;
  write = λ file bytes w. write_disk bytes w;
  last_error = λ w. pos 112;
  flush = λ file w. (true, w);
  close = λ file w. w;
  move = λ old new w. (true, w);
  remove = λ path w. w;
  sleep = λ w. w;
  stopping = λ w. false;
  now_ms = λ w. 9;
}

take-length : (n : ℕ) (xs : List ℕ) → take (length (take n xs)) xs ≡ take n xs
take-length zero xs = refl
take-length (suc n) [] = refl
take-length (suc n) (x ∷ xs) = rw (take-length n xs) refl

length-take_whole : (n : ℕ) (xs : List ℕ) → length (take n xs) ≤ length xs
length-take_whole zero xs = omega arith
length-take_whole (suc n) [] = omega arith
length-take_whole (suc n) (x ∷ xs) = omega (arith, length-take_whole n xs)

pub write_disk_appends :
    (file n : ℕ) (bytes : List ℕ) (w : Disk)
    → (write_disk bytes w).0 ≡ some n
    → (n ≤ length bytes) × ((write_disk bytes w).1.text ≡ w.text ++ take n bytes)
write_disk_appends file n bytes w h = ground (arith, length-take_whole 2 bytes, take-length 2 bytes)

pub write_disk_fails :
    (file : ℕ) (bytes : List ℕ) (w : Disk)
    → (write_disk bytes w).0 ≡ none
    → (write_disk bytes w).1.text ≡ w.text
write_disk_fails file bytes w h = ground arith

abbrev pub file_laws : FileLaws file_ops
file_laws = record {
  contents = λ file w. w.text;
  write_appends = write_disk_appends;
  write_fails = write_disk_fails;
  sleep_keeps = λ file w. refl;
}

pub write_disk_left :
    (file : ℕ) (bytes : List ℕ) (w : Disk) → (write_disk bytes w).1.faults ≤ w.faults
write_disk_left file bytes w = ground arith

take_two_some : (bytes : List ℕ) → 0 < length bytes → 0 < length (take 2 bytes)
take_two_some [] h = absurd (omega arith)
take_two_some (x ∷ bytes) h = omega arith

pub write_disk_fewer :
    (file : ℕ) (bytes : List ℕ) (w : Disk)
    → 0 < length bytes
    → ((write_disk bytes w).0 ≡ none) ⊎ ((write_disk bytes w).0 ≡ some 0)
    → false ≡ false
    → (write_disk bytes w).1.faults < w.faults
write_disk_fewer file bytes w h failed going = ground (arith, take_two_some bytes)

abbrev pub patience : Patience file_ops
patience = record {
  left = λ w. w.faults;
  write_left = write_disk_left;
  sleep_le = λ w. omega arith;
  sleep_left = write_disk_fewer;
}

abbrev pub bounded : (X : Type 0) → ℕ → RingOps X (List X)
bounded X n = record {
  try_push = λ x r. if ltb (length r) n then (r ++ (x ∷ []), true) else (r, false);
  try_pop = λ r. elim r [ [] ↦ none | x ∷ xs ↦ some (x, xs) ];
}

module _ {X : Type 0} (n : ℕ) where
  pub bounded_items :
      (x : X) (r : List X)
      → ((bounded X n).try_push x r).0
        ≡ (if ((bounded X n).try_push x r).1 then r ++ (x ∷ []) else r)
  bounded_items x r = ground arith

  pub bounded_empty : (r : List X) → r ≡ [] → (bounded X n).try_pop r ≡ none
  bounded_empty r h = rw h refl

  pub bounded_oldest :
      (r : List X) (x : X) (xs : List X)
      → r ≡ x ∷ xs
      → (s : List X) × ((bounded X n).try_pop r ≡ some (x, s)) × (s ≡ xs)
  bounded_oldest r x xs h = rw h (xs, refl, refl)

  abbrev pub bounded_laws : RingLaws (bounded X n)
  bounded_laws = record {
    items = λ r. r;
    push_items = bounded_items;
    pop_empty = bounded_empty;
    pop_oldest = bounded_oldest;
  }

  pub bounded_room : (x : X) (r : List X) → length r < n → ((bounded X n).try_push x r).1 ≡ true
  bounded_room x r h = ground arith

  abbrev pub bounded_capacity : RingCapacity bounded_laws n
  bounded_capacity = record { push_room = bounded_room }
