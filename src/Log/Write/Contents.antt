-- ===== src/Log/Write/Contents.antt =====
-- What reaches a file.
use xcom_lua.Prelude.{
  ℕ, zero, suc, ◌+◌, ◌-◌, ◌≤◌, ◌<◌, ◌≡◌, refl, sym, ap, ◌∙◌, ◌⊎◌, inl, inr, false, List, [], ◌∷◌,
  ◌++◌, append_assoc, append-nil, Option, none, some, arith,
}
use xcom_lua.Prelude.Lists.{
  length, take, drop, slice, slice-append, slice_self, take-take, length-take_le,
}
use xcom_lua.Prelude.Word.{u32_mod, add32}
use xcom_lua.Log.{FileOps, LogWriter, beat}
use xcom_lua.Log.Write.{pending}

-- A write that succeeds appends a prefix of what it was given, and nothing else changes a file that
-- is being written.
pub record FileLaws {W : Type 0} (ops : FileOps W) : Type 0 where
  pub contents : ℕ → W → List ℕ
  pub write_appends :
      (file n : ℕ) (bytes : List ℕ) (w : W)
      → (ops.write file bytes w).0 ≡ some n
      → (n ≤ length bytes)
        × (contents file (ops.write file bytes w).1 ≡ contents file w ++ take n bytes)
  pub write_fails :
      (file : ℕ) (bytes : List ℕ) (w : W)
      → (ops.write file bytes w).0 ≡ none
      → contents file (ops.write file bytes w).1 ≡ contents file w
  pub sleep_keeps : (file : ℕ) (w : W) → contents file (ops.sleep w) ≡ contents file w

-- After finitely many failed writes of some bytes, the file can be written again or a stop is
-- requested: `left` bounds how many.
pub record Patience {W : Type 0} (ops : FileOps W) : Type 0 where
  pub left : W → ℕ
  pub write_left : (file : ℕ) (bytes : List ℕ) (w : W) → left (ops.write file bytes w).1 ≤ left w
  pub sleep_le : (w : W) → left (ops.sleep w) ≤ left w
  pub sleep_left :
      (file : ℕ) (bytes : List ℕ) (w : W)
      → 0 < length bytes
      → ((ops.write file bytes w).0 ≡ none) ⊎ ((ops.write file bytes w).0 ≡ some 0)
      → ops.stopping (ops.sleep (ops.write file bytes w).1) ≡ false
      → left (ops.sleep (ops.write file bytes w).1) < left w

-- A shorter slice of the pending bytes.
take-pending :
    (n size offset : ℕ) (bytes : List ℕ)
    → offset + n ≤ size
    → take n (pending size offset bytes) ≡ slice offset (offset + n) bytes
take-pending n size offset bytes h =
    take-take n (size - offset) (drop offset bytes) (omega arith)
    ∙ ap (λ k. take k (drop offset bytes)) (omega arith)

take_some : (n : ℕ) (xs : List ℕ) → 0 < n → 0 < length xs → 0 < length (take n xs)
take_some zero xs h k = absurd (omega arith)
take_some (suc n) [] h k = absurd (omega arith)
take_some (suc n) (x ∷ xs) h k = omega arith

drop_some : (n : ℕ) (xs : List ℕ) → n < length xs → 0 < length (drop n xs)
drop_some zero xs h = h
drop_some (suc n) [] h = absurd (omega arith)
drop_some (suc n) (x ∷ xs) h = drop_some n xs (omega arith)

-- A loop that is not at its end has bytes to write.
pub pending_some :
    (size offset : ℕ) (bytes : List ℕ)
    → offset < size
    → size ≤ length bytes
    → 0 < length (pending size offset bytes)
pending_some size offset bytes h k =
    take_some (size - offset) (drop offset bytes) (omega arith)
      (drop_some offset bytes (omega arith))

-- A WriteFile that failed, or that wrote nothing.
abbrev pub Failed : (written : Option ℕ) → Type 0
Failed written = (written ≡ none) ⊎ (written ≡ some 0)

module _ {W : Type 0} (ops : FileOps W) (laws : FileLaws ops) where
  no_text_of_failure :
      (file : ℕ) (bytes : List ℕ) (w : W)
      → Failed (ops.write file bytes w).0
      → laws.contents file (ops.write file bytes w).1 ≡ laws.contents file w ++ []
  no_text_of_failure file bytes w (inl e) =
      laws.write_fails file bytes w e ∙ sym (append-nil (laws.contents file w))
  no_text_of_failure file bytes w (inr e) = (laws.write_appends file 0 bytes w e).1

pub write-cases : (o : Option ℕ) → (o ≡ none) ⊎ (o ≡ some 0) ⊎ ((n : ℕ) × (o ≡ some (suc n)))
write-cases none = inl refl
write-cases (some zero) = inr (inl refl)
write-cases (some (suc n)) = inr (inr (n, refl))

module _ {D P R J C W : Type 0} (ops : FileOps W) (laws : FileLaws ops)
    (patience : Patience ops) where
  abbrev pub moved : LogWriter D P R J C W → W → ℕ → LogWriter D P R J C W
  moved s os ms = record s { os = os; log_writer_ms = ms }

  -- From `s` to `s'` the bytes from `from` to `to` were appended to the file, and nothing but the
  -- operating system and the heartbeat changed.
  pub record Appended (file : ℕ) (bytes : List ℕ) (from to : ℕ) (s s' : LogWriter D P R J C W)
      : Type 0 where
    pub forward : from ≤ to
    pub text : laws.contents file s'.os ≡ laws.contents file s.os ++ slice from to bytes
    pub kept : s' ≡ moved s s'.os s'.log_writer_ms
    pub patient : patience.left s'.os ≤ patience.left s.os

  pub Appended-nothing :
      (file at : ℕ) (bytes : List ℕ) (s : LogWriter D P R J C W) → Appended file bytes at at s s
  Appended-nothing file at bytes s = record {
    forward = omega arith;
    text =
        sym (append-nil (laws.contents file s.os))
        ∙ ap (λ xs. laws.contents file s.os ++ xs) (sym (slice_self at bytes));
    kept = refl;
    patient = omega arith;
  }

  pub Appended-trans :
      {file a b c : ℕ} {bytes : List ℕ} {s t u : LogWriter D P R J C W}
      → Appended file bytes a b s t
      → Appended file bytes b c t u
      → Appended file bytes a c s u
  Appended-trans {file} {a} {b} {c} {bytes} {s} {t} {u} p q = record {
    forward = omega (arith, p.forward, q.forward);
    text =
        q.text
        ∙ ap (λ xs. xs ++ slice b c bytes) p.text
        ∙ append_assoc (laws.contents file s.os) (slice a b bytes) (slice b c bytes)
        ∙ ap (λ xs. laws.contents file s.os ++ xs) (slice-append a b c bytes p.forward q.forward);
    kept = q.kept ∙ ap (λ r. moved r u.os u.log_writer_ms) p.kept;
    patient = omega (arith, p.patient, q.patient);
  }

  -- One successful WriteFile.
  pub write_step :
      (file size offset n : ℕ) (bytes : List ℕ) (s : LogWriter D P R J C W)
      → size < u32_mod
      → offset < size
      → (ops.write file (pending size offset bytes) s.os).0 ≡ some n
      → (offset + n ≤ size)
        × (add32 offset n ≡ offset + n)
        × Appended file bytes offset
            (add32 offset n)
            s
            (record (beat ops s) { os = (ops.write file (pending size offset bytes) s.os).1 })
  write_step file size offset n bytes s small more e =
      let (n_le, text) = laws.write_appends file n (pending size offset bytes) s.os e in
      let fits : n ≤ size - offset =
        omega (arith, n_le, length-take_le (size - offset) (drop offset bytes)) in
      let sum : add32 offset n ≡ offset + n = omega arith in
      (
        omega arith,
        sum,
        record {
          forward = omega arith;
          text =
              text
              ∙ ap (λ xs. laws.contents file s.os ++ xs)
                  (take-pending n size offset bytes (omega arith)
                    ∙ ap (λ k. slice offset k bytes) (sym sum));
          kept = refl;
          patient = patience.write_left file (pending size offset bytes) s.os;
        },
      )

  pub attempt_after_failure :
      (file size offset : ℕ) (bytes : List ℕ) (s : LogWriter D P R J C W)
      → Failed (ops.write file (pending size offset bytes) s.os).0
      → Appended file bytes offset offset s
          (record (beat ops s) { os = (ops.write file (pending size offset bytes) s.os).1 })
  attempt_after_failure file size offset bytes s failed =
      let w' = (ops.write file (pending size offset bytes) s.os).1 in
      record {
        forward = omega arith;
        text =
            no_text_of_failure ops laws file (pending size offset bytes) s.os failed
            ∙ ap (λ xs. laws.contents file s.os ++ xs) (sym (slice_self offset bytes));
        kept = refl;
        patient = patience.write_left file (pending size offset bytes) s.os;
      }

  -- The state after one WriteFile, whatever it did.
  abbrev pub attempted :
      (file size offset : ℕ) → List ℕ → LogWriter D P R J C W → LogWriter D P R J C W
  attempted file size offset bytes s = record (beat ops s) {
    os = (ops.write file (pending size offset bytes) s.os).1;
  }
