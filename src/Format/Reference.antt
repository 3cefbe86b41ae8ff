-- ===== src/Format/Reference.antt =====
-- The text view as a machine that reads one byte at a time and never looks ahead.
use xcom_lua.Prelude.{
  ℕ, suc, ◌+◌, ◌≤◌, ◌≡◌, refl, sym, ap, min, true, false, not, ◌||◌, List, [], ◌∷◌, ◌++◌, arith,
  append_assoc,
}
use xcom_lua.Prelude.Tests.{leb, ◌==◌, if◌then◌else◌}
use xcom_lua.Prelude.Lists.{length, take_of_le}
use xcom_lua.Format.{
  outside, escape, is_outside, TextState, Iteration, strip_step, byte_step, text_loop, format_text,
  next_is_lf,
}

-- A CR is a line break at once, and the LF after it is no break of its own.
unfoldable pub feed : TextState → ℕ → TextState × List ℕ
unfolding strip_step
feed s b =
    let s' : TextState = record s { pending_cr = false } in
    if not (is_outside s.strip_state)
    then (record s' { strip_state = strip_step s.strip_state b }, [])
    else if b == 10
    then (if s.pending_cr then (s', []) else (record s' { at_line_start = true }, 10 ∷ []))
    else if b == 13
    then (record s' { at_line_start = true; pending_cr = true }, 10 ∷ [])
    else if b == 0x1B
    then (record s' { strip_state = escape }, [])
    else if b == 9 || leb 0x20 b
    then (record s' { at_line_start = false }, b ∷ [])
    else (s', [])

unfoldable pub feed_all : List ℕ → TextState → TextState × List ℕ
feed_all [] s = (s, [])
feed_all (b ∷ bs) s = let (s', o) = feed s b in let (t, os) = feed_all bs s' in (t, o ++ os)

pub feed_all-append :
    (xs ys : List ℕ) (s : TextState)
    → feed_all (xs ++ ys) s
      ≡ ((feed_all ys (feed_all xs s).0).0, (feed_all xs s).1 ++ (feed_all ys (feed_all xs s).0).1)
unfolding feed_all
feed_all-append [] ys s = refl
feed_all-append (x ∷ xs) ys s = rw (feed_all-append xs ys (feed s x).0) (
    ap (λ o. ((feed_all ys (feed_all xs (feed s x).0).0).0, o))
      (sym (append_assoc (feed s x).1 _ _)))

-- With room for a byte the loop never stops early. An iteration that skips nothing does what
-- `feed` does; one that skips has met a CR before an LF.
byte_step-feed :
    (budget w : ℕ) (s : TextState) (b : ℕ) (rest : List ℕ)
    → suc w ≤ budget
    → let it = byte_step budget w s b rest in
      (it.stop ≡ false)
      × (it.emit ≡ (feed s b).1)
      × (it.skip ≡ false → it.state ≡ (feed s b).0)
      × (it.skip ≡ true
          → (next_is_lf rest ≡ true)
            × ((feed s b).0 ≡ record it.state { pending_cr = true })
            × (it.state.pending_cr ≡ false)
            × (it.state.strip_state ≡ outside))
unfolding byte_step feed
byte_step-feed budget w s b rest h = ground arith

length-feed : (s : TextState) (b : ℕ) → length (feed s b).1 ≤ 1
unfolding feed
length-feed s b = ground arith

-- After a CR an LF changes nothing but the carry.
feed_lf :
    (s : TextState) (b : ℕ)
    → s.pending_cr ≡ false
    → s.strip_state ≡ outside
    → (b == 10) ≡ true
    → feed (record s { pending_cr = true }) b ≡ (s, [])
unfolding feed
feed_lf s b p q e = ground arith

text_loop-feed :
    (budget w : ℕ) (bytes : List ℕ) (s : TextState)
    → w + length bytes ≤ budget
    → text_loop budget w false bytes s ≡ feed_all bytes s
unfolding text_loop feed_all
text_loop-feed budget w [] s h = refl
text_loop-feed budget w (b ∷ []) s h =
    let it : Iteration = byte_step budget w s b [] in
    ground (arith, byte_step-feed budget w s b [] (omega arith))
text_loop-feed budget w (b ∷ c ∷ rest) s h =
    let it : Iteration = byte_step budget w s b (c ∷ rest) in
    let w' : ℕ = w + length it.emit in
    let step = byte_step-feed budget w s b (c ∷ rest) (omega arith) in
    let short : length it.emit ≤ 1 = rw step.1 (length-feed s b) in
    ground (
      arith,
      step,
      short,
      text_loop-feed budget w' (c ∷ rest) it.state (omega arith),
      text_loop-feed budget w' rest it.state (omega arith),
      feed_lf it.state c,
    )

-- A block that fits the budget is formatted as by the machine without look-ahead: no byte is lost
-- for want of room, and the look-ahead over CR LF agrees with the carried CR.
pub format_text-feed_all :
    (budget : ℕ) (bytes : List ℕ) (s : TextState)
    → length bytes ≤ budget
    → format_text budget bytes s ≡ feed_all bytes s
unfolding format_text
format_text-feed_all budget bytes s h =
    rw (take_of_le (min (length bytes) budget) bytes (omega arith))
      (text_loop-feed budget 0 bytes s (omega arith))

-- Where a stream is cut into two receive blocks makes no difference to the text view: if each
-- block fits the budget of its batch, formatting the first and then the second, from the state
-- that the first left, writes the same bytes and leaves the same state as formatting the joined
-- block, at a budget that it fits. A CR LF pair or an escape sequence may lie across the cut.
pub format_text_split :
    (budget whole : ℕ) (xs ys : List ℕ) (s : TextState)
    → length xs ≤ budget
    → length ys ≤ budget
    → length (xs ++ ys) ≤ whole
    → let first = format_text budget xs s in
      let second = format_text budget ys first.0 in
      format_text whole (xs ++ ys) s ≡ (second.0, first.1 ++ second.1)
format_text_split budget whole xs ys s hx hy h =
    rw
      (
        format_text-feed_all whole (xs ++ ys) s h,
        format_text-feed_all budget xs s hx,
        format_text-feed_all budget ys (feed_all xs s).0 hy,
      )
      (feed_all-append xs ys s)
