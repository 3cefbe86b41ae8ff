-- ===== src/Format.antt =====
-- The display formatter of xcom_core/src/ao/xcom_ao.cpp: format_payload<false> (text view) and
-- format_payload<true> (hex view). A byte is a number below 256.
pub mod Reference
pub mod Clean
pub mod Hex
mod Tests
use xcom_lua.Prelude.{
  ℕ, zero, suc, ◌+◌, ◌-◌, ◌*◌, ◌/◌, ◌%◌, min, Bool, true, false, not, ◌&&◌, ◌||◌, List, [], ◌∷◌,
  ◌++◌, Option, none, some,
}
use xcom_lua.Prelude.Tests.{ltb, leb, ◌==◌, if◌then◌else◌}
use xcom_lua.Prelude.Lists.{take, length, get_or}

-- rx_strip_state: 0 outside an escape sequence, 1 after ESC, 2 in a CSI, 3 in an OSC, 4 after the
-- ESC of an OSC.
pub data Strip : Type 0 where
  outside escape csi osc osc_escape : Strip

abbrev pub is_outside : Strip → Bool
is_outside outside = true
is_outside _ = false

-- The formatter's state in CoreCtx, carried from one block to the next.
pub record TextState : Type 0 where
  pub at_line_start : Bool
  pub strip_state : Strip
  pub pending_cr : Bool

-- What one iteration of the byte loop does: the new state, the byte that it writes, whether it
-- skips the next byte (`++i`), and whether it leaves the loop.
pub record Iteration : Type 0 where
  pub state : TextState
  pub emit : List ℕ
  pub skip : Bool
  pub stop : Bool

-- Inside an escape sequence.
unfoldable pub strip_step : Strip → ℕ → Strip
strip_step outside b = outside
strip_step escape b =
    if b == b'['
    then csi
    else if b == b']'
    then osc
    else if leb 0x40 b && leb b 0x5F
    then outside
    else outside
strip_step osc b = if b == 0x07 then outside else if b == 0x1B then osc_escape else osc
strip_step osc_escape b = outside
strip_step csi b = if leb 0x40 b && leb b 0x7E then outside else csi

-- `i + 1U < n && bytes[i + 1U] == '\n'`
abbrev pub next_is_lf : List ℕ → Bool
next_is_lf [] = false
next_is_lf (b ∷ bs) = b == 10

-- The rest of the iteration for a byte outside any sequence that is not ESC. A break for want of
-- room keeps the line state: what it stores there is overwritten after the loop.
unfoldable pub plain_step : (budget written : ℕ) → TextState → ℕ → List ℕ → Iteration
plain_step budget written s b rest =
    let is_cr = b == 13 in
    let is_lf = b == 10 in
    if not is_cr && (not is_lf && (not (b == 9) && not (leb 0x20 b)))
    then record { state = s; emit = []; skip = false; stop = false }
    else let break_line = is_cr || is_lf in
      let paired = is_cr && next_is_lf rest in
      let pending = if is_cr then (if paired then s.pending_cr else true) else s.pending_cr in
      if leb budget written
      then record {
        state = record s { pending_cr = pending };
        emit = [];
        skip = paired;
        stop = true;
      }
      else record {
        state = record s { at_line_start = break_line; pending_cr = pending };
        emit = (if is_cr then 10 else b) ∷ [];
        skip = paired;
        stop = false;
      }

-- One iteration, from its top: the carried CR, the escape machine, ESC, then the byte itself.
unfoldable pub byte_step : (budget written : ℕ) → TextState → ℕ → List ℕ → Iteration
unfolding strip_step plain_step
byte_step budget written s b rest =
    let s' : TextState = record s { pending_cr = false } in
    if s.pending_cr && (b == 10 && is_outside s.strip_state)
    then record { state = s'; emit = []; skip = false; stop = false }
    else if not (is_outside s.strip_state)
    then record {
      state = record s' { strip_state = strip_step s.strip_state b };
      emit = [];
      skip = false;
      stop = false;
    }
    else if b == 0x1B
    then record {
      state = record s' { strip_state = escape };
      emit = [];
      skip = false;
      stop = false;
    }
    else plain_step budget written s' b rest

-- The loop. `skip` is the `++i` of the iteration before.
unfoldable pub text_loop :
    (budget written : ℕ) (skip : Bool) → List ℕ → TextState → TextState × List ℕ
text_loop budget written skip [] s = (s, [])
text_loop budget written true (b ∷ rest) s = text_loop budget written false rest s
text_loop budget written false (b ∷ rest) s =
    let it = byte_step budget written s b rest in
    let later = text_loop budget (written + length it.emit) it.skip rest it.state in
    if it.stop then (it.state, []) else (later.0, it.emit ++ later.1)

-- format_payload<false>: the state that it leaves in CoreCtx, and the bytes written to `out`.
unfoldable pub format_text : (budget : ℕ) → List ℕ → TextState → TextState × List ℕ
format_text budget bytes s = text_loop budget 0 false (take (min (length bytes) budget) bytes) s

-- "0123456789ABCDEF"
abbrev pub hex_digits : List ℕ
hex_digits = 48 ∷ 49 ∷ 50 ∷ 51 ∷ 52 ∷ 53 ∷ 54 ∷ 55 ∷ 56 ∷ 57 ∷ 65 ∷ 66 ∷ 67 ∷ 68 ∷ 69 ∷ 70 ∷ []

-- An entry of kHexPairs.
unfoldable pub hex_pair : ℕ → ℕ × ℕ
hex_pair value = (get_or hex_digits (value / 16 % 16) 0, get_or hex_digits (value % 16) 0)

-- The loop of format_payload<true>: "AA " for each byte.
unfoldable pub hex_groups : List ℕ → List ℕ
unfolding hex_pair
hex_groups [] = []
hex_groups (b ∷ bs) = (hex_pair b).0 ∷ (hex_pair b).1 ∷ 32 ∷ hex_groups bs

-- `cap_hex`
abbrev pub hex_cap : ℕ → ℕ
hex_cap budget = if ltb 4 budget then (budget - 4) / 3 + 1 else 0

-- format_payload<true>: the bytes left in `out`, the trailing space dropped.
unfoldable pub format_hex : (budget : ℕ) → List ℕ → List ℕ
format_hex budget bytes =
    let n = if ltb (length bytes) (hex_cap budget) then length bytes else hex_cap budget in
    let out = hex_groups (take n bytes) in if ltb 0 n then take (length out - 1) out else out
