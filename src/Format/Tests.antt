-- ===== src/Format/Tests.antt =====
-- The formatter on concrete blocks.
use xcom_lua.Prelude.{ℕ, ◌≡◌, ◌≤◌, refl, true, false, List, [], ◌∷◌, ◌++◌, arith}
use xcom_lua.Prelude.Lists.{length}
use xcom_lua.Format.{TextState, outside, format_text, format_hex, hex_groups, text_loop, byte_step}
use xcom_lua.Format.Reference.{format_text_split}
use xcom_lua.Format.Clean.{AllVisible, format_text-AllVisible}
use xcom_lua.Format.Hex.{parse_hex, parse_hex-format_hex}

abbrev settled : TextState
settled = record { at_line_start = true; strip_state = outside; pending_cr = false }

-- "a", ESC "[31m", "b", CR LF
abbrev coloured : List ℕ
coloured = 97 ∷ 27 ∷ 91 ∷ 51 ∷ 49 ∷ 109 ∷ 98 ∷ 13 ∷ 10 ∷ []

format_coloured : format_text 16384 coloured settled ≡ (settled, 97 ∷ 98 ∷ 10 ∷ [])
unfolding format_text text_loop byte_step
format_coloured = refl

-- A block that ends within the CR LF pair.
abbrev first_half : List ℕ
first_half = 97 ∷ 13 ∷ []

abbrev second_half : List ℕ
second_half = 10 ∷ 98 ∷ []

format_text_split_example :
    let first = format_text 4096 first_half settled in
    let second = format_text 4096 second_half first.0 in
    format_text 8192 (first_half ++ second_half) settled ≡ (second.0, first.1 ++ second.1)
format_text_split_example =
    format_text_split 4096 8192 first_half second_half settled (omega arith) (omega arith)
      (omega arith)

format_text-AllVisible_example :
    AllVisible (format_text 16384 coloured settled).1
    × (length (format_text 16384 coloured settled).1 ≤ 9)
format_text-AllVisible_example = format_text-AllVisible 16384 coloured settled (omega arith)

format_hex_dead : format_hex 16384 (0xDE ∷ 0xAD ∷ []) ≡ 68 ∷ 69 ∷ 32 ∷ 65 ∷ 68 ∷ []
unfolding format_hex hex_groups
format_hex_dead = refl

parse_hex-format_hex_example : parse_hex (format_hex 16384 (0xDE ∷ 0xAD ∷ [])) ≡ 0xDE ∷ 0xAD ∷ []
parse_hex-format_hex_example =
    parse_hex-format_hex 16384 (0xDE ∷ 0xAD ∷ []) (omega arith) (omega arith)
