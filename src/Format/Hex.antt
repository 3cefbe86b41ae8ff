-- ===== src/Format/Hex.antt =====
-- The hex view: it fits its batch, and loses nothing.
use xcom_lua.Prelude.{
  ℕ, zero, suc, ◌+◌, ◌-◌, ◌*◌, ◌/◌, ◌%◌, ◌≤◌, ◌<◌, ◌≡◌, refl, List, [], ◌∷◌, arith,
}
use xcom_lua.Prelude.Tests.{ltb, leb, if◌then◌else◌, lt→ltb}
use xcom_lua.Prelude.Lists.{take, length, get_or, take_of_le}
use xcom_lua.Format.{hex_pair, hex_digits, hex_groups, hex_cap, format_hex}

-- The value of an upper-case hex digit.
abbrev pub hex_value : ℕ → ℕ
hex_value c = if leb c 57 then c - 48 else c - 55

-- Reads "AA BB CC".
unfoldable pub parse_hex : List ℕ → List ℕ
parse_hex [] = []
parse_hex (a ∷ []) = []
parse_hex (a ∷ b ∷ []) = (hex_value a * 16 + hex_value b) ∷ []
parse_hex (a ∷ b ∷ c ∷ rest) = (hex_value a * 16 + hex_value b) ∷ parse_hex rest

abbrev pub AllBytes : List ℕ → Type 0
AllBytes [] = Unit
AllBytes (b ∷ bs) = (b < 256) × AllBytes bs

-- The digits of the table have the values i, i + 1, and so on.
abbrev Values : ℕ → List ℕ → Type 0
Values i [] = Unit
Values i (c ∷ cs) = (hex_value c ≡ i) × Values (i + 1) cs

hex_digits-Values : Values 0 hex_digits
hex_digits-Values = omega arith

get_or-Values :
    (cs : List ℕ) (i d : ℕ) → Values i cs → d < length cs → hex_value (get_or cs d 0) ≡ i + d
get_or-Values [] i d v h = absurd (omega arith)
get_or-Values (c ∷ cs) i zero v h = omega arith
get_or-Values (c ∷ cs) i (suc d) v h = omega (arith, get_or-Values cs (i + 1) d v.1 (omega arith))

digit_value : (d : ℕ) → d < 16 → hex_value (get_or hex_digits d 0) ≡ d
digit_value d h = omega (arith, get_or-Values hex_digits 0 d hex_digits-Values h)

-- The two digits of a byte have its value.
pair_value : (v : ℕ) → v < 256 → hex_value (hex_pair v).0 * 16 + hex_value (hex_pair v).1 ≡ v
unfolding hex_pair
pair_value v h =
    omega (arith, digit_value (v / 16 % 16) (omega arith), digit_value (v % 16) (omega arith))

length-hex_groups : (bs : List ℕ) → length (hex_groups bs) ≡ 3 * length bs
unfolding hex_groups
length-hex_groups [] = omega arith
length-hex_groups (b ∷ bs) = omega (arith, length-hex_groups bs)

length-take-le : (n : ℕ) (xs : List ℕ) → length (take n xs) ≤ n
length-take-le zero xs = omega arith
length-take-le (suc n) [] = omega arith
length-take-le (suc n) (x ∷ xs) = omega (arith, length-take-le n xs)

length-take-sub_one : (xs : List ℕ) (n : ℕ) → length (take n xs) ≤ length xs
length-take-sub_one xs zero = omega arith
length-take-sub_one [] (suc n) = omega arith
length-take-sub_one (x ∷ xs) (suc n) = omega (arith, length-take-sub_one xs n)

-- Without the trailing space the groups are read back.
parse_hex-groups :
    (b : ℕ) (bs : List ℕ) (n : ℕ)
    → AllBytes (b ∷ bs)
    → n ≡ 3 * length bs + 2
    → parse_hex (take n (hex_groups (b ∷ bs))) ≡ b ∷ bs
unfolding parse_hex hex_groups
parse_hex-groups b [] zero v e = absurd (omega arith)
parse_hex-groups b [] (suc zero) v e = absurd (omega arith)
parse_hex-groups b [] (suc (suc zero)) v e = rw (pair_value b v.0)
parse_hex-groups b [] (suc (suc (suc n))) v e = absurd (omega arith)
parse_hex-groups b (c ∷ bs) zero v e = absurd (omega arith)
parse_hex-groups b (c ∷ bs) (suc zero) v e = absurd (omega arith)
parse_hex-groups b (c ∷ bs) (suc (suc zero)) v e = absurd (omega arith)
parse_hex-groups b (c ∷ bs) (suc (suc (suc n))) v e =
    rw (parse_hex-groups c bs n v.1 (omega arith), pair_value b v.0)

-- The number of bytes that format_payload<true> takes.
abbrev taken : ℕ → List ℕ → ℕ
taken budget bytes = if ltb (length bytes) (hex_cap budget) then length bytes else hex_cap budget

-- No write of the hex loop, the last space included, goes past the budget: the bytes left in the
-- batch are at most the budget less one, and they are at most three for each input byte.
pub length-format_hex :
    (budget : ℕ) (bytes : List ℕ)
    → (length (format_hex budget bytes) ≤ budget - 1)
      × (length (format_hex budget bytes) ≤ 3 * length bytes)
      × (length (hex_groups (take (taken budget bytes) bytes)) ≤ budget)
unfolding format_hex
length-format_hex budget bytes =
    let n = taken budget bytes in
    ground (
      arith,
      length-hex_groups (take n bytes),
      length-take-le n bytes,
      length-take-sub_one bytes n,
      length-take-le (length (hex_groups (take n bytes)) - 1) (hex_groups (take n bytes)),
      length-take-sub_one (hex_groups (take n bytes)) (length (hex_groups (take n bytes)) - 1),
    )

take-nil : (n : ℕ) → take {A = ℕ} n [] ≡ []
take-nil zero = refl
take-nil (suc n) = refl

read_nothing : (budget : ℕ) → parse_hex (format_hex budget []) ≡ []
unfolding parse_hex format_hex hex_groups
read_nothing budget = ground (arith, take-nil (hex_cap budget))

-- A block of at most (budget - 4) / 3 + 1 bytes, at a budget above 4, is shown whole: reading the
-- hex text gives back its bytes.
pub parse_hex-format_hex :
    (budget : ℕ) (bytes : List ℕ)
    → AllBytes bytes
    → length bytes ≤ hex_cap budget
    → parse_hex (format_hex budget bytes) ≡ bytes
unfolding format_hex
parse_hex-format_hex budget [] v h = read_nothing budget
parse_hex-format_hex budget (b ∷ bs) v h =
    let n = taken budget (b ∷ bs) in
    let whole : n ≡ length (b ∷ bs) = ground arith in
    rw
      (
        whole,
        take_of_le (length (b ∷ bs)) (b ∷ bs) (omega arith),
        lt→ltb 0 (suc (length bs)) (omega arith),
      )
      (parse_hex-groups b bs (length (hex_groups (b ∷ bs)) - 1) v
        (omega (arith, length-hex_groups (b ∷ bs))))
