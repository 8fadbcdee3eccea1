-- ===== src/Mutate/Numerals.antt =====
-- tools/mutate/operators.ts: `bumpLiteral`, with the numbers that it reads and writes.
use wac_mono.Base.{
  ℕ, zero, suc, ◌+◌, ◌-◌, ◌*◌, ◌/◌, ◌%◌, Bool, true, false, ◌&&◌, ◌||◌, Option, none, some, [], ◌∷◌,
  ◌++◌, leb, ltb, ◌==◌, if◌then◌else◌,
}
use wac_mono.Mutate.Texts.{Text, text}

abbrev pub is_decimal_unit : ℕ → Bool
is_decimal_unit c = leb 48 c && leb c 57

abbrev pub is_hex_unit : ℕ → Bool
is_hex_unit c = is_decimal_unit c || (leb 97 c && leb c 102) || (leb 65 c && leb c 70)

abbrev pub all_units : (ℕ → Bool) → Text → Bool
all_units p [] = true
all_units p (c ∷ cs) = p c && all_units p cs

-- `+` in a pattern: one unit or more.
abbrev pub some_units : (ℕ → Bool) → Text → Bool
some_units p [] = false
some_units p (c ∷ cs) = p c && all_units p cs

abbrev pub digit_value : ℕ → ℕ
digit_value c = if leb c 57 then c - 48 else if leb 97 c then c - 87 else c - 55

abbrev pub digit_unit : ℕ → ℕ
digit_unit d = if ltb d 10 then d + 48 else d + 87

-- `BigInt(text)`, where `value` stands in front of the digits.
unfoldable pub read_digits : ℕ → ℕ → Text → ℕ
read_digits base value [] = value
read_digits base value (c ∷ cs) = read_digits base (value * base + digit_value c) cs

-- `n.toString(base)`. A number has no more digits than `n + 1`, which is the fuel.
unfoldable pub write_digits : ℕ → ℕ → ℕ → Text
write_digits base zero n = []
write_digits base (suc fuel) n =
    let front = write_digits base fuel (n / base) in
    if ltb n base then digit_unit n ∷ [] else front ++ digit_unit (n % base) ∷ []

unfoldable pub write_number : ℕ → ℕ → Text
unfolding write_digits
write_number base n = write_digits base (n + 1) n

-- What stands behind `0x` or `0X`.
abbrev pub hex_part : Text → Option Text
hex_part [] = none
hex_part (z ∷ []) = none
hex_part (z ∷ (x ∷ digits)) = if (z == 48) && ((x == 120) || (x == 88)) then some digits else none

unfoldable pub bump_decimal : Text → Option Text
bump_decimal t =
    if some_units is_decimal_unit t then some (write_number 10 (read_digits 10 0 t + 1)) else none

unfoldable pub bump_literal : Text → Option Text
unfolding bump_decimal
bump_literal t = elim (hex_part t) [
  | none ↦ bump_decimal t
  | some digits ↦
      if some_units is_hex_unit digits
      then some (text "0x" ++ write_number 16 (read_digits 16 0 digits + 1))
      else bump_decimal t
]
