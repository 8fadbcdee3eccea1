-- ===== src/Mutate/Digits.antt =====
-- Numbers in digits: what is written reads back, and a bumped literal reads as one more.
use wac_mono.Base.{
  ℕ, zero, suc, ◌+◌, ◌*◌, ◌/◌, ◌%◌, ◌≤◌, ◌<◌, ◌≡◌, ◌≢◌, refl, sym, ◌∙◌, ap, arith, Bool, true,
  false, ◌&&◌, ◌||◌, Option, none, some, [], ◌∷◌, ◌++◌, ◌==◌, ltb, if◌then◌else◌, if_intro,
  some_inj, drop, subst, All, All-append,
}
use wac_mono.Mutate.Texts.{Text, text}
use wac_mono.Mutate.Numerals.{
  is_decimal_unit, is_hex_unit, some_units, digit_value, digit_unit, read_digits, write_digits,
  write_number, hex_part, bump_decimal, bump_literal,
}
use native.Mathlib.Nat.{div-add-mod', mod-lt}

digit_value-digit_unit : (d : ℕ) → d < 16 → digit_value (digit_unit d) ≡ d
digit_value-digit_unit d h = ground arith

read_digits-append :
    (base value : ℕ) (xs ys : Text)
    → read_digits base value (xs ++ ys) ≡ read_digits base (read_digits base value xs) ys
unfolding read_digits
read_digits-append base value [] ys = refl
read_digits-append base value (x ∷ xs) ys =
    read_digits-append base (value * base + digit_value x) xs ys

div-lt : (base n : ℕ) → 2 ≤ base → base ≤ n → n / base < n
div-lt base n b h = grind (arith, div-add-mod' n base)

read_digits-write_digits :
    (base fuel n : ℕ)
    → 2 ≤ base
    → base ≤ 16
    → n < fuel
    → read_digits base 0 (write_digits base fuel n) ≡ n
unfolding read_digits write_digits
read_digits-write_digits base zero n lo hi h = absurd (omega arith)
read_digits-write_digits base (suc fuel) n lo hi h =
    if_intro (λ t. read_digits base 0 t ≡ n) (ltb n base)
      (λ one. omega (arith, digit_value-digit_unit n (ground arith)))
      (λ more.
        let front =
          read_digits-write_digits base fuel (n / base) lo hi
            (omega (arith, div-lt base n lo (ground arith))) in
        let last =
          digit_value-digit_unit (n % base) (omega (arith, mod-lt n {m = base} (omega arith))) in
        rw
          (read_digits-append base 0 (write_digits base fuel (n / base))
            (digit_unit (n % base) ∷ []))
          (rw (front, last) (div-add-mod' n base)))

-- In every base from 2 to 16, a number that is written in digits reads back as itself.
pub read_digits-write_number :
    (base n : ℕ) → 2 ≤ base → base ≤ 16 → read_digits base 0 (write_number base n) ≡ n
unfolding write_number
read_digits-write_number base n lo hi = read_digits-write_digits base (n + 1) n lo hi (omega arith)

-- Digits that stand for another number are other digits.
pub bumped-ne :
    (base : ℕ) (t : Text) → 2 ≤ base → base ≤ 16 → write_number base (read_digits base 0 t + 1) ≢ t
bumped-ne base t lo hi e =
    let r = read_digits-write_number base (read_digits base 0 t + 1) lo hi in
    let same : read_digits base 0 t ≡ read_digits base 0 t + 1 =
      ap (read_digits base 0) (sym e) ∙ r in
    omega (arith, same)

bump_decimal-ne : (t b : Text) → bump_decimal t ≡ some b → t ≢ b
unfolding bump_decimal
bump_decimal-ne t b e = bumped (some_units is_decimal_unit t) e
  where
    bumped :
        (d : Bool)
        → (if d then some (write_number 10 (read_digits 10 0 t + 1)) else none) ≡ some b
        → t ≢ b
    bumped false e = cc
    bumped true e = λ same. bumped-ne 10 t (omega arith) (omega arith) (some_inj _ b e ∙ sym same)

if_some {ℓ} :
    {A : Type ℓ} (b : Bool) (x y : A) → (if b then some x else none) ≡ some y → some x ≡ some y
if_some true x y e = e
if_some false x y e = cc

hex_part-drop : (t digits : Text) → hex_part t ≡ some digits → drop 2 t ≡ digits
hex_part-drop [] digits e = cc
hex_part-drop (z ∷ []) digits e = cc
hex_part-drop (z ∷ (x ∷ rest)) digits e =
    some_inj rest digits (if_some ((z == 48) && ((x == 120) || (x == 88))) rest digits e)

-- A literal that is bumped is another text, whether it is decimal or hexadecimal.
pub bump_literal-ne : (t b : Text) → bump_literal t ≡ some b → t ≢ b
unfolding bump_literal
bump_literal-ne t b e = bumped (hex_part t) refl e
  where
    bumped :
        (h : Option Text)
        → hex_part t ≡ h
        → (elim h [
          | none ↦ bump_decimal t
          | some digits ↦
              if some_units is_hex_unit digits
              then some (text "0x" ++ write_number 16 (read_digits 16 0 digits + 1))
              else bump_decimal t
        ])
          ≡ some b
        → t ≢ b
    bumped none h e = bump_decimal-ne t b e
    bumped (some digits) h e = hex (some_units is_hex_unit digits) e
      where
        hex :
            (d : Bool)
            → (if d
                then some (text "0x" ++ write_number 16 (read_digits 16 0 digits + 1))
                else bump_decimal t)
              ≡ some b
            → t ≢ b
        hex false e = bump_decimal-ne t b e
        hex true e = λ same.
            let rest : drop 2 t ≡ write_number 16 (read_digits 16 0 digits + 1) =
              ap (drop 2) (same ∙ sym (some_inj _ b e)) in
            bumped-ne 16 digits (omega arith) (omega arith) (sym rest ∙ hex_part-drop t digits h)

write_digits-unquoted : (base fuel n : ℕ) → All (λ c. c ≢ 39) (write_digits base fuel n)
unfolding write_digits
write_digits-unquoted base zero n = tt
write_digits-unquoted base (suc fuel) n =
    if_intro (All (λ c. c ≢ 39)) (ltb n base) (λ one. (digit_unit-unquoted n, tt))
      (λ more.
        All-append _ (write_digits base fuel (n / base)) _
          (write_digits-unquoted base fuel (n / base)) (digit_unit-unquoted (n % base), tt))
  where
    digit_unit-unquoted : (d : ℕ) → digit_unit d ≢ 39
    digit_unit-unquoted d =
        if_intro (λ c. c ≢ 39) (ltb d 10) (λ low e. omega (arith, e)) (λ high e. omega (arith, e))

write_number-unquoted : (base n : ℕ) → All (λ c. c ≢ 39) (write_number base n)
unfolding write_number
write_number-unquoted base n = write_digits-unquoted base (n + 1) n

bump_decimal-unquoted : (t b : Text) → bump_decimal t ≡ some b → All (λ c. c ≢ 39) b
unfolding bump_decimal
bump_decimal-unquoted t b e =
    subst (All (λ c. c ≢ 39)) (some_inj _ b (if_some (some_units is_decimal_unit t) _ b e))
      (write_number-unquoted 10 (read_digits 10 0 t + 1))

-- No single quote stands in a bumped literal.
pub bump_literal-unquoted : (t b : Text) → bump_literal t ≡ some b → All (λ c. c ≢ 39) b
unfolding bump_literal
bump_literal-unquoted t b e = bumped (hex_part t) e
  where
    bumped :
        (h : Option Text)
        → (elim h [
          | none ↦ bump_decimal t
          | some digits ↦
              if some_units is_hex_unit digits
              then some (text "0x" ++ write_number 16 (read_digits 16 0 digits + 1))
              else bump_decimal t
        ])
          ≡ some b
        → All (λ c. c ≢ 39) b
    bumped none e = bump_decimal-unquoted t b e
    bumped (some digits) e = hex (some_units is_hex_unit digits) e
      where
        hex :
            (d : Bool)
            → (if d
                then some (text "0x" ++ write_number 16 (read_digits 16 0 digits + 1))
                else bump_decimal t)
              ≡ some b
            → All (λ c. c ≢ 39) b
        hex false e = bump_decimal-unquoted t b e
        hex true e = subst (All (λ c. c ≢ 39)) (some_inj _ b e) (
          λ q. omega (arith, q),
          (λ q. omega (arith, q), write_number-unquoted 16 (read_digits 16 0 digits + 1)),
        )
