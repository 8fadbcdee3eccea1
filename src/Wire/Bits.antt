-- ===== src/Wire/Bits.antt =====
-- The bitwise or of a small number and a multiple of a power of two.
use Prim.Native.Nat.{max, bit_or, digits, bit_or-bitwise}
use wac_mono.Base.{ℕ, zero, suc, ◌+◌, ◌*◌, ◌/◌, ◌%◌, ◌≤◌, ◌<◌, ◌≡◌, refl, arith}

abbrev or_digits : ℕ → ℕ → ℕ → ℕ
or_digits n a b = digits (λ b. b) max n a b

or_digits_fuel : (n m a b : ℕ) → a ≤ n → a ≤ m → or_digits n a b ≡ or_digits m a b
or_digits_fuel zero zero a b p q = refl
or_digits_fuel zero (suc m) zero b p q = refl
or_digits_fuel zero (suc m) (suc a) b p q = absurd (omega arith)
or_digits_fuel (suc n) zero zero b p q = refl
or_digits_fuel (suc n) zero (suc a) b p q = absurd (omega arith)
or_digits_fuel (suc n) (suc m) zero b p q = refl
or_digits_fuel (suc n) (suc m) (suc a) b p q =
    omega (arith, or_digits_fuel n m (suc a / 2) (b / 2) (omega arith) (omega arith))

zero-bit_or : (b : ℕ) → bit_or 0 b ≡ b
zero-bit_or b = bit_or-bitwise 0 b

bit_or_step : (a b : ℕ) → bit_or a b ≡ bit_or (a / 2) (b / 2) * 2 + max (a % 2) (b % 2)
bit_or_step zero b = omega (arith, zero-bit_or b, zero-bit_or (b / 2))
bit_or_step (suc a) b = omega (
  arith,
  bit_or-bitwise (suc a) b,
  bit_or-bitwise (suc a / 2) (b / 2),
  or_digits_fuel a (suc a / 2) (suc a / 2) (b / 2) (omega arith) (omega arith),
)

-- A doubled second argument has no lowest digit.
bit_or-double : (a b : ℕ) → bit_or a (b * 2) ≡ bit_or (a / 2) b * 2 + a % 2
bit_or-double a b =
    let half : b * 2 / 2 ≡ b = omega arith in
    let none_there : b * 2 % 2 ≡ 0 = omega arith in
    rw (bit_or_step a (b * 2), half, none_there) (omega arith)

abbrev pub doubled : ℕ → ℕ → ℕ
doubled zero b = b
doubled (suc k) b = doubled k b * 2

-- `k` doublings leave room for the `k` digits of a smaller number.
pub bit_or-doubled : (k a b : ℕ) → a < doubled k 1 → bit_or a (doubled k b) ≡ a + doubled k b
bit_or-doubled zero a b h = let e : a ≡ 0 = omega arith in rw e (omega (arith, zero-bit_or b))
bit_or-doubled (suc k) a b h =
    omega (arith, bit_or-double a (doubled k b), bit_or-doubled k (a / 2) b (omega arith))
