-- ===== src/Wire/Bytes.antt =====
-- Integers and parts of a `Uint8Array`, as `DataView` and `subarray` read and write them. A read beyond the array
-- throws, `none` here; a part is cut to the array, and a negative bound counts from its end.

use native.Mathlib.Decide.{dec_le}
use wac_mono.Base.{
  if_intro, drop_all, ℕ, zero, suc, ◌+◌, ◌-◌, ◌*◌, ◌/◌, ◌%◌, ◌^◌, ◌<◌, min, ◌≡◌, refl, sym, ap, ◌∙◌,
  arith, ℤ, pos, negsuc, Option, none, some, List, [], ◌∷◌, ◌++◌, length, take, drop, ltb,
  if◌then◌else◌, length-append, length-drop, take-append_ge, append-nil,
}

abbrev pub Bytes : Type 0
Bytes = List ℕ

-- The 32-bit pattern of an integer.
abbrev pub wrap32 : ℤ → ℕ
wrap32 (pos n) = n % 2 ^ 32
wrap32 (negsuc n) = 2 ^ 32 - 1 - n % 2 ^ 32

abbrev pub signed32 : ℕ → ℤ
signed32 w = if ltb w (2 ^ 31) then pos w else negsuc (2 ^ 32 - 1 - w)

abbrev pub le32 : ℕ → Bytes
le32 w = w % 256 ∷ w / 256 % 256 ∷ w / 65536 % 256 ∷ w / 16777216 % 256 ∷ []

-- `i32le`, and `setInt32(…, true)`.
unfoldable pub i32le : ℤ → Bytes
i32le n = le32 (wrap32 n)

abbrev read_le32 : Bytes → Option ℤ
read_le32 (a ∷ b ∷ c ∷ d ∷ rest) = some (signed32 (a + b * 256 + c * 65536 + d * 16777216))
read_le32 _ = none

-- `getInt32(at, true)`.
unfoldable pub get_i32 : Bytes → ℤ → Option ℤ
get_i32 p (pos at) = read_le32 (drop at p)
get_i32 p (negsuc n) = none

-- `readI32le(b)`.
unfoldable pub read_i32le : Bytes → Option ℤ
unfolding get_i32
read_i32le p = get_i32 p (pos 0)

infixl 60 ◌+ℤ◌
abbrev pub ◌+ℤ◌ : ℤ → ℤ → ℤ
pos a +ℤ pos b = pos (a + b)
pos a +ℤ negsuc b = if ltb b a then pos (a - suc b) else negsuc (b - a)
negsuc a +ℤ pos b = if ltb a b then pos (b - suc a) else negsuc (a - b)
negsuc a +ℤ negsuc b = negsuc (suc (a + b))

-- A bound of `subarray` as a place in an array of so many bytes.
abbrev pub bound : ℕ → ℤ → ℕ
bound total (pos n) = min n total
bound total (negsuc n) = total - suc n

-- `p.subarray(start, end)`, and `p.slice(start, end)`.
unfoldable pub subarray : Bytes → ℤ → ℤ → Bytes
subarray p start end =
    let from = bound (length p) start in take (bound (length p) end - from) (drop from p)

-- `p.subarray(start)`.
unfoldable pub subarray_from : Bytes → ℤ → Bytes
subarray_from p start = drop (bound (length p) start) p

-- The 64-bit pattern of an integer, and back.
abbrev pub wrap64 : ℤ → ℕ
wrap64 (pos n) = n % 2 ^ 64
wrap64 (negsuc n) = 2 ^ 64 - 1 - n % 2 ^ 64

abbrev pub signed64 : ℕ → ℤ
signed64 w = if ltb w (2 ^ 63) then pos w else negsuc (2 ^ 64 - 1 - w)

-- `i64le`, and `setBigInt64(…, true)`.
unfoldable pub i64le : ℤ → Bytes
i64le n = le32 (wrap64 n % 2 ^ 32) ++ le32 (wrap64 n / 2 ^ 32)

abbrev pub read_le64 : Bytes → Option ℤ
read_le64 (a ∷ b ∷ c ∷ d ∷ e ∷ f ∷ g ∷ h ∷ rest) = some (
    signed64
      (a + b * 256 + c * 65536 + d * 16777216 + (e + f * 256 + g * 65536 + h * 16777216) * 2 ^ 32))
read_le64 _ = none

-- `getBigInt64(at, true)`.
unfoldable pub get_i64 : Bytes → ℕ → Option ℤ
get_i64 p at = read_le64 (drop at p)

-- What a 64-bit integer can be.
abbrev pub IsInt64 : ℤ → Type 0
IsInt64 (pos n) = n < 2 ^ 63
IsInt64 (negsuc n) = n < 2 ^ 63

-- What a 32-bit integer can be.
abbrev pub IsInt32 : ℤ → Type 0
IsInt32 (pos n) = n < 2 ^ 31
IsInt32 (negsuc n) = n < 2 ^ 31

-- What stands in the array from a place on.
abbrev pub StandsFrom : Bytes → ℕ → Bytes → Type 0
StandsFrom p at rest = drop at p ≡ rest

le32_whole :
    (v : ℕ)
    → v < 2 ^ 32
    → v % 256 + v / 256 % 256 * 256 + v / 65536 % 256 * 65536 + v / 16777216 % 256 * 16777216 ≡ v
le32_whole v h = omega arith

read_le32-le32 :
    (w : ℕ) (rest : Bytes) → w < 2 ^ 32 → read_le32 (le32 w ++ rest) ≡ some (signed32 w)
read_le32-le32 w rest h = ap (λ v. some (signed32 v)) (le32_whole w h)

signed32-wrap32 : (n : ℤ) → IsInt32 n → signed32 (wrap32 n) ≡ n
signed32-wrap32 (pos n) h =
    let kept : n % 2 ^ 32 ≡ n = omega arith in
    rw kept (if_intro (λ z. z ≡ pos n) (ltb n (2 ^ 31)) (λ t. refl) (λ f. absurd (ground arith)))
signed32-wrap32 (negsuc n) h =
    let kept : n % 2 ^ 32 ≡ n = omega arith in
    let back : 2 ^ 32 - 1 - (2 ^ 32 - 1 - n) ≡ n = omega arith in
    rw kept (
      if_intro (λ z. z ≡ negsuc n) (ltb (2 ^ 32 - 1 - n) (2 ^ 31)) (λ t. absurd (ground arith))
        (λ f. ap negsuc back))

wrap32-lt : (n : ℤ) → wrap32 n < 2 ^ 32
wrap32-lt (pos n) = omega arith
wrap32-lt (negsuc n) = omega arith

signed64-wrap64 : (n : ℤ) → IsInt64 n → signed64 (wrap64 n) ≡ n
signed64-wrap64 (pos n) h =
    let kept : n % 2 ^ 64 ≡ n = omega arith in
    rw kept (if_intro (λ z. z ≡ pos n) (ltb n (2 ^ 63)) (λ t. refl) (λ f. absurd (ground arith)))
signed64-wrap64 (negsuc n) h =
    let kept : n % 2 ^ 64 ≡ n = omega arith in
    let back : 2 ^ 64 - 1 - (2 ^ 64 - 1 - n) ≡ n = omega arith in
    rw kept (
      if_intro (λ z. z ≡ negsuc n) (ltb (2 ^ 64 - 1 - n) (2 ^ 63)) (λ t. absurd (ground arith))
        (λ f. ap negsuc back))

wrap64-lt : (n : ℤ) → wrap64 n < 2 ^ 64
wrap64-lt (pos n) = omega arith
wrap64-lt (negsuc n) = omega arith

le64_whole :
    (w : ℕ)
    → w < 2 ^ 64
    → let low = w % 2 ^ 32 in
      let high = w / 2 ^ 32 in
      low % 256
        + low / 256 % 256 * 256
        + low / 65536 % 256 * 65536
        + low / 16777216 % 256 * 16777216
        + (high % 256
            + high / 256 % 256 * 256
            + high / 65536 % 256 * 65536
            + high / 16777216 % 256 * 16777216)
          * 2 ^ 32
      ≡ w
le64_whole w h =
    rw (le32_whole (w % 2 ^ 32) (omega arith), le32_whole (w / 2 ^ 32) (omega arith)) (omega arith)

read_le64-i64le : (n : ℤ) (rest : Bytes) → IsInt64 n → read_le64 (i64le n ++ rest) ≡ some n
unfolding i64le
read_le64-i64le n rest small =
    ap (λ v. some (signed64 v)) (le64_whole (wrap64 n) (wrap64-lt n))
    ∙ ap some (signed64-wrap64 n small)

-- The same of an integer of 64 bits.
pub get_i64-stands :
    (p : Bytes) (at : ℕ) (n : ℤ) (rest : Bytes)
    → IsInt64 n
    → StandsFrom p at (i64le n ++ rest)
    → get_i64 p at ≡ some n
unfolding get_i64
get_i64-stands p at n rest small there = ap read_le64 there ∙ read_le64-i64le n rest small

-- An integer that stands at a place is read there.
pub get_i32-stands :
    (p : Bytes) (at : ℕ) (n : ℤ) (rest : Bytes)
    → IsInt32 n
    → StandsFrom p at (i32le n ++ rest)
    → get_i32 p (pos at) ≡ some n
unfolding get_i32 i32le
get_i32-stands p at n rest small there =
    ap read_le32 there
    ∙ read_le32-le32 (wrap32 n) rest (wrap32-lt n)
    ∙ ap some (signed32-wrap32 n small)

pub length-i32le : (n : ℤ) → length (i32le n) ≡ 4
unfolding i32le
length-i32le n = refl

drop-nil : (n : ℕ) → drop {A = ℕ} n [] ≡ []
drop-nil zero = refl
drop-nil (suc n) = refl

pub drop_twice : (m n : ℕ) (p : Bytes) → drop m (drop n p) ≡ drop (n + m) p
drop_twice m zero p = let e : 0 + m ≡ m = omega arith in rw e refl
drop_twice m (suc n) [] = drop-nil m ∙ sym (drop-nil (suc n + m))
drop_twice m (suc n) (b ∷ p) =
    let e : suc n + m ≡ suc (n + m) = omega arith in rw e (drop_twice m n p)

drop_past : (xs ys : Bytes) → drop (length xs) (xs ++ ys) ≡ ys
drop_past [] ys = refl
drop_past (x ∷ xs) ys = drop_past xs ys

-- Behind a part stands the next.
pub StandsFrom-past :
    (p : Bytes) (at : ℕ) (xs ys : Bytes)
    → StandsFrom p at (xs ++ ys)
    → StandsFrom p (at + length xs) ys
StandsFrom-past p at xs ys there =
    sym (drop_twice (length xs) at p) ∙ ap (drop (length xs)) there ∙ drop_past xs ys

drop_cut : (at : ℕ) (p : Bytes) → drop (min at (length p)) p ≡ drop at p
drop_cut at p = elim (dec_le at (length p)) [
  | yes h ↦ let e : min at (length p) ≡ at = omega arith in rw e refl
  | no h ↦
      let e : min at (length p) ≡ length p = omega arith in
      rw e (drop_all (length p) p (omega arith) ∙ sym (drop_all at p (omega arith)))
]

-- A part that stands at a place is cut out there.
pub subarray-stands :
    (p : Bytes) (at : ℕ) (xs ys : Bytes)
    → StandsFrom p at (xs ++ ys)
    → subarray p (pos at) (pos (at + length xs)) ≡ xs
unfolding subarray
subarray-stands p at xs ys there =
    let sizes : length xs + length ys ≡ length p - at =
      omega (arith, length-append xs ys, ap length there, length-drop at p) in
    let cut : min (at + length xs) (length p) - min at (length p) ≡ length xs = omega arith in
    rw (cut, drop_cut at p, there)
      (take-append_ge (length xs) 0 xs ys (omega arith) ∙ append-nil xs)

pub subarray_from-stands :
    (p : Bytes) (at : ℕ) (xs : Bytes) → StandsFrom p at xs → subarray_from p (pos at) ≡ xs
unfolding subarray_from
subarray_from-stands p at xs there = drop_cut at p ∙ there
