-- ===== src/StreamRing.antt =====
-- packages/stream/host/layout.ts: the two byte rings between a streaming transform and its host. A ring is a
-- function from an index below `cap` to the byte there. A position counts the bytes ever written or taken, so
-- it is a natural number, and only its offset in the ring wraps.
pub mod Fifo
pub mod Pipe
pub mod Delivery
pub mod Overrun
pub mod Ending
pub mod Endings
pub mod Missed
pub mod Wakes
pub mod Sleeps
mod Examples
use wac_mono.Base.{
  ℕ, zero, suc, ◌+◌, ◌-◌, ◌*◌, ◌%◌, min, Bool, true, false, Option, none, some, List, [], ◌∷◌, ◌++◌,
  ltb, ◌==◌, if◌then◌else◌, length, take, drop, replicate,
}

-- Per ring.
abbrev pub cap : ℕ
cap = 65536

abbrev pub Ring : Type 0
Ring = ℕ → ℕ

-- `ring[at] = b`.
abbrev pub put : Ring → ℕ → ℕ → Ring
put ring at b q = if at == q then b else ring q

-- The bytes `src` put at `at` and behind it.
unfoldable pub fill : Ring → List ℕ → ℕ → Ring
fill ring [] at = ring
fill ring (b ∷ bs) at = fill (put ring at b) bs (at + 1)

-- `ring.set(src, at)`, which throws where `src` does not fit behind `at`.
unfoldable pub set : Ring → List ℕ → ℕ → Option Ring
set ring src at = if ltb cap (at + length src) then none else some (fill ring src at)

-- The part of `ringWrite` that goes to the start of the ring, if there is one.
unfoldable pub wrap_write : List ℕ → Option Ring → Option Ring
wrap_write rest none = none
wrap_write [] (some ring) = some ring
wrap_write (b ∷ bs) (some ring) = set ring (b ∷ bs) 0

-- Copy `src` into a ring at the position `head`, wrapping; `none` is the error of a copy that does not fit.
unfoldable pub ring_write : Ring → ℕ → List ℕ → Option Ring
ring_write ring head src =
    let start = head % cap in
    let first = min (length src) (cap - start) in
    wrap_write (drop first src) (set ring (take first src) start)

-- `n` bytes from the index `at` on.
unfoldable pub slice : Ring → ℕ → ℕ → List ℕ
slice ring at zero = []
slice ring at (suc n) = ring at ∷ slice ring (at + 1) n

-- Read `n` bytes from a ring at the position `tail`, wrapping. What the ring cannot fill stays 0.
unfoldable pub ring_read : Ring → ℕ → ℕ → List ℕ
ring_read ring tail n =
    let start = tail % cap in
    let first = min n (cap - start) in
    slice ring start first ++ (slice ring 0 (min (n - first) cap) ++ replicate (n - first - cap) 0)
