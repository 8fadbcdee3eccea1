-- ===== src/StreamRing/Overrun.antt =====
-- What becomes of a stream when a counter runs over 2^31.
use wac_mono.Base.{
  ℕ, ◌+◌, ◌-◌, ◌%◌, ◌≤◌, ◌<◌, ◌≡◌, ◌≢◌, refl, sym, subst, arith, min, ℤ, pos, negsuc, false, ◌||◌,
  List, [], ◌∷◌, ltb, ◌==◌, if_intro, length, take, length-take,
}
use wac_mono.StreamRing.{cap, ring_write}
use wac_mono.StreamRing.Fifo.{ring_write-write_each}
use wac_mono.StreamRing.Pipe.{
  int32, free_of, write_at, Pipe, copied, feed_turn, read_turn, accept, Move, writes, feeds, reads,
  move, move_all,
}

-- The head stands at -(k + 1), and the bytes in `xs` are all that the transform has read.
record Stuck (k : ℕ) (xs : List ℕ) (s : Pipe) : Type 0 where
  below : s.head ≡ negsuc k
  unread : s.got ≡ xs

accept-Stuck :
    (k : ℕ) (xs : List ℕ) (s : Pipe) (bytes : List ℕ) → Stuck k xs s → Stuck k xs (accept s bytes)
unfolding accept
accept-Stuck k xs s bytes v =
    if_intro (Stuck k xs) (s.failed || ltb 0 (length s.rest)) (λ busy. v)
      (λ idle. record { below = v.below; unread = v.unread })

feed_turn-Stuck :
    (k : ℕ) (xs : List ℕ) (s : Pipe) (h : ℤ)
    → (k + 1) % cap ≢ 0
    → s.head ≡ h
    → Stuck k xs s
    → Stuck k xs (feed_turn s h)
unfolding feed_turn
feed_turn-Stuck k xs s (pos h) n e v = cc v.below
feed_turn-Stuck k xs s (negsuc j) n e v =
    if_intro (Stuck k xs) (length s.rest == 0 || free_of (negsuc j) s.tail == 0) (λ waits. v)
      (λ some_room. throws _ (cc v.below))
  where
    throws :
        (m : ℕ)
        → j ≡ k
        → Stuck k xs (copied s (negsuc j) m (write_at s.ring (negsuc j) (take m s.rest)))
    throws m same =
        let off : ((j + 1) % cap == 0) ≡ false = rw same (ground arith) in
        rw off (unfold copied in record { below = v.below; unread = v.unread })

read_turn-Stuck :
    (k : ℕ) (xs : List ℕ) (s : Pipe) (h : ℤ)
    → s.head ≡ h
    → Stuck k xs s
    → Stuck k xs (read_turn s h)
unfolding read_turn
read_turn-Stuck k xs s (pos h) e v = cc v.below
read_turn-Stuck k xs s (negsuc j) e v = v

move_all-Stuck :
    (k : ℕ) (xs : List ℕ) (s : Pipe) (ms : List Move)
    → (k + 1) % cap ≢ 0
    → Stuck k xs s
    → Stuck k xs (move_all s ms)
unfolding move_all move
move_all-Stuck k xs s [] n v = v
move_all-Stuck k xs s (writes bytes ∷ ms) n v =
    move_all-Stuck k xs (accept s bytes) ms n (accept-Stuck k xs s bytes v)
move_all-Stuck k xs s (feeds ∷ ms) n v =
    move_all-Stuck k xs (feed_turn s s.head) ms n (feed_turn-Stuck k xs s s.head n refl v)
move_all-Stuck k xs s (reads ∷ ms) n v =
    move_all-Stuck k xs (read_turn s s.head) ms n (read_turn-Stuck k xs s s.head refl v)

int32_over : (v : ℕ) → 2147483648 ≤ v → v < 4294967296 → int32 v ≡ negsuc (4294967295 - v)
int32_over v lo hi =
    let e : v % 4294967296 ≡ v = omega arith in
    let f : ltb v 2147483648 ≡ false = ground arith in rw (e, f) refl

-- The turn that runs over.
feed_turn-crosses :
    (s : Pipe) (h n : ℕ)
    → n ≡ min (cap + s.tail - h) (length s.rest)
    → h < 2147483648
    → s.tail ≤ h
    → 2147483648 ≤ h + n
    → Stuck (4294967295 - (h + n)) s.got (feed_turn s (pos h))
unfolding feed_turn
feed_turn-crosses s h n e small behind over =
    if_intro (Stuck (4294967295 - (h + n)) s.got) (length s.rest == 0 || cap + s.tail - h == 0)
      (λ waits. absurd (ground arith)) (λ some_room. crossed _ (sym e))
  where
    crossed :
        (m : ℕ)
        → m ≡ n
        → Stuck
            (4294967295 - (h + n))
            s.got
            (copied s (pos h) m (ring_write s.ring h (take m s.rest)))
    crossed m same =
        rw
          (
            same,
            ring_write-write_each s.ring h (take n s.rest) (omega (arith, length-take n s.rest)),
          )
          (unfold copied in record { below = int32_over (h + n) over (omega arith); unread = refl })

-- Where a turn of `feed` brings the head from `h` to 2^31 or more, and not to a multiple of `cap`, the stored
-- head is below zero: from then on the transform reads nothing, whatever either side does, neither the bytes
-- just copied nor those that were in the ring before.
pub overrun_loses :
    (s : Pipe) (h : ℕ) (ms : List Move)
    → let n = min (cap + s.tail - h) (length s.rest) in
      s.head ≡ pos h
      → h < 2147483648
      → s.tail ≤ h
      → 2147483648 ≤ h + n
      → (h + n) % cap ≢ 0
      → (move_all (feed_turn s s.head) ms).got ≡ s.got
overrun_loses s h ms e small behind over off =
    let n = min (cap + s.tail - h) (length s.rest) in
    let k = 4294967295 - (h + n) in
    let stuck : Stuck k s.got (feed_turn s s.head) =
      subst (λ (z : ℤ). Stuck k s.got (feed_turn s z)) (sym e)
        (feed_turn-crosses s h n refl small behind over) in
    (move_all-Stuck k s.got (feed_turn s s.head) ms (omega arith) stuck).unread
