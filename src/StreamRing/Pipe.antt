-- ===== src/StreamRing/Pipe.antt =====
-- packages/stream/host/bridge.ts and worker.ts: one direction of a stream, from the chunks that are written to
-- it to the reads of the transform. The producer is the loop of `feed`, the consumer the loop of `read`; a turn
-- of either loop is a step. The counters are read once in a turn and each is written by one side only. `head`
-- is kept as the Int32 that it is; `tail` only ever becomes a positive value of `head`, so it is a natural
-- number. A loop that waits stays where it is.
use wac_mono.Base.{
  ℕ, ◌+◌, ◌-◌, ◌%◌, min, ℤ, pos, negsuc, Bool, true, false, ◌||◌, Option, none, some, List, [], ◌∷◌,
  ◌++◌, ltb, ◌==◌, if◌then◌else◌, length, take, drop,
}
use wac_mono.StreamRing.{cap, Ring, ring_write, ring_read}

-- A number as an Int32Array stores it.
abbrev pub int32 : ℕ → ℤ
int32 v = let w = v % 4294967296 in if ltb w 2147483648 then pos w else negsuc (4294967295 - w)

-- `Atomics.store` of `head + n`.
abbrev pub advance : ℤ → ℕ → ℤ
advance (pos h) n = int32 (h + n)
advance (negsuc k) n = if ltb k n then int32 (n - k - 1) else negsuc (k - n)

-- `CAP - (head - tail)`. The difference is never above `cap`.
abbrev pub free_of : ℤ → ℕ → ℕ
free_of (pos h) tail = cap + tail - h
free_of (negsuc k) tail = cap + tail + k + 1

-- `ringWrite` at a head that may be below zero: its offset is then below zero too, where a typed array throws,
-- unless it is a multiple of `cap`.
abbrev pub write_at : Ring → ℤ → List ℕ → Option Ring
write_at ring (pos h) src = ring_write ring h src
write_at ring (negsuc k) src = if (k + 1) % cap == 0 then ring_write ring 0 src else none

-- `rest` is what `feed` has still to copy of its chunk, and `failed` says that it threw. `given` and `got` are
-- all the bytes that were written to the stream and that the transform has read.
pub record Pipe : Type 0 where
  pub ring : Ring
  pub head : ℤ
  pub tail : ℕ
  pub rest : List ℕ
  pub failed : Bool
  pub given : List ℕ
  pub got : List ℕ

abbrev pub new_pipe : Pipe
new_pipe = record {
  ring = λ i. 0;
  head = pos 0;
  tail = 0;
  rest = [];
  failed = false;
  given = [];
  got = [];
}

-- After a copy of `n` bytes at `head`, if the copy did not throw.
unfoldable pub copied : Pipe → ℤ → ℕ → Option Ring → Pipe
copied s head n none = record s { rest = []; failed = true }
copied s head n (some ring) = record s { ring = ring; head = advance head n; rest = drop n s.rest }

-- One turn of the loop of `feed`, at the head that it loads. The loop ends when nothing is left of its chunk.
unfoldable pub feed_turn : Pipe → ℤ → Pipe
feed_turn s head =
    let free = free_of head s.tail in
    let n = min free (length s.rest) in
    if length s.rest == 0 || free == 0
    then s
    else copied s head n (write_at s.ring head (take n s.rest))

-- One turn of the loop of `read`, at the head that it loads: all that is available, if anything is.
unfoldable pub read_turn : Pipe → ℤ → Pipe
read_turn s (pos h) =
    if ltb s.tail h
    then record s { tail = h; got = s.got ++ ring_read s.ring s.tail (h - s.tail) }
    else s
read_turn s (negsuc k) = s

-- A chunk reaches `feed` when the one before it is done and has not failed.
unfoldable pub accept : Pipe → List ℕ → Pipe
accept s bytes =
    if s.failed || ltb 0 (length s.rest)
    then s
    else record s { rest = bytes; given = s.given ++ bytes }

pub data Move : Type 0 where
  writes : List ℕ → Move
  feeds : Move
  reads : Move

unfoldable pub move : Pipe → Move → Pipe
move s (writes bytes) = accept s bytes
move s feeds = feed_turn s s.head
move s reads = read_turn s s.head

unfoldable pub move_all : Pipe → List Move → Pipe
move_all s [] = s
move_all s (m ∷ ms) = move_all (move s m) ms
