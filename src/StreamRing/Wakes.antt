-- ===== src/StreamRing/Wakes.antt =====
-- packages/stream/host/layout.ts, bridge.ts and worker.ts: how the transform sleeps for input and is woken. The producer
-- stores what happened, and then `signal` adds one to the count of events and wakes the sleeper. A turn of `read` loads
-- that count, the head, and the two marks, and waits on the count that it loaded. Each load and each store is a step.
use wac_mono.Base.{
  ℕ, ◌+◌, ◌%◌, ℤ, pos, negsuc, Bool, true, false, not, ◌&&◌, List, [], ◌∷◌, ltb, ◌==◌,
  if◌then◌else◌,
}
use wac_mono.StreamRing.Pipe.{advance}

-- Where the reader stands, with the count that it loaded.
pub data Place : Type 0 where
  idle ended broken : Place
  counted past_head past_error to_wait asleep : ℕ → Place

-- `events` is how many there were: the cell holds it modulo 2^32. `due` says that the producer has stored something and
-- has not counted it, and `waking` that it has counted it and has not called `notify`.
pub record Scene : Type 0 where
  pub head : ℤ
  pub tail : ℕ
  pub eof : Bool
  pub err : Bool
  pub due : Bool
  pub waking : Bool
  pub events : ℕ
  pub reader : Place

abbrev pub new_scene : Scene
new_scene = record {
  head = pos 0;
  tail = 0;
  eof = false;
  err = false;
  due = false;
  waking = false;
  events = 0;
  reader = idle;
}

abbrev pub is_available : ℤ → ℕ → Bool
is_available (pos h) tail = ltb tail h
is_available (negsuc k) tail = false

-- A stream is fed, closed or aborted only while it is open, one at a time.
abbrev pub may_begin : Scene → Bool
may_begin s = not s.due && not s.waking && not s.eof && not s.err

unfoldable pub publish : Scene → ℕ → Scene
publish s n = if may_begin s then record s { head = advance s.head n; due = true } else s

unfoldable pub close : Scene → Scene
close s = if may_begin s then record s { eof = true; due = true } else s

-- The two stores of `abort`.
unfoldable pub abort_error : Scene → Scene
abort_error s = if may_begin s then record s { err = true; due = true } else s

unfoldable pub abort_end : Scene → Scene
abort_end s = if s.due && s.err then record s { eof = true } else s

abbrev pub woken : Place → Place
woken (asleep q) = idle
woken other = other

-- The two parts of `signal`. `abort` calls it when it has made both of its stores.
unfoldable pub count_event : Scene → Scene
count_event s =
    if s.due && not (s.err && not s.eof)
    then record s { due = false; waking = true; events = s.events + 1 }
    else s

unfoldable pub notify : Scene → Scene
notify s = if s.waking then record s { waking = false; reader = woken s.reader } else s

abbrev pub take_to : Scene → ℤ → Scene
take_to s (pos h) = record s { tail = h; reader = idle }
take_to s (negsuc k) = s

-- The next load of the reader. `Atomics.wait` sleeps only if the count in the cell is the one that was loaded.
unfoldable pub read_step : Scene → Place → Scene
read_step s idle = record s { reader = counted s.events }
read_step s (counted q) =
    if is_available s.head s.tail then take_to s s.head else record s { reader = past_head q }
read_step s (past_head q) =
    if s.err then record s { reader = broken } else record s { reader = past_error q }
read_step s (past_error q) =
    if s.eof then record s { reader = ended } else record s { reader = to_wait q }
read_step s (to_wait q) =
    if s.events % 4294967296 == q % 4294967296
    then record s { reader = asleep q }
    else record s { reader = idle }
read_step s other = s

pub data Event : Type 0 where
  publishes : ℕ → Event
  closes aborts_error aborts_end counts notifies reads : Event

unfoldable pub happen : Scene → Event → Scene
unfolding publish close abort_error abort_end count_event notify read_step
happen s (publishes n) = publish s n
happen s closes = close s
happen s aborts_error = abort_error s
happen s aborts_end = abort_end s
happen s counts = count_event s
happen s notifies = notify s
happen s reads = read_step s s.reader

unfoldable pub happen_all : Scene → List Event → Scene
unfolding happen
happen_all s [] = s
happen_all s (e ∷ rest) = happen_all (happen s e) rest
