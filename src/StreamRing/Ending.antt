-- ===== src/StreamRing/Ending.antt =====
-- packages/stream/host/bridge.ts and worker.ts: how a stream of input ends. The producer closes it or aborts it, by marks
-- beside the counters; a turn of the loop of `read` loads the head, then the mark of an error, then that of the end. Each
-- load and each store is a step, since the two sides are threads.
use wac_mono.Base.{
  ℕ, ℤ, pos, negsuc, Bool, true, false, not, ◌&&◌, List, [], ◌∷◌, ltb, ◌==◌, if◌then◌else◌, length,
}
use wac_mono.StreamRing.Pipe.{Pipe, new_pipe, accept, feed_turn, read_turn}

-- Where the reader stands: between two turns; behind the load of the head; behind the load of the error's mark, which was
-- not set; and at its end, with `Read.End` or `Read.Failed`.
pub data Reader : Type 0 where
  idle past_error ended broken : Reader
  sampled : ℤ → Reader

pub record Stream : Type 0 where
  pub pipe : Pipe
  pub eof : Bool
  pub err : Bool
  pub reader : Reader

abbrev pub new_stream : Stream
new_stream = record { pipe = new_pipe; eof = false; err = false; reader = idle }

-- A stream sends no chunk once it is closed or aborted, and does either only when no chunk is being copied.
abbrev is_open : Stream → Bool
is_open s = not s.eof && not s.err

abbrev is_settled : Stream → Bool
is_settled s = is_open s && (length s.pipe.rest == 0) && not s.pipe.failed

unfoldable pub write_chunk : Stream → List ℕ → Stream
write_chunk s bytes = if is_open s then record s { pipe = accept s.pipe bytes } else s

unfoldable pub feed : Stream → Stream
feed s = record s { pipe = feed_turn s.pipe s.pipe.head }

unfoldable pub close : Stream → Stream
close s = if is_settled s then record s { eof = true } else s

-- The two stores of `abort`.
unfoldable pub abort_error : Stream → Stream
abort_error s = if is_settled s then record s { err = true } else s

unfoldable pub abort_end : Stream → Stream
abort_end s = if s.err then record s { eof = true } else s

unfoldable pub look : Stream → Reader → Stream
look s idle = record s { reader = sampled s.pipe.head }
look s other = s

abbrev pub is_available : Pipe → ℤ → Bool
is_available p (pos h) = ltb p.tail h
is_available p (negsuc k) = false

-- What is available is taken; else the mark of an error is asked for.
unfoldable pub test_error : Stream → Reader → Stream
test_error s (sampled h) =
    if is_available s.pipe h
    then record s { pipe = read_turn s.pipe h; reader = idle }
    else if s.err
    then record s { reader = broken }
    else record s { reader = past_error }
test_error s other = s

unfoldable pub test_end : Stream → Reader → Stream
test_end s past_error = if s.eof then record s { reader = ended } else record s { reader = idle }
test_end s other = s

pub data Act : Type 0 where
  writes : List ℕ → Act
  feeds closes aborts_error aborts_end looks tests_error tests_end : Act

unfoldable pub act : Stream → Act → Stream
unfolding write_chunk feed close abort_error abort_end look test_error test_end
act s (writes bytes) = write_chunk s bytes
act s feeds = feed s
act s closes = close s
act s aborts_error = abort_error s
act s aborts_end = abort_end s
act s looks = look s s.reader
act s tests_error = test_error s s.reader
act s tests_end = test_end s s.reader

unfoldable pub run : Stream → List Act → Stream
unfolding act
run s [] = s
run s (a ∷ rest) = run (act s a) rest
