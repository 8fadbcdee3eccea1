-- ===== src/StreamRing/Examples.antt =====
-- The rings and the stream at concrete inputs.
use wac_mono.Base.{◌≡◌, refl, arith, pos, List, [], ◌∷◌, length, false}
use wac_mono.StreamRing.{Ring, fill, set, wrap_write, ring_write, slice, ring_read}
use wac_mono.StreamRing.Pipe.{
  Pipe, new_pipe, copied, feed_turn, read_turn, accept, Move, move, move_all,
}
use wac_mono.StreamRing.Delivery.{Delivers, move_all-Delivers}
use wac_mono.StreamRing.Ending.{
  ended, new_stream, write_chunk, feed, close, look, test_error, test_end, writes, feeds, closes,
  aborts_error, aborts_end, looks, tests_error, tests_end, act, run,
}
use wac_mono.StreamRing.Endings.{Turn, gives, copies, finishes, reads, run_turns, run_turns-Whole}
use wac_mono.StreamRing.Missed.{EndsWith, all_read, read-Misses}
use wac_mono.StreamRing.Wakes.{
  Place, Event, new_scene, publish, count_event, notify, read_step, happen, happen_all,
}
use wac_mono.StreamRing.Sleeps.{Quiet, happen_all-NothingMissed}
use wac_mono.StreamRing.Overrun.{overrun_loses}

abbrev blank : Ring
blank i = 0

abbrev turns : List Move
turns =
    Move.reads
    ∷ Move.writes (1 ∷ 2 ∷ [])
    ∷ Move.writes (9 ∷ [])
    ∷ Move.feeds
    ∷ Move.reads
    ∷ Move.writes (3 ∷ [])
    ∷ Move.feeds
    ∷ []

two_read : (move_all new_pipe turns).got ≡ 1 ∷ 2 ∷ []
unfolding move_all move accept feed_turn read_turn copied ring_write ring_read set wrap_write fill
    slice
two_read = refl

three_given : length (move_all new_pipe turns).given ≡ 3
unfolding move_all move accept feed_turn read_turn copied ring_write ring_read set wrap_write fill
    slice
three_given = refl

move_all-Delivers_example : Delivers (move_all new_pipe turns)
move_all-Delivers_example = move_all-Delivers turns (omega (arith, three_given))

-- Four bytes below 2^31, and ten to copy.
abbrev nearly_over : Pipe
nearly_over = record {
  ring = blank;
  head = pos 2147483644;
  tail = 2147483644;
  rest = 0 ∷ 1 ∷ 2 ∷ 3 ∷ 4 ∷ 5 ∷ 6 ∷ 7 ∷ 8 ∷ 9 ∷ [];
  failed = false;
  given = [];
  got = [];
}

overrun_loses_example :
    (move_all
      (feed_turn nearly_over (pos 2147483644))
      (Move.reads ∷ Move.feeds ∷ Move.reads ∷ [])).got
    ≡ []
overrun_loses_example =
    overrun_loses nearly_over 2147483644 (Move.reads ∷ Move.feeds ∷ Move.reads ∷ []) refl
      (omega arith) (omega arith) (omega arith) (omega arith)

abbrev closing : List Turn
closing = gives (1 ∷ 2 ∷ []) ∷ copies ∷ finishes ∷ reads ∷ reads ∷ []

two_closed : length (run_turns new_stream closing).pipe.given ≡ 2
unfolding run_turns run act write_chunk accept feed close look test_error test_end feed_turn
    read_turn copied ring_write ring_read set wrap_write fill slice
two_closed = refl

closing_ends : (run_turns new_stream closing).reader ≡ ended
unfolding run_turns run act write_chunk accept feed close look test_error test_end feed_turn
    read_turn copied ring_write ring_read set wrap_write fill slice
closing_ends = refl

run_turns-Whole_example :
    ((run_turns new_stream closing).pipe.got ≡ (run_turns new_stream closing).pipe.given)
    × ((run_turns new_stream closing).err ≡ false)
run_turns-Whole_example = run_turns-Whole closing (omega (arith, two_closed)) closing_ends

read-Misses_example :
    EndsWith (7 ∷ []) (7 ∷ 1 ∷ 2 ∷ []) (
      run
        (all_read blank 1 (7 ∷ []))
        (looks ∷ tests_error ∷ writes (1 ∷ 2 ∷ []) ∷ feeds ∷ closes ∷ tests_end ∷ []))
    × EndsWith (7 ∷ []) (7 ∷ []) (
        run
          (all_read blank 1 (7 ∷ []))
          (looks ∷ tests_error ∷ aborts_error ∷ aborts_end ∷ tests_end ∷ []))
read-Misses_example = read-Misses blank 1 (7 ∷ []) (1 ∷ 2 ∷ []) (omega arith) (omega arith)

abbrev sleeping : List Event
sleeping =
    Event.publishes 2
    ∷ Event.reads
    ∷ Event.counts
    ∷ Event.notifies
    ∷ Event.reads
    ∷ Event.reads
    ∷ Event.reads
    ∷ Event.reads
    ∷ Event.reads
    ∷ Event.reads
    ∷ []

falls_asleep : (happen_all new_scene sleeping).reader ≡ Place.asleep 1
unfolding happen_all happen publish count_event notify read_step
falls_asleep = refl

none_counted : (happen_all new_scene sleeping).due ≡ false
unfolding happen_all happen publish count_event notify read_step
none_counted = refl

none_woken : (happen_all new_scene sleeping).waking ≡ false
unfolding happen_all happen publish count_event notify read_step
none_woken = refl

happen_all-NothingMissed_example : Quiet (happen_all new_scene sleeping)
happen_all-NothingMissed_example =
    happen_all-NothingMissed sleeping 1 (omega arith) falls_asleep none_counted none_woken
