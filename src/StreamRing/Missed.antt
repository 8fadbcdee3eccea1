-- ===== src/StreamRing/Missed.antt =====
-- What the loop of `read` misses when the producer acts between its loads: the head is loaded before the marks are.
use wac_mono.Base.{
  ℕ, ◌+◌, ◌-◌, ◌≤◌, ◌<◌, ◌≡◌, refl, arith, pos, true, false, List, [], ◌∷◌, ◌++◌, length, if_intro,
  min, take, drop, length-take, length-drop, ◌∙◌, ap, ◌==◌, ◌||◌, ltb,
}
use wac_mono.StreamRing.{cap, Ring, ring_write}
use wac_mono.StreamRing.Fifo.{ring_write-write_each}
use wac_mono.StreamRing.Delivery.{nil_of}
use wac_mono.StreamRing.Pipe.{Pipe, accept, feed_turn, copied}
use wac_mono.StreamRing.Ending.{
  ended, idle, Stream, write_chunk, feed, close, abort_error, abort_end, look, test_error, test_end,
  writes, feeds, closes, aborts_error, aborts_end, looks, tests_error, tests_end, act, run, Act,
  past_error,
}

-- An open stream of which all that was given has been read.
abbrev pub all_read : Ring → ℕ → List ℕ → Stream
all_read ring at got = record {
  pipe = record {
    ring = ring;
    head = pos at;
    tail = at;
    rest = [];
    failed = false;
    given = got;
    got = got;
  };
  eof = false;
  err = false;
  reader = idle;
}

-- The reader stands between its last two loads, and nothing is left to copy.
record Between (got : List ℕ) (given : List ℕ) (s : Stream) : Type 0 where
  stands : s.reader ≡ past_error
  not_closed : s.eof ≡ false
  not_aborted : s.err ≡ false
  copied_all : s.pipe.rest ≡ []
  unfailed : s.pipe.failed ≡ false
  was_read : s.pipe.got ≡ got
  was_given : s.pipe.given ≡ given

-- What is read of the stream and given to it when the reader is told of the end.
pub record EndsWith (got : List ℕ) (given : List ℕ) (s : Stream) : Type 0 where
  pub told : s.reader ≡ ended
  pub was_read : s.pipe.got ≡ got
  pub was_given : s.pipe.given ≡ given

told-EndsWith :
    (got given : List ℕ) (s : Stream)
    → s.reader ≡ past_error
    → s.eof ≡ true
    → s.pipe.got ≡ got
    → s.pipe.given ≡ given
    → EndsWith got given (act s tests_end)
unfolding act test_end
told-EndsWith got given s e closed g h =
    rw (e, closed) (record { told = refl; was_read = g; was_given = h })

closed-EndsWith :
    (got given : List ℕ) (s : Stream)
    → Between got given s
    → EndsWith got given (run s (closes ∷ tests_end ∷ []))
unfolding run
closed-EndsWith got given s b =
    let e : act s closes ≡ record s { eof = true } =
      unfold act close in rw (b.not_closed, b.not_aborted, b.copied_all, b.unfailed) refl in
    rw e (told-EndsWith got given (record s { eof = true }) b.stands refl b.was_read b.was_given)

aborted-EndsWith :
    (got given : List ℕ) (s : Stream)
    → Between got given s
    → EndsWith got given (run s (aborts_error ∷ aborts_end ∷ tests_end ∷ []))
unfolding run
aborted-EndsWith got given s b =
    let e : act s aborts_error ≡ record s { err = true } =
      unfold act abort_error in rw (b.not_closed, b.not_aborted, b.copied_all, b.unfailed) refl in
    let both = record s { err = true; eof = true } in
    let f : act (record s { err = true }) aborts_end ≡ both = unfold act abort_end in refl in
    rw (e, f) (told-EndsWith got given both b.stands refl b.was_read b.was_given)

-- An open stream whose reader, with all read at `at`, has made its first two loads.
abbrev past_two_loads : Ring → ℕ → List ℕ → Stream
past_two_loads ring at got = record (all_read ring at got) { reader = past_error }

two_loads :
    (ring : Ring) (at : ℕ) (got : List ℕ)
    → run (all_read ring at got) (looks ∷ tests_error ∷ []) ≡ past_two_loads ring at got
unfolding run act look test_error
two_loads ring at got =
    if_intro (λ (t : Stream). t ≡ past_two_loads ring at got) (ltb at at)
      (λ above. absurd (ground (arith, above))) (λ level. refl)

-- One turn of `feed` copies a chunk that fits in the ring.
fed-Between :
    (ring : Ring) (at : ℕ) (got bytes : List ℕ)
    → 0 < length bytes
    → length bytes ≤ cap
    → Between got (got ++ bytes) (run (past_two_loads ring at got) (writes bytes ∷ feeds ∷ []))
unfolding run act write_chunk feed accept feed_turn
fed-Between ring at got bytes some_byte fits =
    if_intro (λ (p : Pipe). Between got (got ++ bytes) (with_pipe p))
      (length bytes == 0 || cap + at - at == 0) (λ waits. absurd (ground (arith, waits)))
      (λ some_room.
        copied_in (min (cap + at - at) (length bytes)) (omega (arith, fits)) (omega (arith, fits)))
  where
    with_pipe : Pipe → Stream
    with_pipe p = record { pipe = p; eof = false; err = false; reader = past_error }

    accepted : Pipe
    accepted = record {
      ring = ring;
      head = pos at;
      tail = at;
      rest = bytes;
      failed = false;
      given = got ++ bytes;
      got = got;
    }

    copied_in :
        (n : ℕ)
        → length bytes ≤ n
        → n ≤ cap
        → Between got
            (got ++ bytes)
            (with_pipe (copied accepted (pos at) n (ring_write ring at (take n bytes))))
    copied_in n all short =
        rw (ring_write-write_each ring at (take n bytes) (omega (arith, length-take n bytes))) (
          unfold copied in
          record {
            stands = refl;
            not_closed = refl;
            not_aborted = refl;
            copied_all = nil_of (drop n bytes) (omega (arith, length-drop n bytes));
            unfailed = refl;
            was_read = refl;
            was_given = refl;
          })

run-append : (s : Stream) (acts more : List Act) → run s (acts ++ more) ≡ run (run s acts) more
unfolding run
run-append s [] more = refl
run-append s (a ∷ rest) more = run-append (act s a) rest more

-- Whatever was read before, and for every chunk that fits in the ring: when the reader has found nothing available and no
-- error, and the chunk is then written and copied and the stream closed, all before the reader asks for the end, it is told
-- of the end and has not read the chunk. And when the stream is aborted at that point, it is told of the end, not of an
-- error.
pub read-Misses :
    (ring : Ring) (at : ℕ) (got bytes : List ℕ)
    → 0 < length bytes
    → length bytes ≤ cap
    → EndsWith got (got ++ bytes) (
        run
          (all_read ring at got)
          (looks ∷ tests_error ∷ writes bytes ∷ feeds ∷ closes ∷ tests_end ∷ []))
      × EndsWith got got (
          run
            (all_read ring at got)
            (looks ∷ tests_error ∷ aborts_error ∷ aborts_end ∷ tests_end ∷ []))
read-Misses ring at got bytes some_byte fits = (
  rw
      (
        after_loads (writes bytes ∷ feeds ∷ closes ∷ tests_end ∷ []),
        run-append (past_two_loads ring at got) (writes bytes ∷ feeds ∷ [])
            (closes ∷ tests_end ∷ []),
      )
      (closed-EndsWith got (got ++ bytes) _ (fed-Between ring at got bytes some_byte fits)),
  rw (after_loads (aborts_error ∷ aborts_end ∷ tests_end ∷ [])) (
      aborted-EndsWith got got (past_two_loads ring at got) (record {
        stands = refl;
        not_closed = refl;
        not_aborted = refl;
        copied_all = refl;
        unfailed = refl;
        was_read = refl;
        was_given = refl;
      })),
)
  where
    after_loads :
        (more : List Act)
        → run (all_read ring at got) ((looks ∷ tests_error ∷ []) ++ more)
          ≡ run (past_two_loads ring at got) more
    after_loads more =
        run-append (all_read ring at got) (looks ∷ tests_error ∷ []) more
        ∙ ap (λ (t : Stream). run t more) (two_loads ring at got)
