-- ===== src/ByteQueue/Examples.antt =====
-- Runs of the byte queue, and its theorems at concrete inputs.
use wac_mono.ByteQueue.Driver.{
  Call, pushes, nexts, ends, call_all, call, new_queue, driver_push, driver_next, driver_end,
  run_event, resolve_all, resolve,
}
use wac_mono.ByteQueue.Promises.{promises_kept, events_of}
use wac_mono.ByteQueue.Resolving.{held_calls}
use mathlib.Core.List.{Perm}
use wac_mono.Base.{ℕ, ℕ, ◌≡◌, refl, inr, List, [], ◌∷◌, ◌++◌, none, true, false, arith, All, map}
use wac_mono.ByteQueue.{
  QueueState, Parked, Event, Step, push, next, end, reader, writer, apply, apply_push, apply_next,
  apply_end, offer, serve, release_room, run, join, empty_queue, release_loop, take_loop,
  take_bytes,
}
use wac_mono.ByteQueue.Invariant.{Inv}
use wac_mono.ByteQueue.Reachable.{run-Inv}
use wac_mono.ByteQueue.Stream.{delivered, contents, all_offered, run-stream}
use wac_mono.ByteQueue.Settling.{addressee, all_calls, waiting, ended_settles_all}
use wac_mono.ByteQueue.Waiting.{NoStandoff, run-NoStandoff}
use wac_mono.ByteQueue.Ends.{IsHonest, apply-IsHonest}
use wac_mono.ByteQueue.Oversize.{oversize_never_moves}

-- A queue of four bytes: a write is queued, one is parked, and two reads empty it.
abbrev piped : List Event
piped = push 0 (1 ∷ 2 ∷ 3 ∷ []) ∷ push 1 (4 ∷ 5 ∷ []) ∷ next 2 2 ∷ next 3 64 ∷ end ∷ []

-- What a test of `run` computes with.
abbrev running : ℕ → List Event → Step
unfolding run apply apply_push apply_next apply_end offer serve take_bytes take_loop release_room
    release_loop join empty_queue
running cap es = run (empty_queue cap) es

piped_effects :
    (run (empty_queue 4) piped).effects
    ≡ writer 0 true ∷ reader 2 (1 ∷ 2 ∷ []) ∷ writer 1 true ∷ reader 3 (3 ∷ 4 ∷ 5 ∷ []) ∷ []
unfolding running
piped_effects = refl

run-stream_example :
    delivered (run (empty_queue 4) piped).effects ++ contents (run (empty_queue 4) piped).state
    ≡ all_offered (empty_queue 4) piped
unfolding running
run-stream_example = run-stream 4 piped (refl, (refl, (tt, (tt, (refl, tt)))))

ended_settles_all_example :
    Perm (map addressee (run (empty_queue 4) piped).effects) (all_calls piped)
unfolding running
ended_settles_all_example = ended_settles_all 4 piped refl

run-NoStandoff_example : NoStandoff (run (empty_queue 4) piped).state
run-NoStandoff_example =
    run-NoStandoff 4 piped (inr (omega arith), (inr (omega arith), (tt, (tt, (tt, tt)))))

run-Inv_example : Inv (run (empty_queue 4) piped).state
run-Inv_example = run-Inv 4 piped

-- Two chunks, with a reader that asks for three bytes.
abbrev two_chunks : QueueState
two_chunks = record {
  cap = 0;
  chunks = (1 ∷ 2 ∷ []) ∷ (3 ∷ 4 ∷ []) ∷ [];
  held = 4;
  ended = false;
  reader = none;
  writers = [];
}

two_chunks-Inv : Inv two_chunks
two_chunks-Inv = ground arith

apply-IsHonest_example :
    All
      (IsHonest two_chunks (next 7 3) (apply two_chunks (next 7 3)).state)
      (apply two_chunks (next 7 3)).effects
apply-IsHonest_example = apply-IsHonest two_chunks (next 7 3) two_chunks-Inv (omega arith)

abbrev parked_two : List Parked
parked_two = record { id = 1; bytes = 9 ∷ [] } ∷ record { id = 2; bytes = 8 ∷ 7 ∷ 6 ∷ [] } ∷ []

oversize_never_moves_example :
    ((run (empty_queue 1) (push 0 (5 ∷ 6 ∷ []) ∷ next 1 64 ∷ next 2 64 ∷ [])).state.writers
      ≡ record { id = 0; bytes = 5 ∷ 6 ∷ [] } ∷ [])
    × (delivered (run (empty_queue 1) (push 0 (5 ∷ 6 ∷ []) ∷ next 1 64 ∷ next 2 64 ∷ [])).effects
        ≡ [])
oversize_never_moves_example =
    oversize_never_moves 1 0 (5 ∷ 6 ∷ []) (next 1 64 ∷ next 2 64 ∷ []) (omega arith) (omega arith)
      (tt, (tt, tt))

-- Three of four bytes are held, and a write of two waits.
abbrev nearly_full : QueueState
nearly_full = record {
  cap = 4;
  chunks = (1 ∷ 2 ∷ 3 ∷ []) ∷ [];
  held = 3;
  ended = false;
  reader = none;
  writers = record { id = 1; bytes = 4 ∷ 5 ∷ [] } ∷ [];
}

-- A write that fits, a read of it, a write that does not fit at first, and the end.
abbrev some_calls : List Call
some_calls = pushes (1 ∷ 2 ∷ []) ∷ nexts ∷ pushes (3 ∷ []) ∷ pushes (4 ∷ 5 ∷ []) ∷ ends ∷ []

all_settled :
    (call_all (new_queue 2) some_calls).settled
    ≡ writer 0 true ∷ reader 1 (1 ∷ 2 ∷ []) ∷ writer 2 true ∷ writer 3 false ∷ []
unfolding call_all call new_queue driver_push driver_next driver_end run_event resolve_all resolve
    apply apply_end apply_push apply_next serve take_bytes empty_queue offer release_room
    release_loop take_loop join
all_settled = refl

promises_kept_example :
    let d = call_all (new_queue 2) some_calls in
    let r = run (empty_queue 2) (events_of 0 some_calls) in
    (d.state ≡ r.state)
    × (d.settled ≡ r.effects)
    × Perm (held_calls d.readers d.writers) (waiting r.state)
promises_kept_example = promises_kept 2 some_calls
