-- ===== src/InFlight.antt =====
-- harness/inFlight.ts: the pool that runs the cases of a test, so many at a time, and what it says is in flight. An item is
-- worked on by a function that may fail, a parameter. A step is what one worker of the pool does between two waits; the
-- array of results is a function from an index, `none` where nothing has been written.
pub mod Workers
pub mod Measure
pub mod Once
mod Examples
use wac_mono.Base.{
  ℕ, zero, suc, ◌+◌, ◌-◌, ◌/◌, Bool, true, false, not, ◌||◌, Option, none, some, List, [], ◌∷◌, ltb,
  leb, ◌==◌, if◌then◌else◌, length, get_elem?, replicate,
}

-- Where a worker of the pool stands: before it takes an item, at an item with the number of its entry, or at its end.
pub data Worker : Type 0 where
  looking stopped : Worker
  busy failed : ℕ → ℕ → Worker

-- What `watch` keeps: the entries in flight, each with its number and the item, and the counts.
pub record Flight : Type 0 where
  pub next : ℕ
  pub held : List (ℕ × ℕ)
  pub started : ℕ
  pub finished : ℕ

unfoldable pub start_entry : Flight → ℕ → Flight
start_entry f item = record {
  next = f.next + 1;
  held = (f.next, item) ∷ f.held;
  started = f.started + 1;
  finished = f.finished;
}

unfoldable pub drop_entry : ℕ → List (ℕ × ℕ) → List (ℕ × ℕ)
drop_entry id [] = []
drop_entry id ((k, item) ∷ rest) =
    let later = drop_entry id rest in if k == id then later else (k, item) ∷ later

-- `done`, the first time that it is called.
unfoldable pub end_entry : Flight → ℕ → Flight
unfolding drop_entry
end_entry f id = record f { held = drop_entry id f.held; finished = f.finished + 1 }

abbrev pub set_worker : List Worker → ℕ → Worker → List Worker
set_worker [] w v = []
set_worker (x ∷ xs) zero v = v ∷ xs
set_worker (x ∷ xs) (suc w) v = x ∷ set_worker xs w v

pub record Pool (R : Type 0) : Type 0 where
  pub next : ℕ
  pub workers : List Worker
  pub results : ℕ → Option R
  pub flight : Flight

module _ {R : Type 0} where
  -- `Math.max(1, jobs)` workers.
  unfoldable pub new_pool : ℕ → Pool R
  new_pool jobs = record {
    next = 0;
    workers = replicate (if jobs == 0 then 1 else jobs) looking;
    results = λ i. none;
    flight = record { next = 0; held = []; started = 0; finished = 0 };
  }

  -- A worker takes the next item, if there is one.
  unfoldable pub take_item : {A : Type 0} → List A → Pool R → ℕ → Pool R
  unfolding start_entry
  take_item items s w =
      if leb (length items) s.next
      then record s { next = s.next + 1; workers = set_worker s.workers w stopped }
      else record s {
        next = s.next + 1;
        workers = set_worker s.workers w (busy s.next s.flight.next);
        flight = start_entry s.flight s.next;
      }

  abbrev pub write_result : (ℕ → Option R) → ℕ → Option R → ℕ → Option R
  write_result results index r i = if i == index then r else results i

  -- The work on an item ends: with its result, after which the worker looks for another, or with an error, which ends the
  -- worker. Its entry ends in both.
  unfoldable pub end_item : Pool R → ℕ → ℕ → ℕ → Option R → Pool R
  unfolding end_entry
  end_item s w index id none = record s {
    workers = set_worker s.workers w (failed index id);
    flight = end_entry s.flight id;
  }
  end_item s w index id (some r) = record s {
    workers = set_worker s.workers w looking;
    results = write_result s.results index (some r);
    flight = end_entry s.flight id;
  }

module _ {A R : Type 0} where
  unfoldable pub work_on : (A → ℕ → Option R) → Option A → ℕ → Option R
  work_on work none index = none
  work_on work (some a) index = work a index

  -- What the worker does next, of how it stands.
  unfoldable pub turn_at : (A → ℕ → Option R) → List A → Pool R → ℕ → Option Worker → Pool R
  unfolding take_item end_item work_on
  turn_at work items s w none = s
  turn_at work items s w (some looking) = take_item items s w
  turn_at work items s w (some (busy index id)) =
      end_item s w index id (work_on work (get_elem? items index) index)
  turn_at work items s w (some stopped) = s
  turn_at work items s w (some (failed index id)) = s

  -- A turn of the worker at a place, and turns of workers in any order.
  unfoldable pub turn : (A → ℕ → Option R) → List A → Pool R → ℕ → Pool R
  unfolding turn_at
  turn work items s w = turn_at work items s w (get_elem? s.workers w)

  unfoldable pub turns : (A → ℕ → Option R) → List A → Pool R → List ℕ → Pool R
  unfolding turn
  turns work items s [] = s
  turns work items s (w ∷ rest) = turns work items (turn work items s w) rest
