-- ===== src/ByteQueue/Driver.antt =====
-- packages/platform/host/queue.ts: the class `ByteQueue`, which turns calls into events and effects into
-- promises that settle. A promise is the number of its call; the maps from numbers to resolvers are the
-- lists of the numbers that are in them, and `settled` records what each resolver has been called with.
use wac_mono.Base.{ℕ, ◌+◌, ◌||◌, ◌==◌, Bool, false, List, [], ◌∷◌, ◌++◌, if◌then◌else◌}
use wac_mono.ByteQueue.{
  Bytes, QueueState, Event, Effect, push, next, end, end_with, reader, writer, apply, empty_queue,
}

-- What one `next` hands back at most.
abbrev pub chunk : ℕ
chunk = 65536

pub record Driver : Type 0 where
  pub state : QueueState
  pub readers : List ℕ
  pub writers : List ℕ
  pub next_id : ℕ
  pub settled : List Effect

unfoldable pub new_queue : ℕ → Driver
new_queue cap = record {
  state = empty_queue cap;
  readers = [];
  writers = [];
  next_id = 0;
  settled = [];
}

-- `Map.has` and `Map.delete`, on the numbers in a map.
abbrev pub has_id : ℕ → List ℕ → Bool
has_id id [] = false
has_id id (x ∷ xs) = x == id || has_id id xs

abbrev pub delete_id : ℕ → List ℕ → List ℕ
delete_id id [] = []
delete_id id (x ∷ xs) = if x == id then xs else x ∷ delete_id id xs

-- One effect: its resolver is taken out of its map and, where there is one, called.
unfoldable pub resolve : Driver → Effect → Driver
resolve d (reader id bytes) = record d {
  readers = delete_id id d.readers;
  settled = if has_id id d.readers then d.settled ++ reader id bytes ∷ [] else d.settled;
}
resolve d (writer id taken) = record d {
  writers = delete_id id d.writers;
  settled = if has_id id d.writers then d.settled ++ writer id taken ∷ [] else d.settled;
}

unfoldable pub resolve_all : Driver → List Effect → Driver
resolve_all d [] = d
resolve_all d (e ∷ es) = resolve_all (resolve d e) es

unfoldable pub run_event : Driver → Event → Driver
run_event d event =
    let s = apply d.state event in resolve_all (record d { state = s.state }) s.effects

unfoldable pub driver_push : Driver → Bytes → Driver
driver_push d bytes =
    run_event (record d { next_id = d.next_id + 1; writers = d.writers ++ d.next_id ∷ [] })
      (push d.next_id bytes)

unfoldable pub driver_next : Driver → Driver
driver_next d =
    run_event (record d { next_id = d.next_id + 1; readers = d.readers ++ d.next_id ∷ [] })
      (next d.next_id chunk)

unfoldable pub driver_end : Driver → Driver
driver_end d = run_event d end

unfoldable pub driver_end_with : Driver → Bytes → Driver
driver_end_with d bytes = run_event d (end_with bytes)

-- A call of one of the four methods.
pub data Call : Type 0 where
  pushes : Bytes → Call
  nexts : Call
  ends : Call
  ends_with : Bytes → Call

unfoldable pub call : Driver → Call → Driver
call d (pushes bytes) = driver_push d bytes
call d nexts = driver_next d
call d ends = driver_end d
call d (ends_with bytes) = driver_end_with d bytes

unfoldable pub call_all : Driver → List Call → Driver
call_all d [] = d
call_all d (c ∷ cs) = call_all (call d c) cs
