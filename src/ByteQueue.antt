-- ===== src/ByteQueue.antt =====
-- packages/platform/host/queue.ts: the byte stream behind every pipe of a spawned program, as the pure
-- transition function `apply`. Bytes, identities and lengths are unbounded numbers. `held - got` is a
-- subtraction of what the chunks hold, so it is exact wherever `held` counts the chunks.
pub mod Join
pub mod Takes
pub mod Releases
pub mod Invariant
pub mod Serves
pub mod Reachable
pub mod Stream
pub mod Settling
pub mod Waiting
pub mod Ends
pub mod Oversize
pub mod Driver
pub mod Resolving
pub mod Promises
mod Examples
use wac_mono.Base.{
  ℕ, ◌+◌, ◌-◌, Bool, true, false, not, ◌&&◌, Option, none, some, List, [], ◌∷◌, ◌++◌, ltb, leb,
  ◌==◌, if◌then◌else◌, length, take, drop, replicate,
}

abbrev pub Bytes : Type 0
Bytes = List ℕ

-- A parked writer: the bytes it is trying to send, and who to tell when it is decided.
pub record Parked : Type 0 where
  pub id : ℕ
  pub bytes : Bytes

pub record QueueState : Type 0 where
  pub cap : ℕ
  pub chunks : List Bytes
  pub held : ℕ
  pub ended : Bool
  pub reader : Option ℕ
  pub writers : List Parked

pub data Event : Type 0 where
  push : ℕ → Bytes → Event
  next : ℕ → ℕ → Event
  end : Event
  end_with : Bytes → Event

pub data Effect : Type 0 where
  writer : ℕ → Bool → Effect
  reader : ℕ → Bytes → Effect

pub record Step : Type 0 where
  pub state : QueueState
  pub effects : List Effect

unfoldable pub empty_queue : ℕ → QueueState
empty_queue cap = record {
  cap = cap;
  chunks = [];
  held = 0;
  ended = false;
  reader = none;
  writers = [];
}

-- `out.set(p, at)` on a buffer that is long enough.
abbrev pub set_bytes : Bytes → Bytes → ℕ → Bytes
set_bytes out p at = take at out ++ (p ++ drop (at + length p) out)

abbrev pub total_length : ℕ → List Bytes → ℕ
total_length n [] = n
total_length n (p ∷ ps) = total_length (n + length p) ps

abbrev pub copy_parts : Bytes → ℕ → List Bytes → Bytes
copy_parts out at [] = out
copy_parts out at (p ∷ ps) = copy_parts (set_bytes out p at) (at + length p) ps

-- One part is handed over as it is; several are copied into a zeroed buffer of their total length.
unfoldable pub join : List Bytes → Bytes
join [] = copy_parts (replicate (total_length 0 []) 0) 0 []
join (p ∷ []) = p
join (p ∷ q ∷ ps) = copy_parts (replicate (total_length 0 (p ∷ q ∷ ps)) 0) 0 (p ∷ q ∷ ps)

-- The locals of the loop of `releaseRoom`.
pub record Room : Type 0 where
  pub chunks : List Bytes
  pub held : ℕ
  pub effects : List Effect
  pub writers : List Parked

-- Does a write of `n` bytes not fit beside `held` others? A cap of 0 is no cap.
abbrev pub is_full : ℕ → ℕ → ℕ → Bool
is_full cap held n = ltb 0 cap && ltb cap (held + n)

unfoldable pub release_loop : ℕ → List Bytes → ℕ → List Effect → List Parked → Room
release_loop cap chunks held effects [] = record {
  chunks = chunks;
  held = held;
  effects = effects;
  writers = [];
}
release_loop cap chunks held effects (first ∷ rest) =
    if is_full cap held (length first.bytes)
    then record { chunks = chunks; held = held; effects = effects; writers = first ∷ rest }
    else release_loop cap (chunks ++ first.bytes ∷ []) (held + length first.bytes)
        (effects ++ writer first.id true ∷ []) rest

unfoldable pub release_room : QueueState → Step
release_room s =
    let r = release_loop s.cap s.chunks s.held [] s.writers in
    record {
      state = record s { chunks = r.chunks; held = r.held; writers = r.writers };
      effects = r.effects;
    }

-- The locals of the loop of `take`.
pub record Taking : Type 0 where
  pub chunks : List Bytes
  pub parts : List Bytes
  pub got : ℕ

-- After a chunk is split, `got` is `limit` and the loop's test fails, so that branch returns.
unfoldable pub take_loop : ℕ → List Bytes → List Bytes → ℕ → Taking
take_loop limit [] parts got = record { chunks = []; parts = parts; got = got }
take_loop limit (head ∷ rest) parts got =
    let room = limit - got in
    let whole = take_loop limit rest (parts ++ head ∷ []) (got + length head) in
    if ltb got limit
    then (if leb (got + length head) limit then whole else record {
      chunks = drop room head ∷ rest;
      parts = parts ++ take room head ∷ [];
      got = got + room;
    })
    else record { chunks = head ∷ rest; parts = parts; got = got }

pub record Taken : Type 0 where
  pub state : QueueState
  pub taken : Option Bytes

pub take_chunks : QueueState → ℕ → List Bytes → Taken
take_chunks s limit [] = record { state = s; taken = none }
take_chunks s limit (c ∷ cs) =
    let t = take_loop limit (c ∷ cs) [] 0 in
    record {
      state = record s { chunks = t.chunks; held = s.held - t.got };
      taken = some (join t.parts);
    }

-- Up to `limit` bytes of what is queued, or `none` when nothing is.
unfoldable pub take_bytes : QueueState → ℕ → Taken
unfolding take_chunks
take_bytes s limit = take_chunks s limit s.chunks

-- The notice that releases a waiting reader with nothing.
abbrev pub released : Option ℕ → List Effect
released none = []
released (some id) = reader id [] ∷ []

abbrev pub refused : List Parked → List Effect
refused [] = []
refused (w ∷ ws) = writer w.id false ∷ refused ws

unfoldable pub apply_end : QueueState → Step
apply_end s = record {
  state = record s { ended = true; reader = none; writers = [] };
  effects = released s.reader ++ refused s.writers;
}

-- `push` of bytes to a queue that takes them: to the reader that waits, to the line, or to the chunks.
unfoldable pub offer : QueueState → ℕ → Bytes → Option ℕ → Step
offer s id bytes (some waiting) = record {
  state = record s { reader = none };
  effects = reader waiting bytes ∷ writer id true ∷ [];
}
offer s id bytes none =
    if is_full s.cap s.held (length bytes)
    then record {
      state = record s { writers = s.writers ++ record { id = id; bytes = bytes } ∷ [] };
      effects = [];
    }
    else record {
      state = record s { chunks = s.chunks ++ bytes ∷ []; held = s.held + length bytes };
      effects = writer id true ∷ [];
    }

unfoldable pub apply_push : QueueState → ℕ → Bytes → Step
apply_push s id bytes =
    if s.ended
    then record { state = s; effects = writer id false ∷ [] }
    else if length bytes == 0
    then record { state = s; effects = writer id true ∷ [] }
    else offer s id bytes s.reader

-- What `next` does with the answer of `take`.
unfoldable pub serve : QueueState → ℕ → QueueState → Option Bytes → Step
serve s id rest (some taken) =
    let freed = release_room rest in
    record { state = freed.state; effects = reader id taken ∷ freed.effects }
serve s id rest none =
    if s.ended
    then record { state = s; effects = reader id [] ∷ [] }
    else record { state = record s { reader = some id }; effects = released s.reader }

unfoldable pub apply_next : QueueState → ℕ → ℕ → Step
apply_next s id limit = let got = take_bytes s limit in serve s id got.state got.taken

-- The last thing goes to the reader that waits, or behind the chunks; then the end.
unfoldable pub hand_last : QueueState → Bytes → Option ℕ → Step
hand_last s bytes (some waiting) =
    let closed = apply_end (record s { reader = none }) in
    record { state = closed.state; effects = reader waiting bytes ∷ closed.effects }
hand_last s bytes none =
    apply_end (record s { chunks = s.chunks ++ bytes ∷ []; held = s.held + length bytes })

unfoldable pub apply_end_with : QueueState → Bytes → Step
apply_end_with s bytes = if s.ended then apply_end s else hand_last s bytes s.reader

-- The queue's entire behaviour: one event in, a new state and what to tell whom.
unfoldable pub apply : QueueState → Event → Step
apply s (push id bytes) = apply_push s id bytes
apply s (next id limit) = apply_next s id limit
apply s end = apply_end s
apply s (end_with bytes) = apply_end_with s bytes

-- Events one after another: the last state, and every effect in order.
unfoldable pub run : QueueState → List Event → Step
run s [] = record { state = s; effects = [] }
run s (e ∷ es) =
    let one = apply s e in
    let rest = run one.state es in
    record { state = rest.state; effects = one.effects ++ rest.effects }
