-- ===== src/SlotRing/Slot.antt =====
-- One slot of the ring, what the two sides keep for it, and where each side stands.
use wac_mono.Base.{ℕ, zero, suc, ◌+◌, ◌%◌, Bool, true, false, List, [], ◌∷◌}

pub data Status : Type 0 where
  free pending running ready cancelled claimed : Status

pub record Request : Type 0 where
  pub op : ℕ
  pub payload : List ℕ

-- An answer, and the request that it was computed for.
pub record Outcome : Type 0 where
  pub asked : Request
  pub status : ℕ
  pub body : List ℕ

-- A call in flight, with the request that was published under it.
pub record Ticket : Type 0 where
  pub gen : ℕ
  pub request : Request

-- A handler that has been started: the generation that `take` saw, and what it read.
pub record Job : Type 0 where
  pub gen : ℕ
  pub request : Request

-- An answer that `reply` has handed to the scheduler, with the generation that `reply` saw.
pub record Delayed : Type 0 where
  pub gen : ℕ
  pub answer : Outcome

-- Where the worker stands: between two calls, with a slot that it has claimed, in `cancel` before the
-- generation moves, or in `cancel` before the status does.
pub data WorkerAt : Type 0 where
  outside filling cancelling marking : WorkerAt

-- Where the host stands: between two slots, in `take` before the exchange, between `stillOurs` and the load of
-- `reply`, or in `write` before the exchange.
pub data HostAt : Type 0 where
  sweeping : HostAt
  taking : ℕ → Request → HostAt
  replying : ℕ → Outcome → HostAt
  writing : ℕ → Outcome → HostAt

-- `Atomics.add(.., 1)` on a generation. The cell is an Int32, which two loads find equal exactly if they are equal
-- modulo 2^32, so that a generation stands here as its 32 bits without a sign.
abbrev pub next_gen : ℕ → ℕ
next_gen g = (g + 1) % 4294967296

pub record Scene : Type 0 where
  pub status : Status
  pub gen : ℕ
  pub request : Request
  pub answer : Outcome
  pub worker : WorkerAt
  pub host : HostAt
  pub jobs : List Job
  pub delayed : List Delayed
  pub tickets : List Ticket
  pub collected : List (Request × Outcome)

abbrev pub no_request : Request
no_request = record { op = 0; payload = [] }

abbrev pub new_slot : Scene
new_slot = record {
  status = free;
  gen = 0;
  request = no_request;
  answer = record { asked = no_request; status = 0; body = [] };
  worker = outside;
  host = sweeping;
  jobs = [];
  delayed = [];
  tickets = [];
  collected = [];
}

-- `Atomics.compareExchange(.., from, to) === from`, on the status.
abbrev pub is_free : Status → Bool
is_free free = true
is_free _ = false

abbrev pub is_pending : Status → Bool
is_pending pending = true
is_pending _ = false

abbrev pub is_running : Status → Bool
is_running running = true
is_running _ = false

abbrev pub is_ready : Status → Bool
is_ready ready = true
is_ready _ = false

abbrev pub remove_nth {ℓ} : {A : Type ℓ} → ℕ → List A → List A
remove_nth i [] = []
remove_nth zero (x ∷ xs) = xs
remove_nth (suc i) (x ∷ xs) = x ∷ remove_nth i xs
