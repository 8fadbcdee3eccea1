-- ===== src/Schedule.antt =====
-- packages/platform/host/schedule.ts: which completed answer is delivered next. A scheduler is a record,
-- and each method returns the new one; what it delivers is appended to `delivered`, in place of the call
-- of the answer's `deliver`; `log` keeps the answers themselves, in place of a printed line for each. The
-- timer of `#armIdle` is the flag `armed` and the event `idles`.
pub mod Turns
pub mod Answers
pub mod Drains
pub mod Order
pub mod Stale
mod Examples
use Prim.Native.Nat.{bit_xor}
use wac_mono.Base.{
  ℕ, zero, suc, ◌+◌, ◌-◌, ◌*◌, ◌/◌, ◌%◌, ◌^◌, Bool, true, false, not, ◌||◌, Option, none, some,
  List, [], ◌∷◌, ◌++◌, ◌==◌, ltb, if◌then◌else◌, length, get_elem?,
}

-- A completed answer: its bridge, its slot, and the order in which it became ready.
pub record Pending : Type 0 where
  pub bridge : ℕ
  pub slot : ℕ
  pub seq : ℕ

pub data Policy : Type 0 where
  off fifo seeded : Policy

abbrev pub word : ℕ
word = 2 ^ 32

-- One step of xorshift32 on the bits of a 32-bit word.
pub xorshift : ℕ → ℕ
xorshift x =
    let a = bit_xor x (x * 2 ^ 13 % word) in
    let b = bit_xor a (a / 2 ^ 17) in bit_xor b (b * 2 ^ 5 % word)

-- `seed || 1`, as the 32-bit word that the first step makes of it.
abbrev pub seed_word : ℕ → ℕ
seed_word seed = (if seed == 0 then 1 else seed) % word

pub record Scheduler : Type 0 where
  pub policy : Policy
  pub random : ℕ
  pub ready : List Pending
  pub next_seq : ℕ
  pub log : List Pending
  pub running : List ℕ
  pub armed : Bool
  pub delivered : List (ℕ × ℕ)

unfoldable pub new_scheduler : Policy → ℕ → Scheduler
new_scheduler policy seed = record {
  policy = policy;
  random = seed_word seed;
  ready = [];
  next_seq = 0;
  log = [];
  running = [];
  armed = false;
  delivered = [];
}

-- The scan of `#choose`: `i` is the index of the first of `rest`, and `best` holds the least `seq` so far.
abbrev pub first_ready : ℕ → ℕ → ℕ → List Pending → ℕ
first_ready best best_seq i [] = best
first_ready best best_seq i (p ∷ rest) =
    first_ready (if ltb p.seq best_seq then i else best)
      (if ltb p.seq best_seq then p.seq else best_seq) (i + 1) rest

pub record Choice : Type 0 where
  pub at : Option ℕ
  pub random : ℕ

-- Which of the ready answers goes next; `none` is the source's -1. `off` never gets here.
pub choose_from : Policy → ℕ → List Pending → Choice
choose_from policy random [] = record { at = none; random = random }
choose_from fifo random (p ∷ rest) = record {
  at = some (first_ready 0 p.seq 1 rest);
  random = random;
}
choose_from seeded random (p ∷ rest) = record {
  at = some (xorshift random % length (p ∷ rest));
  random = xorshift random;
}
choose_from off random (p ∷ rest) = record {
  at = some (xorshift random % length (p ∷ rest));
  random = xorshift random;
}

pub choose : Scheduler → Choice
unfolding choose_from
choose s = choose_from s.policy s.random s.ready

-- `splice(at, 1)`.
abbrev pub remove_at : ℕ → List Pending → List Pending
remove_at i [] = []
remove_at zero (p ∷ ps) = ps
remove_at (suc i) (p ∷ ps) = p ∷ remove_at i ps

abbrev pub is_empty {ℓ} : {A : Type ℓ} → List A → Bool
is_empty [] = true
is_empty (x ∷ xs) = false

-- `Set.has`, `Set.add` and `Set.delete` on the running bridges.
abbrev pub has : ℕ → List ℕ → Bool
has b [] = false
has b (x ∷ xs) = x == b || has b xs

abbrev pub add : ℕ → List ℕ → List ℕ
add b xs = if has b xs then xs else xs ++ b ∷ []

abbrev pub delete : ℕ → List ℕ → List ℕ
delete b [] = []
delete b (x ∷ xs) = if x == b then xs else x ∷ delete b xs

pub arm_idle : Scheduler → Scheduler
arm_idle s = if s.armed || is_empty s.running then s else record s { armed = true }

-- An index outside the list would make the source fail; `choose` answers none such.
deliver_at : Scheduler → ℕ → Option Pending → Scheduler
unfolding arm_idle
deliver_at s at none = s
deliver_at s at (some chosen) = arm_idle (record s {
  ready = remove_at at s.ready;
  log = s.log ++ chosen ∷ [];
  running = add chosen.bridge s.running;
  delivered = s.delivered ++ (chosen.bridge, chosen.slot) ∷ [];
})

deliver_choice : Scheduler → Option ℕ → Scheduler
unfolding deliver_at
deliver_choice s none = s
deliver_choice s (some at) = deliver_at s at (get_elem? s.ready at)

-- Deliver at most one answer, and only while no worker runs.
pub pump : Scheduler → Scheduler
unfolding deliver_choice choose arm_idle
pump s =
    let c = choose s in
    if is_empty s.ready
    then s
    else if is_empty s.running
    then deliver_choice (record s { random = c.random }) c.at
    else arm_idle s

is_off : Policy → Bool
is_off off = true
is_off fifo = false
is_off seeded = false

-- An answer is ready: delivered at once if scheduling is off.
pub answer_ready : Scheduler → ℕ → ℕ → Scheduler
unfolding is_off
answer_ready s bridge slot =
    let pending : Pending = record { bridge = bridge; slot = slot; seq = s.next_seq } in
    if is_off s.policy
    then record s { delivered = s.delivered ++ (bridge, slot) ∷ [] }
    else pump (record s { ready = s.ready ++ pending ∷ []; next_seq = s.next_seq + 1 })

-- A bridge that was answered has come back.
pub quiet : Scheduler → ℕ → Scheduler
quiet s bridge =
    if has bridge s.running then pump (record s { running = delete bridge s.running }) else s

-- The timer, which can fire only while it is armed.
pub idle_fires : Scheduler → Scheduler
idle_fires s = if s.armed then pump (record s { armed = false; running = [] }) else s

pub data Event : Type 0 where
  readies : ℕ → ℕ → Event
  quiets : ℕ → Event
  idles : Event

unfoldable pub step : Scheduler → Event → Scheduler
step s (readies bridge slot) = answer_ready s bridge slot
step s (quiets bridge) = quiet s bridge
step s idles = idle_fires s

unfoldable pub run : Scheduler → List Event → Scheduler
run s [] = s
run s (e ∷ es) = run (step s e) es
