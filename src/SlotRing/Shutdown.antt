-- ===== src/SlotRing/Shutdown.antt =====
-- packages/platform/host/respond.ts: what a host that stops does with every slot, and packages/platform/host/call.ts:
-- what a worker that waits on several tickets sees. Each is one step here.
use wac_mono.Base.{
  ℕ, ◌+◌, ◌≡◌, ◌≢◌, ◌⊎◌, inl, inr, refl, ap, Bool, true, false, Option, none, some, List, [], ◌∷◌,
  ◌++◌, ◌==◌, if◌then◌else◌, if_intro, get_elem?, All,
}
use wac_mono.SlotRing.Slot.{Status, free, pending, running, ready, cancelled, claimed, is_ready}

-- A slot's status and generation, and how many failures it is sent.
pub record Cell : Type 0 where
  pub status : Status
  pub gen : ℕ
  pub failures : ℕ

-- `failPending` at one slot: what is pending is taken first, and what is taken is answered with the failure.
unfoldable pub fail_cell : Cell → Status → Cell
fail_cell c pending = record c { status = running; failures = c.failures + 1 }
fail_cell c running = record c { failures = c.failures + 1 }
fail_cell c free = c
fail_cell c ready = c
fail_cell c cancelled = c
fail_cell c claimed = c

unfoldable pub fail_pending : List Cell → List Cell
fail_pending [] = []
fail_pending (c ∷ rest) = fail_cell c c.status ∷ fail_pending rest

-- A ticket: its slot, and its generation.
pub record WaitTicket : Type 0 where
  pub slot : ℕ
  pub gen : ℕ

-- `isDone`, over the ring. A ticket's slot is a slot of the ring.
abbrev pub has_landed : List Cell → WaitTicket → Bool
has_landed cells t = elim (get_elem? cells t.slot) [
  | none ↦ false
  | some c ↦ if c.gen == t.gen then is_ready c.status else true
]

pub data Waited : Type 0 where
  settled : WaitTicket → Waited
  out_of_time waits_on : Waited

abbrev pub first_landed : List Cell → List WaitTicket → Option WaitTicket
first_landed cells [] = none
first_landed cells (t ∷ rest) = if has_landed cells t then some t else first_landed cells rest

-- A turn of the loop of `waitAny`, where `late` says that the time is up. The tickets are looked at first.
unfoldable pub wait_turn : List Cell → Bool → List WaitTicket → Waited
wait_turn cells late [] = out_of_time
wait_turn cells late (t ∷ rest) = elim (first_landed cells (t ∷ rest)) [
  | none ↦ if late then out_of_time else waits_on
  | some u ↦ settled u
]

-- What becomes of a slot when the host stops: nobody is left waiting for it to be taken, and whoever waited for an
-- answer is sent one failure.
abbrev pub IsFailed : Cell → Cell → Type 0
IsFailed before after =
    (((before.status ≡ pending) ⊎ (before.status ≡ running))
      × (after.status ≡ running)
      × (after.failures ≡ before.failures + 1))
    ⊎ ((before.status ≢ pending) × (before.status ≢ running) × (after ≡ before))

fail_cell-IsFailed : (c : Cell) (s : Status) → c.status ≡ s → IsFailed c (fail_cell c s)
unfolding fail_cell
fail_cell-IsFailed c pending e = inl (inl e, refl, refl)
fail_cell-IsFailed c running e = inl (inr e, e, refl)
fail_cell-IsFailed c free e = inr (λ q. cc, λ q. cc, refl)
fail_cell-IsFailed c ready e = inr (λ q. cc, λ q. cc, refl)
fail_cell-IsFailed c cancelled e = inr (λ q. cc, λ q. cc, refl)
fail_cell-IsFailed c claimed e = inr (λ q. cc, λ q. cc, refl)

abbrev pub AllPairs : (Cell → Cell → Type 0) → List Cell → List Cell → Type 0
AllPairs P [] [] = Unit {0}
AllPairs P [] (d ∷ ds) = ⊥
AllPairs P (c ∷ cs) [] = ⊥
AllPairs P (c ∷ cs) (d ∷ ds) = P c d × AllPairs P cs ds

-- Of every slot, when the host stops: a slot that waited to be taken or for its answer is sent one failure and can
-- have it written, and any other slot is as it was.
pub fail_pending-IsFailed : (cells : List Cell) → AllPairs IsFailed cells (fail_pending cells)
unfolding fail_pending
fail_pending-IsFailed [] = tt
fail_pending-IsFailed (c ∷ rest) = (fail_cell-IsFailed c c.status refl, fail_pending-IsFailed rest)

first_landed-append :
    (cells : List Cell) (before : List WaitTicket) (t : WaitTicket) (rest : List WaitTicket)
    → All (λ u. has_landed cells u ≡ false) before
    → has_landed cells t ≡ true
    → first_landed cells (before ++ t ∷ rest) ≡ some t
first_landed-append cells [] t rest h e = rw (first_landed, e) refl
first_landed-append cells (u ∷ before) t rest h e =
    if_intro (λ o. o ≡ some t) (has_landed cells u) (λ landed. cc h.0)
      (λ waits. first_landed-append cells before t rest h.1 e)

wait_turn-first :
    (cells : List Cell) (late : Bool) (tickets : List WaitTicket) (t : WaitTicket)
    → first_landed cells tickets ≡ some t
    → wait_turn cells late tickets ≡ settled t
unfolding wait_turn
wait_turn-first cells late [] t e = cc
wait_turn-first cells late (u ∷ rest) t e =
    ap (λ o. elim o [ none ↦ if late then out_of_time else waits_on | some v ↦ settled v ]) e

-- A ticket that has landed is reported, whatever the time: the first of those that have.
pub wait_turn-settled :
    (cells : List Cell) (late : Bool) (before : List WaitTicket) (t : WaitTicket)
    (rest : List WaitTicket)
    → All (λ u. has_landed cells u ≡ false) before
    → has_landed cells t ≡ true
    → wait_turn cells late (before ++ t ∷ rest) ≡ settled t
wait_turn-settled cells late before t rest h e =
    wait_turn-first cells late (before ++ t ∷ rest) t (first_landed-append cells before t rest h e)
