-- ===== src/SlotRing/Races.antt =====
-- Two orders of steps in which a call is handed the answer of another.
use wac_mono.Base.{ℕ, ◌≡◌, refl, none, List, [], ◌∷◌}
use wac_mono.SlotRing.Slot.{Request, Outcome, new_slot}
use wac_mono.SlotRing.Worker.{claim, submit, collect, cancel, bump, mark}
use wac_mono.SlotRing.Host.{sweep, take_slot, finish_job, reply, deliver, publish}
use wac_mono.SlotRing.System.{
  Action, claims, submits, collects, cancels, bumps, marks, sweeps, takes, finishes, replies,
  delivers, publishes, step, run,
}

-- The host takes the slot between the two stores of a cancel.
abbrev pub taken_while_cancelled : Request → Request → ℕ → List ℕ → List Action
taken_while_cancelled a b status body =
    claims
    ∷ submits a
    ∷ cancels 0
    ∷ bumps
    ∷ sweeps
    ∷ takes none
    ∷ marks
    ∷ sweeps
    ∷ claims
    ∷ submits b
    ∷ sweeps
    ∷ takes none
    ∷ finishes 0 status body
    ∷ replies
    ∷ delivers 0
    ∷ publishes
    ∷ collects 1
    ∷ []

-- The worker cancels between `stillOurs` and `reply`, and the scheduler delivers after the slot is reused.
abbrev pub cancelled_before_reply : Request → Request → ℕ → List ℕ → List Action
cancelled_before_reply a b status body =
    claims
    ∷ submits a
    ∷ sweeps
    ∷ takes none
    ∷ finishes 0 status body
    ∷ cancels 0
    ∷ bumps
    ∷ marks
    ∷ replies
    ∷ sweeps
    ∷ claims
    ∷ submits b
    ∷ sweeps
    ∷ takes none
    ∷ delivers 0
    ∷ publishes
    ∷ collects 1
    ∷ []

-- Whatever the two requests are and whatever the handler of the first answers: in both orders of steps the
-- second call collects the answer that was computed for the first.
pub stale_outcome_collected :
    (a b : Request) (status : ℕ) (body : List ℕ)
    → let stale : Outcome = record { asked = a; status = status; body = body } in
      ((run new_slot (taken_while_cancelled a b status body)).collected ≡ (b, stale) ∷ [])
      × ((run new_slot (cancelled_before_reply a b status body)).collected ≡ (b, stale) ∷ [])
unfolding run step claim submit collect cancel bump mark sweep take_slot finish_job reply deliver
    publish
stale_outcome_collected a b status body = (refl, refl)
