-- ===== src/SlotRing/Answers.antt =====
-- What the tickets of a slot collect, where no step splits a cancel.
use wac_mono.Base.{
  ◌≡◌, ◌⊎◌, inl, inr, refl, false, none, List, [], ◌∷◌, get_elem?, All, ◌+◌, ◌<◌, length, arith,
}
use wac_mono.SlotRing.Slot.{Scene, new_slot}
use wac_mono.SlotRing.Generations.{step-gen}
use wac_mono.SlotRing.System.{
  Action, claims, submits, collects, cancels, bumps, marks, sweeps, takes, finishes, replies,
  delivers, publishes, step, run,
}
use wac_mono.SlotRing.Inv.{is_marking, is_replying, Inv}
use wac_mono.SlotRing.WorkerInv.{claim-Inv, submit-Inv, collect-Inv, cancel-Inv, bump-Inv, mark-Inv}
use wac_mono.SlotRing.HostInv.{sweep-Inv, take-Inv}
use wac_mono.SlotRing.AnswerInv.{finish-Inv, reply-Inv, deliver-Inv, publish-Inv}

-- The step is not in the middle of another: no ticket is ended while the host stands in `reply`, and the host
-- neither visits the slot nor answers at once for a missing handler between the two stores of a cancel.
abbrev pub IsWhole : Scene → Action → Type 0
IsWhole s (collects k) = is_replying s.host ≡ false
IsWhole s (cancels k) = is_replying s.host ≡ false
IsWhole s bumps = is_replying s.host ≡ false
IsWhole s sweeps = is_marking s.worker ≡ false
IsWhole s (takes missing) = (missing ≡ none) ⊎ (is_marking s.worker ≡ false)
IsWhole s claims = Unit {0}
IsWhole s (submits r) = Unit {0}
IsWhole s marks = Unit {0}
IsWhole s (finishes k status body) = Unit {0}
IsWhole s replies = Unit {0}
IsWhole s (delivers k) = Unit {0}
IsWhole s publishes = Unit {0}

abbrev pub AllWhole : Scene → List Action → Type 0
AllWhole s [] = Unit {0}
AllWhole s (a ∷ rest) = IsWhole s a × AllWhole (step s a) rest

step-Inv : (s : Scene) (a : Action) → s.gen + 1 < 4294967296 → IsWhole s a → Inv s → Inv (step s a)
unfolding step
step-Inv s claims small w v = claim-Inv s s.worker refl v
step-Inv s (submits r) small w v = submit-Inv s r s.worker refl v
step-Inv s (collects k) small w v =
    collect-Inv s k (get_elem? s.tickets k) s.worker refl refl w small v
step-Inv s (cancels k) small w v = cancel-Inv s (get_elem? s.tickets k) s.worker refl w small v
step-Inv s bumps small w v = bump-Inv s s.worker refl w small v
step-Inv s marks small w v = mark-Inv s s.worker refl v
step-Inv s sweeps small w v = sweep-Inv s s.host refl w v
step-Inv s (takes missing) small w v = take-Inv s missing s.host refl w v
step-Inv s (finishes k status body) small w v =
    finish-Inv s k status body (get_elem? s.jobs k) s.host refl refl v
step-Inv s replies small w v = reply-Inv s s.host refl v
step-Inv s (delivers k) small w v = deliver-Inv s k (get_elem? s.delayed k) s.host refl refl v
step-Inv s publishes small w v = publish-Inv s s.host refl v

run-Inv :
    (s : Scene) (actions : List Action)
    → s.gen + length actions < 4294967296
    → AllWhole s actions
    → Inv s
    → Inv (run s actions)
unfolding run
run-Inv s [] small w v = v
run-Inv s (a ∷ rest) small w v =
    run-Inv (step s a) rest (omega (arith, small, step-gen s a)) w.1
      (step-Inv s a (omega (arith, small)) w.0 v)

new_slot-Inv : Inv new_slot
new_slot-Inv = record {
  tickets = tt;
  jobs = tt;
  delayed = tt;
  unissued = inr tt;
  marked = inl refl;
  unowned_jobs = inr tt;
  unowned_delayed = inr tt;
  fill = inl (λ q. cc);
  host = tt;
  answered = inl refl;
  right = tt;
}

-- For all steps of the worker and of the host in any order, from a new slot, fewer than 2^32 and of which none is in the
-- middle of another: whatever is collected was computed for the request that its ticket was submitted with.
pub own_outcome_collected :
    (actions : List Action)
    → length actions < 4294967296
    → AllWhole new_slot actions
    → All (λ c. c.1.asked ≡ c.0) (run new_slot actions).collected
own_outcome_collected actions small w =
    (run-Inv new_slot actions (omega (arith, small)) w new_slot-Inv).right
