-- ===== src/SlotRing/Examples.antt =====
-- The slot's theorems at a call that is cancelled while its handler runs, and at the call after it.
use wac_mono.Base.{
  ℕ, true, false, ◌≡◌, inl, refl, none, List, [], ◌∷◌, some, replicate, length-replicate, length,
  drop, arith, All,
}
use wac_mono.SlotRing.Ring.{takes_slot, claim_from, claim_slot}
use wac_mono.SlotRing.Slot.{Status, free, pending, running, ready, Request, Outcome, new_slot}
use wac_mono.SlotRing.Worker.{claim, submit, collect, cancel, bump, mark}
use wac_mono.SlotRing.Host.{sweep, take_slot, finish_job, reply, deliver, publish}
use wac_mono.SlotRing.System.{
  Action, claims, submits, collects, cancels, bumps, marks, sweeps, takes, finishes, replies,
  delivers, publishes, step, run,
}
use wac_mono.Bridge.{inline_bytes}
use wac_mono.SlotRing.Pieces.{Bytes, status_ok, status_error, Answer, collected, failed, host_call}
use wac_mono.SlotRing.Whole.{host_call-whole, long_failure_loses_head}
use wac_mono.SlotRing.Answers.{AllWhole, own_outcome_collected}
use wac_mono.SlotRing.Races.{taken_while_cancelled, cancelled_before_reply, stale_outcome_collected}

abbrev first : Request
first = record { op = 19; payload = 1 ∷ [] }

abbrev second : Request
second = record { op = 19; payload = 2 ∷ [] }

abbrev cancelled_while_running : List Action
cancelled_while_running =
    claims
    ∷ submits first
    ∷ sweeps
    ∷ takes none
    ∷ cancels 0
    ∷ bumps
    ∷ marks
    ∷ sweeps
    ∷ claims
    ∷ submits second
    ∷ sweeps
    ∷ takes none
    ∷ finishes 0 0 (11 ∷ [])
    ∷ finishes 0 0 (22 ∷ [])
    ∷ replies
    ∷ delivers 0
    ∷ publishes
    ∷ collects 1
    ∷ []

cancelled_while_running-AllWhole : AllWhole new_slot cancelled_while_running
unfolding step claim submit collect cancel bump mark sweep take_slot finish_job reply deliver
    publish
cancelled_while_running-AllWhole = (
  tt,
  (
    tt,
    (
      refl,
      (
        inl refl,
        (
          refl,
          (
            refl,
            (tt, (refl, (tt, (tt, (refl, (inl refl, (tt, (tt, (tt, (tt, (tt, (refl, tt)))))))))))),
          ),
        ),
      ),
    ),
  ),
)

own_outcome_collected_example :
    All (λ c. c.1.asked ≡ c.0) (run new_slot cancelled_while_running).collected
own_outcome_collected_example =
    own_outcome_collected cancelled_while_running (omega arith) cancelled_while_running-AllWhole

collected_once :
    (run new_slot cancelled_while_running).collected
    ≡ (second, record { asked = second; status = 0; body = 22 ∷ [] }) ∷ []
unfolding run step claim submit collect cancel bump mark sweep take_slot finish_job reply deliver
    publish
collected_once = refl

stale_outcome_collected_example :
    let stale : Outcome = record { asked = first; status = 0; body = 11 ∷ [] } in
    ((run new_slot (taken_while_cancelled first second 0 (11 ∷ []))).collected
      ≡ (second, stale) ∷ [])
    × ((run new_slot (cancelled_before_reply first second 0 (11 ∷ []))).collected
        ≡ (second, stale) ∷ [])
stale_outcome_collected_example = stale_outcome_collected first second 0 (11 ∷ [])

-- A handler that answers with the payload turned round, and one whose message is long.
abbrev turn_round : Bytes → Bytes → Bytes
turn_round done [] = done
turn_round done (b ∷ bs) = turn_round (b ∷ done) bs

abbrev echo : Bytes → Answer
echo payload = record { status = status_ok; bytes = turn_round [] payload }

host_call-whole_example :
    host_call echo (λ k. true) (1 ∷ 2 ∷ 3 ∷ []) ≡ some (collected (3 ∷ 2 ∷ 1 ∷ []))
host_call-whole_example = host_call-whole echo (λ k. true) (1 ∷ 2 ∷ 3 ∷ []) (3 ∷ 2 ∷ 1 ∷ []) refl

abbrev long_message : Bytes
long_message = replicate 5000 120

long_message-length : length long_message ≡ 5000
long_message-length = length-replicate {A = ℕ} 5000 120

abbrev refuse : Bytes → Answer
refuse payload = record { status = status_error; bytes = long_message }

long_failure_loses_head_example :
    host_call refuse (λ k. false) (1 ∷ []) ≡ some (failed (drop inline_bytes long_message))
long_failure_loses_head_example =
    long_failure_loses_head refuse (1 ∷ []) long_message refl (omega (arith, long_message-length))
      (omega (arith, long_message-length))

abbrev busy_ring : List Status
busy_ring = ready ∷ running ∷ free ∷ pending ∷ free ∷ []

first_free : claim_slot busy_ring ≡ takes_slot 2
unfolding claim_slot claim_from
first_free = refl
