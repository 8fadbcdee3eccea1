-- ===== src/SlotRing/Generations.antt =====
-- A step moves the generation of a slot on by one at most.
use wac_mono.Base.{ℕ, ◌+◌, ◌≤◌, arith, Option, none, some, List, get_elem?, if_intro, ◌==◌, ◌&&◌}
use wac_mono.SlotRing.Slot.{
  Status, free, pending, running, ready, cancelled, claimed, Request, Ticket, Job, Delayed,
  WorkerAt, outside, filling, cancelling, marking, HostAt, sweeping, taking, replying, writing,
  Scene, is_free, is_ready, is_pending, is_running,
}
use wac_mono.SlotRing.Worker.{claim, submit, collect, cancel, bump, mark, release}
use wac_mono.SlotRing.Host.{visit, sweep, dispatch, take_slot, finish_job, reply, deliver, publish}
use wac_mono.SlotRing.System.{
  Action, claims, submits, collects, cancels, bumps, marks, sweeps, takes, finishes, replies,
  delivers, publishes, step,
}

-- The generation after is the one before, or not above the next.
abbrev Near : ℕ → Scene → Type 0
Near g s = s.gen ≤ g + 1

module _ (s : Scene) where
  claim-Near : (w : WorkerAt) → Near s.gen (claim s w)
  unfolding claim
  claim-Near outside =
      if_intro (Near s.gen) (is_free s.status) (λ f. omega arith) (λ f. omega arith)
  claim-Near filling = omega arith
  claim-Near cancelling = omega arith
  claim-Near marking = omega arith

  submit-Near : (r : Request) (w : WorkerAt) → Near s.gen (submit s r w)
  unfolding submit
  submit-Near r outside = omega arith
  submit-Near r filling = omega arith
  submit-Near r cancelling = omega arith
  submit-Near r marking = omega arith

  collect-Near : (t : Option Ticket) (w : WorkerAt) → Near s.gen (collect s t w)
  unfolding collect release
  collect-Near none w = omega arith
  collect-Near (some t) filling = omega arith
  collect-Near (some t) cancelling = omega arith
  collect-Near (some t) marking = omega arith
  collect-Near (some t) outside =
      if_intro (Near s.gen) (t.gen == s.gen && is_ready s.status) (λ now. omega arith)
        (λ later. omega arith)

  cancel-Near : (t : Option Ticket) (w : WorkerAt) → Near s.gen (cancel s t w)
  unfolding cancel release
  cancel-Near none w = omega arith
  cancel-Near (some t) filling = omega arith
  cancel-Near (some t) cancelling = omega arith
  cancel-Near (some t) marking = omega arith
  cancel-Near (some t) outside =
      if_intro (Near s.gen) (t.gen == s.gen)
        (λ now. if_intro (Near s.gen) (is_ready s.status) (λ f. omega arith) (λ f. omega arith))
        (λ later. omega arith)

  bump-Near : (w : WorkerAt) → Near s.gen (bump s w)
  unfolding bump
  bump-Near outside = omega arith
  bump-Near filling = omega arith
  bump-Near cancelling = omega arith
  bump-Near marking = omega arith

  mark-Near : (w : WorkerAt) → Near s.gen (mark s w)
  unfolding mark
  mark-Near outside = omega arith
  mark-Near filling = omega arith
  mark-Near cancelling = omega arith
  mark-Near marking = omega arith

  visit-Near : (st : Status) → Near s.gen (visit s st)
  unfolding visit
  visit-Near free = omega arith
  visit-Near pending = omega arith
  visit-Near running = omega arith
  visit-Near ready = omega arith
  visit-Near cancelled = omega arith
  visit-Near claimed = omega arith

  sweep-Near : (h : HostAt) → Near s.gen (sweep s h)
  unfolding sweep
  sweep-Near sweeping = visit-Near s.status
  sweep-Near (taking g r) = omega arith
  sweep-Near (replying g a) = omega arith
  sweep-Near (writing g a) = omega arith

  take_slot-Near : (missing : Option (List ℕ)) (h : HostAt) → Near s.gen (take_slot s missing h)
  unfolding take_slot
  take_slot-Near missing (taking g r) =
      if_intro (Near s.gen) (is_pending s.status) (λ now. dispatched missing) (λ gone. omega arith)
    where
      dispatched : (missing : Option (List ℕ)) → Near s.gen (dispatch s g r missing)
      dispatched none = unfold dispatch in omega arith
      dispatched (some bytes) = unfold dispatch in omega arith
  take_slot-Near missing sweeping = omega arith
  take_slot-Near missing (replying g a) = omega arith
  take_slot-Near missing (writing g a) = omega arith

  finish_job-Near :
      (k status : ℕ) (body : List ℕ) (job : Option Job) (h : HostAt)
      → Near s.gen (finish_job s k status body job h)
  unfolding finish_job
  finish_job-Near k status body none h = omega arith
  finish_job-Near k status body (some job) sweeping =
      if_intro (Near s.gen) (s.gen == job.gen) (λ now. omega arith) (λ gone. omega arith)
  finish_job-Near k status body (some job) (taking g r) = omega arith
  finish_job-Near k status body (some job) (replying g a) = omega arith
  finish_job-Near k status body (some job) (writing g a) = omega arith

  reply-Near : (h : HostAt) → Near s.gen (reply s h)
  unfolding reply
  reply-Near sweeping = omega arith
  reply-Near (taking g r) = omega arith
  reply-Near (replying g a) = omega arith
  reply-Near (writing g a) = omega arith

  deliver-Near : (k : ℕ) (d : Option Delayed) (h : HostAt) → Near s.gen (deliver s k d h)
  unfolding deliver
  deliver-Near k none h = omega arith
  deliver-Near k (some d) sweeping =
      if_intro (Near s.gen) (s.gen == d.gen) (λ now. omega arith) (λ gone. omega arith)
  deliver-Near k (some d) (taking g r) = omega arith
  deliver-Near k (some d) (replying g a) = omega arith
  deliver-Near k (some d) (writing g a) = omega arith

  publish-Near : (h : HostAt) → Near s.gen (publish s h)
  unfolding publish
  publish-Near (writing g a) =
      if_intro (Near s.gen) (is_running s.status) (λ now. omega arith) (λ gone. omega arith)
  publish-Near sweeping = omega arith
  publish-Near (taking g r) = omega arith
  publish-Near (replying g a) = omega arith

pub step-gen : (s : Scene) (a : Action) → (step s a).gen ≤ s.gen + 1
unfolding step
step-gen s claims = claim-Near s s.worker
step-gen s (submits r) = submit-Near s r s.worker
step-gen s (collects k) = collect-Near s (get_elem? s.tickets k) s.worker
step-gen s (cancels k) = cancel-Near s (get_elem? s.tickets k) s.worker
step-gen s bumps = bump-Near s s.worker
step-gen s marks = mark-Near s s.worker
step-gen s sweeps = sweep-Near s s.host
step-gen s (takes missing) = take_slot-Near s missing s.host
step-gen s (finishes k status body) = finish_job-Near s k status body (get_elem? s.jobs k) s.host
step-gen s replies = reply-Near s s.host
step-gen s (delivers k) = deliver-Near s k (get_elem? s.delayed k) s.host
step-gen s publishes = publish-Near s s.host
