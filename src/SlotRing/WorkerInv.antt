-- ===== src/SlotRing/WorkerInv.antt =====
-- The steps of the worker keep the invariant of the slot.
use wac_mono.Base.{
  ℕ, ◌+◌, ◌<◌, ◌≡◌, ◌⊎◌, inl, inr, refl, arith, true, false, ◌&&◌, Option, none, some, List, [],
  ◌∷◌, ◌++◌, ◌==◌, if_intro, get_elem?, All, All-get_elem?, All-append, All-imp,
}
use wac_mono.SlotRing.Slot.{
  Status, free, pending, ready, cancelled, claimed, Request, Outcome, Ticket, WorkerAt, outside,
  filling, cancelling, marking, HostAt, sweeping, taking, replying, writing, Scene, is_free,
  is_ready, next_gen,
}
use wac_mono.SlotRing.Worker.{claim, submit, collect, cancel, bump, mark, release}
use wac_mono.SlotRing.Inv.{
  is_replying, is_owned, Fits, HostFits, Inv, aged_tickets, aged_jobs, aged_delayed,
}

is_free-eq : (st : Status) → is_free st ≡ true → st ≡ free
is_free-eq st h = ground arith

host-claim :
    (gen : ℕ) (now : Request) (h : HostAt)
    → HostFits free gen now outside h
    → HostFits claimed gen now filling h
host-claim gen now sweeping v = tt
host-claim gen now (taking g r) v = ground arith
host-claim gen now (replying g a) v = ground arith
host-claim gen now (writing g a) v = ground arith

pub claim-Inv : (s : Scene) (w : WorkerAt) → s.worker ≡ w → Inv s → Inv (claim s w)
unfolding claim
claim-Inv s outside e v =
    if_intro Inv (is_free s.status) (λ f. claimed_now (is_free-eq s.status f)) (λ f. v)
  where
    claimed_now : s.status ≡ free → Inv (record s { status = claimed; worker = filling })
    claimed_now f = record {
      tickets = v.tickets;
      jobs = v.jobs;
      delayed = v.delayed;
      unissued = ground arith;
      marked = inl refl;
      unowned_jobs = ground arith;
      unowned_delayed = ground arith;
      fill = inr refl;
      host = host-claim s.gen s.request s.host (simp (← f, ← e) v.host);
      answered = inl refl;
      right = v.right;
    }
claim-Inv s filling e v = v
claim-Inv s cancelling e v = v
claim-Inv s marking e v = v

host-submit :
    (gen : ℕ) (now r : Request) (h : HostAt)
    → HostFits claimed gen now filling h
    → HostFits pending gen r outside h
host-submit gen now r sweeping v = tt
host-submit gen now r (taking g q) v = ground arith
host-submit gen now r (replying g a) v = ground arith
host-submit gen now r (writing g a) v = ground arith

pub submit-Inv :
    (s : Scene) (r : Request) (w : WorkerAt) → s.worker ≡ w → Inv s → Inv (submit s r w)
unfolding submit
submit-Inv s r outside e v = v
submit-Inv s r cancelling e v = v
submit-Inv s r marking e v = v
submit-Inv s r filling e v = published (ground arith)
  where
    published :
        s.status ≡ claimed
        → Inv (record s {
          request = r;
          status = pending;
          worker = outside;
          tickets = s.tickets ++ record { gen = s.gen; request = r } ∷ [];
        })
    published f =
        let tickets : All (λ t. t.gen < s.gen) s.tickets = ground arith in
        let jobs : All (λ j. j.gen < s.gen) s.jobs = ground arith in
        let delayed : All (λ d. d.gen < s.gen) s.delayed = ground arith in
        record {
          tickets =
              All-append _ s.tickets _ (All-imp (λ t lt. inl lt) s.tickets tickets)
                (inr (refl, refl), tt);
          jobs = All-imp (λ j lt. inl lt) s.jobs jobs;
          delayed = All-imp (λ d lt. inl lt) s.delayed delayed;
          unissued = inl refl;
          marked = inl refl;
          unowned_jobs = inr jobs;
          unowned_delayed = inr delayed;
          fill = inl (λ q. cc);
          host = host-submit s.gen s.request r s.host (simp (← f, ← e) v.host);
          answered = inl refl;
          right = v.right;
        }

host-release :
    (gen : ℕ) (now : Request) (h : HostAt)
    → is_replying h ≡ false
    → HostFits ready gen now outside h
    → HostFits free (gen + 1) now outside h
host-release gen now sweeping n v = tt
host-release gen now (taking g q) n v = ground arith
host-release gen now (replying g a) n v = cc
host-release gen now (writing g a) n v = ground arith

next_gen-small : (g : ℕ) → g + 1 < 4294967296 → next_gen g ≡ g + 1
next_gen-small g small = omega arith

-- A slot with an answer is given back, whatever was collected from it before.
release-Inv :
    (s : Scene) (log : List (Request × Outcome))
    → s.worker ≡ outside
    → s.status ≡ ready
    → is_replying s.host ≡ false
    → All (λ c. c.1.asked ≡ c.0) log
    → s.gen + 1 < 4294967296
    → Inv s
    → Inv (release (record s { collected = log }))
unfolding release
release-Inv s log e f n right small v = rw (next_gen-small s.gen small) (record {
  tickets = All-imp (λ t lt. inl lt) s.tickets (aged_tickets s v);
  jobs = All-imp (λ j lt. inl lt) s.jobs (aged_jobs s v);
  delayed = All-imp (λ d lt. inl lt) s.delayed (aged_delayed s v);
  unissued = inr (aged_tickets s v);
  marked = inr (aged_tickets s v);
  unowned_jobs = inr (aged_jobs s v);
  unowned_delayed = inr (aged_delayed s v);
  fill = inl (λ q. cc);
  host = simp e (host-release s.gen s.request s.host n (simp (← f, ← e) v.host));
  answered = inl refl;
  right = right;
})

is_ready-eq : (st : Status) → is_ready st ≡ true → st ≡ ready
is_ready-eq st h = ground arith

pub collect-Inv :
    (s : Scene) (k : ℕ) (t : Option Ticket) (w : WorkerAt)
    → get_elem? s.tickets k ≡ t
    → s.worker ≡ w
    → is_replying s.host ≡ false
    → s.gen + 1 < 4294967296
    → Inv s
    → Inv (collect s t w)
unfolding collect
collect-Inv s k none w g e n small v = v
collect-Inv s k (some t) filling g e n small v = v
collect-Inv s k (some t) cancelling g e n small v = v
collect-Inv s k (some t) marking g e n small v = v
collect-Inv s k (some t) outside g e n small v =
    if_intro Inv (t.gen == s.gen && is_ready s.status)
      (λ now.
        collected (ground arith) (is_ready-eq s.status (ground arith))
          (All-get_elem? _ k s.tickets t g v.tickets))
      (λ later. v)
  where
    collected :
        t.gen ≡ s.gen
        → s.status ≡ ready
        → Fits s.gen s.request t.gen t.request
        → Inv (release (record s { collected = s.collected ++ (t.request, s.answer) ∷ [] }))
    collected now f fits =
        let right : s.answer.asked ≡ t.request = ground arith in
        release-Inv s _ e f n (All-append _ s.collected _ v.right (right, tt)) small v

owned_cancelling : (st : Status) → is_owned st cancelling ≡ is_owned st outside
owned_cancelling st = ground arith

not_owned_marking : (st : Status) → is_owned st marking ≡ false
not_owned_marking st = ground arith

host-cancel :
    (st : Status) (gen : ℕ) (now : Request) (h : HostAt)
    → HostFits st gen now outside h
    → HostFits st gen now cancelling h
host-cancel st gen now sweeping v = tt
host-cancel st gen now (taking g q) v = v
host-cancel st gen now (replying g a) v = rw (owned_cancelling st) v
host-cancel st gen now (writing g a) v = rw (owned_cancelling st) v

pub cancel-Inv :
    (s : Scene) (t : Option Ticket) (w : WorkerAt)
    → s.worker ≡ w
    → is_replying s.host ≡ false
    → s.gen + 1 < 4294967296
    → Inv s
    → Inv (cancel s t w)
unfolding cancel
cancel-Inv s none w e n small v = v
cancel-Inv s (some t) filling e n small v = v
cancel-Inv s (some t) cancelling e n small v = v
cancel-Inv s (some t) marking e n small v = v
cancel-Inv s (some t) outside e n small v =
    if_intro Inv (t.gen == s.gen)
      (λ now.
        if_intro Inv (is_ready s.status)
          (λ f. release-Inv s s.collected e (is_ready-eq s.status f) n v.right small v)
          (λ f. begun))
      (λ expired. v)
  where
    begun : Inv (record s { worker = cancelling })
    begun = record {
      tickets = v.tickets;
      jobs = v.jobs;
      delayed = v.delayed;
      unissued = v.unissued;
      marked = inl refl;
      unowned_jobs = rw (owned_cancelling s.status) (simp (← e) v.unowned_jobs);
      unowned_delayed = rw (owned_cancelling s.status) (simp (← e) v.unowned_delayed);
      fill = inl (λ q. cc);
      host = host-cancel s.status s.gen s.request s.host (simp (← e) v.host);
      answered = rw (owned_cancelling s.status) (simp (← e) v.answered);
      right = v.right;
    }

host-bump :
    (st : Status) (gen : ℕ) (now : Request) (h : HostAt)
    → is_replying h ≡ false
    → HostFits st gen now cancelling h
    → HostFits st (gen + 1) now marking h
host-bump st gen now sweeping n v = tt
host-bump st gen now (taking g q) n v = ground arith
host-bump st gen now (replying g a) n v = cc
host-bump st gen now (writing g a) n v = inr (ground arith, not_owned_marking st)

pub bump-Inv :
    (s : Scene) (w : WorkerAt)
    → s.worker ≡ w
    → is_replying s.host ≡ false
    → s.gen + 1 < 4294967296
    → Inv s
    → Inv (bump s w)
unfolding bump
bump-Inv s outside e n small v = v
bump-Inv s filling e n small v = v
bump-Inv s marking e n small v = v
bump-Inv s cancelling e n small v = rw (next_gen-small s.gen small) (record {
  tickets = All-imp (λ t lt. inl lt) s.tickets (aged_tickets s v);
  jobs = All-imp (λ j lt. inl lt) s.jobs (aged_jobs s v);
  delayed = All-imp (λ d lt. inl lt) s.delayed (aged_delayed s v);
  unissued = inr (aged_tickets s v);
  marked = inr (aged_tickets s v);
  unowned_jobs = inr (aged_jobs s v);
  unowned_delayed = inr (aged_delayed s v);
  fill = inl (λ q. cc);
  host = host-bump s.status s.gen s.request s.host n (simp (← e) v.host);
  answered = inl (not_owned_marking s.status);
  right = v.right;
})

host-mark :
    (st : Status) (gen : ℕ) (now : Request) (h : HostAt)
    → HostFits st gen now marking h
    → HostFits cancelled gen now outside h
host-mark st gen now sweeping v = tt
host-mark st gen now (taking g q) v = ground arith
host-mark st gen now (replying g a) v = cc (not_owned_marking st)
host-mark st gen now (writing g a) v = ground (arith, not_owned_marking st)

-- Where nothing is owned, all of these are of earlier calls.
unowned {ℓ κ} :
    {A : Type ℓ} (P : A → Type κ) (st : Status) (xs : List A)
    → (is_owned st marking ≡ true) ⊎ All P xs
    → All P xs
unowned P st xs (inl owned) = cc (not_owned_marking st)
unowned P st xs (inr all) = all

-- Where a cancel has moved the generation on, no ticket is of it.
marked_tickets : (s : Scene) → s.worker ≡ marking → Inv s → All (λ t. t.gen < s.gen) s.tickets
marked_tickets s e v = elim v.marked [ inl n ↦ cc | inr all ↦ all ]

pub mark-Inv : (s : Scene) (w : WorkerAt) → s.worker ≡ w → Inv s → Inv (mark s w)
unfolding mark
mark-Inv s outside e v = v
mark-Inv s filling e v = v
mark-Inv s cancelling e v = v
mark-Inv s marking e v = record {
  tickets = v.tickets;
  jobs = v.jobs;
  delayed = v.delayed;
  unissued = inr (marked_tickets s e v);
  marked = inl refl;
  unowned_jobs = inr (unowned _ s.status s.jobs (simp (← e) v.unowned_jobs));
  unowned_delayed = inr (unowned _ s.status s.delayed (simp (← e) v.unowned_delayed));
  fill = inl (λ q. cc);
  host = host-mark s.status s.gen s.request s.host (simp (← e) v.host);
  answered = inl refl;
  right = v.right;
}
