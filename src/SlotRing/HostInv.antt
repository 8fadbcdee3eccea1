-- ===== src/SlotRing/HostInv.antt =====
-- The host's first steps, its sweep and its take of the slot, keep the invariant of the slot.
use wac_mono.Base.{
  ℕ, ◌<◌, ◌≡◌, ◌≢◌, ◌⊎◌, inl, inr, refl, subst, ap, arith, Bool, true, false, not, Option, none,
  some, List, [], ◌∷◌, ◌++◌, if_intro, All, All-append,
}
use wac_mono.SlotRing.Slot.{
  Status, free, pending, running, ready, cancelled, claimed, Request, Job, WorkerAt, filling,
  HostAt, sweeping, taking, replying, writing, Scene, is_pending,
}
use wac_mono.SlotRing.Host.{sweep, visit, take_slot, dispatch}
use wac_mono.SlotRing.Inv.{is_marking, is_owned, is_unissued, HostFits, Inv}

module _ (s : Scene) (v : Inv s) where
  -- Where nothing is owned, nothing in flight is of the slot's generation.
  aged_by_unowned_jobs : is_owned s.status s.worker ≡ false → All (λ j. j.gen < s.gen) s.jobs
  aged_by_unowned_jobs n = elim v.unowned_jobs [ inl o ↦ cc | inr all ↦ all ]

  aged_by_unowned_delayed : is_owned s.status s.worker ≡ false → All (λ d. d.gen < s.gen) s.delayed
  aged_by_unowned_delayed n = elim v.unowned_delayed [ inl o ↦ cc | inr all ↦ all ]

  unissued_tickets : is_unissued s.status ≡ true → All (λ t. t.gen < s.gen) s.tickets
  unissued_tickets u = elim v.unissued [ inl n ↦ cc | inr all ↦ all ]

  not_filling : s.status ≢ claimed → s.worker ≢ filling
  not_filling n = elim v.fill [ inl f ↦ f | inr c ↦ λ w. n c ]

  pub host_at : (h : HostAt) → s.host ≡ h → HostFits s.status s.gen s.request s.worker h
  host_at h e = subst (HostFits s.status s.gen s.request s.worker) e v.host

  -- The host may always turn to its sweep.
  idle-Inv : Inv (record s { host = sweeping })
  idle-Inv = record {
    tickets = v.tickets;
    jobs = v.jobs;
    delayed = v.delayed;
    unissued = v.unissued;
    marked = v.marked;
    unowned_jobs = v.unowned_jobs;
    unowned_delayed = v.unowned_delayed;
    fill = v.fill;
    host = tt;
    answered = v.answered;
    right = v.right;
  }

pub sweep-Inv :
    (s : Scene) (h : HostAt) → s.host ≡ h → is_marking s.worker ≡ false → Inv s → Inv (sweep s h)
unfolding sweep
sweep-Inv s (taking g r) e n v = v
sweep-Inv s (replying g a) e n v = v
sweep-Inv s (writing g a) e n v = v
sweep-Inv s sweeping e n v = visited s.status refl
  where
    visited : (st : Status) → s.status ≡ st → Inv (visit s st)
    visited free f = unfold visit in v
    visited running f = unfold visit in v
    visited ready f = unfold visit in v
    visited claimed f = unfold visit in v
    visited pending f =
        unfold visit in
        record {
          tickets = v.tickets;
          jobs = v.jobs;
          delayed = v.delayed;
          unissued = v.unissued;
          marked = v.marked;
          unowned_jobs = v.unowned_jobs;
          unowned_delayed = v.unowned_delayed;
          fill = v.fill;
          host = (inr (refl, refl), inl f, inr n, inl refl);
          answered = v.answered;
          right = v.right;
        }
    visited cancelled f =
        unfold visit in
        record {
          tickets = v.tickets;
          jobs = v.jobs;
          delayed = v.delayed;
          unissued = inr (unissued_tickets s v (ap is_unissued f));
          marked = v.marked;
          unowned_jobs = inr (aged_by_unowned_jobs s v (ap (λ st. is_owned st s.worker) f));
          unowned_delayed = inr (aged_by_unowned_delayed s v (ap (λ st. is_owned st s.worker) f));
          fill = inl (not_filling s v (λ q. cc));
          host = simp e tt;
          answered = inl refl;
          right = v.right;
        }

is_pending-eq : (st : Status) → is_pending st ≡ true → st ≡ pending
is_pending-eq st h = ground arith

running_fits :
    (gen : ℕ) (now : Request) (st : Status) (w : WorkerAt) (g : ℕ) (r : Request)
    → st ≡ pending
    → is_marking w ≡ false
    → HostFits st gen now w (taking g r)
    → (g ≡ gen) × (r ≡ now) × (is_owned running w ≡ true)
running_fits gen now st w g r f n v = ground arith

-- An append to jobs that the slot does not own while a cancel goes on.
unowned-append :
    (s : Scene) (g : ℕ) (r : Request) (m : Bool)
    → is_marking s.worker ≡ m
    → All (λ j. j.gen < s.gen) s.jobs
    → (g < s.gen) ⊎ (is_marking s.worker ≡ false)
    → (is_owned running s.worker ≡ true)
      ⊎ All (λ (j : Job). j.gen < s.gen) (s.jobs ++ record { gen = g; request = r } ∷ [])
unowned-append s g r false e jobs h = inl (ap not e)
unowned-append s g r true e jobs h = inr (All-append _ s.jobs _ jobs (ground arith, tt))

pub take-Inv :
    (s : Scene) (missing : Option (List ℕ)) (h : HostAt)
    → s.host ≡ h
    → (missing ≡ none) ⊎ (is_marking s.worker ≡ false)
    → Inv s
    → Inv (take_slot s missing h)
unfolding take_slot dispatch
take-Inv s missing sweeping e n v = v
take-Inv s missing (replying g a) e n v = v
take-Inv s missing (writing g a) e n v = v
take-Inv s missing (taking g r) e n v =
    if_intro Inv (is_pending s.status) (λ p. taken missing n (is_pending-eq s.status p))
      (λ p. idle-Inv s v)
  where
    taken :
        (m : Option (List ℕ))
        → (m ≡ none) ⊎ (is_marking s.worker ≡ false)
        → s.status ≡ pending
        → Inv (dispatch s g r m)
    taken none m f =
        let fits : HostFits s.status s.gen s.request s.worker (taking g r) =
          host_at s v (taking g r) e in
        let aged : is_owned s.status s.worker ≡ false = ap (λ st. is_owned st s.worker) f in
        record {
          tickets = v.tickets;
          jobs = All-append _ s.jobs _ v.jobs (fits.0, tt);
          delayed = v.delayed;
          unissued = inl refl;
          marked = v.marked;
          unowned_jobs =
              unowned-append s g r (is_marking s.worker) refl (aged_by_unowned_jobs s v aged)
                fits.2;
          unowned_delayed = inr (aged_by_unowned_delayed s v aged);
          fill = inl (not_filling s v (λ q. cc));
          host = tt;
          answered = inr (inl (λ q. cc));
          right = v.right;
        }
    taken (some text) (inl m) f = cc
    taken (some text) (inr m) f =
        let aged : is_owned s.status s.worker ≡ false = ap (λ st. is_owned st s.worker) f in
        record {
          tickets = v.tickets;
          jobs = v.jobs;
          delayed = v.delayed;
          unissued = inl refl;
          marked = v.marked;
          unowned_jobs = inr (aged_by_unowned_jobs s v aged);
          unowned_delayed = inr (aged_by_unowned_delayed s v aged);
          fill = inl (not_filling s v (λ q. cc));
          host =
              running_fits s.gen s.request s.status s.worker g r f m (host_at s v (taking g r) e);
          answered = inr (inl (λ q. cc));
          right = v.right;
        }
