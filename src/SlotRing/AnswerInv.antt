-- ===== src/SlotRing/AnswerInv.antt =====
-- The host's later steps, the end of a handler and the way of its answer, keep the invariant of the slot.
use wac_mono.Base.{
  ℕ, ◌<◌, ◌≡◌, ◌≢◌, ◌⊎◌, inl, inr, refl, sym, ◌∙◌, subst, ap, arith, true, false, Option, none,
  some, List, ◌==◌, if_intro, get_elem?, All, All-get_elem?, All-append,
}
use wac_mono.SlotRing.Slot.{
  Status, running, ready, Request, Outcome, Job, Delayed, WorkerAt, HostAt, sweeping, taking,
  replying, writing, Scene, is_running, remove_nth,
}
use wac_mono.SlotRing.Host.{finish_job, reply, deliver, publish}
use wac_mono.SlotRing.Inv.{is_owned, Fits, HostFits, Inv, All-remove_nth}
use wac_mono.SlotRing.HostInv.{host_at}

module _ (s : Scene) (v : Inv s) where
  fresh_owned {ℓ} :
      {A : Type ℓ} (gen_of : A → ℕ) (xs : List A) (x : A) (k : ℕ)
      → get_elem? xs k ≡ some x
      → gen_of x ≡ s.gen
      → (is_owned s.status s.worker ≡ true) ⊎ All (λ y. gen_of y < s.gen) xs
      → is_owned s.status s.worker ≡ true
  fresh_owned gen_of xs x k at now (inl owned) = owned
  fresh_owned gen_of xs x k at now (inr all) =
      let old = All-get_elem? (λ y. gen_of y < s.gen) k xs x at all in ground arith

  fresh_asked : (g : ℕ) (r : Request) → g ≡ s.gen → Fits s.gen s.request g r → r ≡ s.request
  fresh_asked g r now (inl lt) = ground arith
  fresh_asked g r now (inr (_, asked)) = asked

pub finish-Inv :
    (s : Scene) (k status : ℕ) (body : List ℕ) (j : Option Job) (h : HostAt)
    → get_elem? s.jobs k ≡ j
    → s.host ≡ h
    → Inv s
    → Inv (finish_job s k status body j h)
unfolding finish_job
finish-Inv s k status body none h at e v = v
finish-Inv s k status body (some j) (taking g r) at e v = v
finish-Inv s k status body (some j) (replying g a) at e v = v
finish-Inv s k status body (some j) (writing g a) at e v = v
finish-Inv s k status body (some j) sweeping at e v =
    if_intro Inv (s.gen == j.gen) (λ now. answered (ground arith)) (λ stale. dropped)
  where
    unowned : (is_owned s.status s.worker ≡ true) ⊎ All (λ j. j.gen < s.gen) (remove_nth k s.jobs)
    unowned = elim v.unowned_jobs [ inl o ↦ inl o | inr all ↦ inr (All-remove_nth _ k s.jobs all) ]

    dropped : Inv (record s { jobs = remove_nth k s.jobs })
    dropped = record {
      tickets = v.tickets;
      jobs = All-remove_nth _ k s.jobs v.jobs;
      delayed = v.delayed;
      unissued = v.unissued;
      marked = v.marked;
      unowned_jobs = unowned;
      unowned_delayed = v.unowned_delayed;
      fill = v.fill;
      host = v.host;
      answered = v.answered;
      right = v.right;
    }

    answered :
        j.gen ≡ s.gen
        → Inv (record s {
          jobs = remove_nth k s.jobs;
          host = replying j.gen (record { asked = j.request; status = status; body = body });
        })
    answered now = record {
      tickets = v.tickets;
      jobs = All-remove_nth _ k s.jobs v.jobs;
      delayed = v.delayed;
      unissued = v.unissued;
      marked = v.marked;
      unowned_jobs = unowned;
      unowned_delayed = v.unowned_delayed;
      fill = v.fill;
      host = (
        now,
        fresh_asked s v j.gen j.request now (All-get_elem? _ k s.jobs j at v.jobs),
        fresh_owned s v (λ (j : Job). j.gen) s.jobs j k at now v.unowned_jobs,
      );
      answered = v.answered;
      right = v.right;
    }

pub reply-Inv : (s : Scene) (h : HostAt) → s.host ≡ h → Inv s → Inv (reply s h)
unfolding reply
reply-Inv s sweeping e v = v
reply-Inv s (taking g r) e v = v
reply-Inv s (writing g a) e v = v
reply-Inv s (replying g a) e v =
    let fits : HostFits s.status s.gen s.request s.worker (replying g a) =
      host_at s v (replying g a) e in
    record {
      tickets = v.tickets;
      jobs = v.jobs;
      delayed = All-append _ s.delayed _ v.delayed (inr (refl, fits.1), tt);
      unissued = v.unissued;
      marked = v.marked;
      unowned_jobs = v.unowned_jobs;
      unowned_delayed = inl fits.2;
      fill = v.fill;
      host = tt;
      answered = v.answered;
      right = v.right;
    }

pub deliver-Inv :
    (s : Scene) (k : ℕ) (d : Option Delayed) (h : HostAt)
    → get_elem? s.delayed k ≡ d
    → s.host ≡ h
    → Inv s
    → Inv (deliver s k d h)
unfolding deliver
deliver-Inv s k none h at e v = v
deliver-Inv s k (some d) (taking g r) at e v = v
deliver-Inv s k (some d) (replying g a) at e v = v
deliver-Inv s k (some d) (writing g a) at e v = v
deliver-Inv s k (some d) sweeping at e v =
    if_intro Inv (s.gen == d.gen) (λ now. written (ground arith)) (λ stale. dropped)
  where
    unowned :
        (is_owned s.status s.worker ≡ true) ⊎ All (λ d. d.gen < s.gen) (remove_nth k s.delayed)
    unowned = elim v.unowned_delayed [
      | inl o ↦ inl o
      | inr all ↦ inr (All-remove_nth _ k s.delayed all)
    ]

    dropped : Inv (record s { delayed = remove_nth k s.delayed })
    dropped = record {
      tickets = v.tickets;
      jobs = v.jobs;
      delayed = All-remove_nth _ k s.delayed v.delayed;
      unissued = v.unissued;
      marked = v.marked;
      unowned_jobs = v.unowned_jobs;
      unowned_delayed = unowned;
      fill = v.fill;
      host = v.host;
      answered = v.answered;
      right = v.right;
    }

    written :
        d.gen ≡ s.gen
        → Inv (record s { delayed = remove_nth k s.delayed; host = writing d.gen d.answer })
    written now = record {
      tickets = v.tickets;
      jobs = v.jobs;
      delayed = All-remove_nth _ k s.delayed v.delayed;
      unissued = v.unissued;
      marked = v.marked;
      unowned_jobs = v.unowned_jobs;
      unowned_delayed = unowned;
      fill = v.fill;
      host = inl (
        now,
        fresh_asked s v d.gen d.answer.asked now (All-get_elem? _ k s.delayed d at v.delayed),
        fresh_owned s v (λ (d : Delayed). d.gen) s.delayed d k at now v.unowned_delayed,
      );
      answered = v.answered;
      right = v.right;
    }

is_running-eq : (st : Status) → is_running st ≡ true → st ≡ running
is_running-eq st h = ground arith

published_fits :
    (st st' : Status) (gen : ℕ) (now : Request) (w : WorkerAt) (g : ℕ) (a : Outcome)
    → is_owned st w ≡ is_owned st' w
    → HostFits st gen now w (writing g a)
    → (is_owned st' w ≡ false) ⊎ (st' ≢ ready) ⊎ (a.asked ≡ now)
published_fits st st' gen now w g a same (inl (_, asked, _)) = inr (inr asked)
published_fits st st' gen now w g a same (inr (_, unowned)) = inl (sym same ∙ unowned)

pub publish-Inv : (s : Scene) (h : HostAt) → s.host ≡ h → Inv s → Inv (publish s h)
unfolding publish
publish-Inv s sweeping e v = v
publish-Inv s (taking g r) e v = v
publish-Inv s (replying g a) e v = v
publish-Inv s (writing g a) e v =
    if_intro Inv (is_running s.status) (λ f. published (is_running-eq s.status f))
      (λ f. unpublished)
  where
    fits : HostFits s.status s.gen s.request s.worker (writing g a)
    fits = host_at s v (writing g a) e

    unpublished : Inv (record s { answer = a; host = sweeping })
    unpublished = record {
      tickets = v.tickets;
      jobs = v.jobs;
      delayed = v.delayed;
      unissued = v.unissued;
      marked = v.marked;
      unowned_jobs = v.unowned_jobs;
      unowned_delayed = v.unowned_delayed;
      fill = v.fill;
      host = tt;
      answered = published_fits s.status s.status s.gen s.request s.worker g a refl fits;
      right = v.right;
    }

    published : s.status ≡ running → Inv (record s { answer = a; status = ready; host = sweeping })
    published f =
        let same : is_owned s.status s.worker ≡ is_owned ready s.worker =
          ap (λ st. is_owned st s.worker) f in
        record {
          tickets = v.tickets;
          jobs = v.jobs;
          delayed = v.delayed;
          unissued = inl refl;
          marked = v.marked;
          unowned_jobs =
              subst (λ b. (b ≡ true) ⊎ All (λ j. j.gen < s.gen) s.jobs) same v.unowned_jobs;
          unowned_delayed =
              subst (λ b. (b ≡ true) ⊎ All (λ d. d.gen < s.gen) s.delayed) same v.unowned_delayed;
          fill = inl (λ w. elim v.fill [ inl n ↦ n w | inr c ↦ cc ]);
          host = tt;
          answered = published_fits s.status ready s.gen s.request s.worker g a same fits;
          right = v.right;
        }
