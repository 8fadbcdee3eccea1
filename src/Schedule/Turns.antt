-- ===== src/Schedule/Turns.antt =====
-- Whose turn it is: one worker at a time, and always somebody whose return lets the next answer out.
use native.Mathlib.Nat.{mod-lt}
use wac_mono.Base.{
  ℕ, zero, suc, ◌+◌, ◌≤◌, ◌<◌, ◌≡◌, ◌≢◌, ◌⊎◌, inl, inr, refl, ap, arith, true, false, some, List,
  [], ◌∷◌, ◌++◌, ltb, if_intro, Bool-cases, length, get_elem?, ◌%◌,
}
use wac_mono.Schedule.{
  Pending, Policy, off, fifo, seeded, Scheduler, Choice, xorshift, first_ready, choose_from, choose,
  remove_at, is_empty, has, delete, arm_idle, deliver_at, deliver_choice, pump, is_off,
  answer_ready, quiet, idle_fires, Event, readies, quiets, idles, step, run, new_scheduler,
}

first_ready-lt :
    (best best_seq i : ℕ) (ps : List Pending)
    → best < i
    → first_ready best best_seq i ps < i + length ps
first_ready-lt best best_seq i [] h = omega arith
first_ready-lt best best_seq i (p ∷ ps) h = elim (Bool-cases (ltb p.seq best_seq)) [
  | inl less ↦ rw less (omega (arith, first_ready-lt i p.seq (i + 1) ps (omega arith)))
  | inr more ↦ rw more (omega (arith, first_ready-lt best best_seq (i + 1) ps (omega arith)))
]

-- What is chosen from the ready answers is one of them.
abbrev pub Chooses : List Pending → Choice → Type 0
Chooses ps c = (at : ℕ) × (c.at ≡ some at) × (at < length ps)

choose_from-Chooses :
    (policy : Policy) (random : ℕ) (ps : List Pending)
    → ps ≢ []
    → Chooses ps (choose_from policy random ps)
unfolding choose_from
choose_from-Chooses policy random [] n = absurd (n refl)
choose_from-Chooses off random (p ∷ ps) n =
    (xorshift random % length (p ∷ ps), refl, mod-lt (xorshift random) (omega arith))
choose_from-Chooses fifo random (p ∷ ps) n =
    (first_ready 0 p.seq 1 ps, refl, omega (arith, first_ready-lt 0 p.seq 1 ps (omega arith)))
choose_from-Chooses seeded random (p ∷ ps) n =
    (xorshift random % length (p ∷ ps), refl, mod-lt (xorshift random) (omega arith))

get_elem?-some :
    (ps : List Pending) (at : ℕ) → at < length ps → (p : Pending) × (get_elem? ps at ≡ some p)
get_elem?-some [] at h = absurd (omega arith)
get_elem?-some (p ∷ ps) zero h = (p, refl)
get_elem?-some (p ∷ ps) (suc at) h = get_elem?-some ps at (omega arith)

-- The scheduler after it has handed out `p`, which stood at `at`.
abbrev pub handed_out : Scheduler → ℕ → ℕ → Pending → Scheduler
handed_out s random at p = record s {
  random = random;
  ready = remove_at at s.ready;
  log = s.log ++ p ∷ [];
  running = p.bridge ∷ [];
  armed = true;
  delivered = s.delivered ++ (p.bridge, p.slot) ∷ [];
}

-- The three things that `#pump` can do.
pub data Pumps (s : Scheduler) : Scheduler → Type 0 where
  rests : s.ready ≡ [] → Pumps s s
  waits : s.running ≢ [] → Pumps s (record s { armed = true })
  hands :
      (random at : ℕ) (p : Pending)
      → s.running ≡ []
      → (choose s).at ≡ some at
      → get_elem? s.ready at ≡ some p
      → Pumps s (handed_out s random at p)

hand_out :
    (s : Scheduler) (random at : ℕ) (p : Pending)
    → s.running ≡ []
    → get_elem? s.ready at ≡ some p
    → deliver_choice (record s { random = random }) (some at) ≡ handed_out s random at p
unfolding deliver_choice deliver_at arm_idle
hand_out s random at p e g = rw (g, deliver_at, e) (ground arith)

arm_idle-running : (s : Scheduler) → s.running ≢ [] → arm_idle s ≡ record s { armed = true }
unfolding arm_idle
arm_idle-running s n = ground arith

is_empty_nil {ℓ} : {A : Type ℓ} (xs : List A) → is_empty xs ≡ true → xs ≡ []
is_empty_nil [] h = refl
is_empty_nil (x ∷ xs) h = cc

pub pump-Pumps : (s : Scheduler) → Pumps s (pump s)
unfolding pump choose
pump-Pumps s =
    if_intro (Pumps s) (is_empty s.ready) (λ e. rests (is_empty_nil s.ready e))
      (λ some_ready.
        if_intro (Pumps s) (is_empty s.running) (λ e. deliver some_ready (is_empty_nil s.running e))
          (λ busy. wait (λ e. cc (ap is_empty e))))
  where
    wait : s.running ≢ [] → Pumps s (arm_idle s)
    wait n = rw (arm_idle-running s n) (waits n)

    deliver :
        is_empty s.ready ≡ false
        → s.running ≡ []
        → Pumps s (deliver_choice (record s { random = (choose s).random }) (choose s).at)
    deliver some_ready e =
        let (at, chosen, lt) =
          choose_from-Chooses s.policy s.random s.ready (λ e. cc (ap is_empty e)) in
        let (p, there) = get_elem?-some s.ready at lt in
        rw (chosen, hand_out s (choose s).random at p e there)
          (hands (choose s).random at p e chosen there)

-- Nobody runs, or one worker does.
abbrev pub AtMostOne : List ℕ → Type 0
AtMostOne bridges = length bridges ≤ 1

-- While an answer is ready, some worker is running and the timer is armed, so that its return or the timer
-- lets the next answer out. With scheduling off nothing is ever kept.
pub record Inv (s : Scheduler) : Type 0 where
  pub one_runs : AtMostOne s.running
  pub going : (s.ready ≡ []) ⊎ (s.running ≢ []) × (s.armed ≡ true)

-- `pump` needs only that at most one worker runs, and that the timer is armed where one does.
pump-Inv : (s : Scheduler) → AtMostOne s.running → Inv (pump s)
pump-Inv s h = go (pump s) (pump-Pumps s)
  where
    go : (t : Scheduler) → Pumps s t → Inv t
    go t (rests e) = record { one_runs = h; going = inl e }
    go t (waits n) = record { one_runs = h; going = inr (n, refl) }
    go t (hands random at p e c g) = record {
      one_runs = omega arith;
      going = inr ((λ f. cc), refl);
    }

length-delete : (b : ℕ) (xs : List ℕ) → length (delete b xs) ≤ length xs
length-delete b [] = omega arith
length-delete b (x ∷ xs) = ground (arith, length-delete b xs)

pub step-Inv : (s : Scheduler) (e : Event) → Inv s → Inv (step s e)
unfolding step answer_ready quiet idle_fires
step-Inv s (readies bridge slot) v =
    if_intro Inv (is_off s.policy) (λ e. record { one_runs = v.one_runs; going = v.going })
      (λ e. pump-Inv _ v.one_runs)
step-Inv s (quiets bridge) v =
    if_intro Inv (has bridge s.running)
      (λ e. pump-Inv _ (omega (arith, length-delete bridge s.running, v.one_runs))) (λ e. v)
step-Inv s idles v = if_intro Inv s.armed (λ e. pump-Inv _ (omega arith)) (λ e. v)

pub run-Inv_from : (s : Scheduler) (es : List Event) → Inv s → Inv (run s es)
unfolding run
run-Inv_from s [] v = v
run-Inv_from s (e ∷ es) v = run-Inv_from (step s e) es (step-Inv s e v)

-- Under every policy and after any events, at most one bridge counts as running; and while an answer waits,
-- one does and the timer is armed, so that the return of that bridge or the timer lets an answer out.
pub one_worker_at_a_time :
    (policy : Policy) (seed : ℕ) (es : List Event) → Inv (run (new_scheduler policy seed) es)
unfolding new_scheduler
one_worker_at_a_time policy seed es =
    run-Inv_from (new_scheduler policy seed) es
      (record { one_runs = omega arith; going = inl refl })
