-- ===== src/SlotRing/Inv.antt =====
-- What holds of a slot as long as no cancel is split: everything in flight is of the slot's call, or of an
-- earlier one.
use wac_mono.Base.{
  ℕ, zero, suc, ◌+◌, ◌<◌, ◌≡◌, ◌≢◌, ◌⊎◌, inl, inr, arith, Bool, true, false, not, List, [], ◌∷◌,
  All, All-imp,
}
use wac_mono.SlotRing.Slot.{
  Status, free, pending, running, ready, cancelled, claimed, Request, WorkerAt, outside, filling,
  cancelling, marking, HostAt, sweeping, taking, replying, writing, Scene, remove_nth,
}

abbrev pub is_marking : WorkerAt → Bool
is_marking marking = true
is_marking outside = false
is_marking filling = false
is_marking cancelling = false

abbrev pub is_replying : HostAt → Bool
is_replying (replying g a) = true
is_replying sweeping = false
is_replying (taking g r) = false
is_replying (writing g a) = false

-- The host has the slot's call: it is taken and not cancelled.
abbrev pub is_owned : Status → WorkerAt → Bool
is_owned running w = not (is_marking w)
is_owned ready w = not (is_marking w)
is_owned free w = false
is_owned pending w = false
is_owned cancelled w = false
is_owned claimed w = false

-- No ticket is of the slot's generation.
abbrev pub is_unissued : Status → Bool
is_unissued free = true
is_unissued claimed = true
is_unissued pending = false
is_unissued running = false
is_unissued ready = false
is_unissued cancelled = true

-- Something of generation `g`, made for the request `r`, where the slot stands at `gen` with `now`: it is of an
-- earlier call, or of this one.
abbrev pub Fits : ℕ → Request → ℕ → Request → Type 0
Fits gen now g r = (g < gen) ⊎ (g ≡ gen) × (r ≡ now)

abbrev pub HostFits : Status → ℕ → Request → WorkerAt → HostAt → Type 0
HostFits st gen now w sweeping = Unit {0}
HostFits st gen now w (taking g r) =
    Fits gen now g r
    × ((st ≡ pending) ⊎ (st ≡ cancelled))
    × ((g < gen) ⊎ (is_marking w ≡ false))
    × ((g ≡ gen) ⊎ (is_marking w ≡ true) ⊎ (st ≡ cancelled))
HostFits st gen now w (replying g a) = (g ≡ gen) × (a.asked ≡ now) × (is_owned st w ≡ true)
HostFits st gen now w (writing g a) =
    ((g ≡ gen) × (a.asked ≡ now) × (is_owned st w ≡ true)) ⊎ ((g < gen) × (is_owned st w ≡ false))

pub record Inv (s : Scene) : Type 0 where
  pub tickets : All (λ t. Fits s.gen s.request t.gen t.request) s.tickets
  pub jobs : All (λ j. Fits s.gen s.request j.gen j.request) s.jobs
  pub delayed : All (λ d. Fits s.gen s.request d.gen d.answer.asked) s.delayed
  pub unissued : (is_unissued s.status ≡ false) ⊎ All (λ t. t.gen < s.gen) s.tickets
  pub marked : (is_marking s.worker ≡ false) ⊎ All (λ t. t.gen < s.gen) s.tickets
  pub unowned_jobs : (is_owned s.status s.worker ≡ true) ⊎ All (λ j. j.gen < s.gen) s.jobs
  pub unowned_delayed : (is_owned s.status s.worker ≡ true) ⊎ All (λ d. d.gen < s.gen) s.delayed
  pub fill : (s.worker ≢ filling) ⊎ (s.status ≡ claimed)
  pub host : HostFits s.status s.gen s.request s.worker s.host
  pub answered :
      (is_owned s.status s.worker ≡ false) ⊎ (s.status ≢ ready) ⊎ (s.answer.asked ≡ s.request)
  pub right : All (λ c. c.1.asked ≡ c.0) s.collected

pub All-remove_nth {ℓ κ} :
    {A : Type ℓ} (P : A → Type κ) (i : ℕ) (xs : List A) → All P xs → All P (remove_nth i xs)
All-remove_nth P i [] h = tt
All-remove_nth P zero (x ∷ xs) h = h.1
All-remove_nth P (suc i) (x ∷ xs) h = (h.0, All-remove_nth P i xs h.1)

pub older : (gen : ℕ) (now : Request) (g : ℕ) (r : Request) → Fits gen now g r → g < gen + 1
older gen now g r (inl lt) = omega arith
older gen now g r (inr (e, _)) = omega arith

-- A new generation: all that there is, is of earlier calls.
module _ (s : Scene) (v : Inv s) where
  pub aged_tickets : All (λ t. t.gen < s.gen + 1) s.tickets
  aged_tickets = All-imp (λ t. older s.gen s.request t.gen t.request) s.tickets v.tickets

  pub aged_jobs : All (λ j. j.gen < s.gen + 1) s.jobs
  aged_jobs = All-imp (λ j. older s.gen s.request j.gen j.request) s.jobs v.jobs

  pub aged_delayed : All (λ d. d.gen < s.gen + 1) s.delayed
  aged_delayed = All-imp (λ d. older s.gen s.request d.gen d.answer.asked) s.delayed v.delayed
