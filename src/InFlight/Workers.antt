-- ===== src/InFlight/Workers.antt =====
-- The workers of a pool, of which one takes another standing.
use wac_mono.Base.{
  some_inj, ◌⊎◌, ℕ, zero, suc, ◌+◌, ◌≡◌, refl, ap, arith, Option, none, some, List, [], ◌∷◌, ◌==◌,
  if◌then◌else◌, length, get_elem?, inl, inr,
}
use wac_mono.InFlight.{Worker, looking, stopped, busy, failed, set_worker}

-- Whether a worker is at an item, or was when it failed.
abbrev pub at_item : ℕ → Worker → ℕ
at_item i looking = 0
at_item i stopped = 0
at_item i (busy index id) = if index == i then 1 else 0
at_item i (failed index id) = if index == i then 1 else 0

abbrev pub workers_at : ℕ → List Worker → ℕ
workers_at i [] = 0
workers_at i (w ∷ ws) = at_item i w + workers_at i ws

abbrev pub present : {A : Type 0} → Option A → ℕ
present none = 0
present (some a) = 1

-- How many workers are at an item.
abbrev pub busy_workers : List Worker → ℕ
busy_workers [] = 0
busy_workers (looking ∷ ws) = busy_workers ws
busy_workers (stopped ∷ ws) = busy_workers ws
busy_workers (busy index id ∷ ws) = 1 + busy_workers ws
busy_workers (failed index id ∷ ws) = busy_workers ws

abbrev pub is_busy : Worker → ℕ
is_busy looking = 0
is_busy stopped = 0
is_busy (busy index id) = 1
is_busy (failed index id) = 0

busy_workers-cons :
    (w : Worker) (ws : List Worker) → busy_workers (w ∷ ws) ≡ is_busy w + busy_workers ws
busy_workers-cons looking ws = omega arith
busy_workers-cons stopped ws = omega arith
busy_workers-cons (busy index id) ws = refl
busy_workers-cons (failed index id) ws = omega arith

-- Of the places where one worker's standing is replaced.
module _ (v : Worker) where
  pub workers_at-set :
      (i : ℕ) (ws : List Worker) (w : ℕ) (old : Worker)
      → get_elem? ws w ≡ some old
      → workers_at i (set_worker ws w v) + at_item i old ≡ workers_at i ws + at_item i v
  workers_at-set i [] w old e = cc
  workers_at-set i (x ∷ ws) zero old e = rw (some_inj x old e) (omega arith)
  workers_at-set i (x ∷ ws) (suc w) old e = omega (arith, workers_at-set i ws w old e)

  pub busy_workers-set :
      (ws : List Worker) (w : ℕ) (old : Worker)
      → get_elem? ws w ≡ some old
      → busy_workers (set_worker ws w v) + is_busy old ≡ busy_workers ws + is_busy v
  busy_workers-set [] w old e = cc
  busy_workers-set (x ∷ ws) zero old e =
      rw (some_inj x old e) (omega (arith, busy_workers-cons v ws, busy_workers-cons old ws))
  busy_workers-set (x ∷ ws) (suc w) old e = omega (
    arith,
    busy_workers-cons x ws,
    busy_workers-cons x (set_worker ws w v),
    busy_workers-set ws w old e,
  )

  pub length-set : (ws : List Worker) (w : ℕ) → length (set_worker ws w v) ≡ length ws
  length-set [] w = refl
  length-set (x ∷ ws) zero = refl
  length-set (x ∷ ws) (suc w) = ap suc (length-set ws w)

  pub get_elem?-set :
      (ws : List Worker) (w k : ℕ)
      → get_elem? (set_worker ws w v) k ≡ some stopped
      → (v ≡ stopped) ⊎ (get_elem? ws k ≡ some stopped)
  get_elem?-set [] w k e = inr e
  get_elem?-set (x ∷ ws) zero zero e = inl (some_inj v stopped e)
  get_elem?-set (x ∷ ws) zero (suc k) e = inr e
  get_elem?-set (x ∷ ws) (suc w) zero e = inr e
  get_elem?-set (x ∷ ws) (suc w) (suc k) e = get_elem?-set ws w k e
