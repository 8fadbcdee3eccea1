-- ===== src/InFlight/Examples.antt =====
-- Two workers over three items.
use wac_mono.Base.{ℕ, ◌+◌, ◌*◌, ◌≤◌, ◌≡◌, refl, Option, some, List, [], ◌∷◌, length, get_elem?, All}
use wac_mono.InFlight.{
  stopped, new_pool, turns, turn, turn_at, take_item, end_item, end_entry, start_entry, drop_entry,
  work_on,
}
use wac_mono.InFlight.Workers.{present, workers_at}
use wac_mono.InFlight.Once.{turns-InOrder}
use wac_mono.InFlight.Measure.{AllLive}

abbrev items : List ℕ
items = 7 ∷ 8 ∷ 9 ∷ []

abbrev work : ℕ → ℕ → Option ℕ
work a i = some (a + i)

abbrev order : List ℕ
order = 0 ∷ 1 ∷ 1 ∷ 1 ∷ 0 ∷ 0 ∷ 1 ∷ 1 ∷ []

turns-InOrder_example :
    let s = turns work items (new_pool 2) order in
    ((i : ℕ) → present (s.results i) + workers_at i s.workers ≤ 1)
    × (All (λ w. w ≡ stopped) s.workers
        → ((i a : ℕ) → get_elem? items i ≡ some a → s.results i ≡ work a i)
          × (s.flight.started ≡ s.flight.finished))
    × (AllLive work items (new_pool 2) order → length order ≤ 3 * length items + 2 + 1)
turns-InOrder_example = turns-InOrder work items 2 order

-- The last item, which the second worker took, has its result at its own place.
last_result : (turns work items (new_pool 2) order).results 2 ≡ some 11
unfolding turns turn turn_at take_item end_item end_entry start_entry drop_entry work_on new_pool
last_result = refl

all_over : (turns work items (new_pool 2) order).workers ≡ stopped ∷ stopped ∷ []
unfolding turns turn turn_at take_item end_item end_entry start_entry drop_entry work_on new_pool
all_over = refl
