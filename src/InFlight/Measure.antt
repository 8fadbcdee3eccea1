-- ===== src/InFlight/Measure.antt =====
-- The workers of a pool come to their end.
use wac_mono.Base.{
  some_inj, leb→le, ◌*◌, ℕ, zero, suc, ◌+◌, ◌-◌, ◌≤◌, ◌<◌, ◌≡◌, refl, arith, Option, none, some,
  List, [], ◌∷◌, leb, if_intro, length, get_elem?, replicate,
}
use wac_mono.InFlight.{
  Worker, looking, stopped, busy, failed, Pool, set_worker, take_item, end_item, work_on, turn_at,
  turn,
}

module _ {A R : Type 0} (work : A → ℕ → Option R) (items : List A) where
  -- What a worker may still do, and what the pool may.
  abbrev pub weight : Worker → ℕ
  weight looking = 1
  weight stopped = 0
  weight (busy index id) = 2
  weight (failed index id) = 0

  abbrev pub weights : List Worker → ℕ
  weights [] = 0
  weights (w ∷ ws) = weight w + weights ws

  abbrev pub measure : Pool R → ℕ
  measure s = 3 * (length items - s.next) + weights s.workers

  weights-set :
      (v : Worker) (ws : List Worker) (w : ℕ) (old : Worker)
      → get_elem? ws w ≡ some old
      → weights (set_worker ws w v) + weight old ≡ weights ws + weight v
  weights-set v [] w old e = cc
  weights-set v (x ∷ ws) zero old e = rw (some_inj x old e) (omega arith)
  weights-set v (x ∷ ws) (suc w) old e = omega (arith, weights-set v ws w old e)

  abbrev pub IsLive? : Option Worker → Type 0
  IsLive? none = ⊥
  IsLive? (some w) = 0 < weight w

  -- Each turn is one of a worker that has not ended.
  abbrev pub AllLive : Pool R → List ℕ → Type 0
  AllLive s [] = Unit
  AllLive s (w ∷ rest) = IsLive? (get_elem? s.workers w) × AllLive (turn work items s w) rest

  turn_at-measure :
      (s : Pool R) (w : ℕ) (found : Option Worker)
      → get_elem? s.workers w ≡ found
      → IsLive? found
      → measure (turn_at work items s w found) < measure s
  unfolding turn_at take_item end_item
  turn_at-measure s w none e live = absurd live
  turn_at-measure s w (some looking) e live =
      if_intro (λ t. measure t < measure s) (leb (length items) s.next)
        (λ all_taken.
          omega (arith, leb→le _ _ all_taken, weights-set stopped s.workers w looking e))
        (λ left. ground (arith, weights-set (busy s.next s.flight.next) s.workers w looking e))
  turn_at-measure s w (some (busy index id)) e live =
      ended (work_on work (get_elem? items index) index)
    where
      ended : (o : Option R) → measure (end_item s w index id o) < measure s
      ended none = omega (arith, weights-set (failed index id) s.workers w (busy index id) e)
      ended (some r) = omega (arith, weights-set looking s.workers w (busy index id) e)
  turn_at-measure s w (some stopped) e live = absurd (omega (arith, live))
  turn_at-measure s w (some (failed index id)) e live = absurd (omega (arith, live))

  pub turns-measure : (s : Pool R) (order : List ℕ) → AllLive s order → length order ≤ measure s
  unfolding turn
  turns-measure s [] live = omega arith
  turns-measure s (w ∷ rest) live = omega (
    arith,
    turn_at-measure s w (get_elem? s.workers w) refl live.0,
    turns-measure (turn work items s w) rest live.1,
  )

  pub weights-new : (n : ℕ) → weights (replicate n looking) ≡ n
  weights-new zero = refl
  weights-new (suc n) = omega (arith, weights-new n)
