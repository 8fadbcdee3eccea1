-- ===== src/InFlight/Once.antt =====
-- However the workers of a pool interleave, every item is worked on once, and the results stand in the items' order.
use wac_mono.Base.{
  ◌*◌, if_cases, ==_iff, length-replicate, ◌⊎◌, ℕ, zero, suc, ◌+◌, ◌≤◌, ◌<◌, ◌≡◌, refl, sym, ap,
  subst, ◌∙◌, arith, true, false, ◌&&◌, Option, none, some, List, [], ◌∷◌, ltb, leb, ◌==◌,
  if◌then◌else◌, if_intro, length, get_elem?, replicate, inl, inr, All,
}
use wac_mono.InFlight.{
  Worker, looking, stopped, busy, failed, Pool, set_worker, start_entry, end_entry, new_pool,
  take_item, end_item, work_on, turn_at, turn, turns,
}
use wac_mono.InFlight.Workers.{
  workers_at, present, busy_workers, workers_at-set, busy_workers-set, get_elem?-set, length-set,
}
use wac_mono.InFlight.Measure.{AllLive, turns-measure, weights-new}

module _ {A R : Type 0} (work : A → ℕ → Option R) (items : List A) where
  -- Every item that was taken has its result, or one worker at it; a result is the work's; a worker stops only when
  -- all are taken; and the entries that have started and not finished are as many as the workers at an item.
  record Inv (s : Pool R) : Type 0 where
    tally :
        (i : ℕ)
        → present (s.results i) + workers_at i s.workers
          ≡ (if ltb i s.next && ltb i (length items) then 1 else 0)
    right : (i : ℕ) (r : R) → s.results i ≡ some r → work_on work (get_elem? items i) i ≡ some r
    over : (w : ℕ) → get_elem? s.workers w ≡ some stopped → length items ≤ s.next
    someone : 0 < length s.workers
    entries : s.flight.started ≡ s.flight.finished + busy_workers s.workers

  take_item-Inv :
      (s : Pool R) (w : ℕ)
      → get_elem? s.workers w ≡ some looking
      → Inv s
      → Inv (take_item items s w)
  unfolding take_item start_entry
  take_item-Inv s w e inv =
      if_intro Inv (leb (length items) s.next)
        (λ all_taken. record {
          tally = λ i. ground (arith, inv.tally i, workers_at-set stopped i s.workers w looking e);
          right = inv.right;
          over = λ k h. ground arith;
          someone = omega (arith, inv.someone, length-set stopped s.workers w);
          entries = omega (arith, inv.entries, busy_workers-set stopped s.workers w looking e);
        })
        (λ left. record {
          tally = λ i. ground (
            arith,
            inv.tally i,
            workers_at-set (busy s.next s.flight.next) i s.workers w looking e,
          );
          right = inv.right;
          over = λ k h. still k (get_elem?-set (busy s.next s.flight.next) s.workers w k h);
          someone = omega (arith, inv.someone, length-set (busy s.next s.flight.next) s.workers w);
          entries = omega (
            arith,
            inv.entries,
            busy_workers-set (busy s.next s.flight.next) s.workers w looking e,
          );
        })
    where
      still :
          (k : ℕ)
          → (busy s.next s.flight.next ≡ stopped) ⊎ (get_elem? s.workers k ≡ some stopped)
          → length items ≤ s.next + 1
      still k (inl h) = cc
      still k (inr h) = omega (arith, inv.over k h)

  end_item-Inv :
      (s : Pool R) (w index id : ℕ) (outcome : Option R)
      → get_elem? s.workers w ≡ some (busy index id)
      → work_on work (get_elem? items index) index ≡ outcome
      → Inv s
      → Inv (end_item s w index id outcome)
  unfolding end_item end_entry
  end_item-Inv s w index id none e worked inv = record {
    tally = λ i.
        ground
          (arith, inv.tally i, workers_at-set (failed index id) i s.workers w (busy index id) e);
    right = inv.right;
    over = λ k h. still k (get_elem?-set (failed index id) s.workers w k h);
    someone = omega (arith, inv.someone, length-set (failed index id) s.workers w);
    entries =
        omega
          (arith, inv.entries, busy_workers-set (failed index id) s.workers w (busy index id) e);
  }
    where
      still :
          (k : ℕ)
          → (failed index id ≡ stopped) ⊎ (get_elem? s.workers k ≡ some stopped)
          → length items ≤ s.next
      still k (inl h) = cc
      still k (inr h) = inv.over k h
  end_item-Inv s w index id (some r) e worked inv = record {
    tally = λ i.
        if_intro
          (λ (o : Option R).
            present o + workers_at i (set_worker s.workers w looking)
            ≡ (if ltb i s.next && ltb i (length items) then 1 else 0))
          (i == index) (λ same. ground (arith, inv.tally i, freed i))
          (λ other. ground (arith, inv.tally i, freed i));
    right = λ i q h. known i q (if_cases (i == index) (some q) h);
    over = λ k h. still k (get_elem?-set looking s.workers w k h);
    someone = omega (arith, inv.someone, length-set looking s.workers w);
    entries = omega (arith, inv.entries, busy_workers-set looking s.workers w (busy index id) e);
  }
    where
      known :
          (i : ℕ) (q : R)
          → (((i == index) ≡ true) × (some r ≡ some q))
            ⊎ (((i == index) ≡ false) × (s.results i ≡ some q))
          → work_on work (get_elem? items i) i ≡ some q
      known i q (inl (same, found)) =
          subst (λ k. work_on work (get_elem? items k) k ≡ some q) (sym ((==_iff i index).0 same))
            (worked ∙ found)
      known i q (inr (other, found)) = inv.right i q found

      freed :
          (i : ℕ)
          → workers_at i (set_worker s.workers w looking) + (if index == i then 1 else 0)
            ≡ workers_at i s.workers + 0
      freed i = workers_at-set looking i s.workers w (busy index id) e

      still :
          (k : ℕ)
          → (looking ≡ stopped) ⊎ (get_elem? s.workers k ≡ some stopped)
          → length items ≤ s.next
      still k (inl h) = cc
      still k (inr h) = inv.over k h

  turn_at-Inv :
      (s : Pool R) (w : ℕ) (found : Option Worker)
      → get_elem? s.workers w ≡ found
      → Inv s
      → Inv (turn_at work items s w found)
  unfolding turn_at
  turn_at-Inv s w none e inv = inv
  turn_at-Inv s w (some looking) e inv = take_item-Inv s w e inv
  turn_at-Inv s w (some (busy index id)) e inv = end_item-Inv s w index id _ e refl inv
  turn_at-Inv s w (some stopped) e inv = inv
  turn_at-Inv s w (some (failed index id)) e inv = inv

  turns-Inv : (s : Pool R) (order : List ℕ) → Inv s → Inv (turns work items s order)
  unfolding turns turn
  turns-Inv s [] inv = inv
  turns-Inv s (w ∷ rest) inv =
      turns-Inv (turn work items s w) rest (turn_at-Inv s w (get_elem? s.workers w) refl inv)

  none_busy : (n : ℕ) → busy_workers (replicate n looking) ≡ 0
  none_busy zero = refl
  none_busy (suc n) = none_busy n

  none_at : (i n : ℕ) → workers_at i (replicate n looking) ≡ 0
  none_at i zero = refl
  none_at i (suc n) = omega (arith, none_at i n)

  none_stopped : (n w : ℕ) → get_elem? (replicate n looking) w ≡ some stopped → ⊥
  none_stopped zero w h = cc
  none_stopped (suc n) zero h = cc
  none_stopped (suc n) (suc w) h = none_stopped n w h

  new_pool-Inv : (jobs : ℕ) → Inv (new_pool jobs)
  unfolding new_pool
  new_pool-Inv jobs = record {
    tally = λ i. ground (arith, none_at i (if jobs == 0 then 1 else jobs));
    right = λ i r h. cc;
    over = λ w h. absurd (none_stopped (if jobs == 0 then 1 else jobs) w h);
    someone = ground (arith, length-replicate (if jobs == 0 then 1 else jobs) looking);
    entries = omega (arith, none_busy (if jobs == 0 then 1 else jobs));
  }

  stopped_at : (i : ℕ) (ws : List Worker) → All (λ w. w ≡ stopped) ws → workers_at i ws ≡ 0
  stopped_at i [] h = refl
  stopped_at i (w ∷ ws) h = rw (h.0) (omega (arith, stopped_at i ws h.1))

  stopped_busy : (ws : List Worker) → All (λ w. w ≡ stopped) ws → busy_workers ws ≡ 0
  stopped_busy [] h = refl
  stopped_busy (w ∷ ws) h = rw (h.0) (stopped_busy ws h.1)

  stopped_first :
      (ws : List Worker) → 0 < length ws → All (λ w. w ≡ stopped) ws → get_elem? ws 0 ≡ some stopped
  stopped_first [] some_there h = absurd (omega arith)
  stopped_first (w ∷ ws) some_there h = ap some h.0

  in_range : {B : Type 0} (i : ℕ) (xs : List B) (a : B) → get_elem? xs i ≡ some a → i < length xs
  in_range i [] a e = cc
  in_range zero (x ∷ xs) a e = omega arith
  in_range (suc i) (x ∷ xs) a e = omega (arith, in_range i xs a e)

  result_of : (o : Option R) → present o ≡ 1 → (r : R) × (o ≡ some r)
  result_of none h = absurd (omega (arith, h))
  result_of (some r) h = (r, refl)

  -- Whatever the order in which its workers take their turns: an item never has two workers, nor one beside its result.
  -- When every worker has stopped without an error, every item's result is the one that the work gives for it, at the
  -- item's own place, as if the items had been worked on one after another; and as many entries have finished as were
  -- started. The workers do come to their end: no run in which each turn is of a worker that has not ended has more turns
  -- than three for each item, one for each of the jobs, and one.
  pub turns-InOrder :
      (jobs : ℕ) (order : List ℕ)
      → let s = turns work items (new_pool jobs) order in
        ((i : ℕ) → present (s.results i) + workers_at i s.workers ≤ 1)
        × (All (λ w. w ≡ stopped) s.workers
            → ((i : ℕ) (a : A) → get_elem? items i ≡ some a → s.results i ≡ work a i)
              × (s.flight.started ≡ s.flight.finished))
        × (AllLive work items (new_pool jobs) order → length order ≤ 3 * length items + jobs + 1)
  unfolding work_on
  turns-InOrder jobs order =
      let s = turns work items (new_pool jobs) order in
      let inv = turns-Inv (new_pool jobs) order (new_pool-Inv jobs) in
      (
        λ i. ground (arith, inv.tally i),
        λ all_stopped. (
          λ i a there.
              let all_taken = inv.over 0 (stopped_first s.workers inv.someone all_stopped) in
              let found = result_of (s.results i) (
                ground (
                  arith,
                  inv.tally i,
                  stopped_at i s.workers all_stopped,
                  in_range i items a there,
                  all_taken,
                )) in
              found.1 ∙ sym (sym (ap (λ o. work_on work o i) there) ∙ inv.right i found.0 found.1),
          omega (arith, inv.entries, stopped_busy s.workers all_stopped),
        ),
        λ live.
            unfold new_pool in
            ground (
              arith,
              turns-measure work items (new_pool jobs) order live,
              weights-new work items (if jobs == 0 then 1 else jobs),
            ),
      )
