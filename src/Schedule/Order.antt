-- ===== src/Schedule/Order.antt =====
-- The order in which answers are delivered: fifo is the order in which they became ready.

use wac_mono.Base.{
  ℕ, suc, ◌+◌, ◌≤◌, ◌≡◌, refl, sym, ◌∙◌, ap, arith, false, some, List, [], ◌∷◌, ◌++◌, map,
  append_assoc, append-nil, if_intro, length, length-append, get_elem?, ltb,
}
use wac_mono.Schedule.{
  Pending, off, fifo, Scheduler, choose, choose_from, first_ready, remove_at, has, delete, pump,
  is_off, answer_ready, quiet, idle_fires, Event, readies, quiets, idles, step, run, new_scheduler,
}
use wac_mono.Schedule.Turns.{Pumps, rests, waits, hands, pump-Pumps}
use wac_mono.Schedule.Answers.{address, made_ready, waiting, made_ready-cons}

-- Answers numbered from `k` on.
abbrev pub numbered : ℕ → List (ℕ × ℕ) → List Pending
numbered k [] = []
numbered k (x ∷ xs) = record { bridge = x.0; slot = x.1; seq = k } ∷ numbered (k + 1) xs

map-numbered : (k : ℕ) (xs : List (ℕ × ℕ)) → map address (numbered k xs) ≡ xs
map-numbered k [] = refl
map-numbered k (x ∷ xs) = ap (◌∷◌ x) (map-numbered (k + 1) xs)

add_zero_right : (k : ℕ) → k ≡ k + 0
add_zero_right k = omega arith

numbered-append :
    (k : ℕ) (xs : List (ℕ × ℕ)) (x : ℕ × ℕ)
    → numbered k (xs ++ x ∷ [])
      ≡ numbered k xs ++ record { bridge = x.0; slot = x.1; seq = k + length xs } ∷ []
numbered-append k [] x =
    ap (λ (n : ℕ). record { bridge = x.0; slot = x.1; seq = n } ∷ []) (add_zero_right k)
numbered-append k (y ∷ xs) x = ap (◌∷◌ (record { bridge = y.0; slot = y.1; seq = k })) (
    numbered-append (k + 1) xs x
    ∙ ap (λ (n : ℕ). numbered (k + 1) xs ++ record { bridge = x.0; slot = x.1; seq = n } ∷ [])
        (shift k (length xs)))
  where
    shift : (k n : ℕ) → k + 1 + n ≡ k + suc n
    shift k n = omega arith

-- Where the numbers ascend, the scan stays with the first.
first_ready-numbered :
    (best best_seq i k : ℕ) (xs : List (ℕ × ℕ))
    → best_seq ≤ k
    → first_ready best best_seq i (numbered k xs) ≡ best
first_ready-numbered best best_seq i k [] h = refl
first_ready-numbered best best_seq i k (x ∷ xs) h =
    let same : ltb k best_seq ≡ false = ground arith in
    rw (first_ready, same) (first_ready-numbered best best_seq (i + 1) (k + 1) xs (omega arith))

-- What a scheduler in order looks like: the answers that wait carry ascending numbers, up to the next one.
pub record InOrder (made : List (ℕ × ℕ)) (s : Scheduler) : Type 0 where
  pub is_fifo : s.policy ≡ fifo
  pub oldest : ℕ
  pub rest : List (ℕ × ℕ)
  pub numbers : s.ready ≡ numbered oldest rest
  pub upto : oldest + length rest ≡ s.next_seq
  pub order : s.delivered ++ rest ≡ made

-- What fifo takes out is the oldest.
record Oldest (k : ℕ) (rest : List (ℕ × ℕ)) (at : ℕ) (ps : List Pending) (p : Pending)
    : Type 0 where
  others : List (ℕ × ℕ)
  splits : address p ∷ others ≡ rest
  left : remove_at at ps ≡ numbered (k + 1) others

fifo-Oldest :
    (random k at : ℕ) (rest : List (ℕ × ℕ)) (p : Pending)
    → (choose_from fifo random (numbered k rest)).at ≡ some at
    → get_elem? (numbered k rest) at ≡ some p
    → Oldest k rest at (numbered k rest) p
unfolding choose_from
fifo-Oldest random k at [] p c g = cc
fifo-Oldest random k at (x ∷ xs) p c g =
    let first : at ≡ 0 = cc (first_ready-numbered 0 k 1 (k + 1) xs (omega arith)) in
    let here : record { bridge = x.0; slot = x.1; seq = k } ≡ p = cc (rw first at g) in
    record {
      others = xs;
      splits = ap (λ (q : Pending). address q ∷ xs) (sym here);
      left = rw first refl;
    }

choose-Oldest :
    (s : Scheduler) (k at : ℕ) (rest : List (ℕ × ℕ)) (p : Pending)
    → s.policy ≡ fifo
    → s.ready ≡ numbered k rest
    → (choose s).at ≡ some at
    → get_elem? s.ready at ≡ some p
    → Oldest k rest at s.ready p
unfolding choose
choose-Oldest s k at rest p e f c g =
    rw f (fifo-Oldest s.random k at rest p (rw (e, f) at c) (rw f at g))

-- Only four of the fields matter.
carried :
    {made : List (ℕ × ℕ)} (s t : Scheduler)
    → t.policy ≡ s.policy
    → t.ready ≡ s.ready
    → t.next_seq ≡ s.next_seq
    → t.delivered ≡ s.delivered
    → InOrder made s
    → InOrder made t
carried s t a b c d v = record {
  is_fifo = a ∙ v.is_fifo;
  oldest = v.oldest;
  rest = v.rest;
  numbers = b ∙ v.numbers;
  upto = v.upto ∙ sym c;
  order = ap (λ (xs : List (ℕ × ℕ)). xs ++ v.rest) d ∙ v.order;
}

pump-InOrder : (made : List (ℕ × ℕ)) (s : Scheduler) → InOrder made s → InOrder made (pump s)
pump-InOrder made s v = go (pump s) (pump-Pumps s)
  where
    go : (t : Scheduler) → Pumps s t → InOrder made t
    go t (rests f) = v
    go t (waits m) = carried s t refl refl refl refl v
    go t (hands random at p f c g) =
        let o = choose-Oldest s v.oldest at v.rest p v.is_fifo v.numbers c g in
        record {
          is_fifo = v.is_fifo;
          oldest = v.oldest + 1;
          rest = o.others;
          numbers = o.left;
          upto = omega (arith, v.upto, ap length o.splits);
          order =
              append_assoc s.delivered (address p ∷ []) o.others
              ∙ ap (◌++◌ s.delivered) o.splits
              ∙ v.order;
        }

-- One more answer waits.
longer-InOrder :
    (made : List (ℕ × ℕ)) (s : Scheduler) (bridge slot : ℕ)
    → InOrder made s
    → InOrder (made ++ (bridge, slot) ∷ []) (record s {
      ready = s.ready ++ record { bridge = bridge; slot = slot; seq = s.next_seq } ∷ [];
      next_seq = s.next_seq + 1;
    })
longer-InOrder made s bridge slot v = record {
  is_fifo = v.is_fifo;
  oldest = v.oldest;
  rest = v.rest ++ (bridge, slot) ∷ [];
  numbers = rw (numbered-append v.oldest v.rest (bridge, slot), v.upto, v.numbers) refl;
  upto = omega (arith, v.upto, length-append v.rest ((bridge, slot) ∷ []));
  order =
      sym (append_assoc s.delivered v.rest ((bridge, slot) ∷ []))
      ∙ ap (λ (xs : List (ℕ × ℕ)). xs ++ (bridge, slot) ∷ []) v.order;
}

step-InOrder :
    (made : List (ℕ × ℕ)) (s : Scheduler) (e : Event)
    → InOrder made s
    → InOrder (made ++ made_ready (e ∷ [])) (step s e)
unfolding step answer_ready quiet idle_fires is_off
step-InOrder made s (readies bridge slot) v =
    if_intro (InOrder (made ++ (bridge, slot) ∷ [])) (is_off s.policy)
      (λ e. cc (ap is_off v.is_fifo)) (λ e. pump-InOrder _ _ (longer-InOrder made s bridge slot v))
step-InOrder made s (quiets bridge) v = rw (append-nil made) (
    if_intro (InOrder made) (has bridge s.running)
      (λ e.
        pump-InOrder made _
          (carried s (record s { running = delete bridge s.running }) refl refl refl refl v))
      (λ e. v))
step-InOrder made s idles v = rw (append-nil made) (
    if_intro (InOrder made) s.armed
      (λ e.
        pump-InOrder made _
          (carried s (record s { armed = false; running = [] }) refl refl refl refl v))
      (λ e. v))

run-InOrder :
    (made : List (ℕ × ℕ)) (s : Scheduler) (es : List Event)
    → InOrder made s
    → InOrder (made ++ made_ready es) (run s es)
unfolding run
run-InOrder made s [] v = rw (append-nil made) v
run-InOrder made s (e ∷ es) v =
    rw (made_ready-cons e es, sym (append_assoc made (made_ready (e ∷ [])) (made_ready es)))
      (run-InOrder _ (step s e) es (step-InOrder made s e v))

-- Under fifo, answers are delivered in the order in which they became ready, whoever they are for and however
-- the bridges come back or the timer fires: what has been delivered, followed by what waits, is the sequence
-- of the answers made ready.
pub fifo_order :
    (seed : ℕ) (es : List Event)
    → let s = run (new_scheduler fifo seed) es in s.delivered ++ waiting s ≡ made_ready es
unfolding new_scheduler
fifo_order seed es =
    let s = run (new_scheduler fifo seed) es in
    let v = run-InOrder [] (new_scheduler fifo seed) es (record {
      is_fifo = refl;
      oldest = 0;
      rest = [];
      numbers = refl;
      upto = refl;
      order = refl;
    }) in
    rw (v.numbers, map-numbered v.oldest v.rest) v.order

-- With scheduling off nothing waits, and nobody is held to run.
record Idle (made : List (ℕ × ℕ)) (s : Scheduler) : Type 0 where
  unscheduled : s.policy ≡ off
  nobody : s.running ≡ []
  unarmed : s.armed ≡ false
  order : s.delivered ≡ made

step-Idle :
    (made : List (ℕ × ℕ)) (s : Scheduler) (e : Event)
    → Idle made s
    → Idle (made ++ made_ready (e ∷ [])) (step s e)
unfolding step answer_ready quiet idle_fires is_off
step-Idle made s (readies bridge slot) v =
    if_intro (Idle (made ++ (bridge, slot) ∷ [])) (is_off s.policy)
      (λ e. record {
        unscheduled = v.unscheduled;
        nobody = v.nobody;
        unarmed = v.unarmed;
        order = ap (λ (xs : List (ℕ × ℕ)). xs ++ (bridge, slot) ∷ []) v.order;
      })
      (λ e. cc (ap is_off v.unscheduled))
step-Idle made s (quiets bridge) v =
    rw (append-nil made)
      (if_intro (Idle made) (has bridge s.running) (λ e. cc (ap (has bridge) v.nobody)) (λ e. v))
step-Idle made s idles v =
    rw (append-nil made) (if_intro (Idle made) s.armed (λ e. cc v.unarmed) (λ e. v))

run-Idle :
    (made : List (ℕ × ℕ)) (s : Scheduler) (es : List Event)
    → Idle made s
    → Idle (made ++ made_ready es) (run s es)
unfolding run
run-Idle made s [] v = rw (append-nil made) v
run-Idle made s (e ∷ es) v =
    rw (made_ready-cons e es, sym (append_assoc made (made_ready (e ∷ [])) (made_ready es)))
      (run-Idle _ (step s e) es (step-Idle made s e v))

-- With scheduling off, every answer is delivered as soon as it is ready: the answers delivered are the ones
-- made ready, in that order.
pub off_order :
    (seed : ℕ) (es : List Event) → (run (new_scheduler off seed) es).delivered ≡ made_ready es
unfolding new_scheduler
off_order seed es =
    (run-Idle [] (new_scheduler off seed) es
      (record { unscheduled = refl; nobody = refl; unarmed = refl; order = refl })).order
