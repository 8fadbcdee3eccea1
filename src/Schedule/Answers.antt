-- ===== src/Schedule/Answers.antt =====
-- No answer is lost, delivered twice or made up, and each policy delivers in its order.
use mathlib.Core.List.{map-append, Perm, perm_middle}
use mathlib.Core.List.Perm
use wac_mono.Base.{
  ℕ, zero, suc, ◌≡◌, refl, sym, some, List, [], ◌∷◌, ◌++◌, map, append_assoc, append-nil, if_intro,
  get_elem?,
}
use wac_mono.Schedule.{
  Pending, Policy, Scheduler, remove_at, has, pump, is_off, answer_ready, quiet, idle_fires, Event,
  readies, quiets, idles, step, run, new_scheduler,
}
use wac_mono.Schedule.Turns.{Pumps, rests, waits, hands, pump-Pumps}

abbrev pub address : Pending → ℕ × ℕ
address p = (p.bridge, p.slot)

abbrev pub waiting : Scheduler → List (ℕ × ℕ)
waiting s = map address s.ready

-- The answers that the events make ready, in that order.
abbrev pub made_ready : List Event → List (ℕ × ℕ)
made_ready [] = []
made_ready (readies bridge slot ∷ es) = (bridge, slot) ∷ made_ready es
made_ready (quiets bridge ∷ es) = made_ready es
made_ready (idles ∷ es) = made_ready es

-- What has been delivered and what still waits.
abbrev pub known : Scheduler → List (ℕ × ℕ)
known s = s.delivered ++ waiting s

remove_at-perm :
    (ps : List Pending) (at : ℕ) (p : Pending)
    → get_elem? ps at ≡ some p
    → Perm (p ∷ remove_at at ps) ps
remove_at-perm [] at p h = cc
remove_at-perm (q ∷ ps) zero p h = Perm.cons' (cc) (Perm.refl ps)
remove_at-perm (q ∷ ps) (suc at) p h =
    Perm.trans (Perm.swap q p (remove_at at ps)) (Perm.cons q (remove_at-perm ps at p h))

pump-known : (s : Scheduler) → Perm (known (pump s)) (known s)
pump-known s = go (pump s) (pump-Pumps s)
  where
    go : (t : Scheduler) → Pumps s t → Perm (known t) (known s)
    go t (rests e) = Perm.refl _
    go t (waits n) = Perm.refl _
    go t (hands random at p e c g) =
        rw (append_assoc s.delivered (address p ∷ []) (map address (remove_at at s.ready)))
          (Perm.append_left s.delivered (Perm.map address (remove_at-perm s.ready at p g)))

-- `x` behind everything, wherever it is put.
later-perm {ℓ} :
    {A : Type ℓ} (xs ys : List A) (x : A) → Perm ((xs ++ x ∷ []) ++ ys) ((xs ++ ys) ++ x ∷ [])
later-perm xs ys x =
    let back : Perm (ys ++ x ∷ []) (x ∷ ys) = rw (append-nil ys) at (perm_middle {a = x} ys []) in
    rw (append_assoc xs (x ∷ []) ys, append_assoc xs ys (x ∷ []))
      (Perm.append_left xs (Perm.symm back))

step-known : (s : Scheduler) (e : Event) → Perm (known (step s e)) (known s ++ made_ready (e ∷ []))
unfolding step answer_ready quiet idle_fires
step-known s (readies bridge slot) =
    if_intro (λ t. Perm (known t) (known s ++ (bridge, slot) ∷ [])) (is_off s.policy)
      (λ e. later-perm s.delivered (waiting s) (bridge, slot))
      (λ e. Perm.trans (pump-known _) (
        rw
          (map-append address s.ready _, append_assoc s.delivered (waiting s) ((bridge, slot) ∷ []))
          (Perm.refl _)))
step-known s (quiets bridge) = rw (append-nil (known s)) (
    if_intro (λ t. Perm (known t) (known s)) (has bridge s.running) (λ e. pump-known _)
      (λ e. Perm.refl _))
step-known s idles =
    rw (append-nil (known s))
      (if_intro (λ t. Perm (known t) (known s)) s.armed (λ e. pump-known _) (λ e. Perm.refl _))

pub made_ready-cons :
    (e : Event) (es : List Event) → made_ready (e ∷ es) ≡ made_ready (e ∷ []) ++ made_ready es
made_ready-cons (readies bridge slot) es = refl
made_ready-cons (quiets bridge) es = refl
made_ready-cons idles es = refl

pub run-known :
    (s : Scheduler) (es : List Event) → Perm (known (run s es)) (known s ++ made_ready es)
unfolding run
run-known s [] = rw (append-nil (known s)) (Perm.refl _)
run-known s (e ∷ es) = Perm.trans (run-known (step s e) es) (
    rw (made_ready-cons e es, sym (append_assoc (known s) (made_ready (e ∷ [])) (made_ready es)))
      (Perm.append_right (made_ready es) (step-known s e)))

-- Under every policy, the answers delivered so far together with those that wait are exactly the answers
-- that have become ready, each as often as it did: none is lost, delivered twice or made up.
pub delivered_once :
    (policy : Policy) (seed : ℕ) (es : List Event)
    → let s = run (new_scheduler policy seed) es in Perm (s.delivered ++ waiting s) (made_ready es)
unfolding new_scheduler
delivered_once policy seed es = run-known (new_scheduler policy seed) es
