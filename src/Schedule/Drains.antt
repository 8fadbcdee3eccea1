-- ===== src/Schedule/Drains.antt =====
-- Every answer gets out in the end: the timer alone delivers what waits.
use wac_mono.Base.{
  ℕ, zero, suc, ◌+◌, ◌≤◌, ◌≡◌, ◌≢◌, ◌⊎◌, inl, inr, refl, arith, true, false, some, List, [], ◌∷◌,
  ◌++◌, append-nil, if_intro, length, replicate, get_elem?,
}
use mathlib.Core.List.Perm
use mathlib.Core.List.{Perm}
use wac_mono.Schedule.{
  Pending, Policy, Scheduler, remove_at, pump, idle_fires, Event, idles, step, run, new_scheduler,
}
use wac_mono.Schedule.Turns.{
  Pumps, rests, waits, hands, pump-Pumps, Inv, step-Inv, one_worker_at_a_time,
}
use wac_mono.Schedule.Answers.{made_ready, run-known, waiting, delivered_once}

pub length-remove_at :
    (ps : List Pending) (at : ℕ) (p : Pending)
    → get_elem? ps at ≡ some p
    → length (remove_at at ps) + 1 ≡ length ps
length-remove_at [] at p h = cc
length-remove_at (q ∷ ps) zero p h = omega arith
length-remove_at (q ∷ ps) (suc at) p h = omega (arith, length-remove_at ps at p h)

-- With nobody running, a pump delivers an answer where one waits.
pump-length :
    (s : Scheduler) (n : ℕ) → s.running ≡ [] → length s.ready ≤ suc n → length (pump s).ready ≤ n
pump-length s n e h = go (pump s) (pump-Pumps s)
  where
    go : (t : Scheduler) → Pumps s t → length t.ready ≤ n
    go t (rests f) = rw f (omega arith)
    go t (waits m) = absurd (m e)
    go t (hands random at p f c g) = omega (arith, length-remove_at s.ready at p g)

idles-length :
    (s : Scheduler) (n : ℕ) → Inv s → length s.ready ≤ suc n → length (step s idles).ready ≤ n
unfolding step idle_fires
idles-length s n v h =
    if_intro (λ (t : Scheduler). length t.ready ≤ n) s.armed (λ e. pump-length _ n refl h)
      (λ e. rests_there e v.going)
  where
    rests_there :
        s.armed ≡ false → (s.ready ≡ []) ⊎ (s.running ≢ []) × (s.armed ≡ true) → length s.ready ≤ n
    rests_there e (inl none_there) = rw none_there (omega arith)
    rests_there e (inr (busy, armed)) = cc

idles_drain :
    (s : Scheduler) (n : ℕ) → Inv s → length s.ready ≤ n → (run s (replicate n idles)).ready ≡ []
unfolding run
idles_drain s zero v h = nil_of s.ready h
  where
    nil_of : (ps : List Pending) → length ps ≤ zero → ps ≡ []
    nil_of [] h = refl
    nil_of (p ∷ ps) h = absurd (omega arith)
idles_drain s (suc n) v h = idles_drain (step s idles) n (step-Inv s idles v) (idles-length s n v h)

made_ready-idles : (n : ℕ) → made_ready (replicate n idles) ≡ []
made_ready-idles zero = refl
made_ready-idles (suc n) = made_ready-idles n

-- Whatever has happened, as many firings of the timer as there are answers waiting deliver all of them, under
-- every policy and although no bridge ever comes back: then everything that became ready has been delivered,
-- each answer as often as it became ready.
pub timer_drains :
    (policy : Policy) (seed : ℕ) (es : List Event)
    → let s = run (new_scheduler policy seed) es in
      let t = run s (replicate (length s.ready) idles) in
      (t.ready ≡ []) × Perm t.delivered (made_ready es)
timer_drains policy seed es =
    let s = run (new_scheduler policy seed) es in
    let ticks = replicate (length s.ready) idles in
    let empty =
      idles_drain s (length s.ready) (one_worker_at_a_time policy seed es) (omega arith) in
    (
      empty,
      everything_out s (run s ticks) empty
          (rw (made_ready-idles (length s.ready), append-nil (s.delivered ++ waiting s)) at
            (run-known s ticks))
          (delivered_once policy seed es),
    )
  where
    everything_out :
        (s t : Scheduler)
        → t.ready ≡ []
        → Perm (t.delivered ++ waiting t) (s.delivered ++ waiting s)
        → Perm (s.delivered ++ waiting s) (made_ready es)
        → Perm t.delivered (made_ready es)
    everything_out s t e kept all = Perm.trans (rw (e, append-nil t.delivered) at kept) all
