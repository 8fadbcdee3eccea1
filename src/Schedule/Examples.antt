-- ===== src/Schedule/Examples.antt =====
-- The scheduler on a short history: two bridges, three answers, one return and one firing of the timer.
use mathlib.Core.List.{Perm}
use wac_mono.Base.{◌≡◌, refl, List, [], ◌∷◌, length, replicate}
use wac_mono.Schedule.{
  fifo, seeded, Scheduler, Event, readies, quiets, idles, run, new_scheduler, step, idle_fires,
  answer_ready, quiet, pump, xorshift,
}
use wac_mono.Schedule.Turns.{Inv, one_worker_at_a_time}
use wac_mono.Schedule.Answers.{waiting, made_ready}
use wac_mono.Schedule.Drains.{timer_drains}

abbrev history : List Event
history = readies 1 0 ∷ readies 2 5 ∷ readies 2 6 ∷ quiets 1 ∷ readies 1 3 ∷ idles ∷ []

three_out : (run (new_scheduler fifo 0) history).delivered ≡ (1, 0) ∷ (2, 5) ∷ (2, 6) ∷ []
unfolding run new_scheduler step idle_fires answer_ready quiet pump
three_out = refl

one_waits : waiting (run (new_scheduler seeded 20260806) history) ≡ (1, 3) ∷ []
unfolding run new_scheduler step idle_fires answer_ready quiet pump xorshift
one_waits = refl

one_worker_at_a_time_example : Inv (run (new_scheduler seeded 7) history)
one_worker_at_a_time_example = one_worker_at_a_time seeded 7 history

timer_drains_example :
    let s = run (new_scheduler seeded 7) history in
    let t = run s (replicate (length s.ready) idles) in
    (t.ready ≡ []) × Perm t.delivered (made_ready history)
timer_drains_example = timer_drains seeded 7 history

-- One is answered, and two wait.
abbrev two_wait : Scheduler
two_wait = run (new_scheduler fifo 0) (readies 1 0 ∷ readies 2 5 ∷ readies 3 6 ∷ [])
