-- ===== src/Schedule/Stale.antt =====
-- The timer outlives the bridge it was armed for.
use wac_mono.Base.{ℕ, ◌+◌, ◌≡◌, true, length}
use wac_mono.Schedule.{Scheduler}

-- An answer goes out where one waits and nobody runs, and then the timer is armed.
record HandsOut (out left : ℕ) (t : Scheduler) : Type 0 where
  is_armed : t.armed ≡ true
  one_more : length t.delivered ≡ out + 1
  one_less : length t.ready + 1 ≡ left
