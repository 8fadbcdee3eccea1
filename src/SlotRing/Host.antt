-- ===== src/SlotRing/Host.antt =====
-- packages/platform/host/respond.ts: the host's side of a slot.
use wac_mono.Base.{ℕ, Option, none, some, List, [], ◌∷◌, ◌++◌, ◌==◌, if◌then◌else◌}
use wac_mono.SlotRing.Slot.{
  Status, free, pending, running, ready, cancelled, claimed, Request, Job, Delayed, HostAt,
  sweeping, taking, replying, writing, Scene, is_pending, is_running, remove_nth,
}

-- What the sweep does with the slot: start to `take` it, or `abandon` it.
unfoldable pub visit : Scene → Status → Scene
visit s free = s
visit s pending = record s { host = taking s.gen s.request }
visit s running = s
visit s ready = s
visit s cancelled = record s { status = free }
visit s claimed = s

unfoldable pub sweep : Scene → HostAt → Scene
unfolding visit
sweep s sweeping = visit s s.status
sweep s (taking g r) = s
sweep s (replying g a) = s
sweep s (writing g a) = s

abbrev pub status_err : ℕ
status_err = 1

-- The handler is started, and not awaited. Where there is none, `reply` is called with bytes that say so.
unfoldable pub dispatch : Scene → ℕ → Request → Option (List ℕ) → Scene
dispatch s g r none = record s {
  status = running;
  host = sweeping;
  jobs = s.jobs ++ record { gen = g; request = r } ∷ [];
}
dispatch s g r (some text) = record s {
  status = running;
  host = replying g (record { asked = r; status = status_err; body = text });
}

-- The exchange of `take`.
unfoldable pub take_slot : Scene → Option (List ℕ) → HostAt → Scene
unfolding dispatch
take_slot s missing (taking g r) =
    if is_pending s.status then dispatch s g r missing else record s { host = sweeping }
take_slot s missing sweeping = s
take_slot s missing (replying g a) = s
take_slot s missing (writing g a) = s

-- A handler has come to an end, with an answer or with an error: `stillOurs`.
unfoldable pub finish_job : Scene → ℕ → ℕ → List ℕ → Option Job → HostAt → Scene
finish_job s at status body (some job) sweeping =
    let left = remove_nth at s.jobs in
    if s.gen == job.gen
    then record s {
      jobs = left;
      host = replying job.gen (record { asked = job.request; status = status; body = body });
    }
    else record s { jobs = left }
finish_job s at status body (some job) (taking g r) = s
finish_job s at status body (some job) (replying g a) = s
finish_job s at status body (some job) (writing g a) = s
finish_job s at status body none h = s

-- The load of `reply`, and the hand-over to the scheduler.
unfoldable pub reply : Scene → HostAt → Scene
reply s (replying g a) = record s {
  host = sweeping;
  delayed = s.delayed ++ record { gen = s.gen; answer = a } ∷ [];
}
reply s sweeping = s
reply s (taking g r) = s
reply s (writing g a) = s

-- The scheduler delivers: `write`, up to its test of the generation.
unfoldable pub deliver : Scene → ℕ → Option Delayed → HostAt → Scene
deliver s at (some d) sweeping =
    let left = remove_nth at s.delayed in
    if s.gen == d.gen
    then record s { delayed = left; host = writing d.gen d.answer }
    else record s { delayed = left }
deliver s at (some d) (taking g r) = s
deliver s at (some d) (replying g a) = s
deliver s at (some d) (writing g a) = s
deliver s at none h = s

-- The answer's bytes, and the exchange that publishes them.
unfoldable pub publish : Scene → HostAt → Scene
publish s (writing g a) =
    if is_running s.status
    then record s { answer = a; status = ready; host = sweeping }
    else record s { answer = a; host = sweeping }
publish s sweeping = s
publish s (taking g r) = s
publish s (replying g a) = s
