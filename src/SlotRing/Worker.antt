-- ===== src/SlotRing/Worker.antt =====
-- packages/platform/host/call.ts: the worker's side of a slot.
use wac_mono.Base.{Bool, true, ◌&&◌, Option, none, some, [], ◌∷◌, ◌++◌, ◌==◌, if◌then◌else◌}
use wac_mono.SlotRing.Slot.{
  free, pending, cancelled, claimed, Request, Ticket, WorkerAt, outside, filling, cancelling,
  marking, next_gen, Scene, is_free, is_ready,
}

-- Give the slot back and move its generation on.
unfoldable pub release : Scene → Scene
release s = record s { gen = next_gen s.gen; status = free }

-- `claim`, at this slot.
unfoldable pub claim : Scene → WorkerAt → Scene
claim s outside = if is_free s.status then record s { status = claimed; worker = filling } else s
claim s filling = s
claim s cancelling = s
claim s marking = s

-- `submit`, from the load of the generation to the store that publishes.
unfoldable pub submit : Scene → Request → WorkerAt → Scene
submit s r filling = record s {
  request = r;
  status = pending;
  worker = outside;
  tickets = s.tickets ++ record { gen = s.gen; request = r } ∷ [];
}
submit s r outside = s
submit s r cancelling = s
submit s r marking = s

-- Whether the answer has landed. An expired ticket counts as done.
pub is_done : Scene → Ticket → Bool
is_done s t = if t.gen == s.gen then is_ready s.status else true

-- `collect` of an answer in one piece. With an expired ticket it throws; with no answer it waits.
unfoldable pub collect : Scene → Option Ticket → WorkerAt → Scene
unfolding release
collect s (some t) outside =
    if t.gen == s.gen && is_ready s.status
    then release (record s { collected = s.collected ++ (t.request, s.answer) ∷ [] })
    else s
collect s (some t) filling = s
collect s (some t) cancelling = s
collect s (some t) marking = s
collect s none w = s

-- `cancel`, up to its tests.
unfoldable pub cancel : Scene → Option Ticket → WorkerAt → Scene
unfolding release
cancel s (some t) outside =
    if t.gen == s.gen
    then (if is_ready s.status then release s else record s { worker = cancelling })
    else s
cancel s (some t) filling = s
cancel s (some t) cancelling = s
cancel s (some t) marking = s
cancel s none w = s

-- The two stores of `cancel`, in their order.
unfoldable pub bump : Scene → WorkerAt → Scene
bump s cancelling = record s { gen = next_gen s.gen; worker = marking }
bump s outside = s
bump s filling = s
bump s marking = s

unfoldable pub mark : Scene → WorkerAt → Scene
mark s marking = record s { status = cancelled; worker = outside }
mark s outside = s
mark s filling = s
mark s cancelling = s
