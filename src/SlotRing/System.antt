-- ===== src/SlotRing/System.antt =====
-- The two sides of a slot, one step after another in any order.
use wac_mono.Base.{ℕ, Option, List, [], ◌∷◌, get_elem?}
use wac_mono.SlotRing.Slot.{Request, Scene}
use wac_mono.SlotRing.Worker.{claim, submit, collect, cancel, bump, mark}
use wac_mono.SlotRing.Host.{sweep, take_slot, finish_job, reply, deliver, publish}

pub data Action : Type 0 where
  claims : Action
  submits : Request → Action
  collects : ℕ → Action
  cancels : ℕ → Action
  bumps : Action
  marks : Action
  sweeps : Action
  takes : Option (List ℕ) → Action
  finishes : ℕ → ℕ → List ℕ → Action
  replies : Action
  delivers : ℕ → Action
  publishes : Action

-- A step of the side that the action names. An action that is not that side's turn changes nothing.
unfoldable pub step : Scene → Action → Scene
step s claims = claim s s.worker
step s (submits r) = submit s r s.worker
step s (collects k) = collect s (get_elem? s.tickets k) s.worker
step s (cancels k) = cancel s (get_elem? s.tickets k) s.worker
step s bumps = bump s s.worker
step s marks = mark s s.worker
step s sweeps = sweep s s.host
step s (takes missing) = take_slot s missing s.host
step s (finishes k status body) = finish_job s k status body (get_elem? s.jobs k) s.host
step s replies = reply s s.host
step s (delivers k) = deliver s k (get_elem? s.delayed k) s.host
step s publishes = publish s s.host

unfoldable pub run : Scene → List Action → Scene
run s [] = s
run s (a ∷ rest) = run (step s a) rest
