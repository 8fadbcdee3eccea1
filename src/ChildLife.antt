-- ===== src/ChildLife.antt =====
-- packages/platform/host/childLife.ts: what can happen to a spawned program between its start and its
-- end, as the pure transition function `step`. `loaded` holds the text that it was settled with, where the
-- empty text says that the program did load.
pub mod Once
pub mod Order
mod Examples
use Prim.Native.String.{String, ◌++◌ as join_text}
use wac_mono.Base.{
  ℤ, negsuc, Bool, true, false, Option, none, some, List, [], ◌∷◌, ◌++◌, if◌then◌else◌,
}

pub data LifeEvent : Type 0 where
  ready : LifeEvent
  result : Bool → ℤ → LifeEvent
  error : String → LifeEvent
  grace : LifeEvent
  kill : LifeEvent

pub record LifeState : Type 0 where
  pub started : Bool
  pub loaded : Option String
  pub exited : Option ℤ
  pub shut_down : Bool

pub data LifeEffect : Type 0 where
  settle_loaded : String → LifeEffect
  settle_exit : ℤ → LifeEffect
  shutdown : LifeEffect
  say_on_stderr : String → LifeEffect

pub record LifeStep : Type 0 where
  pub state : LifeState
  pub effects : List LifeEffect

unfoldable pub newborn : LifeState
newborn = record { started = false; loaded = none; exited = none; shut_down = false }

-- The locals `next` and `effects` of `step` pass through each of its helpers.
abbrev pub emit : LifeStep → LifeEffect → LifeStep
emit w e = record w { effects = w.effects ++ e ∷ [] }

settle_loaded_if : Option String → String → LifeStep → LifeStep
settle_loaded_if (some settled) why w = w
settle_loaded_if none why w =
    emit (record w { state = record (w.state) { loaded = some why } }) (settle_loaded why)

-- `loaded` settles once.
pub settle : String → LifeStep → LifeStep
unfolding settle_loaded_if
settle why w = settle_loaded_if w.state.loaded why w

shut : LifeStep → LifeStep
shut w =
    if w.state.shut_down
    then w
    else emit (record w { state = record (w.state) { shut_down = true } }) shutdown

finish_if : Option ℤ → ℤ → LifeStep → LifeStep
unfolding settle shut
finish_if (some exited) c w = w
finish_if none c w =
    let answered =
      settle (if w.state.started then "" else "the child was killed before it reported ready") w in
    let closed = shut answered in
    emit (record closed { state = record (closed.state) { exited = some c } }) (settle_exit c)

-- Ending a child: the streams close and the exit settles, in that order.
pub finish : ℤ → LifeStep → LifeStep
unfolding finish_if
finish c w = finish_if w.state.exited c w

abbrev pub start : LifeStep → LifeStep
start w = record w { state = record (w.state) { started = true } }

handle : LifeStep → LifeEvent → LifeStep
unfolding settle finish
handle w ready = start (settle "" w)
handle w (result true c) = finish c (start (settle "" w))
handle w (result false c) =
    finish (negsuc 0) (emit (start (settle "" w)) (say_on_stderr "wac: <result error>"))
handle w (error message) =
    let answered = settle message w in
    finish (negsuc 0) (
      if answered.state.started
      then emit answered (say_on_stderr (join_text "wac: " message))
      else answered)
handle w grace = if w.state.started then w else settle "did not report ready within the grace" w
handle w kill = finish (negsuc 0) w

-- One event, one step.
unfoldable pub step : LifeState → LifeEvent → LifeStep
unfolding handle
step s e = handle (record { state = s; effects = [] }) e

unfoldable pub run : LifeState → List LifeEvent → LifeStep
run s [] = record { state = s; effects = [] }
run s (e ∷ es) =
    let one = step s e in
    let rest = run one.state es in
    record { state = rest.state; effects = one.effects ++ rest.effects }
