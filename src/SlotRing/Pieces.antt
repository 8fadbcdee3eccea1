-- ===== src/SlotRing/Pieces.antt =====
-- packages/platform/host/call.ts and respond.ts: one call with a payload and an answer of any length, which
-- travel through the slot in pieces. The slot is the call's own from its start to its end, and each side's turn
-- is one step.
use wac_mono.Base.{
  ℕ, zero, suc, ◌+◌, min, Bool, true, false, ◌&&◌, Option, none, some, List, [], ◌∷◌, ◌++◌, ◌==◌,
  ltb, if◌then◌else◌, length, take, drop, concat,
}
use wac_mono.Bridge.{buf_bytes, inline_bytes}

abbrev pub Bytes : Type 0
Bytes = List ℕ

abbrev pub status_ok : ℕ
status_ok = 0

abbrev pub status_error : ℕ
status_error = 1

abbrev pub status_more : ℕ
status_more = 2

abbrev pub status_ack : ℕ
status_ack = 3

-- `OP_PUSH`, `OP_CONTINUE`, and the call itself.
pub data Op : Type 0 where
  push continue call : Op

-- What the host keeps for the slot between the pieces of one call.
pub record Held : Type 0 where
  pub pending : Option Bytes
  pub final_status : ℕ
  pub partial : List Bytes

-- What stands in the slot for the worker to read.
pub record Answer : Type 0 where
  pub status : ℕ
  pub bytes : Bytes

pub record Turn : Type 0 where
  pub held : Held
  pub answer : Answer

abbrev pub is_empty : Bytes → Bool
is_empty [] = true
is_empty (b ∷ bs) = false

-- A pooled buffer where the body does not fit inline and one is free, and the inline area otherwise.
abbrev pub room_for : Bool → Bytes → ℕ
room_for pooled body = if ltb inline_bytes (length body) && pooled then buf_bytes else inline_bytes

-- `write`, where the slot is still the call's.
unfoldable pub write : Held → Bool → ℕ → Bytes → Turn
write h pooled status body =
    let fits = min (length body) (room_for pooled body) in
    let tail = drop fits body in
    if is_empty tail
    then record { held = h; answer = record { status = status; bytes = take fits body } }
    else record {
      held = record h { pending = some tail; final_status = status };
      answer = record { status = status_more; bytes = take fits body };
    }

abbrev pub joined : List Bytes → Bytes → Bytes
joined [] last = last
joined (p ∷ ps) last = p ++ joined ps last

abbrev pub or_nothing : Option Bytes → Bytes
or_nothing none = []
or_nothing (some b) = b

-- `take` of a slot, where the handler has run to its end. `pooled` says whether a buffer is free for the answer.
unfoldable pub serve_piece : (Bytes → Answer) → Held → Bool → Op → Bytes → Turn
serve_piece handler h pooled push payload =
    write (record h { partial = h.partial ++ payload ∷ [] }) pooled status_ack []
serve_piece handler h pooled continue payload =
    write (record h { pending = none }) pooled h.final_status (or_nothing h.pending)
serve_piece handler h pooled call payload =
    let out = handler (joined h.partial payload) in
    write (record h { partial = [] }) pooled out.status out.bytes

pub data Sent : Type 0 where
  refused : Bytes → Sent
  sent : Held → Bytes → Sent

-- The loop of `submit`: all pieces but the last. A piece is `buf_bytes` long, so that as many turns as bytes are
-- enough.
unfoldable pub send_pieces : (Bytes → Answer) → ℕ → Held → Bytes → Sent
send_pieces handler zero h payload = sent h payload
send_pieces handler (suc fuel) h payload =
    let turn = serve_piece handler h false push (take buf_bytes payload) in
    let rest = send_pieces handler fuel turn.held (drop buf_bytes payload) in
    if ltb buf_bytes (length payload)
    then (if turn.answer.status == status_error then refused turn.answer.bytes else rest)
    else sent h payload

pub data Result : Type 0 where
  failed : Bytes → Result
  collected : Bytes → Result

-- The loop of `collect`, where the pool answers for the `k`-th piece. `none` is that the fuel ran out.
unfoldable pub collect_pieces :
    (Bytes → Answer) → (ℕ → Bool) → ℕ → ℕ → Turn → List Bytes → Option Result
collect_pieces handler pooled zero k turn parts = none
collect_pieces handler pooled (suc fuel) k turn parts =
    let gathered = parts ++ turn.answer.bytes ∷ [] in
    let rest =
      collect_pieces handler pooled fuel (k + 1)
        (serve_piece handler turn.held (pooled k) continue []) gathered in
    if turn.answer.status == status_error
    then some (failed turn.answer.bytes)
    else if turn.answer.status == status_more
    then rest
    else some (collected (concat gathered))

abbrev pub nothing_held : Held
nothing_held = record { pending = none; final_status = status_ok; partial = [] }

-- `hostCall`: a submit, and a collect. A piece of an answer that has another behind it is not empty, so that one
-- turn more than the answer has bytes is enough.
unfoldable pub call_answer : (Bytes → Answer) → (ℕ → Bool) → Sent → Option Result
call_answer handler pooled (refused bytes) = some (failed bytes)
call_answer handler pooled (sent h tail) =
    let turn = serve_piece handler h (pooled 0) call tail in
    collect_pieces handler pooled
      (length turn.answer.bytes + length (or_nothing turn.held.pending) + 1) 1 turn []

unfoldable pub host_call : (Bytes → Answer) → (ℕ → Bool) → Bytes → Option Result
host_call handler pooled payload =
    call_answer handler pooled (send_pieces handler (length payload) nothing_held payload)
