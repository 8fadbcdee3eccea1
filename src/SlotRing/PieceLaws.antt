-- ===== src/SlotRing/PieceLaws.antt =====
-- One piece: what a room holds, what `write` leaves, and the pieces of a payload on their way.
use wac_mono.Base.{
  ℕ, zero, suc, ◌≤◌, ◌≡◌, refl, ◌∙◌, ap, arith, min, Bool, true, false, ◌&&◌, some, List, [], ◌∷◌,
  ◌++◌, ltb, if◌then◌else◌, if_intro, length, take, drop, length-drop, take-append-drop, take_all,
}
use wac_mono.Bridge.{buf_bytes, inline_bytes}
use wac_mono.SlotRing.Pieces.{
  Bytes, status_more, Held, Answer, is_empty, room_for, write, joined, serve_piece, Sent, sent,
  send_pieces,
}

pub room_for-le : (pooled : Bool) (body : Bytes) → inline_bytes ≤ room_for pooled body
room_for-le pooled body =
    if_intro (λ room. inline_bytes ≤ room) (ltb inline_bytes (length body) && pooled)
      (λ e. omega arith) (λ e. omega arith)

pub is_empty-length :
    (b : Bool) (xs : Bytes)
    → is_empty xs ≡ b
    → (b ≡ true → length xs ≡ 0) × (b ≡ false → 1 ≤ length xs)
is_empty-length b [] e = (λ t. refl, λ f. cc)
is_empty-length b (x ∷ xs) e = (λ t. cc, λ f. omega arith)

pub joined-snoc :
    (ps : List Bytes) (p last : Bytes) → joined (ps ++ p ∷ []) last ≡ joined ps (p ++ last)
joined-snoc [] p last = refl
joined-snoc (q ∷ ps) p last = ap (λ r. q ++ r) (joined-snoc ps p last)

-- All pieces but the last have gone, and the host holds them in their order.
unfoldable pub IsSent : Held → Bytes → Sent → Type 0
IsSent h payload s =
    (after : Held) × (tail : Bytes) × (s ≡ sent after tail)
    × (joined after.partial tail ≡ joined h.partial payload)
    × (length tail ≤ buf_bytes)
    × (after.pending ≡ h.pending)

pub send_pieces-IsSent :
    (handler : Bytes → Answer) (fuel : ℕ) (h : Held) (payload : Bytes)
    → length payload ≤ fuel
    → IsSent h payload (send_pieces handler fuel h payload)
unfolding IsSent send_pieces serve_piece write
send_pieces-IsSent handler zero h payload le = (h, payload, refl, refl, omega arith, refl)
send_pieces-IsSent handler (suc fuel) h payload le =
    if_intro (IsSent h payload) (ltb buf_bytes (length payload))
      (λ large.
        further (send_pieces-IsSent handler fuel next (drop buf_bytes payload) (shorter large)))
      (λ small. (h, payload, refl, refl, ground arith, refl))
  where
    next : Held
    next = record h { partial = h.partial ++ take buf_bytes payload ∷ [] }

    shorter : ltb buf_bytes (length payload) ≡ true → length (drop buf_bytes payload) ≤ fuel
    shorter large = let n = length-drop buf_bytes payload in ground (arith, n)

    further : {s : Sent} → IsSent next (drop buf_bytes payload) s → IsSent h payload s
    further (after, tail, e, whole, short, same) = (
      after,
      tail,
      e,
      whole
          ∙ joined-snoc h.partial (take buf_bytes payload) (drop buf_bytes payload)
          ∙ ap (joined h.partial) (take-append-drop buf_bytes payload),
      short,
      same,
    )

-- As much of a body as its room holds.
abbrev pub fits : Bool → Bytes → ℕ
fits free body = min (length body) (room_for free body)

pub write_all :
    (h : Held) (free : Bool) (status : ℕ) (body : Bytes)
    → is_empty (drop (fits free body) body) ≡ true
    → write h free status body
      ≡ record { held = h; answer = record { status = status; bytes = body } }
unfolding write
write_all h free status body e =
    let none_left = (is_empty-length true (drop (fits free body) body) e).0 refl in
    let n = length-drop (fits free body) body in
    rw (write, e, take_all (fits free body) body (omega (arith, none_left, n))) refl

pub write_part :
    (h : Held) (free : Bool) (status : ℕ) (body : Bytes)
    → is_empty (drop (fits free body) body) ≡ false
    → write h free status body ≡ record {
      held = record h { pending = some (drop (fits free body) body); final_status = status };
      answer = record { status = status_more; bytes = take (fits free body) body };
    }
unfolding write
write_part h free status body e = rw (write, e) refl

pub is_empty-true : (xs : Bytes) → length xs ≡ 0 → is_empty xs ≡ true
is_empty-true [] e = refl
is_empty-true (x ∷ xs) e = absurd (omega (arith, e))

pub is_empty-false : (xs : Bytes) → 1 ≤ length xs → is_empty xs ≡ false
is_empty-false [] e = absurd (omega arith)
is_empty-false (x ∷ xs) e = refl

pub inline_only : (body : Bytes) → room_for false body ≡ inline_bytes
inline_only body = not_pooled (ltb inline_bytes (length body))
  where
    not_pooled : (b : Bool) → (if b && false then buf_bytes else inline_bytes) ≡ inline_bytes
    not_pooled true = refl
    not_pooled false = refl
