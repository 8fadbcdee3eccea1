-- ===== src/SlotRing/Whole.antt =====
-- Calls with payloads and answers in pieces: what the handler is given, and what the worker gets.
use wac_mono.Base.{
  ℕ, zero, suc, ◌+◌, ◌≤◌, ◌<◌, ◌≡◌, refl, sym, ◌∙◌, ap, subst, arith, Bool, true, false, Option,
  some, List, [], ◌∷◌, ◌++◌, length, take, drop, concat, length-take, length-drop, take-append-drop,
  concat-snoc, append_assoc,
}
use wac_mono.Bridge.{inline_bytes}
use wac_mono.SlotRing.Pieces.{
  Bytes, status_ok, status_error, Held, Answer, Turn, is_empty, write, joined, or_nothing,
  serve_piece, Sent, Result, failed, collected, collect_pieces, nothing_held, call_answer,
  host_call,
}
use wac_mono.SlotRing.PieceLaws.{
  room_for-le, is_empty-length, IsSent, send_pieces-IsSent, fits, write_all, write_part,
  is_empty-true, is_empty-false, inline_only,
}

module _ (handler : Bytes → Answer) (pooled : ℕ → Bool) where
  -- An answer that is not a failure is collected whole, behind what is gathered already.
  collect_pieces-write :
      (fuel k : ℕ) (h : Held) (free : Bool) (body : Bytes) (parts : List Bytes)
      → length body < fuel
      → collect_pieces handler pooled fuel k (write h free status_ok body) parts
        ≡ some (collected (concat parts ++ body))
  unfolding collect_pieces
  collect_pieces-write zero k h free body parts lt = absurd (omega arith)
  collect_pieces-write (suc fuel) k h free body parts lt =
      pieces (is_empty (drop (fits free body) body)) refl
        (λ held. collect_pieces-write fuel (k + 1) held (pooled k) tail gathered)
    where
      tail : Bytes
      tail = drop (fits free body) body

      gathered : List Bytes
      gathered = parts ++ take (fits free body) body ∷ []

      Done : Turn → Type 0
      Done turn =
          collect_pieces handler pooled (suc fuel) k turn parts
          ≡ some (collected (concat parts ++ body))

      rejoined : concat gathered ++ tail ≡ concat parts ++ body
      rejoined =
          ap (λ xs. xs ++ tail) (concat-snoc parts (take (fits free body) body))
          ∙ append_assoc (concat parts) (take (fits free body) body) tail
          ∙ ap (λ xs. concat parts ++ xs) (take-append-drop (fits free body) body)

      shorter : is_empty tail ≡ false → length tail < fuel
      shorter e =
          let left = (is_empty-length false tail e).1 refl in
          let n = length-drop (fits free body) body in
          let room = room_for-le free body in omega (arith, left, n, room)

      pieces :
          (b : Bool)
          → is_empty tail ≡ b
          → ((held : Held)
              → length tail < fuel
              → collect_pieces handler pooled fuel
                  (k + 1)
                  (write held (pooled k) status_ok tail)
                  gathered
                ≡ some (collected (concat gathered ++ tail)))
          → Done (write h free status_ok body)
      pieces true e ih =
          subst Done (sym (write_all h free status_ok body e))
            (ap (λ xs. some (collected xs)) (concat-snoc parts body))
      pieces false e ih =
          subst Done (sym (write_part h free status_ok body e))
            (unfold serve_piece in ih _ (shorter e) ∙ ap (λ xs. some (collected xs)) rejoined)

  -- The turns that are allowed for an answer are enough for it.
  length-write :
      (h : Held) (free : Bool) (status : ℕ) (body : Bytes)
      → length body
        < length (write h free status body).answer.bytes
          + length (or_nothing (write h free status body).held.pending)
          + 1
  length-write h free status body = pieces (is_empty (drop (fits free body) body)) refl
    where
      Enough : Turn → Type 0
      Enough turn =
          length body < length turn.answer.bytes + length (or_nothing turn.held.pending) + 1

      pieces :
          (b : Bool) → is_empty (drop (fits free body) body) ≡ b → Enough (write h free status body)
      pieces true e = subst Enough (sym (write_all h free status body e)) (omega arith)
      pieces false e =
          subst Enough (sym (write_part h free status body e))
            (omega (arith, length-take (fits free body) body, length-drop (fits free body) body))

  -- The collect that a call comes down to, where the handler answers the payload with `out`.
  Collects : Held → Answer → Option Result → Type 0
  Collects h out r =
      let first = write h (pooled 0) out.status out.bytes in
      r
      ≡ collect_pieces handler pooled
          (length first.answer.bytes + length (or_nothing first.held.pending) + 1) 1 first []

  host_call-Collects :
      (payload : Bytes) (out : Answer)
      → handler payload ≡ out
      → (h : Held) × Collects h out (host_call handler pooled payload)
  unfolding host_call call_answer IsSent Collects serve_piece
  host_call-Collects payload out e =
      delivered (send_pieces-IsSent handler (length payload) nothing_held payload (omega arith))
    where
      delivered :
          {s : Sent}
          → IsSent nothing_held payload s
          → (h : Held) × Collects h out (call_answer handler pooled s)
      delivered (after, tail, sent_all, whole, short, same) =
          let given : handler (joined after.partial tail) ≡ out = ap handler whole ∙ e in
          (
            record after { partial = [] },
            ap (call_answer handler pooled) sent_all
                ∙ ap
                    (λ o.
                      (let first =
                          write (record after { partial = [] }) (pooled 0) o.status o.bytes in
                        collect_pieces handler pooled
                          (length first.answer.bytes + length (or_nothing first.held.pending) + 1) 1
                          first []))
                    given,
          )

  -- Whatever the payload's length, the answer's length and the buffers that are free at each of its pieces: the
  -- handler is given the whole payload, and an answer that is not a failure is collected whole.
  pub host_call-whole :
      (payload answer : Bytes)
      → handler payload ≡ record { status = status_ok; bytes = answer }
      → host_call handler pooled payload ≡ some (collected answer)
  unfolding Collects
  host_call-whole payload answer e =
      let (h, r) = host_call-Collects payload _ e in
      r
      ∙ collect_pieces-write _ 1 h (pooled 0) answer [] (length-write h (pooled 0) status_ok answer)

  failed_at_once :
      (fuel k : ℕ) (h : Held) (free : Bool) (body : Bytes) (parts : List Bytes)
      → zero < fuel
      → is_empty (drop (fits free body) body) ≡ true
      → collect_pieces handler pooled fuel k (write h free status_error body) parts
        ≡ some (failed body)
  unfolding collect_pieces
  failed_at_once zero k h free body parts lt e = absurd (omega arith)
  failed_at_once (suc fuel) k h free body parts lt e =
      subst (λ turn. collect_pieces handler pooled (suc fuel) k turn parts ≡ some (failed body))
        (sym (write_all h free status_error body e)) refl

  failed_later :
      (fuel k : ℕ) (h : Held) (free : Bool) (body : Bytes) (parts : List Bytes)
      → 1 < fuel
      → is_empty (drop (fits free body) body) ≡ false
      → is_empty (drop (fits (pooled k) (drop (fits free body) body)) (drop (fits free body) body))
        ≡ true
      → collect_pieces handler pooled fuel k (write h free status_error body) parts
        ≡ some (failed (drop (fits free body) body))
  unfolding collect_pieces
  failed_later zero k h free body parts lt e last = absurd (omega arith)
  failed_later (suc fuel) k h free body parts lt e last =
      subst
        (λ turn.
          collect_pieces handler pooled (suc fuel) k turn parts
          ≡ some (failed (drop (fits free body) body)))
        (sym (write_part h free status_error body e))
        (unfold serve_piece in
          failed_at_once fuel (k + 1) _ (pooled k) (drop (fits free body) body) _ (omega arith)
            last)

-- Where no pooled buffer is free and a failure's bytes take two pieces: the worker is given the second piece in
-- place of the failure's bytes.
pub long_failure_loses_head :
    (handler : Bytes → Answer) (payload body : Bytes)
    → handler payload ≡ record { status = status_error; bytes = body }
    → inline_bytes < length body
    → length body ≤ inline_bytes + inline_bytes
    → host_call handler (λ k. false) payload ≡ some (failed (drop inline_bytes body))
unfolding Collects
long_failure_loses_head handler payload body e large two =
    let (h, r) = host_call-Collects handler (λ k. false) payload _ e in
    let n = length-drop (fits false body) body in
    let tail = drop (fits false body) body in
    let m = length-drop (fits false tail) tail in
    let room : fits false body ≡ inline_bytes = omega (arith, inline_only body, large) in
    let enough = length-write handler (λ k. false) h false status_error body in
    r
    ∙ failed_later handler (λ k. false) _ 1 h false body [] (omega (arith, enough))
        (is_empty-false tail (omega (arith, n, room)))
        (is_empty-true (drop (fits false tail) tail)
          (omega (arith, m, n, room, inline_only tail, two)))
    ∙ ap (λ k. some (failed (drop k body))) room
