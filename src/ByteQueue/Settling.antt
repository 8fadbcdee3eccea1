-- ===== src/ByteQueue/Settling.antt =====
-- Who is answered: every call of `push` and `next` is told exactly once, or is still waiting.
use mathlib.Core.List.{Perm, perm_middle, perm_append_comm, map-append}
use mathlib.Core.List.Perm
use wac_mono.Base.{
  ℕ, ◌≡◌, refl, sym, subst, ap, ◌∙◌, List, [], ◌∷◌, ◌++◌, Option, none, some, true, false,
  append-nil, append_assoc, length, map, ◌==◌, if_intro, ◌⊎◌, inl, inr,
}
use wac_mono.ByteQueue.{
  Bytes, QueueState, Parked, Event, Effect, Step, push, next, end, end_with, reader, writer, apply,
  apply_push, apply_next, apply_end, apply_end_with, hand_last, offer, serve, release_room,
  release_loop, take_bytes, run, is_full, empty_queue, released, refused,
}
use wac_mono.ByteQueue.Invariant.{Inv}
use wac_mono.ByteQueue.Reachable.{run-Inv}
use wac_mono.ByteQueue.Takes.{take_bytes_rest}
use wac_mono.ByteQueue.Releases.{Releases, accepted, release_loop-Releases}

-- A caller of `next` or of `push`, by its identity.
pub data Caller : Type 0 where
  reading : ℕ → Caller
  writing : ℕ → Caller

abbrev pub addressee : Effect → Caller
addressee (reader id bytes) = reading id
addressee (writer id taken) = writing id

abbrev pub readers : Option ℕ → List Caller
readers none = []
readers (some id) = reading id ∷ []

abbrev pub line_callers : List Parked → List Caller
line_callers = map (λ w. writing w.id)

-- Who has called and has not been answered.
abbrev pub waiting : QueueState → List Caller
waiting s = readers s.reader ++ line_callers s.writers

abbrev pub calls : Event → List Caller
calls (push id bytes) = writing id ∷ []
calls (next id limit) = reading id ∷ []
calls end = []
calls (end_with bytes) = []

-- Those answered and those left waiting are those who waited and those who called.
abbrev pub Settles : QueueState → List Caller → Step → Type 0
Settles s new r = Perm (map addressee r.effects ++ waiting r.state) (waiting s ++ new)

addressee-accepted : (line : List Parked) → map addressee (accepted line) ≡ line_callers line
addressee-accepted [] = refl
addressee-accepted (w ∷ ws) = ap (◌∷◌ (writing w.id)) (addressee-accepted ws)

addressee-refused : (line : List Parked) → map addressee (refused line) ≡ line_callers line
addressee-refused [] = refl
addressee-refused (w ∷ ws) = ap (◌∷◌ (writing w.id)) (addressee-refused ws)

addressee-released : (who : Option ℕ) → map addressee (released who) ≡ readers who
addressee-released none = refl
addressee-released (some id) = refl

perm_of_eq : {xs ys : List Caller} → xs ≡ ys → Perm xs ys
perm_of_eq {xs} e = rw (← e) (Perm.refl xs)

-- Someone who is told at once.
told_at_once : (c : Caller) (line : List Caller) → Perm (c ∷ line) (line ++ c ∷ [])
told_at_once c line = perm_append_comm (c ∷ []) line

offer-Settles :
    (s : QueueState) (id : ℕ) (bytes : Bytes) (who : Option ℕ)
    → s.reader ≡ who
    → Settles s (writing id ∷ []) (offer s id bytes who)
unfolding offer
offer-Settles s id bytes (some r) e =
    rw e (Perm.cons (reading r) (told_at_once (writing id) (line_callers s.writers)))
offer-Settles s id bytes none e =
    if_intro (Settles s (writing id ∷ [])) (is_full s.cap s.held (length bytes))
      (λ full. perm_of_eq (simp (map-append, append_assoc)))
      (λ fits. told_at_once (writing id) (waiting s))

push-Settles :
    (s : QueueState) (id : ℕ) (bytes : Bytes) → Settles s (writing id ∷ []) (apply_push s id bytes)
unfolding apply_push
push-Settles s id bytes =
    if_intro (Settles s (writing id ∷ [])) s.ended (λ done. told_at_once (writing id) (waiting s))
      (λ live.
        if_intro (Settles s (writing id ∷ [])) (length bytes == 0)
          (λ none_sent. told_at_once (writing id) (waiting s))
          (λ sent. offer-Settles s id bytes s.reader refl))

-- Releasing a front part of the line answers it; a reader that waits keeps waiting.
release_room-Settles : (s : QueueState) → Settles s [] (release_room s)
unfolding release_room
release_room-Settles s = rw (r.notified, addressee-accepted r.gone, append-nil) (through s.reader)
  where
    r :
        Releases s.cap s.chunks s.held [] s.writers
          (release_loop s.cap s.chunks s.held [] s.writers)
    r = release_loop-Releases s.cap s.chunks s.held [] s.writers

    left : List Parked
    left = (release_loop s.cap s.chunks s.held [] s.writers).writers

    line : line_callers s.writers ≡ line_callers r.gone ++ line_callers left
    line = ap line_callers r.parted ∙ map-append _ r.gone left

    through :
        (who : Option ℕ)
        → Perm
            (line_callers r.gone ++ (readers who ++ line_callers left))
            (readers who ++ line_callers s.writers)
    through none = perm_of_eq (sym line)
    through (some id) = rw line (perm_middle (line_callers r.gone) (line_callers left))

-- `rest` is the queue after bytes were taken from it.
serve-Settles :
    (s rest : QueueState) (id : ℕ) (taken : Option Bytes)
    → waiting rest ≡ waiting s
    → Settles s (reading id ∷ []) (serve s id rest taken)
unfolding serve
serve-Settles s rest id (some bytes) e =
    Perm.trans
      (Perm.cons (reading id) (rw (← append-nil (waiting s), ← e) (release_room-Settles rest)))
      (told_at_once (reading id) (waiting s))
serve-Settles s rest id none e =
    if_intro (Settles s (reading id ∷ [])) s.ended (λ done. told_at_once (reading id) (waiting s))
      (λ live.
        rw (addressee-released s.reader, append_assoc)
          (Perm.append_left (readers s.reader)
            (told_at_once (reading id) (line_callers s.writers))))

next-Settles : (s : QueueState) (id limit : ℕ) → Settles s (reading id ∷ []) (apply_next s id limit)
unfolding apply_next
next-Settles s id limit =
    let same = take_bytes_rest s limit in
    serve-Settles s (take_bytes s limit).state id (take_bytes s limit).taken
      (rw (same.2, same.3) refl)

end-Settles : (s : QueueState) → Settles s [] (apply_end s)
unfolding apply_end
end-Settles s = perm_of_eq (simp (map-append, addressee-released, addressee-refused, append-nil))

hand_last-Settles :
    (s : QueueState) (bytes : Bytes) (who : Option ℕ)
    → s.reader ≡ who
    → Settles s [] (hand_last s bytes who)
unfolding hand_last apply_end
hand_last-Settles s bytes (some r) e = perm_of_eq (rw e (simp (addressee-refused, append-nil)))
hand_last-Settles s bytes none e =
    perm_of_eq (simp (map-append, addressee-released, addressee-refused, append-nil))

end_with-Settles : (s : QueueState) (bytes : Bytes) → Settles s [] (apply_end_with s bytes)
unfolding apply_end_with
end_with-Settles s bytes =
    if_intro (Settles s []) s.ended (λ done. end-Settles s)
      (λ live. hand_last-Settles s bytes s.reader refl)

-- One event answers some of those who waited or called, and leaves the others waiting.
pub apply-Settles : (s : QueueState) (e : Event) → Settles s (calls e) (apply s e)
unfolding apply
apply-Settles s (push id bytes) = push-Settles s id bytes
apply-Settles s (next id limit) = next-Settles s id limit
apply-Settles s end = end-Settles s
apply-Settles s (end_with bytes) = end_with-Settles s bytes

abbrev pub all_calls : List Event → List Caller
all_calls [] = []
all_calls (e ∷ es) = calls e ++ all_calls es

-- Two rounds of answers, one after the other.
two_rounds :
    (told more left kept old new later : List Caller)
    → Perm (told ++ left) (old ++ new)
    → Perm (more ++ kept) (left ++ later)
    → Perm ((told ++ more) ++ kept) (old ++ (new ++ later))
two_rounds told more left kept old new later first second =
    rw (append_assoc told more kept, ← append_assoc old new later)
      (Perm.trans (Perm.append_left told second)
        (rw (← append_assoc told left later) (Perm.append_right later first)))

-- Over any run from any queue, the callers answered and the callers left waiting are, up to order,
-- those who waited at its start and those who called in it.
pub run-Settles : (s : QueueState) (es : List Event) → Settles s (all_calls es) (run s es)
unfolding run
run-Settles s [] = perm_of_eq (sym (append-nil (waiting s)))
run-Settles s (e ∷ es) = rw (map-append addressee (apply s e).effects) (
    two_rounds (map addressee (apply s e).effects) _ (waiting (apply s e).state) _ (waiting s)
      (calls e) (all_calls es) (apply-Settles s e) (run-Settles (apply s e).state es))

waiting-nil : (s : QueueState) → Inv s → s.ended ≡ true → waiting s ≡ []
waiting-nil s v done = go v.finished
  where
    go : (s.ended ≡ false) ⊎ (s.reader ≡ none) × (s.writers ≡ []) → waiting s ≡ []
    go (inl live) = cc
    go (inr (idle, no_line)) = rw (idle, no_line)

-- Once a run from the empty queue has ended the stream, the callers that were answered are, up to
-- order, the callers that called: everyone is answered, and nobody twice.
pub ended_settles_all :
    (cap : ℕ) (es : List Event)
    → (run (empty_queue cap) es).state.ended ≡ true
    → Perm (map addressee (run (empty_queue cap) es).effects) (all_calls es)
unfolding empty_queue
ended_settles_all cap es done =
    let r = run (empty_queue cap) es in
    let told = map addressee r.effects in
    let settled : Perm (told ++ waiting r.state) (all_calls es) =
      run-Settles (empty_queue cap) es in
    let none_left : told ++ waiting r.state ≡ told =
      ap (◌++◌ told) (waiting-nil r.state (run-Inv cap es) done) ∙ append-nil told in
    subst (λ (l : List Caller). Perm l (all_calls es)) none_left settled
