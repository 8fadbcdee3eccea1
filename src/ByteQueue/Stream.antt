-- ===== src/ByteQueue/Stream.antt =====
-- The queue as a stream of bytes: what is offered on one side against what is delivered on the other.
use wac_mono.Base.{
  ℕ, ◌≡◌, refl, sym, ap, ◌∙◌, inl, inr, List, [], ◌∷◌, ◌++◌, Option, none, some, true, arith,
  append-nil, append_assoc, length, take, drop, concat, if◌then◌else◌, if_intro, Bool-cases,
  concat-append, concat-snoc, take-append-drop, ◌==◌,
}
use wac_mono.ByteQueue.{
  Bytes, QueueState, Parked, Event, Effect, Step, push, next, end, end_with, reader, writer, apply,
  apply_push, apply_next, apply_end, apply_end_with, hand_last, offer, serve, release_room,
  release_loop, take_bytes, run, empty_queue, is_full, released, refused,
}
use wac_mono.ByteQueue.Takes.{take_bytes_lem, take_bytes_rest, take_bytes-none}
use wac_mono.ByteQueue.Releases.{Releases, loads, accepted, release_loop-Releases}
use wac_mono.ByteQueue.Invariant.{Inv, empty_queue-Inv}
use wac_mono.ByteQueue.Reachable.{apply-Inv}

-- What readers have been handed, in order.
abbrev pub delivered : List Effect → Bytes
delivered [] = []
delivered (reader id bytes ∷ es) = bytes ++ delivered es
delivered (writer id taken ∷ es) = delivered es

-- The bytes on their way: those queued, then those in the line.
abbrev pub contents : QueueState → Bytes
contents s = concat s.chunks ++ concat (loads s.writers)

-- What an event brings. A stream that has ended takes nothing.
abbrev pub offered : QueueState → Event → Bytes
offered s (push id bytes) = if s.ended then [] else bytes
offered s (next id limit) = []
offered s end = []
offered s (end_with bytes) = if s.ended then [] else bytes

-- A producer waits for its turn: it neither writes nor ends the stream while a write is parked.
abbrev pub IsInTurn : QueueState → Event → Type 0
IsInTurn s (push id bytes) = s.writers ≡ []
IsInTurn s (next id limit) = Unit
IsInTurn s end = s.writers ≡ []
IsInTurn s (end_with bytes) = s.writers ≡ []

pub delivered-append : (xs ys : List Effect) → delivered (xs ++ ys) ≡ delivered xs ++ delivered ys
delivered-append [] ys = refl
delivered-append (reader id bytes ∷ es) ys =
    ap (◌++◌ bytes) (delivered-append es ys)
    ∙ sym (append_assoc bytes (delivered es) (delivered ys))
delivered-append (writer id taken ∷ es) ys = delivered-append es ys

delivered-accepted : (line : List Parked) → delivered (accepted line) ≡ []
delivered-accepted [] = refl
delivered-accepted (w ∷ ws) = delivered-accepted ws

delivered-released : (who : Option ℕ) → delivered (released who) ≡ []
delivered-released none = refl
delivered-released (some id) = refl

-- Bytes move on by one step: what the event brings joins at the back, what is delivered leaves the front.
abbrev pub Moves : QueueState → Bytes → Step → Type 0
Moves s more r = delivered r.effects ++ contents r.state ≡ contents s ++ more

loads-append : (xs ys : List Parked) → loads (xs ++ ys) ≡ loads xs ++ loads ys
loads-append [] ys = refl
loads-append (x ∷ xs) ys = ap (◌∷◌ x.bytes) (loads-append xs ys)

release_room-Moves : (s : QueueState) → Moves s [] (release_room s)
unfolding release_room
release_room-Moves s = rw (r.notified, r.appended, delivered-accepted r.gone) regrouped
  where
    r :
        Releases s.cap s.chunks s.held [] s.writers
          (release_loop s.cap s.chunks s.held [] s.writers)
    r = release_loop-Releases s.cap s.chunks s.held [] s.writers

    left : List Parked
    left = (release_loop s.cap s.chunks s.held [] s.writers).writers

    line : loads s.writers ≡ loads r.gone ++ loads left
    line = ap loads r.parted ∙ loads-append r.gone left

    regrouped :
        concat (s.chunks ++ loads r.gone) ++ concat (loads left)
        ≡ (concat s.chunks ++ concat (loads s.writers)) ++ []
    regrouped = simp (line, concat-append, append_assoc, append-nil)

end-Moves : (s : QueueState) → s.writers ≡ [] → Moves s [] (apply_end s)
unfolding apply_end
end-Moves s e = simp (delivered-released, e, append-nil)

-- A reader that waits has nothing queued in front of it.
chunks-nil : (s : QueueState) (r : ℕ) → Inv s → s.reader ≡ some r → s.chunks ≡ []
chunks-nil s r v e = ground (arith, v.starved)

offer-Moves :
    (s : QueueState) (id : ℕ) (bytes : Bytes) (who : Option ℕ)
    → Inv s
    → s.reader ≡ who
    → s.writers ≡ []
    → Moves s bytes (offer s id bytes who)
unfolding offer
offer-Moves s id bytes (some r) v e w = simp (chunks-nil s r v e, w, append-nil)
offer-Moves s id bytes none v e w =
    if_intro (Moves s bytes) (is_full s.cap s.held (length bytes)) (λ full. simp (w, append-nil))
      (λ fits. simp (w, append-nil, concat-snoc))

nil_of_length : (bytes : Bytes) → (length bytes == 0) ≡ true → bytes ≡ []
nil_of_length [] h = refl
nil_of_length (b ∷ bs) h = ground arith

push-Moves :
    (s : QueueState) (id : ℕ) (bytes : Bytes)
    → Inv s
    → s.writers ≡ []
    → Moves s (offered s (push id bytes)) (apply_push s id bytes)
unfolding apply_push
push-Moves s id bytes v w = elim (Bool-cases s.ended) [
  | inl done ↦ simp (done, append-nil)
  | inr live ↦ simp live (
      if_intro (Moves s bytes) (length bytes == 0)
        (λ none_sent. simp (nil_of_length bytes none_sent, append-nil))
        (λ sent. offer-Moves s id bytes s.reader v refl w))
]

-- What is taken leaves the front, and the line moves up behind what is left.
serve-Moves :
    (s t : QueueState) (limit : ℕ)
    → concat t.chunks ≡ drop limit (concat s.chunks)
    → t.writers ≡ s.writers
    → take limit (concat s.chunks)
        ++ (delivered (release_room t).effects ++ contents (release_room t).state)
      ≡ contents s ++ []
serve-Moves s t limit back same =
    rw (release_room-Moves t, back, same) (simp (append-nil, ← append_assoc, take-append-drop))

next-Moves : (s : QueueState) (id limit : ℕ) → Inv s → Moves s [] (apply_next s id limit)
unfolding apply_next serve
next-Moves s id limit v = go s.chunks refl
  where
    go : (cs : List Bytes) → s.chunks ≡ cs → Moves s [] (apply_next s id limit)
    go [] e =
        rw ((take_bytes-none s limit e).0, serve)
          (if_intro (Moves s []) s.ended (λ done. simp append-nil)
            (λ live. rw (delivered-released s.reader) (simp append-nil)))
    go (c ∷ cs) e =
        let t = take_bytes_lem s limit (λ f. cc) in
        rw (t.0, serve, append_assoc)
          (serve-Moves s (take_bytes s limit).state limit t.1 (take_bytes_rest s limit).3)

handed_last :
    (bytes : Bytes) (cs : List Bytes) (line : List Parked)
    → cs ≡ []
    → line ≡ []
    → (bytes ++ delivered (refused line)) ++ (concat cs ++ [])
      ≡ (concat cs ++ concat (loads line)) ++ bytes
handed_last bytes cs line c w = rw (c, w) (simp append-nil)

hand_last-Moves :
    (s : QueueState) (bytes : Bytes) (who : Option ℕ)
    → Inv s
    → s.reader ≡ who
    → s.writers ≡ []
    → Moves s bytes (hand_last s bytes who)
unfolding hand_last apply_end
hand_last-Moves s bytes (some r) v e w = handed_last bytes s.chunks s.writers (chunks-nil s r v e) w
hand_last-Moves s bytes none v e w = simp (e, w, append-nil, concat-snoc)

end_with-Moves :
    (s : QueueState) (bytes : Bytes)
    → Inv s
    → s.writers ≡ []
    → Moves s (offered s (end_with bytes)) (apply_end_with s bytes)
unfolding apply_end_with
end_with-Moves s bytes v w = elim (Bool-cases s.ended) [
  | inl done ↦ simp done (end-Moves s w)
  | inr live ↦ simp live (hand_last-Moves s bytes s.reader v refl w)
]

-- One event moves the stream on by what it brings, and loses, repeats or reorders nothing.
pub apply-Moves :
    (s : QueueState) (e : Event) → Inv s → IsInTurn s e → Moves s (offered s e) (apply s e)
unfolding apply
apply-Moves s (push id bytes) v w = push-Moves s id bytes v w
apply-Moves s (next id limit) v w = next-Moves s id limit v
apply-Moves s end v w = end-Moves s w
apply-Moves s (end_with bytes) v w = end_with-Moves s bytes v w

-- A whole run in which the producer waits for its turns.
abbrev pub AllInTurn : QueueState → List Event → Type 0
AllInTurn s [] = Unit
AllInTurn s (e ∷ es) = IsInTurn s e × AllInTurn (apply s e).state es

abbrev pub all_offered : QueueState → List Event → Bytes
all_offered s [] = []
all_offered s (e ∷ es) = offered s e ++ all_offered (apply s e).state es

run-Moves :
    (s : QueueState) (es : List Event)
    → Inv s
    → AllInTurn s es
    → Moves s (all_offered s es) (run s es)
unfolding run
run-Moves s [] v w = sym (append-nil (contents s))
run-Moves s (e ∷ es) v w =
    let rest = run-Moves (apply s e).state es (apply-Inv s e v) w.1 in
    rw (delivered-append (apply s e).effects _, append_assoc, rest, ← append_assoc)
      (rw (apply-Moves s e v w.0) (append_assoc (contents s) (offered s e) _))

-- Where the producer neither writes nor ends the stream while a write of its own is parked: over
-- any run from the empty queue, what readers have been handed, followed by what is queued and
-- parked, is exactly what was offered before the end, in order.
pub run-stream :
    (cap : ℕ) (es : List Event)
    → AllInTurn (empty_queue cap) es
    → let r = run (empty_queue cap) es in
      delivered r.effects ++ contents r.state ≡ all_offered (empty_queue cap) es
unfolding empty_queue
run-stream cap es w = run-Moves (empty_queue cap) es (empty_queue-Inv cap) w
