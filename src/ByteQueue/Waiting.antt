-- ===== src/ByteQueue/Waiting.antt =====
-- Who can be left waiting: a reader and a writer never wait for each other while each write fits the
-- cap, a reader is told of the end only at the end, and what happens where a write does not fit.
use wac_mono.Base.{
  ℕ, ◌≤◌, ◌≡◌, ◌⊎◌, refl, inl, inr, ap, ◌∙◌, List, [], ◌∷◌, Option, none, some, arith, length, All,
  All-append, All-append_right, if_intro, ◌==◌, concat,
}
use wac_mono.ByteQueue.{
  Bytes, QueueState, Parked, Event, Step, push, next, end, end_with, apply, apply_push, apply_next,
  apply_end, apply_end_with, hand_last, offer, serve, release_room, release_loop, take_bytes, run,
  is_full, empty_queue,
}
use wac_mono.ByteQueue.Takes.{take_bytes_rest}
use wac_mono.ByteQueue.Releases.{IsStuck, Releases, release_loop-Releases}
use wac_mono.ByteQueue.Invariant.{Inv}
use wac_mono.ByteQueue.Reachable.{run-Inv}

-- A write of this length can fit: it is no larger than the cap, or there is no cap.
abbrev pub CanFit : ℕ → Bytes → Type 0
CanFit cap bytes = (cap ≡ 0) ⊎ (length bytes ≤ cap)

abbrev pub IsSmall : ℕ → Event → Type 0
IsSmall cap (push id bytes) = CanFit cap bytes
IsSmall cap (next id limit) = Unit
IsSmall cap end = Unit
IsSmall cap (end_with bytes) = Unit

abbrev pub LineFits : QueueState → Type 0
LineFits s = All (λ w. CanFit s.cap w.bytes) s.writers

-- Nobody reads while somebody waits to write.
abbrev pub NoStandoff : QueueState → Type 0
NoStandoff s = (s.reader ≡ none) ⊎ (s.writers ≡ [])

-- With nothing queued, a write that can fit is not stuck.
fitting_line :
    (cap held : ℕ) (line : List Parked)
    → held ≡ 0
    → IsStuck cap held line
    → All (λ w. CanFit cap w.bytes) line
    → line ≡ []
fitting_line cap held [] z k f = refl
fitting_line cap held (w ∷ ws) z k f = ground (arith, f.0)

fitting-NoStandoff : (s : QueueState) → Inv s → LineFits s → NoStandoff s
fitting-NoStandoff s v f = go v.starved
  where
    go : (s.reader ≡ none) ⊎ (s.chunks ≡ []) → NoStandoff s
    go (inl idle) = inl idle
    go (inr none_queued) = inr (
        fitting_line s.cap s.held s.writers
          (v.counted ∙ ap (λ (cs : List Bytes). length (concat cs)) none_queued) v.stuck f)

-- The line after an event holds writers that were in it, and at most the one who called.
release_room-LineFits : (s : QueueState) → LineFits s → LineFits (release_room s).state
unfolding release_room
release_room-LineFits s f =
    All-append_right (λ w. CanFit s.cap w.bytes) r.gone _ (rw (← r.parted) f)
  where
    r :
        Releases s.cap s.chunks s.held [] s.writers
          (release_loop s.cap s.chunks s.held [] s.writers)
    r = release_loop-Releases s.cap s.chunks s.held [] s.writers

release_room-cap : (s : QueueState) → (release_room s).state.cap ≡ s.cap
unfolding release_room
release_room-cap s = refl

KeepsFitting : QueueState → Step → Type 0
KeepsFitting s r = (r.state.cap ≡ s.cap) × LineFits r.state

offer-LineFits :
    (s : QueueState) (id : ℕ) (bytes : Bytes) (who : Option ℕ)
    → CanFit s.cap bytes
    → LineFits s
    → KeepsFitting s (offer s id bytes who)
unfolding offer KeepsFitting
offer-LineFits s id bytes (some r) small f = (refl, f)
offer-LineFits s id bytes none small f =
    if_intro (KeepsFitting s) (is_full s.cap s.held (length bytes))
      (λ full. (refl, All-append (λ w. CanFit s.cap w.bytes) s.writers _ f (small, tt)))
      (λ fits. (refl, f))

push-LineFits :
    (s : QueueState) (id : ℕ) (bytes : Bytes)
    → CanFit s.cap bytes
    → LineFits s
    → KeepsFitting s (apply_push s id bytes)
unfolding apply_push KeepsFitting
push-LineFits s id bytes small f =
    if_intro (KeepsFitting s) s.ended (λ done. (refl, f))
      (λ live.
        if_intro (KeepsFitting s) (length bytes == 0) (λ none_sent. (refl, f))
          (λ sent. offer-LineFits s id bytes s.reader small f))

serve-LineFits :
    (s rest : QueueState) (id : ℕ) (taken : Option Bytes)
    → rest.cap ≡ s.cap
    → rest.writers ≡ s.writers
    → LineFits s
    → KeepsFitting s (serve s id rest taken)
unfolding serve KeepsFitting
serve-LineFits s rest id (some bytes) c w f =
    (release_room-cap rest ∙ c, release_room-LineFits rest (rw (c, w) f))
serve-LineFits s rest id none c w f =
    if_intro (KeepsFitting s) s.ended (λ done. (refl, f)) (λ live. (refl, f))

apply-LineFits :
    (s : QueueState) (e : Event) → IsSmall s.cap e → LineFits s → KeepsFitting s (apply s e)
unfolding apply apply_next apply_end apply_end_with hand_last KeepsFitting
apply-LineFits s (push id bytes) small f = push-LineFits s id bytes small f
apply-LineFits s (next id limit) small f =
    let same = take_bytes_rest s limit in
    serve-LineFits s (take_bytes s limit).state id (take_bytes s limit).taken same.0 same.3 f
apply-LineFits s end small f = (refl, tt)
apply-LineFits s (end_with bytes) small f =
    if_intro (KeepsFitting s) s.ended (λ done. (refl, tt)) (λ live. last s.reader)
  where
    last : (who : Option ℕ) → KeepsFitting s (hand_last s bytes who)
    last (some r) = (refl, tt)
    last none = (refl, tt)

run-LineFits :
    (cap : ℕ) (s : QueueState) (es : List Event)
    → s.cap ≡ cap
    → All (IsSmall cap) es
    → LineFits s
    → LineFits (run s es).state
unfolding run KeepsFitting
run-LineFits cap s [] c small f = f
run-LineFits cap s (e ∷ es) c small f =
    let one = apply-LineFits s e (rw c small.0) f in
    run-LineFits cap (apply s e).state es (one.0 ∙ c) small.1 one.1

-- However pushes, reads and ends interleave from the empty queue, no reader waits while a writer
-- waits, if the queue has no cap or each write is no larger than the cap.
pub run-NoStandoff :
    (cap : ℕ) (es : List Event) → All (IsSmall cap) es → NoStandoff (run (empty_queue cap) es).state
unfolding empty_queue
run-NoStandoff cap es small =
    fitting-NoStandoff _ (run-Inv cap es) (run-LineFits cap (empty_queue cap) es refl small tt)
