-- ===== src/ByteQueue/Reachable.antt =====
-- Every queue that events lead to, and what the invariant means for those who wait on it.
use wac_mono.Base.{
  ℕ, refl, inl, inr, List, [], ◌∷◌, Option, none, some, arith, length, concat, Bool-cases, ◌==◌,
  concat-snoc, length-append, ap,
}
use wac_mono.ByteQueue.{
  Bytes, QueueState, Event, push, next, end, end_with, apply, apply_push, apply_end_with, hand_last,
  apply_end, run, empty_queue,
}
use wac_mono.ByteQueue.Invariant.{Inv, empty_queue-Inv, offer-Inv, apply_end-Inv}
use wac_mono.ByteQueue.Serves.{apply_next-Inv}

apply_push-Inv :
    (s : QueueState) (id : ℕ) (bytes : Bytes) → Inv s → Inv (apply_push s id bytes).state
unfolding apply_push
apply_push-Inv s id bytes v = elim (Bool-cases s.ended) [
  | inl done ↦ simp done v
  | inr live ↦ elim (Bool-cases (length bytes == 0)) [
    | inl none_sent ↦ simp (live, none_sent) v
    | inr sent ↦ simp (live, sent) (offer-Inv s id bytes s.reader v refl live (ground arith))
  ]
]

apply_end_with-Inv : (s : QueueState) (bytes : Bytes) → Inv s → Inv (apply_end_with s bytes).state
unfolding apply_end_with hand_last apply_end
apply_end_with-Inv s bytes v = elim (Bool-cases s.ended) [
  | inl done ↦ simp done (apply_end-Inv s v)
  | inr live ↦ simp live (last s.reader)
]
  where
    last : (who : Option ℕ) → Inv (hand_last s bytes who).state
    last (some waiting) = record {
      counted = v.counted;
      finished = inr (refl, refl);
      starved = inl refl;
      stuck = tt;
      line_filled = tt;
      filled = inl refl;
      within = inl refl;
    }
    last none = record {
      counted = omega (
        arith,
        v.counted,
        ap length (concat-snoc s.chunks bytes),
        length-append (concat s.chunks) bytes,
      );
      finished = inr (refl, refl);
      starved = inl refl;
      stuck = tt;
      line_filled = tt;
      filled = inl refl;
      within = inl refl;
    }

-- Every event keeps the invariant.
pub apply-Inv : (s : QueueState) (e : Event) → Inv s → Inv (apply s e).state
unfolding apply
apply-Inv s (push id bytes) v = apply_push-Inv s id bytes v
apply-Inv s (next id limit) v = apply_next-Inv s id limit v
apply-Inv s end v = apply_end-Inv s v
apply-Inv s (end_with bytes) v = apply_end_with-Inv s bytes v

pub run-keeps_Inv : (s : QueueState) (es : List Event) → Inv s → Inv (run s es).state
unfolding run
run-keeps_Inv s [] v = v
run-keeps_Inv s (e ∷ es) v = run-keeps_Inv (apply s e).state es (apply-Inv s e v)

-- After any events from the empty queue: `held` counts the queued bytes, nobody waits on an ended
-- stream, a reader waits only where nothing is queued, the first parked writer has no room, no
-- parked write is empty, and before the end no chunk is empty and the cap bounds what is held.
pub run-Inv : (cap : ℕ) (es : List Event) → Inv (run (empty_queue cap) es).state
run-Inv cap es = run-keeps_Inv (empty_queue cap) es (empty_queue-Inv cap)
