-- ===== src/ByteQueue/Invariant.antt =====
-- What holds of a queue between two events, whatever the events were.
use wac_mono.Base.{
  ℕ, ◌≤◌, ◌<◌, ◌≡◌, ◌⊎◌, refl, List, [], ◌∷◌, ◌++◌, inl, inr, ap, All-append, concat-snoc,
  length-append, Bool-cases, Option, none, some, true, false, arith, length, concat, All,
}
use wac_mono.ByteQueue.{apply_end, offer, is_full, Bytes, QueueState, Parked, empty_queue}
use wac_mono.ByteQueue.Releases.{IsStuck}

abbrev pub HasBytes : Parked → Type 0
HasBytes w = 0 < length w.bytes

abbrev pub IsFilled : Bytes → Type 0
IsFilled c = 0 < length c

pub record Inv (s : QueueState) : Type 0 where
  -- `held` counts the queued bytes.
  pub counted : s.held ≡ length (concat s.chunks)
  -- Nobody waits on a stream that has ended.
  pub finished : (s.ended ≡ false) ⊎ (s.reader ≡ none) × (s.writers ≡ [])
  -- A reader waits only where nothing is queued.
  pub starved : (s.reader ≡ none) ⊎ (s.chunks ≡ [])
  -- The first writer in the line has no room.
  pub stuck : IsStuck s.cap s.held s.writers
  -- No write in the line is empty, and before the end no chunk is.
  pub line_filled : All HasBytes s.writers
  pub filled : (s.ended ≡ true) ⊎ All IsFilled s.chunks
  -- Before the end the cap bounds what is held.
  pub within : (s.ended ≡ true) ⊎ (s.cap ≡ 0) ⊎ (s.held ≤ s.cap)

IsStuck-mono :
    (cap held more : ℕ) (line : List Parked)
    → held ≤ more
    → IsStuck cap held line
    → IsStuck cap more line
IsStuck-mono cap held more [] h k = tt
IsStuck-mono cap held more (w ∷ ws) h k = ground arith

IsStuck-snoc :
    (cap held : ℕ) (line : List Parked) (w : Parked)
    → IsStuck cap held line
    → is_full cap held (length w.bytes) ≡ true
    → IsStuck cap held (line ++ w ∷ [])
IsStuck-snoc cap held [] w h k = k
IsStuck-snoc cap held (v ∷ vs) w h k = h

-- A queue that has chunks has no reader waiting.
reader-none :
    (s : QueueState) (c : Bytes) (cs : List Bytes) → Inv s → s.chunks ≡ c ∷ cs → s.reader ≡ none
reader-none s c cs v e = ground (arith, v.starved)

pub empty_queue-Inv : (cap : ℕ) → Inv (empty_queue cap)
unfolding empty_queue
empty_queue-Inv cap = ground arith

pub apply_end-Inv : (s : QueueState) → Inv s → Inv (apply_end s).state
unfolding apply_end
apply_end-Inv s v = record {
  counted = v.counted;
  finished = inr (refl, refl);
  starved = inl refl;
  stuck = tt;
  line_filled = tt;
  filled = inl refl;
  within = inl refl;
}

pub offer-Inv :
    (s : QueueState) (id : ℕ) (bytes : Bytes) (who : Option ℕ)
    → Inv s
    → s.reader ≡ who
    → s.ended ≡ false
    → 0 < length bytes
    → Inv (offer s id bytes who).state
unfolding offer
offer-Inv s id bytes (some r) v e live filled = record {
  counted = v.counted;
  finished = inl live;
  starved = inl refl;
  stuck = v.stuck;
  line_filled = v.line_filled;
  filled = v.filled;
  within = v.within;
}
offer-Inv s id bytes none v e live filled =
    elim (Bool-cases (is_full s.cap s.held (length bytes))) [
      | inl full ↦
          rw (full, offer)
            (record {
              counted = v.counted;
              finished = inl live;
              starved = inl e;
              stuck = IsStuck-snoc _ _ s.writers _ v.stuck full;
              line_filled = All-append _ s.writers _ v.line_filled (filled, tt);
              filled = v.filled;
              within = v.within;
            })
      | inr fits ↦
          rw (fits, offer)
            (record {
              counted = omega (
                arith,
                v.counted,
                ap length (concat-snoc s.chunks bytes),
                length-append (concat s.chunks) bytes,
              );
              finished = inl live;
              starved = inl e;
              stuck = IsStuck-mono s.cap s.held _ s.writers (omega arith) v.stuck;
              line_filled = v.line_filled;
              filled = inr (All-append _ s.chunks _ (ground (arith, v.filled)) (filled, tt));
              within = ground arith;
            })
    ]
