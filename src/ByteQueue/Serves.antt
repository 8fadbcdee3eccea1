-- ===== src/ByteQueue/Serves.antt =====
-- `next` of queue.ts keeps the invariant: bytes are taken, then the line is released.
use wac_mono.Base.{
  ℕ, ◌≤◌, ◌≡◌, ◌≢◌, ◌⊎◌, refl, ◌∙◌, List, [], ◌∷◌, ◌++◌, inl, inr, ap, All-append, All-append_left,
  All-append_right, append-eq-nil_right, concat-append, length-drop, length-append, if_intro, none,
  some, true, false, arith, length, concat, All,
}
use wac_mono.ByteQueue.Takes.{take_bytes_lem, take_bytes_rest, take_bytes_filled, take_bytes-none}
use wac_mono.ByteQueue.{
  apply_next, serve, release_room, take_bytes, release_loop, Bytes, QueueState, Parked, Step,
}
use wac_mono.ByteQueue.Releases.{Releases, loads, release_loop-Releases, release_loop_within}
use wac_mono.ByteQueue.Invariant.{Inv, HasBytes, IsFilled}

loads-IsFilled : (line : List Parked) → All HasBytes line → All IsFilled (loads line)
loads-IsFilled [] h = tt
loads-IsFilled (w ∷ ws) h = (h.0, loads-IsFilled ws h.1)

-- The queue in the middle of `next`: bytes have been taken, and the line has not been looked at.
record IsTaken (s : QueueState) : Type 0 where
  counted : s.held ≡ length (concat s.chunks)
  alone : s.reader ≡ none
  finished : (s.ended ≡ false) ⊎ (s.writers ≡ [])
  line_filled : All HasBytes s.writers
  filled : (s.ended ≡ true) ⊎ All IsFilled s.chunks
  within : (s.ended ≡ true) ⊎ (s.cap ≡ 0) ⊎ (s.held ≤ s.cap)

release_room-Inv : (s : QueueState) → IsTaken s → Inv (release_room s).state
unfolding release_room
release_room-Inv s v = record {
  counted = rw r.appended (
      omega (
        arith,
        r.counted,
        v.counted,
        ap length (concat-append s.chunks (loads r.gone)),
        length-append (concat s.chunks) (concat (loads r.gone)),
      ));
  finished = ended_line v.finished;
  starved = inl v.alone;
  stuck = r.stuck;
  line_filled = All-append_right HasBytes r.gone _ parked;
  filled = chunks_filled v.filled;
  within = held_within v.within;
}
  where
    r :
        Releases s.cap s.chunks s.held [] s.writers
          (release_loop s.cap s.chunks s.held [] s.writers)
    r = release_loop-Releases s.cap s.chunks s.held [] s.writers

    left : List Parked
    left = (release_loop s.cap s.chunks s.held [] s.writers).writers

    parked : All HasBytes (r.gone ++ left)
    parked = rw (← r.parted) v.line_filled

    ended_line :
        (s.ended ≡ false) ⊎ (s.writers ≡ []) → (s.ended ≡ false) ⊎ (s.reader ≡ none) × (left ≡ [])
    ended_line (inl e) = inl e
    ended_line (inr e) = inr (v.alone, append-eq-nil_right r.gone left (rw (← r.parted) e))

    chunks_filled :
        (s.ended ≡ true) ⊎ All IsFilled s.chunks
        → (s.ended ≡ true) ⊎ All IsFilled (release_loop s.cap s.chunks s.held [] s.writers).chunks
    chunks_filled (inl e) = inl e
    chunks_filled (inr f) = inr (
        rw r.appended (
          All-append IsFilled s.chunks _ f
            (loads-IsFilled r.gone (All-append_left HasBytes r.gone left parked))))

    held_within :
        (s.ended ≡ true) ⊎ (s.cap ≡ 0) ⊎ (s.held ≤ s.cap)
        → (s.ended ≡ true)
          ⊎ (s.cap ≡ 0)
          ⊎ ((release_loop s.cap s.chunks s.held [] s.writers).held ≤ s.cap)
    held_within (inl e) = inl e
    held_within (inr h) = inr (release_loop_within s.cap s.chunks s.held [] s.writers h)

take_bytes-IsTaken :
    (s : QueueState) (limit : ℕ) → Inv s → s.chunks ≢ [] → IsTaken (take_bytes s limit).state
take_bytes-IsTaken s limit v some_queued =
    let t = take_bytes_lem s limit some_queued in
    let same = take_bytes_rest s limit in
    record {
      counted = omega (arith, t, v.counted, ap length t.1, length-drop limit (concat s.chunks));
      alone = same.2 ∙ idle s.chunks some_queued v.starved;
      finished = ground (arith, same, v.finished);
      line_filled = rw same.3 v.line_filled;
      filled = chunks_filled v.filled;
      within = held_within v.within;
    }
  where
    idle : (cs : List Bytes) → cs ≢ [] → (s.reader ≡ none) ⊎ (cs ≡ []) → s.reader ≡ none
    idle cs n (inl e) = e
    idle cs n (inr e) = absurd (n e)

    chunks_filled :
        (s.ended ≡ true) ⊎ All IsFilled s.chunks
        → ((take_bytes s limit).state.ended ≡ true) ⊎ All IsFilled (take_bytes s limit).state.chunks
    chunks_filled (inl e) = inl ((take_bytes_rest s limit).1 ∙ e)
    chunks_filled (inr f) = inr (take_bytes_filled s limit f)

    held_within :
        (s.ended ≡ true) ⊎ (s.cap ≡ 0) ⊎ (s.held ≤ s.cap)
        → ((take_bytes s limit).state.ended ≡ true)
          ⊎ ((take_bytes s limit).state.cap ≡ 0)
          ⊎ ((take_bytes s limit).state.held ≤ (take_bytes s limit).state.cap)
    held_within (inl e) = inl ((take_bytes_rest s limit).1 ∙ e)
    held_within (inr h) =
        inr (omega (arith, take_bytes_lem s limit some_queued, take_bytes_rest s limit, h))

-- The state in which a reader is left to wait.
wait-Inv :
    (s : QueueState) (id : ℕ)
    → Inv s
    → s.chunks ≡ []
    → s.ended ≡ false
    → Inv (record s { reader = some id })
wait-Inv s id v e live = record {
  counted = v.counted;
  finished = inl live;
  starved = inr e;
  stuck = v.stuck;
  line_filled = v.line_filled;
  filled = v.filled;
  within = v.within;
}

pub apply_next-Inv : (s : QueueState) (id limit : ℕ) → Inv s → Inv (apply_next s id limit).state
unfolding apply_next serve
apply_next-Inv s id limit v = go s.chunks refl
  where
    go : (cs : List Bytes) → s.chunks ≡ cs → Inv (apply_next s id limit).state
    go [] e =
        rw ((take_bytes-none s limit e).0, serve)
          (if_intro (λ (r : Step). Inv r.state) s.ended (λ done. v)
            (λ live. wait-Inv s id v e live))
    go (c ∷ cs) e =
        let some_queued : s.chunks ≢ [] = λ f. cc in
        rw ((take_bytes_lem s limit some_queued).0, serve)
          (release_room-Inv _ (take_bytes-IsTaken s limit v some_queued))
