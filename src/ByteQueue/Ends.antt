-- ===== src/ByteQueue/Ends.antt =====
-- What a reader may conclude from an answer with no bytes: the stream has ended, or another read took
-- its place.
use wac_mono.Base.{
  ℕ, ◌<◌, ◌≡◌, ◌≢◌, ◌⊎◌, refl, inl, inr, ◌∙◌, List, [], ◌∷◌, Option, none, some, true, arith,
  length, All, if_intro, ◌==◌, take, length-take, length-append, concat,
}
use wac_mono.ByteQueue.{
  Bytes, QueueState, Parked, Event, Effect, Step, push, next, end, end_with, reader, writer, apply,
  apply_push, apply_next, apply_end, apply_end_with, hand_last, offer, serve, release_room,
  release_loop, take_bytes, is_full, released,
}
use wac_mono.ByteQueue.Takes.{take_bytes_lem, take_bytes_rest, take_bytes-none}
use wac_mono.ByteQueue.Releases.{Releases, release_loop-Releases, accepted}
use wac_mono.ByteQueue.Invariant.{Inv, IsFilled}

-- A read that was waiting when another read came.
abbrev pub IsDisplaced : QueueState → Event → ℕ → Type 0
IsDisplaced s (push i bytes) id = ⊥
IsDisplaced s (next i limit) id = s.reader ≡ some id
IsDisplaced s end id = ⊥
IsDisplaced s (end_with bytes) id = ⊥

-- Is an answer of no bytes to a reader one that it may take for the end?
abbrev pub IsHonest : QueueState → Event → QueueState → Effect → Type 0
IsHonest s e t (reader id bytes) = (0 < length bytes) ⊎ (t.ended ≡ true) ⊎ IsDisplaced s e id
IsHonest s e t (writer id taken) = Unit

-- Reads ask for at least one byte.
abbrev pub AsksForBytes : Event → Type 0
AsksForBytes (push id bytes) = Unit
AsksForBytes (next id limit) = 0 < limit
AsksForBytes end = Unit
AsksForBytes (end_with bytes) = Unit

AllHonest : QueueState → Event → Step → Type 0
AllHonest s e r = All (IsHonest s e r.state) r.effects

-- Effects after which the stream has ended are honest.
IsHonest-ended :
    (s : QueueState) (e : Event) (t : QueueState) (es : List Effect)
    → t.ended ≡ true
    → All (IsHonest s e t) es
IsHonest-ended s e t [] h = tt
IsHonest-ended s e t (reader id bytes ∷ es) h = (inr (inl h), IsHonest-ended s e t es h)
IsHonest-ended s e t (writer id taken ∷ es) h = (tt, IsHonest-ended s e t es h)

IsHonest-accepted :
    (s : QueueState) (e : Event) (t : QueueState) (line : List Parked)
    → All (IsHonest s e t) (accepted line)
IsHonest-accepted s e t [] = tt
IsHonest-accepted s e t (w ∷ ws) = (tt, IsHonest-accepted s e t ws)

offer-AllHonest :
    (s : QueueState) (id : ℕ) (bytes : Bytes) (who : Option ℕ)
    → 0 < length bytes
    → AllHonest s (push id bytes) (offer s id bytes who)
unfolding offer AllHonest
offer-AllHonest s id bytes (some r) h = (inl h, (tt, tt))
offer-AllHonest s id bytes none h =
    if_intro (AllHonest s (push id bytes)) (is_full s.cap s.held (length bytes)) (λ full. tt)
      (λ fits. (tt, tt))

-- The first bytes of chunks that are not empty.
taken_filled :
    (limit : ℕ) (cs : List Bytes)
    → 0 < limit
    → cs ≢ []
    → All IsFilled cs
    → 0 < length (take limit (concat cs))
taken_filled limit [] h n f = absurd (n refl)
taken_filled limit (c ∷ cs) h n f =
    omega (arith, f.0, length-take limit (concat (c ∷ cs)), length-append c (concat cs))

release_room-AllHonest :
    (s t : QueueState) (id limit who : ℕ) (bytes : Bytes)
    → (0 < length bytes) ⊎ (t.ended ≡ true)
    → All
        (IsHonest s (next id limit) (release_room t).state)
        (reader who bytes ∷ (release_room t).effects)
unfolding release_room
release_room-AllHonest s t id limit who bytes (inl filled) =
    (inl filled, rw r.notified (IsHonest-accepted s (next id limit) (release_room t).state r.gone))
  where
    r :
        Releases t.cap t.chunks t.held [] t.writers
          (release_loop t.cap t.chunks t.held [] t.writers)
    r = release_loop-Releases t.cap t.chunks t.held [] t.writers
release_room-AllHonest s t id limit who bytes (inr done) = (
  inr (inl done),
  IsHonest-ended s (next id limit) (release_room t).state (release_room t).effects done,
)

displaced :
    (s : QueueState) (id limit : ℕ) (t : QueueState) (who : Option ℕ)
    → s.reader ≡ who
    → All (IsHonest s (next id limit) t) (released who)
displaced s id limit t none e = tt
displaced s id limit t (some r) e = (inr (inr e), tt)

next-AllHonest :
    (s : QueueState) (id limit : ℕ)
    → Inv s
    → 0 < limit
    → AllHonest s (next id limit) (apply_next s id limit)
unfolding apply_next serve AllHonest
next-AllHonest s id limit v h = go s.chunks refl v.filled
  where
    go :
        (cs : List Bytes)
        → s.chunks ≡ cs
        → (s.ended ≡ true) ⊎ All IsFilled s.chunks
        → AllHonest s (next id limit) (apply_next s id limit)
    go [] e f =
        rw ((take_bytes-none s limit e).0, serve)
          (if_intro (AllHonest s (next id limit)) s.ended (λ done. (inr (inl done), tt))
            (λ live. displaced s id limit (record s { reader = some id }) s.reader refl))
    go (c ∷ cs) e f =
        let some_queued : s.chunks ≢ [] = λ g. cc in
        rw ((take_bytes_lem s limit some_queued).0, serve)
          (release_room-AllHonest s _ id limit id _ (answer some_queued f))
      where
        answer :
            s.chunks ≢ []
            → (s.ended ≡ true) ⊎ All IsFilled s.chunks
            → (0 < length (take limit (concat s.chunks)))
              ⊎ ((take_bytes s limit).state.ended ≡ true)
        answer n (inl done) = inr ((take_bytes_rest s limit).1 ∙ done)
        answer n (inr f) = inl (taken_filled limit s.chunks h n f)

-- In a queue that satisfies the invariant, where reads ask for at least one byte: an event answers
-- a reader with no bytes only if the stream has ended by then, or if the event is a read and the
-- reader is the one it displaced.
pub apply-IsHonest :
    (s : QueueState) (e : Event)
    → Inv s
    → AsksForBytes e
    → All (IsHonest s e (apply s e).state) (apply s e).effects
unfolding apply apply_push apply_end apply_end_with hand_last AllHonest
apply-IsHonest s (push id bytes) v h =
    if_intro (AllHonest s (push id bytes)) s.ended (λ done. (tt, tt))
      (λ live.
        if_intro (AllHonest s (push id bytes)) (length bytes == 0) (λ none_sent. (tt, tt))
          (λ sent. offer-AllHonest s id bytes s.reader (ground arith)))
apply-IsHonest s (next id limit) v h = next-AllHonest s id limit v h
apply-IsHonest s end v h = IsHonest-ended s end (apply_end s).state (apply_end s).effects refl
apply-IsHonest s (end_with bytes) v h =
    if_intro (AllHonest s (end_with bytes)) s.ended
      (λ done. IsHonest-ended s (end_with bytes) (apply_end s).state (apply_end s).effects refl)
      (λ live. last s.reader)
  where
    last : (who : Option ℕ) → AllHonest s (end_with bytes) (hand_last s bytes who)
    last (some r) = (
      inr (inl refl),
      IsHonest-ended s (end_with bytes) (record s { ended = true; reader = none; writers = [] }) _
          refl,
    )
    last none =
        IsHonest-ended s (end_with bytes) (record s { ended = true; reader = none; writers = [] }) _
          refl
