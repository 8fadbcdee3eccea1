-- ===== src/ByteQueue/Oversize.antt =====
-- What the cap does to a write larger than itself, and to a write made out of turn.
use wac_mono.Base.{
  ℕ, ◌+◌, ◌≤◌, ◌<◌, ◌≡◌, refl, ◌∙◌, List, [], ◌∷◌, ◌++◌, Option, none, some, true, false, arith,
  length, All, if_intro, ◌==◌, concat, append_assoc, concat-snoc,
}
use wac_mono.ByteQueue.{
  Bytes, QueueState, Parked, Event, Step, push, next, end, end_with, apply, apply_push, apply_next,
  offer, serve, run, is_full, empty_queue, released,
}
use wac_mono.ByteQueue.Takes.{take_bytes-none}
use wac_mono.ByteQueue.Releases.{loads}
use wac_mono.ByteQueue.Stream.{delivered, contents, delivered-append}

abbrev pub IsRead : Event → Type 0
IsRead (push id bytes) = ⊥
IsRead (next id limit) = Unit
IsRead end = ⊥
IsRead (end_with bytes) = ⊥

-- Nothing is queued, and the stream has not ended.
record IsStarved (line : List Parked) (s : QueueState) : Type 0 where
  empty : s.chunks ≡ []
  live : s.ended ≡ false
  parked : s.writers ≡ line

delivered-released : (who : Option ℕ) → delivered (released who) ≡ []
delivered-released none = refl
delivered-released (some id) = refl

read-IsStarved :
    (line : List Parked) (s : QueueState) (id limit : ℕ)
    → IsStarved line s
    → IsStarved line (apply_next s id limit).state
      × (delivered (apply_next s id limit).effects ≡ [])
unfolding apply_next serve
read-IsStarved line s id limit h =
    rw ((take_bytes-none s limit h.empty).0, serve)
      (if_intro (λ (r : Step). IsStarved line r.state × (delivered r.effects ≡ [])) s.ended
        (λ done. (h, refl))
        (λ live. (
          record { empty = h.empty; live = h.live; parked = h.parked },
          delivered-released s.reader,
        )))

reads-IsStarved :
    (line : List Parked) (s : QueueState) (es : List Event)
    → All IsRead es
    → IsStarved line s
    → IsStarved line (run s es).state × (delivered (run s es).effects ≡ [])
unfolding run apply
reads-IsStarved line s [] a h = (h, refl)
reads-IsStarved line s (next id limit ∷ es) a h =
    let one = read-IsStarved line s id limit h in
    let rest = reads-IsStarved line (apply_next s id limit).state es a.1 one.0 in
    (rest.0, delivered-append (apply_next s id limit).effects _ ∙ rw (one.1, rest.1) refl)
reads-IsStarved line s (push id bytes ∷ es) a h = absurd a.0
reads-IsStarved line s (end ∷ es) a h = absurd a.0
reads-IsStarved line s (end_with bytes ∷ es) a h = absurd a.0

push_offers :
    (s : QueueState) (id : ℕ) (bytes : Bytes)
    → s.ended ≡ false
    → 0 < length bytes
    → apply_push s id bytes ≡ offer s id bytes s.reader
unfolding apply_push
push_offers s id bytes live filled =
    let sent : (length bytes == 0) ≡ false = ground arith in simp (live, sent)

push_parks :
    (room id : ℕ) (bytes : Bytes)
    → 0 < room
    → room < length bytes
    → IsStarved
        (record { id = id; bytes = bytes } ∷ [])
        (apply_push (empty_queue room) id bytes).state
      × (delivered (apply_push (empty_queue room) id bytes).effects ≡ [])
unfolding offer empty_queue
push_parks room id bytes some_cap large =
    let full : is_full room 0 (length bytes) ≡ true = ground arith in
    rw (push_offers (empty_queue room) id bytes refl (omega arith), offer, full)
      (record { empty = refl; live = refl; parked = refl }, refl)

-- A write larger than a positive cap, made to the empty queue, stays parked however often the
-- stream is then read, and no reader is handed a byte.
pub oversize_never_moves :
    (room id : ℕ) (bytes : Bytes) (es : List Event)
    → 0 < room
    → room < length bytes
    → All IsRead es
    → let r = run (empty_queue room) (push id bytes ∷ es) in
      (r.state.writers ≡ record { id = id; bytes = bytes } ∷ []) × (delivered r.effects ≡ [])
unfolding run apply
oversize_never_moves room id bytes es some_cap large reads =
    let first = push_parks room id bytes some_cap large in
    let rest = reads-IsStarved _ (apply_push (empty_queue room) id bytes).state es reads first.0 in
    (
      rest.0.parked,
      delivered-append (apply_push (empty_queue room) id bytes).effects _
          ∙ rw (first.1, rest.1) refl,
    )

-- On a stream that has not ended and that nobody is reading, a write that has room is queued in
-- front of every parked write, however long those have waited.
pub overtakes :
    (s : QueueState) (id : ℕ) (bytes : Bytes)
    → s.ended ≡ false
    → s.reader ≡ none
    → 0 < length bytes
    → s.held + length bytes ≤ s.cap
    → contents (apply s (push id bytes)).state
      ≡ concat s.chunks ++ (bytes ++ concat (loads s.writers))
unfolding apply offer
overtakes s id bytes live idle filled room =
    let fits : is_full s.cap s.held (length bytes) ≡ false = ground arith in
    rw (push_offers s id bytes live filled, idle, offer, fits) (simp (concat-snoc, append_assoc))
