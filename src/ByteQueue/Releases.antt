-- ===== src/ByteQueue/Releases.antt =====
-- `releaseRoom` of queue.ts: which parked writers go, in which order, and why the line stops.
use wac_mono.Base.{
  ℕ, ◌+◌, ◌≤◌, ◌≡◌, ◌⊎◌, refl, sym, ap, ◌∙◌, inl, inr, List, [], ◌∷◌, ◌++◌, map, true, arith,
  append_assoc, append-nil, length, concat, Bool-cases, length-append,
}
use wac_mono.ByteQueue.{Bytes, Parked, Effect, writer, Room, is_full, release_loop}

-- The bytes of parked writers, in order.
abbrev pub loads : List Parked → List Bytes
loads = map (λ w. w.bytes)

-- Every one of these writers is told that its bytes were taken.
abbrev pub accepted : List Parked → List Effect
accepted = map (λ w. writer w.id true)

-- The head of the line does not fit beside what is held.
abbrev pub IsStuck : ℕ → ℕ → List Parked → Type 0
IsStuck cap held [] = Unit {0}
IsStuck cap held (w ∷ ws) = is_full cap held (length w.bytes) ≡ true

-- A front part `gone` of the line is released, and what is left is stuck.
pub record Releases (cap : ℕ) (chunks : List Bytes) (held : ℕ) (told : List Effect)
    (line : List Parked) (r : Room) : Type 0 where
  pub gone : List Parked
  pub parted : line ≡ gone ++ r.writers
  pub appended : r.chunks ≡ chunks ++ loads gone
  pub notified : r.effects ≡ told ++ accepted gone
  pub counted : r.held ≡ held + length (concat (loads gone))
  pub stuck : IsStuck cap r.held r.writers

-- The loop of `releaseRoom` splits the line in two: the writers of the front part have their bytes
-- queued and are told so, in the order of the line, `held` grows by their bytes, and the first
-- writer of the rest has no room.
pub release_loop-Releases :
    (cap : ℕ) (chunks : List Bytes) (held : ℕ) (told : List Effect) (line : List Parked)
    → Releases cap chunks held told line (release_loop cap chunks held told line)
unfolding release_loop
release_loop-Releases cap chunks held told [] = record {
  gone = [];
  parted = refl;
  appended = sym (append-nil chunks);
  notified = sym (append-nil told);
  counted = omega arith;
  stuck = tt;
}
release_loop-Releases cap chunks held told (w ∷ ws) =
    let rest =
      release_loop-Releases cap (chunks ++ w.bytes ∷ []) (held + length w.bytes)
        (told ++ writer w.id true ∷ []) ws in
    elim (Bool-cases (is_full cap held (length w.bytes))) [
      | inl full ↦ rw full (record {
        gone = [];
        parted = refl;
        appended = sym (append-nil chunks);
        notified = sym (append-nil told);
        counted = omega arith;
        stuck = full;
      })
      | inr fits ↦ rw fits (record {
        gone = w ∷ rest.gone;
        parted = ap (◌∷◌ w) rest.parted;
        appended = rest.appended ∙ append_assoc chunks _ _;
        notified = rest.notified ∙ append_assoc told _ _;
        counted = omega (arith, rest.counted, length-append w.bytes (concat (loads rest.gone)));
        stuck = rest.stuck;
      })
    ]

-- The line is released only as far as the cap allows.
pub release_loop_within :
    (cap : ℕ) (chunks : List Bytes) (held : ℕ) (told : List Effect) (line : List Parked)
    → (cap ≡ 0) ⊎ (held ≤ cap)
    → (cap ≡ 0) ⊎ ((release_loop cap chunks held told line).held ≤ cap)
unfolding release_loop
release_loop_within cap chunks held told [] h = h
release_loop_within cap chunks held told (w ∷ ws) h = ground (
  arith,
  release_loop_within cap (chunks ++ w.bytes ∷ []) (held + length w.bytes)
      (told ++ writer w.id true ∷ []) ws,
)
