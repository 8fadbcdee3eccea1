-- ===== src/ByteQueue/Takes.antt =====
-- `take` of queue.ts as an operation on the bytes that are queued: it splits them at `limit`.
use wac_mono.Base.{
  ℕ, zero, suc, ◌+◌, ◌-◌, ◌≤◌, ◌<◌, ◌≡◌, ◌≢◌, refl, sym, ap, ◌∙◌, inl, inr, List, [], ◌∷◌, ◌++◌,
  none, some, arith, true, append_assoc, append-nil, length, take, drop, concat, ltb, leb, leb→le,
  Bool-cases, concat-snoc, take-append_ge, take-append_le, drop-append_ge, drop-append_le,
  length-append, length-drop, min, All,
}
use wac_mono.ByteQueue.Join.{join-concat}
use wac_mono.ByteQueue.{Bytes, QueueState, Taking, take_loop, take_chunks, take_bytes}

take_nil : (n : ℕ) → take {A = ℕ} n [] ≡ []
take_nil zero = refl
take_nil (suc n) = refl

drop_nil : (n : ℕ) → drop {A = ℕ} n [] ≡ []
drop_nil zero = refl
drop_nil (suc n) = refl

-- What the loop has done when it stops: `parts` has grown by the first bytes of `chunks`.
pub record Splits (limit : ℕ) (chunks parts : List Bytes) (got : ℕ) (t : Taking) : Type 0 where
  pub front : concat t.parts ≡ concat parts ++ take (limit - got) (concat chunks)
  pub back : concat t.chunks ≡ drop (limit - got) (concat chunks)
  pub count : t.got ≡ got + min (limit - got) (length (concat chunks))

Splits-full :
    (limit : ℕ) (chunks parts : List Bytes) (got : ℕ)
    → limit ≤ got
    → Splits limit chunks parts got (record { chunks = chunks; parts = parts; got = got })
Splits-full limit chunks parts got h =
    let e : limit - got ≡ 0 = omega arith in
    record { front = rw e (sym (append-nil _)); back = rw e; count = omega arith }

-- A chunk that fits goes over whole, and the rest is taken from the chunks behind it.
Splits-whole :
    (limit : ℕ) (c : Bytes) (cs parts : List Bytes) (got : ℕ) (t : Taking)
    → got + length c ≤ limit
    → Splits limit cs (parts ++ c ∷ []) (got + length c) t
    → Splits limit (c ∷ cs) parts got t
Splits-whole limit c cs parts got t h s =
    let k : ℕ = limit - (got + length c) in
    let e : limit - got ≡ length c + k = omega arith in
    record {
      front =
          rw (take-append_ge (limit - got) k c (concat cs) e, ← append_assoc, ← concat-snoc parts c)
            s.front;
      back = rw (drop-append_ge (limit - got) k c (concat cs) e) s.back;
      count = omega (arith, s.count, length-append c (concat cs));
    }

-- A chunk that does not fit is split.
Splits-cut :
    (limit : ℕ) (c : Bytes) (cs parts : List Bytes) (got : ℕ)
    → got ≤ limit
    → limit < got + length c
    → Splits limit (c ∷ cs) parts got (record {
      chunks = drop (limit - got) c ∷ cs;
      parts = parts ++ take (limit - got) c ∷ [];
      got = got + (limit - got);
    })
Splits-cut limit c cs parts got h l =
    let short : limit - got ≤ length c = omega arith in
    record {
      front = rw (take-append_le (limit - got) c (concat cs) short) (concat-snoc parts _);
      back = rw (drop-append_le (limit - got) c (concat cs) short);
      count = omega (arith, length-append c (concat cs));
    }

pub take_loop-Splits :
    (limit : ℕ) (chunks parts : List Bytes) (got : ℕ)
    → got ≤ limit
    → Splits limit chunks parts got (take_loop limit chunks parts got)
unfolding take_loop
take_loop-Splits limit [] parts got h = record {
  front = rw (take_nil (limit - got)) (sym (append-nil _));
  back = sym (drop_nil (limit - got));
  count = omega arith;
}
take_loop-Splits limit (c ∷ cs) parts got h =
    let rest : leb (got + length c) limit ≡ true
        → Splits limit cs (parts ++ c ∷ []) (got + length c)
            (take_loop limit cs (parts ++ c ∷ []) (got + length c)) =
      λ fits. take_loop-Splits limit cs (parts ++ c ∷ []) (got + length c) (leb→le _ _ fits) in
    elim (Bool-cases (ltb got limit)) [
      | inl more ↦ elim (Bool-cases (leb (got + length c) limit)) [
        | inl fits ↦
            rw (more, fits) (Splits-whole limit c cs parts got _ (leb→le _ _ fits) (rest fits))
        | inr cut ↦ rw (more, cut) (Splits-cut limit c cs parts got h (ground arith))
      ]
      | inr full ↦ rw full (Splits-full limit (c ∷ cs) parts got (ground arith))
    ]

-- Where something is queued, `take` answers the first `limit` of the queued bytes, keeps exactly
-- the others, however they were cut into chunks, and lowers `held` by as many as it took.
pub take_bytes_lem :
    (s : QueueState) (limit : ℕ)
    → s.chunks ≢ []
    → let t = take_bytes s limit in
      (t.taken ≡ some (take limit (concat s.chunks)))
      × (concat t.state.chunks ≡ drop limit (concat s.chunks))
      × (t.state.held ≡ s.held - min limit (length (concat s.chunks)))
unfolding take_bytes take_chunks
take_bytes_lem s limit h = go s.chunks h
  where
    go :
        (cs : List Bytes)
        → cs ≢ []
        → let t = take_chunks s limit cs in
          (t.taken ≡ some (take limit (concat cs)))
          × (concat t.state.chunks ≡ drop limit (concat cs))
          × (t.state.held ≡ s.held - min limit (length (concat cs)))
    go [] n = absurd (n refl)
    go (c ∷ cs) n =
        let p = take_loop-Splits limit (c ∷ cs) [] 0 (omega arith) in
        let e : limit - 0 ≡ limit = omega arith in
        let got : (take_loop limit (c ∷ cs) [] 0).got ≡ min limit (length (concat (c ∷ cs))) =
          omega (arith, p.count) in
        (
          ap some (join-concat _ ∙ (rw e at p.front)),
          rw e at p.back,
          ap (λ (g : ℕ). s.held - g) got,
        )

-- The loop leaves no empty chunk where there was none.
pub take_loop_filled :
    (limit : ℕ) (chunks parts : List Bytes) (got : ℕ)
    → All (λ c. 0 < length c) chunks
    → All (λ c. 0 < length c) (take_loop limit chunks parts got).chunks
unfolding take_loop
take_loop_filled limit [] parts got h = tt
take_loop_filled limit (c ∷ cs) parts got h = ground (
  arith,
  take_loop_filled limit cs (parts ++ c ∷ []) (got + length c) h.1,
  length-drop (limit - got) c,
)

pub take_bytes_filled :
    (s : QueueState) (limit : ℕ)
    → All (λ c. 0 < length c) s.chunks
    → All (λ c. 0 < length c) (take_bytes s limit).state.chunks
unfolding take_bytes take_chunks
take_bytes_filled s limit h = go s.chunks h h
  where
    go :
        (cs : List Bytes)
        → All (λ c. 0 < length c) cs
        → All (λ c. 0 < length c) s.chunks
        → All (λ c. 0 < length c) (take_chunks s limit cs).state.chunks
    go [] f g = g
    go (c ∷ cs) f g = take_loop_filled limit (c ∷ cs) [] 0 f

-- Taking changes the chunks and the count of what is held, and nothing else.
pub take_bytes_rest :
    (s : QueueState) (limit : ℕ)
    → let t = (take_bytes s limit).state in
      (t.cap ≡ s.cap) × (t.ended ≡ s.ended) × (t.reader ≡ s.reader) × (t.writers ≡ s.writers)
unfolding take_bytes take_chunks
take_bytes_rest s limit = go s.chunks
  where
    go :
        (cs : List Bytes)
        → let t = (take_chunks s limit cs).state in
          (t.cap ≡ s.cap) × (t.ended ≡ s.ended) × (t.reader ≡ s.reader) × (t.writers ≡ s.writers)
    go [] = (refl, refl, refl, refl)
    go (c ∷ cs) = (refl, refl, refl, refl)

-- There is nothing to take only where nothing is queued.
pub take_bytes-none :
    (s : QueueState) (limit : ℕ)
    → s.chunks ≡ []
    → ((take_bytes s limit).taken ≡ none) × ((take_bytes s limit).state ≡ s)
unfolding take_bytes take_chunks
take_bytes-none s limit e = rw e (refl, refl)
