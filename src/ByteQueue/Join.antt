-- ===== src/ByteQueue/Join.antt =====
-- `join` of queue.ts, which copies into one buffer, against plain concatenation.
use wac_mono.Base.{
  ℕ, ◌+◌, ◌≡◌, refl, sym, ◌∙◌, List, [], ◌∷◌, ◌++◌, arith, append-nil, append_assoc, length, drop,
  concat, length-append, length-drop, length-replicate, take-append_ge, drop-append_ge,
}
use wac_mono.ByteQueue.{Bytes, total_length, copy_parts, join}

total_length-concat : (n : ℕ) (ps : List Bytes) → total_length n ps ≡ n + length (concat ps)
total_length-concat n [] = omega arith
total_length-concat n (p ∷ ps) =
    omega (arith, total_length-concat (n + length p) ps, length-append p (concat ps))

-- Copying the parts behind `done` overwrites exactly the rest of the buffer.
copy_parts-concat :
    (done blank : Bytes) (at : ℕ) (ps : List Bytes)
    → at ≡ length done
    → length blank ≡ length (concat ps)
    → copy_parts (done ++ blank) at ps ≡ done ++ concat ps
copy_parts-concat done [] at [] e h = refl
copy_parts-concat done (b ∷ blank) at [] e h = absurd (omega arith)
copy_parts-concat done blank at (p ∷ ps) e h =
    let step : copy_parts ((done ++ p) ++ drop (length p) blank) (at + length p) ps
        ≡ (done ++ p) ++ concat ps =
      copy_parts-concat (done ++ p) (drop (length p) blank) (at + length p) ps
        (omega (arith, length-append done p))
        (omega (arith, length-drop (length p) blank, length-append p (concat ps))) in
    rw
      (
        take-append_ge at 0 done blank (omega arith),
        append-nil done,
        drop-append_ge (at + length p) (length p) done blank (omega arith),
        ← append_assoc,
      )
      (step ∙ append_assoc done p (concat ps))

-- The buffer that `join` answers, copied part by part, is the concatenation of the parts.
pub join-concat : (ps : List Bytes) → join ps ≡ concat ps
unfolding join
join-concat [] = refl
join-concat (p ∷ []) = sym (append-nil p)
join-concat (p ∷ q ∷ ps) =
    copy_parts-concat [] _ 0 (p ∷ q ∷ ps) refl
      (length-replicate _ 0 ∙ total_length-concat 0 (p ∷ q ∷ ps) ∙ omega arith)
