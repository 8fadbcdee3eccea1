-- ===== src/StreamRing/Fifo.antt =====
-- The rings hold a queue of bytes: what is written behind is read behind, across the wrap.
use wac_mono.Base.{
  ℕ, zero, suc, ◌+◌, ◌-◌, ◌%◌, ◌≤◌, ◌<◌, ◌≡◌, ◌≢◌, ◌⊎◌, inl, inr, refl, sym, ◌∙◌, ap, arith, min,
  false, some, List, [], ◌∷◌, ◌++◌, ltb, ◌==◌, length, take, drop, replicate, append-nil,
  append_assoc, Bool-cases, length-take, length-drop, take-append-drop, drop_all,
}
use wac_mono.StreamRing.{cap, Ring, put, fill, set, wrap_write, ring_write, slice, ring_read}

-- The reference: byte after byte, each at its own position.
abbrev pub write_each : Ring → ℕ → List ℕ → Ring
write_each ring p [] = ring
write_each ring p (b ∷ bs) = write_each (put ring (p % cap) b) (p + 1) bs

-- The bytes of the `n` positions from `p` on.
abbrev pub window : Ring → ℕ → ℕ → List ℕ
window ring p zero = []
window ring p (suc n) = ring (p % cap) ∷ window ring (p + 1) n

mod-suc : (p at : ℕ) → p % cap ≡ at → at + 1 < cap → (p + 1) % cap ≡ at + 1
mod-suc p at e h = omega arith

fill-write_each :
    (ring : Ring) (src : List ℕ) (p at : ℕ)
    → p % cap ≡ at
    → at + length src ≤ cap
    → fill ring src at ≡ write_each ring p src
unfolding fill
fill-write_each ring [] p at e h = refl
fill-write_each ring (b ∷ []) p at e h = ap (λ (i : ℕ). put ring i b) (sym e)
fill-write_each ring (b ∷ c ∷ bs) p at e h = rw e (
    fill-write_each (put ring at b) (c ∷ bs) (p + 1) (at + 1) (mod-suc p at e (omega arith))
      (omega arith))

shift0 : (p : ℕ) → p ≡ p + 0
shift0 p = omega arith

shift1 : (p n : ℕ) → p + 1 + n ≡ p + suc n
shift1 p n = omega arith

write_each-append :
    (ring : Ring) (p : ℕ) (xs ys : List ℕ)
    → write_each ring p (xs ++ ys) ≡ write_each (write_each ring p xs) (p + length xs) ys
write_each-append ring p [] ys = ap (λ (q : ℕ). write_each ring q ys) (shift0 p)
write_each-append ring p (x ∷ xs) ys =
    write_each-append (put ring (p % cap) x) (p + 1) xs ys
    ∙ ap (λ (q : ℕ). write_each (write_each (put ring (p % cap) x) (p + 1) xs) q ys)
        (shift1 p (length xs))

slice-window :
    (ring : Ring) (p at n : ℕ) → p % cap ≡ at → at + n ≤ cap → slice ring at n ≡ window ring p n
unfolding slice
slice-window ring p at zero e h = refl
slice-window ring p at (suc zero) e h = rw e
slice-window ring p at (suc (suc n)) e h = rw e (
    ap (◌∷◌ (ring at))
      (slice-window ring (p + 1) (at + 1) (suc n) (mod-suc p at e (omega arith)) (omega arith)))

window-append :
    (ring : Ring) (p a b : ℕ) → window ring p (a + b) ≡ window ring p a ++ window ring (p + a) b
window-append ring p zero b = let e : 0 + b ≡ b = omega arith in rw (e, ← shift0 p) refl
window-append ring p (suc a) b =
    let e : suc a + b ≡ suc (a + b) = omega arith in
    rw (e, ← shift1 p a) (ap (◌∷◌ (ring (p % cap))) (window-append ring (p + 1) a b))

apart : (p n k : ℕ) → suc n + k < cap → (p + suc n + k) % cap ≢ p % cap
apart p n k h e = omega arith

-- A byte that is put at a later position of the same lap changes none of these.
window-put :
    (ring : Ring) (p n k q b : ℕ)
    → p + n + k ≡ q
    → n + k < cap
    → window (put ring (q % cap) b) p n ≡ window ring p n
window-put ring p zero k q b e h = refl
window-put ring p (suc n) k q b e h =
    let other : (q % cap == p % cap) ≡ false = ground (arith, apart p n k h) in
    rw other
      (ap (◌∷◌ (ring (p % cap))) (window-put ring (p + 1) n k q b (omega arith) (omega arith)))

put_self : (ring : Ring) (i b : ℕ) → put ring i b i ≡ b
put_self ring i b = ground arith

-- One byte more at the end.
window-snoc :
    (ring : Ring) (p n q b : ℕ)
    → p + n ≡ q
    → n < cap
    → window (put ring (q % cap) b) p (n + 1) ≡ window ring p n ++ b ∷ []
window-snoc ring p n q b e h =
    let r = put ring (q % cap) b in
    window-append r p n 1
    ∙ ap (λ (xs : List ℕ). xs ++ window r (p + n) 1)
        (window-put ring p n 0 q b (omega arith) (omega arith))
    ∙ ap (λ (c : ℕ). window ring p n ++ c ∷ [])
        (ap (λ (m : ℕ). r (m % cap)) e ∙ put_self ring (q % cap) b)

pub window-write_each :
    (ring : Ring) (p n q m : ℕ) (src : List ℕ)
    → p + n ≡ q
    → n + length src ≡ m
    → m ≤ cap
    → window (write_each ring q src) p m ≡ window ring p n ++ src
window-write_each ring p n q m [] e f h =
    let same : m ≡ n = omega arith in rw (same, append-nil (window ring p n)) refl
window-write_each ring p n q m (b ∷ bs) e f h =
    window-write_each (put ring (q % cap) b) p (n + 1) (q + 1) m bs (omega arith) (omega arith) h
    ∙ ap (λ (xs : List ℕ). xs ++ bs) (window-snoc ring p n q b e (omega arith))
    ∙ append_assoc (window ring p n) (b ∷ []) bs

set-write_each :
    (ring : Ring) (src : List ℕ) (p at : ℕ)
    → p % cap ≡ at
    → at + length src ≤ cap
    → set ring src at ≡ some (write_each ring p src)
unfolding set
set-write_each ring src p at e h =
    let fits : ltb cap (at + length src) ≡ false = ground arith in
    rw (fits, fill-write_each ring src p at e h)

wrap_write-write_each :
    (ring : Ring) (rest : List ℕ) (p : ℕ)
    → (rest ≡ []) ⊎ (p % cap ≡ 0)
    → length rest ≤ cap
    → wrap_write rest (some ring) ≡ some (write_each ring p rest)
unfolding wrap_write
wrap_write-write_each ring [] p at h = refl
wrap_write-write_each ring (b ∷ bs) p (inl e) h = cc
wrap_write-write_each ring (b ∷ bs) p (inr e) h = set-write_each ring (b ∷ bs) p 0 e (omega arith)

-- A write of at most `cap` bytes at any position does not throw, and is the same as writing its bytes one after
-- another, each at its own position.
pub ring_write-write_each :
    (ring : Ring) (head : ℕ) (src : List ℕ)
    → length src ≤ cap
    → ring_write ring head src ≡ some (write_each ring head src)
unfolding ring_write
ring_write-write_each ring head src h =
    let start = head % cap in
    let first = min (length src) (cap - start) in
    rw (set-write_each ring (take first src) head start refl (omega (arith, length-take first src)))
      (wrap_write-write_each _ (drop first src) (head + length (take first src))
          (lands start first refl refl) (omega (arith, length-drop first src))
        ∙ ap some (
            sym (write_each-append ring head (take first src) (drop first src))
            ∙ ap (write_each ring head) (take-append-drop first src)))
  where
    lands :
        (start first : ℕ)
        → head % cap ≡ start
        → first ≡ min (length src) (cap - start)
        → (drop first src ≡ []) ⊎ ((head + length (take first src)) % cap ≡ 0)
    lands start first e f = elim (Bool-cases (ltb first (length src))) [
      | inl more ↦ inr (ground (arith, length-take first src))
      | inr all ↦ inl (drop_all first src (ground arith))
    ]

pub ring_read-window :
    (ring : Ring) (tail n : ℕ) → n ≤ cap → ring_read ring tail n ≡ window ring tail n
unfolding ring_read
ring_read-window ring tail n h = go (tail % cap) (min n (cap - tail % cap)) refl refl
  where
    second :
        (start first : ℕ)
        → tail % cap ≡ start
        → first ≡ min n (cap - start)
        → slice ring 0 (n - first) ≡ window ring (tail + first) (n - first)
    second start first e f = elim (Bool-cases (ltb first n)) [
      | inl more ↦ slice-window ring (tail + first) 0 (n - first) (ground arith) (omega arith)
      | inr all ↦
          let none_left : n - first ≡ 0 = ground arith in rw none_left (unfold slice in refl)
    ]

    go :
        (start first : ℕ)
        → tail % cap ≡ start
        → first ≡ min n (cap - start)
        → slice ring start first
            ++ (slice ring 0 (min (n - first) cap) ++ replicate (n - first - cap) 0)
          ≡ window ring tail n
    go start first e f =
        let all_fits : min (n - first) cap ≡ n - first = omega arith in
        let no_rest : n - first - cap ≡ 0 = omega arith in
        let whole : first + (n - first) ≡ n = omega arith in
        rw
          (
            all_fits,
            no_rest,
            append-nil (slice ring 0 (n - first)),
            slice-window ring tail start first e (omega arith),
            second start first e f,
          )
          (sym (window-append ring tail first (n - first)) ∙ ap (window ring tail) whole)

-- Where `held` bytes stand in the ring from `tail` on, a write behind them that still fits does not throw, and a
-- read from `tail` on then gives what it gave before followed by the bytes written: nothing is overwritten or
-- reordered, wherever the ring wraps.
pub ring_read-ring_write :
    (ring : Ring) (tail held : ℕ) (src : List ℕ)
    → held + length src ≤ cap
    → (after : Ring) × (ring_write ring (tail + held) src ≡ some after)
      × (ring_read after tail (held + length src) ≡ ring_read ring tail held ++ src)
ring_read-ring_write ring tail held src h = (
  write_each ring (tail + held) src,
  ring_write-write_each ring (tail + held) src (omega arith),
  ring_read-window _ tail (held + length src) h
      ∙ window-write_each ring tail held (tail + held) (held + length src) src refl refl h
      ∙ ap (λ (xs : List ℕ). xs ++ src) (sym (ring_read-window ring tail held (omega arith))),
)
