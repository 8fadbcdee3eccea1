-- ===== src/Mutate/Hits.antt =====
-- The places that a text stands at, and the one that is chosen.
use wac_mono.Base.{
  ℕ, zero, suc, ◌+◌, ◌-◌, ◌≤◌, ◌<◌, ◌≡◌, refl, sym, ◌∙◌, ap, subst, arith, Bool, true, false,
  Option, none, some, List, [], ◌∷◌, ◌==◌, if◌then◌else◌, if_intro, get_elem?, take, drop, length,
  All, All-imp,
}
use wac_mono.Mutate.Texts.{Text, after_prefix, slice}
use wac_mono.Mutate.Literals.{has}
use wac_mono.Mutate.Locate.{Problem, starts_with, hits_from, nth_hit, hit, miss, choose_hit}

after_prefix-take : (t s rest : Text) → after_prefix t s ≡ some rest → take (length t) s ≡ t
after_prefix-take [] s rest e = refl
after_prefix-take (x ∷ xs) [] rest e = cc
after_prefix-take (x ∷ xs) (y ∷ ys) rest e = same (x == y) refl e (after_prefix-take xs ys rest)
  where
    same :
        (b : Bool)
        → (x == y) ≡ b
        → (if b then after_prefix xs ys else none) ≡ some rest
        → (after_prefix xs ys ≡ some rest → take (length xs) ys ≡ xs)
        → y ∷ take (length xs) ys ≡ x ∷ xs
    same true q e ih = let head : x ≡ y = ground arith in rw (head, ih e) refl
    same false q e ih = cc

starts_with-take : (s t : Text) → starts_with s t ≡ true → take (length t) s ≡ t
starts_with-take s t e = started (after_prefix t s) refl e
  where
    started :
        (o : Option Text)
        → after_prefix t s ≡ o
        → (elim o [ none ↦ false | some rest ↦ true ]) ≡ true
        → take (length t) s ≡ t
    started none q e = cc
    started (some rest) q e = after_prefix-take t s rest q

take-starts_with : (s t : Text) → take (length t) s ≡ t → starts_with s t ≡ true
take-starts_with s [] e = refl
take-starts_with [] (y ∷ ys) e = cc
take-starts_with (x ∷ xs) (y ∷ ys) e =
    let head : x ≡ y = ap (head_or x) e in
    let same : (y == x) ≡ true = ground arith in
    rw (starts_with, same) (take-starts_with xs ys (ap (drop 1) e))
  where
    head_or : ℕ → Text → ℕ
    head_or z [] = z
    head_or z (w ∷ ws) = w

abbrev pub HitAt : Text → ℕ → Text → ℕ → Type 0
HitAt find i s h = (i ≤ h) × (starts_with (drop (h - i) s) find ≡ true)

pub hits_from-HitAt : (find : Text) (i : ℕ) (s : Text) → All (HitAt find i s) (hits_from find i s)
unfolding hits_from
hits_from-HitAt find i [] = tt
hits_from-HitAt find i (c ∷ cs) =
    if_intro (All (HitAt find i (c ∷ cs))) (starts_with (c ∷ cs) find)
      (λ here. (at_once here, further (hits_from-HitAt find (i + 1) cs)))
      (λ later. further (hits_from-HitAt find (i + 1) cs))
  where
    at_once : starts_with (c ∷ cs) find ≡ true → HitAt find i (c ∷ cs) i
    at_once here = let e : i - i ≡ 0 = omega arith in (omega arith, rw e here)

    deeper : (h : ℕ) → HitAt find (i + 1) cs h → HitAt find i (c ∷ cs) h
    deeper h (le, stands) =
        let e : h - i ≡ suc (h - (i + 1)) = omega arith in (omega arith, rw e stands)

    further :
        All (HitAt find (i + 1) cs) (hits_from find (i + 1) cs)
        → All (HitAt find i (c ∷ cs)) (hits_from find (i + 1) cs)
    further = All-imp deeper (hits_from find (i + 1) cs)

-- A slice as long as the text, and what stands from there on.
slice-take :
    (find source : Text) (j : ℕ)
    → take (length find) (drop j source) ≡ slice source j (j + length find)
slice-take find source j = let e : j + length find - j ≡ length find = omega arith in rw e refl

pub hit-slice :
    (find source : Text) (h : ℕ) → HitAt find 0 source h → slice source h (h + length find) ≡ find
hit-slice find source h (le, stands) =
    let e : h - 0 ≡ h = omega arith in
    sym (slice-take find source h)
    ∙ starts_with-take (drop h source) find
        (subst (λ k. starts_with (drop k source) find ≡ true) e stands)

-- Every place that the text stands at is found.
hits_from_complete :
    (find : Text) (i j : ℕ) (s : Text)
    → j < length s
    → starts_with (drop j s) find ≡ true
    → has (hits_from find i s) (i + j) ≡ true
unfolding hits_from
hits_from_complete find i j [] within h = absurd (omega arith)
hits_from_complete find i zero (c ∷ cs) within h =
    let e : i + 0 ≡ i = omega arith in
    if_intro (λ hs. has hs (i + 0) ≡ true) (starts_with (c ∷ cs) find) (λ here. rw e (ground arith))
      (λ later. cc)
hits_from_complete find i (suc j) (c ∷ cs) within h =
    let e : i + suc j ≡ i + 1 + j = omega arith in
    let deeper = hits_from_complete find (i + 1) j cs (omega arith) h in
    if_intro (λ hs. has hs (i + suc j) ≡ true) (starts_with (c ∷ cs) find)
      (λ here. rw e (ground (arith, deeper))) (λ later. rw e deeper)

-- A hit that is chosen without a number is the only one.
chosen_alone : (hits : List ℕ) (at : ℕ) → choose_hit hits none ≡ hit at → hits ≡ at ∷ []
unfolding choose_hit
chosen_alone [] at e = cc
chosen_alone (h ∷ []) at e = ap (λ k. (elim k [ hit x ↦ x | miss q ↦ h ]) ∷ []) e
chosen_alone (h ∷ (i ∷ more)) at e = cc

nth_found :
    (o : Option ℕ) (q : Problem) (at : ℕ)
    → (elim o [ none ↦ miss q | some a ↦ hit a ]) ≡ hit at
    → o ≡ some at
nth_found none q at e = cc
nth_found (some a) q at e = ap (λ k. elim k [ hit x ↦ some x | miss q ↦ some a ]) e

from_nth :
    (hits : List ℕ) (nth : Option ℕ) (q : Problem) (at : ℕ)
    → (elim (nth_hit hits nth) [ none ↦ miss q | some a ↦ hit a ]) ≡ hit at
    → (k : ℕ) × (get_elem? hits k ≡ some at)
from_nth hits none q at e = (0, nth_found (get_elem? hits 0) q at e)
from_nth hits (some zero) q at e = cc
from_nth hits (some (suc n)) q at e = (n, nth_found (get_elem? hits n) q at e)

-- A hit that is chosen is one of the hits.
pub chosen_among :
    (hits : List ℕ) (nth : Option ℕ) (at : ℕ)
    → choose_hit hits nth ≡ hit at
    → (k : ℕ) × (get_elem? hits k ≡ some at)
unfolding choose_hit
chosen_among [] nth at e = cc
chosen_among (h ∷ []) nth at e = from_nth (h ∷ []) nth _ at e
chosen_among (h ∷ (i ∷ more)) none at e = cc
chosen_among (h ∷ (i ∷ more)) (some n) at e = from_nth (h ∷ i ∷ more) (some n) _ at e

-- Where an edit's text was not numbered, and its place was chosen: it stands at that place in the source, and at
-- no other.
pub choose_hit-only :
    (find source : Text) (at : ℕ)
    → choose_hit (hits_from find 0 source) none ≡ hit at
    → (slice source at (at + length find) ≡ find)
      × ((j : ℕ) → j < length source → slice source j (j + length find) ≡ find → j ≡ at)
choose_hit-only find source at e =
    let alone = chosen_alone (hits_from find 0 source) at e in
    let here : All (HitAt find 0 source) (at ∷ []) =
      subst (All (HitAt find 0 source)) alone (hits_from-HitAt find 0 source) in
    (
      hit-slice find source at here.0,
      λ j within stands.
          let listed =
            hits_from_complete find 0 j source within
              (take-starts_with (drop j source) find (slice-take find source j ∙ stands)) in
          let only : has (at ∷ []) (0 + j) ≡ true =
            subst (λ hs. has hs (0 + j) ≡ true) alone listed in
          ground arith,
    )
