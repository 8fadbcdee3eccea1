-- ===== src/Mutate/TextLaws.antt =====
-- Texts that are compared, cut and put together.
use wac_mono.Base.{
  ℕ, zero, suc, ◌+◌, ◌-◌, ◌≤◌, ◌<◌, ◌≡◌, ◌≢◌, refl, sym, ◌∙◌, ap, subst, arith, true, false, [],
  ◌∷◌, ◌++◌, take, append_assoc, drop, length, take-append-drop, length-take, length-drop,
}
use wac_mono.Mutate.Texts.{Text, same_text, slice}
use mathlib.Core.List.{append_cancel_left, append_cancel_right}

pub same_text-eq : (a b : Text) → same_text a b ≡ true → a ≡ b
same_text-eq [] [] h = refl
same_text-eq [] (y ∷ ys) h = cc
same_text-eq (x ∷ xs) [] h = cc
same_text-eq (x ∷ xs) (y ∷ ys) h =
    let head : x ≡ y = ground arith in
    let tail : xs ≡ ys = same_text-eq xs ys (ground arith) in rw (head, tail) refl

pub same_text_refl : (a : Text) → same_text a a ≡ true
same_text_refl [] = refl
same_text_refl (x ∷ xs) = ground (arith, same_text_refl xs)

pub same_text-ne : (a b : Text) → same_text a b ≡ false → a ≢ b
same_text-ne a b h e =
    let t : same_text a b ≡ true = subst (λ c. same_text a c ≡ true) e (same_text_refl a) in cc

drop_nil : (k : ℕ) → let nothing : Text = [] in drop k nothing ≡ nothing
drop_nil zero = refl
drop_nil (suc k) = refl

drop-drop : (i k : ℕ) (s : Text) → drop k (drop i s) ≡ drop (i + k) s
drop-drop zero k s = let e : 0 + k ≡ k = omega arith in rw e refl
drop-drop (suc i) k [] = drop_nil k ∙ sym (drop_nil (suc i + k))
drop-drop (suc i) k (x ∷ xs) =
    let e : suc i + k ≡ suc (i + k) = omega arith in rw e (drop-drop i k xs)

-- A source is what stands before a span, in it and behind it.
pub around_slice :
    (s : Text) (start end : ℕ) → start ≤ end → take start s ++ slice s start end ++ drop end s ≡ s
around_slice s start end h =
    let e : start + (end - start) ≡ end = omega arith in
    let rest : slice s start end ++ drop end s ≡ drop start s =
      subst (λ d. slice s start end ++ d ≡ drop start s)
        (drop-drop start (end - start) s ∙ ap (λ k. drop k s) e)
        (take-append-drop (end - start) (drop start s)) in
    append_assoc (take start s) _ _ ∙ ap (λ d. take start s ++ d) rest ∙ take-append-drop start s

-- Where a part of a text is replaced by another, the text is another.
pub replaced_ne :
    (s : Text) (start end : ℕ) (r : Text)
    → start ≤ end
    → r ≢ slice s start end
    → take start s ++ r ++ drop end s ≢ s
replaced_ne s start end r h n e =
    let same =
      append_cancel_left (take start s) (r ++ drop end s) (slice s start end ++ drop end s) (
        sym (append_assoc (take start s) r (drop end s))
        ∙ e
        ∙ sym (around_slice s start end h)
        ∙ append_assoc (take start s) _ _) in
    n (append_cancel_right r (slice s start end) (drop end s) same)

-- A part from a place in front of the end is not empty.
pub slice-nonempty :
    (s : Text) (start end : ℕ) → start < end → start < length s → slice s start end ≢ []
slice-nonempty s start end h within e =
    let n : length (slice s start end) ≡ 0 = ap length e in
    let m = length-take (end - start) (drop start s) in
    let k = length-drop start s in omega (arith, n, m, k)
