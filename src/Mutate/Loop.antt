-- ===== src/Mutate/Loop.antt =====
-- The functions that are found stand one behind another, and the loop that finds them comes to an end.
use wac_mono.Base.{
  ℕ, zero, suc, ◌+◌, ◌≤◌, ◌<◌, ◌≡◌, refl, ap, arith, Option, none, some, List, [], ◌∷◌, ◌++◌,
  if_intro, get_elem?, length, ℤ, pos,
}
use wac_mono.Mutate.Functions.{
  Token, Function, is_kind, function_at, increment, decrement, is_zero, Turn, look, functions_from,
  functions,
}
use wac_mono.Mutate.Spans.{IsSpan, IsSpan-lt, function_at-IsSpan}

-- The spans of `fs` stand one behind another, from position `i` on.
unfoldable pub AreSpans : List Token → ℕ → List Function → Type 0
AreSpans tokens i [] = Unit {0}
AreSpans tokens i (f ∷ fs) = (i ≤ f.opening) × IsSpan tokens f × AreSpans tokens (f.closing + 1) fs

AreSpans-le :
    (tokens : List Token) (i j : ℕ) (fs : List Function)
    → i ≤ j
    → AreSpans tokens j fs
    → AreSpans tokens i fs
unfolding AreSpans
AreSpans-le tokens i j [] le h = tt
AreSpans-le tokens i j (f ∷ fs) le h = (omega (arith, h.0), h.1, h.2)

-- What a turn of the loop finds, and that it moves on.
IsTurn : List Token → ℕ → Turn → Type 0
IsTurn tokens i turn =
    (i < turn.next)
    × ((fs : List Function) → AreSpans tokens turn.next fs → AreSpans tokens i (turn.found ++ fs))

look-IsTurn :
    (tokens : List Token) (i : ℕ) (depth : ℤ) (t : Token) → IsTurn tokens i (look tokens i depth t)
unfolding look IsTurn AreSpans
look-IsTurn tokens i depth t =
    if_intro (IsTurn tokens i) (is_kind "{" t) (λ e. moved (increment depth))
      (λ e.
        if_intro (IsTurn tokens i) (is_kind "}" t) (λ e. moved (decrement depth))
          (λ e.
            if_intro (IsTurn tokens i) (is_zero depth) (λ e. found (function_at tokens i) refl)
              (λ e. moved depth)))
  where
    moved : (d : ℤ) → IsTurn tokens i (record { found = []; next = i + 1; depth = d })
    moved d = (omega arith, λ fs. AreSpans-le tokens i (i + 1) fs (omega arith))

    found :
        (o : Option Function)
        → function_at tokens i ≡ o
        → IsTurn tokens i (elim o [
          | none ↦ record { found = []; next = i + 1; depth = depth }
          | some f ↦ record { found = f ∷ []; next = f.closing + 1; depth = depth }
        ])
    found none e = (omega arith, λ fs. AreSpans-le tokens i (i + 1) fs (omega arith))
    found (some f) e =
        let span = function_at-IsSpan tokens i f e in
        let ordered = IsSpan-lt tokens f span.1 in
        (omega (arith, span.0, ordered), λ fs rest. (omega (arith, span.0), span.1, rest))

functions_from-AreSpans :
    (tokens : List Token) (fuel i : ℕ) (depth : ℤ)
    → AreSpans tokens i (functions_from tokens fuel i depth)
unfolding functions_from AreSpans
functions_from-AreSpans tokens zero i depth = tt
functions_from-AreSpans tokens (suc fuel) i depth = turned (get_elem? tokens i) (λ t.
    functions_from-AreSpans tokens fuel (look tokens i depth t).next (look tokens i depth t).depth)
  where
    turned :
        (o : Option Token)
        → ((t : Token)
            → AreSpans tokens (look tokens i depth t).next (
                functions_from tokens fuel
                  (look tokens i depth t).next
                  (look tokens i depth t).depth))
        → AreSpans tokens i (elim o [
          | none ↦ []
          | some t ↦
              (look tokens i depth t).found
              ++ functions_from tokens fuel
                  (look tokens i depth t).next
                  (look tokens i depth t).depth
        ])
    turned none ih = tt
    turned (some t) ih = unfold IsTurn in (look-IsTurn tokens i depth t).1 _ (ih t)

pub functions-AreSpans : (tokens : List Token) → AreSpans tokens 0 (functions tokens)
unfolding functions
functions-AreSpans tokens = functions_from-AreSpans tokens (length tokens) 0 (pos 0)

none_behind {ℓ} : {A : Type ℓ} (xs : List A) (i : ℕ) → length xs ≤ i → get_elem? xs i ≡ none
none_behind [] i h = refl
none_behind (x ∷ xs) zero h = absurd (omega arith)
none_behind (x ∷ xs) (suc i) h = none_behind xs i (omega arith)

past_end :
    (tokens : List Token) (fuel i : ℕ) (depth : ℤ)
    → length tokens ≤ i
    → functions_from tokens fuel i depth ≡ []
unfolding functions_from
past_end tokens zero i depth h = refl
past_end tokens (suc fuel) i depth h = rw (functions_from, none_behind tokens i h) refl

-- Once there are as many turns as tokens are left, any more turns give the same functions: the loop has come to
-- its end.
pub functions_from-enough :
    (tokens : List Token) (fuel more i : ℕ) (depth : ℤ)
    → length tokens ≤ i + fuel
    → functions_from tokens (fuel + more) i depth ≡ functions_from tokens fuel i depth
unfolding functions_from
functions_from-enough tokens zero more i depth h =
    past_end tokens (zero + more) i depth (omega arith)
functions_from-enough tokens (suc fuel) more i depth h =
    let e : suc fuel + more ≡ suc (fuel + more) = omega arith in
    rw e (
      turned (get_elem? tokens i) (λ t.
        functions_from-enough tokens fuel more (look tokens i depth t).next
          (look tokens i depth t).depth))
  where
    turned :
        (o : Option Token)
        → ((t : Token)
            → length tokens ≤ (look tokens i depth t).next + fuel
            → functions_from tokens
                (fuel + more)
                (look tokens i depth t).next
                (look tokens i depth t).depth
              ≡ functions_from tokens fuel
                  (look tokens i depth t).next
                  (look tokens i depth t).depth)
        → ◌≡◌ {A = List Function}
            (elim o [
              | none ↦ []
              | some t ↦
                  (look tokens i depth t).found
                  ++ functions_from tokens
                      (fuel + more)
                      (look tokens i depth t).next
                      (look tokens i depth t).depth
            ])
            (elim o [
              | none ↦ []
              | some t ↦
                  (look tokens i depth t).found
                  ++ functions_from tokens fuel
                      (look tokens i depth t).next
                      (look tokens i depth t).depth
            ])
    turned none ih = refl
    turned (some t) ih =
        let on : i < (look tokens i depth t).next =
          unfold IsTurn in (look-IsTurn tokens i depth t).0 in
        ap (λ fs. (look tokens i depth t).found ++ fs) (ih t (omega arith))
