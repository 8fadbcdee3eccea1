-- ===== src/Mutate/Rounds.antt =====
-- Picks by rounds over groups, and the columns of the groups.
use wac_mono.Base.{
  ℕ, zero, suc, ◌+◌, ◌-◌, ◌≤◌, ◌<◌, ◌≡◌, ◌⊎◌, inl, inr, refl, sym, ap, arith, min, Option, none,
  some, List, [], ◌∷◌, ◌++◌, get_elem?, take, length, length-append, length-take,
}
use wac_mono.Mutate.Sample.{one_round, pick_rounds}

le_or_lt : (a b : ℕ) → (a ≤ b) ⊎ (b < a)
le_or_lt a b = ground arith

module _ {ℓ} {A : Type ℓ} where
  -- What the groups have at one place, from the first group to the last.
  abbrev pub column : List (List A) → ℕ → List A
  column [] round = []
  column (g ∷ groups) round = elim (get_elem? g round) [
    | none ↦ column groups round
    | some m ↦ m ∷ column groups round
  ]

  -- One such list behind another.
  abbrev pub columns : List (List A) → ℕ → ℕ → List A
  columns groups round zero = []
  columns groups round (suc more) = column groups round ++ columns groups (round + 1) more

  -- How many elements the groups have from a place on.
  abbrev pub remaining : List (List A) → ℕ → ℕ
  remaining [] round = 0
  remaining (g ∷ groups) round = length g - round + remaining groups round

  one_round-take :
      (groups : List (List A)) (round left : ℕ)
      → one_round groups round left ≡ take left (column groups round)
  unfolding one_round
  one_round-take [] round zero = refl
  one_round-take [] round (suc left) = refl
  one_round-take (g ∷ groups) round zero = refl
  one_round-take (g ∷ groups) round (suc left) =
      elim (get_elem? g round)
        as (λ o.
          (elim o [
            | none ↦ one_round groups round (suc left)
            | some m ↦ m ∷ one_round groups round left
          ])
          ≡ take (suc left)
              (elim o [ none ↦ column groups round | some m ↦ m ∷ column groups round ])) [
                | none ↦ one_round-take groups round (suc left)
                | some m ↦ ap (◌∷◌ m) (one_round-take groups round left)
              ]

  get_elem?-length :
      (g : List A) (i : ℕ)
      → (elim (get_elem? g i) [ none ↦ 0 | some m ↦ 1 ]) + (length g - (i + 1)) ≡ length g - i
  get_elem?-length [] i = omega arith
  get_elem?-length (x ∷ xs) zero = omega arith
  get_elem?-length (x ∷ xs) (suc i) = let h = get_elem?-length xs i in omega (arith, h)

  length_with :
      (o : Option A) (xs : List A)
      → length (elim o [ none ↦ xs | some m ↦ m ∷ xs ])
        ≡ (elim o [ none ↦ 0 | some m ↦ 1 ]) + length xs
  length_with none xs = omega arith
  length_with (some m) xs = omega arith

  length-column :
      (groups : List (List A)) (round : ℕ)
      → length (column groups round) + remaining groups (round + 1) ≡ remaining groups round
  length-column [] round = refl
  length-column (g ∷ groups) round = omega (
    arith,
    length_with (get_elem? g round) (column groups round),
    get_elem?-length g round,
    length-column groups round,
  )

  no_element :
      (xs : List A) (i : ℕ)
      → ◌≡◌ {A = ℕ} (elim (get_elem? xs i) [ none ↦ 0 | some m ↦ 1 ]) 0
      → length xs ≤ i
  no_element [] i h = omega arith
  no_element (x ∷ xs) zero h = absurd (omega (arith, h))
  no_element (x ∷ xs) (suc i) h = let le = no_element xs i h in omega (arith, le)

  no_column :
      (groups : List (List A)) (round : ℕ)
      → length (column groups round) ≡ 0
      → remaining groups round ≡ 0
  no_column [] round e = refl
  no_column (g ∷ groups) round e =
      let l = length_with (get_elem? g round) (column groups round) in
      let short = no_element g round (omega (arith, l, e)) in
      let rest = no_column groups round (omega (arith, l, e)) in omega (arith, short, rest)

  empty : (xs : List A) → length xs ≡ 0 → xs ≡ []
  empty [] e = refl
  empty (x ∷ xs) e = absurd (omega (arith, e))

  no_columns :
      (groups : List (List A)) (round more : ℕ)
      → remaining groups round ≡ 0
      → columns groups round more ≡ []
  no_columns groups round zero h = refl
  no_columns groups round (suc more) h =
      let e = length-column groups round in
      let none_here : column groups round ≡ [] =
        empty (column groups round) (omega (arith, h, e)) in
      rw none_here (no_columns groups (round + 1) more (omega (arith, h, e)))

  take-append : (n : ℕ) (xs ys : List A) → take n (xs ++ ys) ≡ take n xs ++ take (n - length xs) ys
  take-append zero [] ys = refl
  take-append (suc n) [] ys = let e : suc n - 0 ≡ suc n = omega arith in rw e
  take-append zero (x ∷ xs) ys = let e : 0 - suc (length xs) ≡ 0 = omega arith in rw e
  take-append (suc n) (x ∷ xs) ys =
      let e : suc n - suc (length xs) ≡ n - length xs = omega arith in
      rw e (ap (◌∷◌ x) (take-append n xs ys))

  pick_step :
      (groups : List (List A)) (fuel round left : ℕ) (ps : List A)
      → take (suc left) (column groups round) ≡ ps
      → ((l : ℕ)
          → l < fuel
          → pick_rounds groups fuel (round + 1) l ≡ take l (columns groups (round + 1) fuel))
      → left < fuel
      → (elim ps [
        | [] ↦ []
        | m ∷ more ↦ (m ∷ more) ++ pick_rounds groups fuel (round + 1) (left - length more)
      ])
        ≡ take (suc left) (columns groups round (suc fuel))
  pick_step groups fuel round left [] e ih h =
      let n = length-take (suc left) (column groups round) in
      let none_left = no_column groups round (omega (arith, n, ap length e)) in
      rw (no_columns groups round (suc fuel) none_left) refl
  pick_step groups fuel round left (m ∷ more) e ih h =
      let n = length-take (suc left) (column groups round) in
      let k : suc left - length (column groups round) ≡ left - length more =
        omega (arith, n, ap length e) in
      rw (take-append (suc left) (column groups round) (columns groups (round + 1) fuel))
        (rw e (rw k (ap (λ xs. (m ∷ more) ++ xs) (ih (left - length more) (omega arith)))))

  pub pick_rounds-take :
      (groups : List (List A)) (fuel round left : ℕ)
      → left < fuel
      → pick_rounds groups fuel round left ≡ take left (columns groups round fuel)
  unfolding pick_rounds
  pick_rounds-take groups zero round left h = absurd (omega arith)
  pick_rounds-take groups (suc fuel) round zero h = refl
  pick_rounds-take groups (suc fuel) round (suc left) h =
      pick_step groups fuel round left (one_round groups round (suc left))
        (sym (one_round-take groups round (suc left)))
        (λ l. pick_rounds-take groups fuel (round + 1) l) (omega arith)

  -- A round takes an element or more while some remain.
  pub length-columns :
      (groups : List (List A)) (round more : ℕ)
      → min more (remaining groups round) ≤ length (columns groups round more)
  length-columns groups round zero = omega arith
  length-columns groups round (suc more) =
      let both = length-append (column groups round) (columns groups (round + 1) more) in
      let ih = length-columns groups (round + 1) more in
      let split = length-column groups round in
      elim (le_or_lt (length (column groups round)) 0) [
        | inl none_here ↦
            let done = no_column groups round (omega arith) in omega (arith, done, both)
        | inr some_here ↦ omega (arith, both, ih, split)
      ]
