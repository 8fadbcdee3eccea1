-- ===== src/Mutate/Shuffled.antt =====
-- A shuffle keeps what it shuffles.
use wac_mono.Base.{
  ℕ, zero, suc, ◌≡◌, refl, Option, none, some, List, [], ◌∷◌, get_elem?, some_inj, length, ap, ◌∙◌,
}
use mathlib.Core.List.{Perm}
use mathlib.Core.List.Perm
use wac_mono.Mutate.Sample.{mulberry32, set_nth, swap, shuffle}

module _ {ℓ} {A : Type ℓ} where
  -- What is set at a place stands for what stood there.
  set_nth-perm :
      (g : List A) (i : ℕ) (x y : A) → get_elem? g i ≡ some x → Perm (y ∷ g) (x ∷ set_nth g i y)
  set_nth-perm [] i x y e = cc
  set_nth-perm (z ∷ zs) zero x y e = rw (some_inj z x e) (Perm.swap x y zs)
  set_nth-perm (z ∷ zs) (suc i) x y e =
      Perm.trans (Perm.swap z y zs)
        (Perm.trans (Perm.cons z (set_nth-perm zs i x y e)) (Perm.swap x z (set_nth zs i y)))

  get_elem?-set_nth :
      (g : List A) (i j : ℕ) (x y : A)
      → get_elem? g i ≡ some x
      → get_elem? g j ≡ some y
      → get_elem? (set_nth g i y) j ≡ some y
  get_elem?-set_nth [] i j x y ei ej = cc
  get_elem?-set_nth (z ∷ zs) zero zero x y ei ej = refl
  get_elem?-set_nth (z ∷ zs) zero (suc j) x y ei ej = ej
  get_elem?-set_nth (z ∷ zs) (suc i) zero x y ei ej = ej
  get_elem?-set_nth (z ∷ zs) (suc i) (suc j) x y ei ej = get_elem?-set_nth zs i j x y ei ej

  swap-perm : (g : List A) (i j : ℕ) → Perm (swap g i j) g
  unfolding swap
  swap-perm g i j = swapped (get_elem? g i) refl (get_elem? g j) refl
    where
      swapped :
          (x : Option A)
          → get_elem? g i ≡ x
          → (y : Option A) → get_elem? g j ≡ y
          → Perm
              (elim x [
                | none ↦ g
                | some x ↦ (elim y [ none ↦ g | some y ↦ set_nth (set_nth g i y) j x ])
              ])
              g
      swapped none ei y ej = Perm.refl g
      swapped (some x) ei none ej = Perm.refl g
      swapped (some x) ei (some y) ej = Perm.symm (
          Perm.cons_inv (
            Perm.trans (set_nth-perm g i x y ei)
              (set_nth-perm (set_nth g i y) j y x (get_elem?-set_nth g i j x y ei ej))))

  pub shuffle-perm : (g : List A) (i state : ℕ) → Perm (shuffle g i state).0 g
  unfolding shuffle
  shuffle-perm g zero state = Perm.refl g
  shuffle-perm g (suc i) state =
      Perm.trans (shuffle-perm (swap g (suc i) _) i (mulberry32 state).1) (swap-perm g (suc i) _)

  length-set_nth : (xs : List A) (i : ℕ) (a : A) → length (set_nth xs i a) ≡ length xs
  length-set_nth [] i a = refl
  length-set_nth (x ∷ xs) zero a = refl
  length-set_nth (x ∷ xs) (suc i) a = ap suc (length-set_nth xs i a)

  length-swap : (g : List A) (i j : ℕ) → length (swap g i j) ≡ length g
  unfolding swap
  length-swap g i j = swapped (get_elem? g i) (get_elem? g j)
    where
      swapped :
          (x y : Option A)
          → length (elim x [
            | none ↦ g
            | some x ↦ (elim y [ none ↦ g | some y ↦ set_nth (set_nth g i y) j x ])
          ])
            ≡ length g
      swapped none y = refl
      swapped (some x) none = refl
      swapped (some x) (some y) = length-set_nth (set_nth g i y) j x ∙ length-set_nth g i y

  pub length-shuffle : (g : List A) (i state : ℕ) → length (shuffle g i state).0 ≡ length g
  unfolding shuffle
  length-shuffle g zero state = refl
  length-shuffle g (suc i) state =
      length-shuffle (swap g (suc i) _) i (mulberry32 state).1 ∙ length-swap g (suc i) _
