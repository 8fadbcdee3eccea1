-- ===== src/Mutate/Draw.antt =====
-- A sample is as long as was asked for, and takes from the files in turn.
use wac_mono.Base.{
  ℕ, zero, ◌+◌, ◌<◌, ◌≡◌, refl, sym, ◌∙◌, ap, arith, ◌||◌, some, List, [], ◌∷◌, ◌==◌, leb, if_intro,
  take, length, length-take,
}
use wac_mono.Mutate.Edits.{Mutant, TextMap}
use wac_mono.Mutate.Strata.{total, IsStrata}
use wac_mono.Mutate.SortedStrata.{shuffled, lists_of, lists_of-shuffled, shuffled-IsStrata}
use wac_mono.Mutate.Sample.{pick_rounds, group_mutants, sort_groups, sample_mutants}
use wac_mono.Mutate.Rounds.{columns, remaining, length-columns, pick_rounds-take}

remaining-lists_of : (groups : TextMap (List Mutant)) → remaining (lists_of groups) 0 ≡ total groups
remaining-lists_of [] = refl
remaining-lists_of ((key, g) ∷ rest) = omega (arith, remaining-lists_of rest)

-- Where fewer mutants are asked for than there are, and more than none: the mutants are in groups, one for each file in the
-- order of the files, where a group is the mutants of its file in some order and no mutant is left out; and the sample is
-- as many as are asked for, the first ones when the groups are read in turn: the first of every file, then the second of
-- every file that has one, and so on.
pub sample_mutants-columns :
    (mutants : List Mutant) (n seed : ℕ)
    → zero < n
    → n < length mutants
    → (groups : TextMap (List Mutant)) × IsStrata mutants groups
      × (length (sample_mutants mutants (some n) seed) ≡ n)
      × (sample_mutants mutants (some n) seed ≡ take n (columns (lists_of groups) 0 (n + 1)))
sample_mutants-columns mutants n seed some_wanted fewer = (groups, strata, drawn.0, drawn.1)
  where
    groups : TextMap (List Mutant)
    groups = shuffled (sort_groups (group_mutants [] mutants)) seed

    strata : IsStrata mutants groups
    strata = shuffled-IsStrata mutants seed

    enough : length (take n (columns (lists_of groups) 0 (n + 1))) ≡ n
    enough = omega (
      arith,
      length-take n (columns (lists_of groups) 0 (n + 1)),
      length-columns (lists_of groups) 0 (n + 1),
      remaining-lists_of groups,
      strata.together,
    )

    drawn :
        (length (sample_mutants mutants (some n) seed) ≡ n)
        × (sample_mutants mutants (some n) seed ≡ take n (columns (lists_of groups) 0 (n + 1)))
    drawn =
        unfold sample_mutants in
        if_intro (λ s. (length s ≡ n) × (s ≡ take n (columns (lists_of groups) 0 (n + 1))))
          ((n == 0) || leb (length mutants) n) (λ whole. absurd (ground arith))
          (λ part.
            let taken =
              ap (λ gs. pick_rounds gs (n + 1) 0 n)
                (sym (lists_of-shuffled (sort_groups (group_mutants [] mutants)) seed))
              ∙ pick_rounds-take (lists_of groups) (n + 1) 0 n (omega arith) in
            (ap length taken ∙ enough, taken))
