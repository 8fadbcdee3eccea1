-- ===== src/Mutate/SortedStrata.antt =====
-- The groups of a sample after they are sorted and shuffled.
use wac_mono.Base.{
  ℕ, ◌+◌, ◌-◌, ◌≤◌, ◌≡◌, ◌≢◌, refl, sym, ◌∙◌, ap, arith, true, false, List, [], ◌∷◌, if_intro,
  length, All,
}
use mathlib.Core.List.{Perm}
use mathlib.Core.List.Perm
use wac_mono.Mutate.Texts.{Text}
use wac_mono.Mutate.Edits.{Mutant, TextMap, text_leb}
use wac_mono.Mutate.Sample.{group_mutants, insert_group, sort_groups, shuffle, shuffle_groups}
use wac_mono.Mutate.Shuffled.{shuffle-perm, length-shuffle}
use wac_mono.Mutate.Strata.{of_file, total, Ascending, IsStrata, Distinct, group_mutants-grouped}

text_leb_trans : (a b c : Text) → text_leb a b ≡ true → text_leb b c ≡ true → text_leb a c ≡ true
text_leb_trans [] b c h k = refl
text_leb_trans (x ∷ xs) [] c h k = cc
text_leb_trans (x ∷ xs) (y ∷ ys) [] h k = cc
text_leb_trans (x ∷ xs) (y ∷ ys) (z ∷ zs) h k =
    let ih = text_leb_trans xs ys zs in ground (arith, ih)

text_leb_total : (a b : Text) → text_leb a b ≡ false → text_leb b a ≡ true
text_leb_total [] b h = cc
text_leb_total (x ∷ xs) [] h = refl
text_leb_total (x ∷ xs) (y ∷ ys) h = let ih = text_leb_total xs ys in ground (arith, ih)

abbrev Group : Type 0
Group = Text × List Mutant

insert_group-All :
    (P : Group → Type 0) (g : Group) (groups : TextMap (List Mutant))
    → P g
    → All P groups
    → All P (insert_group g groups)
unfolding insert_group
insert_group-All P g [] p h = (p, tt)
insert_group-All P g (k ∷ rest) p h =
    if_intro (All P) (text_leb g.0 k.0) (λ first. (p, h))
      (λ later. (h.0, insert_group-All P g rest p h.1))

sort_groups-All :
    (P : Group → Type 0) (groups : TextMap (List Mutant))
    → All P groups
    → All P (sort_groups groups)
unfolding sort_groups
sort_groups-All P [] h = tt
sort_groups-All P (g ∷ rest) h =
    insert_group-All P g (sort_groups rest) h.0 (sort_groups-All P rest h.1)

-- `g` comes before all of these, since it comes before one that does.
all_behind :
    (g k : Group) (rest : TextMap (List Mutant))
    → text_leb g.0 k.0 ≡ true
    → All (λ h. (text_leb k.0 h.0 ≡ true) × (k.0 ≢ h.0)) rest
    → All (λ h. g.0 ≢ h.0) rest
    → All (λ h. (text_leb g.0 h.0 ≡ true) × (g.0 ≢ h.0)) rest
all_behind g k [] le above apart = tt
all_behind g k (h ∷ hs) le above apart =
    ((text_leb_trans g.0 k.0 h.0 le above.0.0, apart.0), all_behind g k hs le above.1 apart.1)

insert_group-Ascending :
    (g : Group) (groups : TextMap (List Mutant))
    → All (λ h. g.0 ≢ h.0) groups
    → Ascending groups
    → Ascending (insert_group g groups)
unfolding insert_group
insert_group-Ascending g [] apart a = (tt, tt)
insert_group-Ascending g (k ∷ rest) apart a =
    if_intro Ascending (text_leb g.0 k.0)
      (λ first. (((first, apart.0), all_behind g k rest first a.0 apart.1), a))
      (λ later. (
        insert_group-All (λ h. (text_leb k.0 h.0 ≡ true) × (k.0 ≢ h.0)) g rest
            (text_leb_total g.0 k.0 later, λ e. apart.0 (sym e)) a.0,
        insert_group-Ascending g rest apart.1 a.1,
      ))

sort_groups-Ascending :
    (groups : TextMap (List Mutant)) → Distinct groups → Ascending (sort_groups groups)
unfolding sort_groups
sort_groups-Ascending [] d = tt
sort_groups-Ascending (g ∷ rest) d =
    insert_group-Ascending g (sort_groups rest) (sort_groups-All (λ h. g.0 ≢ h.0) rest d.0)
      (sort_groups-Ascending rest d.1)

total-insert_group :
    (g : Group) (groups : TextMap (List Mutant))
    → total (insert_group g groups) ≡ length g.1 + total groups
unfolding insert_group
total-insert_group g [] = refl
total-insert_group g (h ∷ rest) =
    if_intro (λ inserted. total inserted ≡ length g.1 + (length h.1 + total rest))
      (text_leb g.0 h.0) (λ first. refl) (λ later. omega (arith, total-insert_group g rest))

total-sort_groups : (groups : TextMap (List Mutant)) → total (sort_groups groups) ≡ total groups
unfolding sort_groups
total-sort_groups [] = refl
total-sort_groups (g ∷ rest) =
    omega (arith, total-insert_group g (sort_groups rest), total-sort_groups rest)

-- The groups that are shuffled, each with its file.
abbrev pub shuffled : TextMap (List Mutant) → ℕ → TextMap (List Mutant)
shuffled [] state = []
shuffled ((key, g) ∷ rest) state =
    let s = shuffle g (length g - 1) state in (key, s.0) ∷ shuffled rest s.1

abbrev pub lists_of : TextMap (List Mutant) → List (List Mutant)
lists_of [] = []
lists_of ((key, g) ∷ rest) = g ∷ lists_of rest

pub lists_of-shuffled :
    (groups : TextMap (List Mutant)) (state : ℕ)
    → lists_of (shuffled groups state) ≡ shuffle_groups groups state
unfolding shuffle_groups
lists_of-shuffled [] state = refl
lists_of-shuffled ((key, g) ∷ rest) state =
    ap (◌∷◌ (shuffle g (length g - 1) state).0)
      (lists_of-shuffled rest (shuffle g (length g - 1) state).1)

shuffled-All :
    (P : Text → Type 0) (groups : TextMap (List Mutant)) (state : ℕ)
    → All (λ g. P g.0) groups
    → All (λ g. P g.0) (shuffled groups state)
shuffled-All P [] state h = tt
shuffled-All P ((key, g) ∷ rest) state h =
    (h.0, shuffled-All P rest (shuffle g (length g - 1) state).1 h.1)

shuffled-Ascending :
    (groups : TextMap (List Mutant)) (state : ℕ)
    → Ascending groups
    → Ascending (shuffled groups state)
shuffled-Ascending [] state a = tt
shuffled-Ascending ((key, g) ∷ rest) state a =
    let later = (shuffle g (length g - 1) state).1 in
    (
      shuffled-All (λ h. (text_leb key h ≡ true) × (key ≢ h)) rest later a.0,
      shuffled-Ascending rest later a.1,
    )

shuffled-by_file :
    (mutants : List Mutant) (groups : TextMap (List Mutant)) (state : ℕ)
    → All (λ g. Perm g.1 (of_file g.0 mutants)) groups
    → All (λ g. Perm g.1 (of_file g.0 mutants)) (shuffled groups state)
shuffled-by_file mutants [] state h = tt
shuffled-by_file mutants ((key, g) ∷ rest) state h = (
  Perm.trans (shuffle-perm g (length g - 1) state) h.0,
  shuffled-by_file mutants rest (shuffle g (length g - 1) state).1 h.1,
)

shuffled-none_empty :
    (groups : TextMap (List Mutant)) (state : ℕ)
    → All (λ g. 1 ≤ length g.1) groups
    → All (λ g. 1 ≤ length g.1) (shuffled groups state)
shuffled-none_empty [] state h = tt
shuffled-none_empty ((key, g) ∷ rest) state h = (
  omega (arith, h.0, length-shuffle g (length g - 1) state),
  shuffled-none_empty rest (shuffle g (length g - 1) state).1 h.1,
)

total-shuffled :
    (groups : TextMap (List Mutant)) (state : ℕ) → total (shuffled groups state) ≡ total groups
total-shuffled [] state = refl
total-shuffled ((key, g) ∷ rest) state = omega (
  arith,
  length-shuffle g (length g - 1) state,
  total-shuffled rest (shuffle g (length g - 1) state).1,
)

-- Whatever the seed, the groups of a sample are strata of the mutants.
pub shuffled-IsStrata :
    (mutants : List Mutant) (seed : ℕ)
    → IsStrata mutants (shuffled (sort_groups (group_mutants [] mutants)) seed)
shuffled-IsStrata mutants seed =
    let sorted = sort_groups (group_mutants [] mutants) in
    let g = group_mutants-grouped mutants in
    record {
      ascending = shuffled-Ascending sorted seed (sort_groups-Ascending _ g.0);
      by_file =
          shuffled-by_file mutants sorted seed
            (sort_groups-All (λ h. Perm h.1 (of_file h.0 mutants)) _ g.1);
      none_empty = shuffled-none_empty sorted seed (sort_groups-All (λ h. 1 ≤ length h.1) _ g.2);
      together = total-shuffled sorted seed ∙ total-sort_groups _ ∙ g.3;
    }
