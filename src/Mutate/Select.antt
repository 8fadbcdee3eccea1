-- ===== src/Mutate/Select.antt =====
-- tools/mutate/profile.ts: which tests are run for a mutant.
use wac_mono.Base.{
  ℕ, Bool, true, false, not, ◌&&◌, ◌||◌, Option, none, some, List, [], ◌∷◌, ◌++◌, map, ◌==◌,
  if◌then◌else◌, ltb,
}
use wac_mono.Mutate.Texts.{Text, text, text_in, join_by}
use wac_mono.Mutate.Edits.{TextMap, get, sort_texts, add_text}

pub record Profile : Type 0 where
  pub lines : TextMap (List Text)
  pub known : List Text
  pub home : TextMap Text
  pub test_files : List Text
  pub cost : TextMap ℕ

abbrev pub add_all : List Text → List Text → List Text
add_all seen [] = seen
add_all seen (x ∷ xs) = add_all (add_text seen x) xs

-- `p.lines.get(loc) ?? []`
abbrev pub tests_at : Profile → Text → List Text
tests_at p location = elim (get p.lines location) [ none ↦ [] | some tests ↦ tests ]

-- The loop: what is picked, and whether a location is known.
unfoldable pub pick_tests : Profile → List Text → List Text × Bool → List Text × Bool
pick_tests p [] found = found
pick_tests p (location ∷ rest) found =
    pick_tests p rest
      (if text_in location p.known then (add_all found.0 (tests_at p location), true) else found)

abbrev pub every_known : Profile → List Text → Bool
every_known p [] = true
every_known p (location ∷ rest) = text_in location p.known && every_known p rest

abbrev pub is_empty {ℓ} : {A : Type ℓ} → List A → Bool
is_empty [] = true
is_empty (x ∷ xs) = false

unfoldable pub select_tests : Profile → List Text → Option (List Text)
select_tests p locations =
    let found = pick_tests p locations ([], false) in
    if not found.1
    then none
    else if is_empty found.0 && not (every_known p locations)
    then none
    else some (sort_texts found.0)

pub data Plan : Type 0 where
  narrow : List Text → Plan
  widen unhit : Plan

unfoldable pub plan_for : Profile → List Text → Plan
plan_for p locations = elim (select_tests p locations) [
  | none ↦ widen
  | some [] ↦ unhit
  | some (t ∷ ts) ↦ narrow (t ∷ ts)
]

-- The comparison of `byCost`: a file that has not been measured has no number, and comes last.
abbrev pub cost_leb : Option ℕ → Option ℕ → Bool → Bool
cost_leb none none names = names
cost_leb none (some b) names = false
cost_leb (some a) none names = true
cost_leb (some a) (some b) names = ltb a b || ((a == b) && names)

-- `locale_leb` is `localeCompare`, where it is not positive.
module _ (locale_leb : Text → Text → Bool) where
  abbrev pub insert_by_cost : Profile → Text → List Text → List Text
  insert_by_cost p f [] = f ∷ []
  insert_by_cost p f (g ∷ rest) =
      if cost_leb (get p.cost f) (get p.cost g) (locale_leb f g)
      then f ∷ g ∷ rest
      else g ∷ insert_by_cost p f rest

  abbrev pub sort_by_cost : Profile → List Text → List Text
  sort_by_cost p [] = []
  sort_by_cost p (f ∷ rest) = insert_by_cost p f (sort_by_cost p rest)

  -- Without a profile the files are in the order of their names.
  pub by_cost : List Text → Option Profile → List Text
  by_cost files none = sort_texts files
  by_cost files (some p) = sort_by_cost p (sort_texts files)

-- The units that a pattern gives a meaning: . * + ? ^ $ { } ( ) | [ ] \
abbrev pub has_meaning : ℕ → Bool
has_meaning c =
    (c == 46)
    || (c == 42)
    || (c == 43)
    || (c == 63)
    || (c == 94)
    || (c == 36)
    || (c == 123)
    || (c == 125)
    || (c == 40)
    || (c == 41)
    || (c == 124)
    || (c == 91)
    || (c == 93)
    || (c == 92)

unfoldable pub escape : Text → Text
escape [] = []
escape (c ∷ cs) = let rest = escape cs in if has_meaning c then 92 ∷ c ∷ rest else c ∷ rest

unfoldable pub filter_for : List Text → Option Text
filter_for [] = none
filter_for (name ∷ names) =
    some (text "/^(?:" ++ join_by (text "|") (map escape (name ∷ names)) ++ text ")$/")
