-- ===== src/Mutate/Locate.antt =====
-- tools/mutate.ts: where a curated mutation stands in its source, and the lines that an edit touches.
use wac_mono.Base.{
  ℕ, zero, suc, ◌+◌, ◌-◌, Bool, true, false, Option, none, some, List, [], ◌∷◌, ◌++◌, ◌==◌,
  if◌then◌else◌, get_elem?, length, take, drop,
}
use wac_mono.Mutate.Texts.{Text, after_prefix}
use wac_mono.Mutate.Edits.{Edit, Mutant, curated, TextMap, get}
use wac_mono.Mutate.Numerals.{write_number}

-- A hand-written mutation of a file: `nth` counts from 1.
pub record CuratedEdit : Type 0 where
  pub file : Text
  pub find : Text
  pub replace : Text
  pub nth : Option ℕ

pub record Curated : Type 0 where
  pub name : Text
  pub edits : List CuratedEdit
  pub nth : Option ℕ
  pub ratio_only : Option Bool
  pub must_survive : Option Bool
  pub equivalent : Option Text

pub data Problem : Type 0 where
  no_such_file not_found : Problem
  ambiguous : ℕ → Problem
  too_few : ℕ → ℕ → Problem

pub data Located : Type 0 where
  found : Mutant → Located
  broken : Text → Problem → Located

abbrev pub starts_with : Text → Text → Bool
starts_with s t = elim (after_prefix t s) [ none ↦ false | some rest ↦ true ]

-- `for (let i = text.indexOf(find); i !== -1; i = text.indexOf(find, i + 1))`, from position `i`: every position
-- that `find` stands at. An empty `find`, with which that loop has no end, is left
-- out.
unfoldable pub hits_from : Text → ℕ → Text → List ℕ
hits_from find i [] = []
hits_from find i (c ∷ cs) =
    let rest = hits_from find (i + 1) cs in if starts_with (c ∷ cs) find then i ∷ rest else rest

abbrev pub or_else {ℓ} : {A : Type ℓ} → Option A → Option A → Option A
or_else none b = b
or_else (some a) b = some a

-- `hits[(nth ?? 1) - 1]`
abbrev pub nth_hit : List ℕ → Option ℕ → Option ℕ
nth_hit hits none = get_elem? hits 0
nth_hit hits (some zero) = none
nth_hit hits (some (suc n)) = get_elem? hits n

pub data Hit : Type 0 where
  hit : ℕ → Hit
  miss : Problem → Hit

abbrev pub number_or_one : Option ℕ → ℕ
number_or_one none = 1
number_or_one (some n) = n

-- The one hit that is meant, or what is wrong with it.
unfoldable pub choose_hit : List ℕ → Option ℕ → Hit
choose_hit [] nth = miss not_found
choose_hit (h ∷ []) nth = elim (nth_hit (h ∷ []) nth) [
  | none ↦ miss (too_few (number_or_one nth) 1)
  | some at ↦ hit at
]
choose_hit (h ∷ (i ∷ more)) none = miss (ambiguous (length (h ∷ i ∷ more)))
choose_hit (h ∷ (i ∷ more)) (some n) = elim (nth_hit (h ∷ i ∷ more) (some n)) [
  | none ↦ miss (too_few n (length (h ∷ i ∷ more)))
  | some at ↦ hit at
]

unfoldable pub locate_edits : TextMap Text → Curated → List CuratedEdit → List Edit → Located
locate_edits sources c [] edits = found (record {
  name = c.name;
  edits = edits;
  origin = curated;
  ratio_only = c.ratio_only;
  must_survive = c.must_survive;
  equivalent = c.equivalent;
})
locate_edits sources c (r ∷ rest) edits = elim (get sources r.file) [
  | none ↦ broken c.name no_such_file
  | some source ↦ (elim (choose_hit (hits_from r.find 0 source) (or_else r.nth c.nth)) [
    | miss problem ↦ broken c.name problem
    | hit at ↦ locate_edits sources c rest (
        edits
        ++ record {
          file = r.file;
          start = at;
          end = at + length r.find;
          replacement = r.replace;
          was = r.find;
        }
          ∷ [])
  ])
]

unfoldable pub locate : TextMap Text → Curated → Located
locate sources c = locate_edits sources c c.edits []

-- `file:line`
abbrev pub location : Text → ℕ → Text
location file line = file ++ 58 ∷ write_number 10 line

abbrev pub line_feeds : Text → ℕ
line_feeds [] = 0
line_feeds (c ∷ cs) = let rest = line_feeds cs in if c == 10 then rest + 1 else rest

-- The lines that begin inside a text, where it begins on `line`.
unfoldable pub lines_inside : Text → ℕ → Text → List Text
lines_inside file line [] = []
lines_inside file line (c ∷ cs) =
    if c == 10
    then location file (line + 1) ∷ lines_inside file (line + 1) cs
    else lines_inside file line cs

unfoldable pub lines_of : TextMap Text → Text → ℕ → ℕ → List Text
lines_of sources file start end = elim (get sources file) [
  | none ↦ []
  | some source ↦
      let line = line_feeds (take start source) + 1 in
      location file line ∷ lines_inside file line (take (end - start) (drop start source))
]
