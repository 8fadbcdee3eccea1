-- ===== src/Mutate/Names.antt =====
-- tools/mutate/operators.ts: the short name of a file.
use wac_mono.Base.{Option, none, some, [], ◌∷◌, ◌++◌, ◌==◌, if◌then◌else◌}
use wac_mono.Mutate.Texts.{Text, text, after_prefix, before_suffix}

-- Up to the first `/`, and what is behind it.
abbrev pub first_part : Text → Text → Option (Text × Text)
first_part part [] = none
first_part part (c ∷ cs) = if c == 47 then some (part, cs) else first_part (part ++ c ∷ []) cs

-- One unit or more in front of `.wac`.
abbrev pub module_name : Text → Option Text
module_name path = elim (before_suffix (text ".wac") path) [
  | none ↦ none
  | some [] ↦ none
  | some (c ∷ cs) ↦ some (c ∷ cs)
]

abbrev pub below_src : Text → Option Text
below_src path = elim (after_prefix (text "src/") path) [
  | none ↦ module_name path
  | some rest ↦ (elim (module_name rest) [ none ↦ module_name path | some name ↦ some name ])
]

abbrev pub short_parts : Text → Option Text
short_parts path = elim (first_part [] path) [
  | none ↦ none
  | some ([], rest) ↦ none
  | some (c ∷ cs, rest) ↦ (elim (below_src rest) [
    | none ↦ none
    | some name ↦ some ((c ∷ cs) ++ text "/" ++ name)
  ])
]

-- `packages/gzip/src/inflate.wac` to `gzip/inflate`, and another path to itself. A path has no line break.
unfoldable pub short : Text → Text
short file = elim (after_prefix (text "packages/") file) [
  | none ↦ file
  | some rest ↦ (elim (short_parts rest) [ none ↦ file | some name ↦ name ])
]
