-- ===== src/Mutate/Defaults.antt =====
-- tools/mutate/operators.ts: the body that stands for a function's own, and a body's text without its spaces.
use wac_mono.Base.{
  ℕ, Bool, ◌&&◌, ◌||◌, Option, none, some, List, [], ◌∷◌, ◌++◌, leb, ◌==◌, if◌then◌else◌, concat,
}
use wac_mono.Mutate.Texts.{Text, text, same_text, text_in, before_suffix}

abbrev pub number_types : List Text
number_types =
    text "i8"
    ∷ text "i16"
    ∷ text "i32"
    ∷ text "i64"
    ∷ text "u8"
    ∷ text "u16"
    ∷ text "u32"
    ∷ text "u64"
    ∷ []

abbrev pub element_types : List Text
element_types = number_types ++ text "f32" ∷ text "f64" ∷ text "bool" ∷ text "string" ∷ []

-- `T[]` for a primitive T.
abbrev pub empty_array : Text → Option Text
empty_array t = elim (before_suffix (text "[]") t) [
  | none ↦ none
  | some element ↦ if text_in element element_types then some (element ++ text "[0]()") else none
]

unfoldable pub default_value_for : List Text → Option Text
default_value_for tokens =
    let t = concat tokens in
    if same_text t (text "void")
    then some []
    else if same_text t (text "bool")
    then some (text "false")
    else if same_text t (text "string")
    then some (34 ∷ 34 ∷ [])
    else if text_in t (text "f32" ∷ text "f64" ∷ [])
    then some (text "0.0")
    else if text_in t number_types
    then some (text "0")
    else (elim (before_suffix (text "?") t) [
      | none ↦ empty_array t
      | some inner ↦ some (text "null")
    ])

-- What `\s` stands for.
abbrev pub is_space : ℕ → Bool
is_space c =
    (leb 9 c && leb c 13)
    || (c == 32)
    || (c == 160)
    || (c == 5760)
    || (leb 8192 c && leb c 8202)
    || (c == 8232)
    || (c == 8233)
    || (c == 8239)
    || (c == 8287)
    || (c == 12288)
    || (c == 65279)

unfoldable pub normalise : Text → Text
normalise [] = []
normalise (c ∷ cs) = let rest = normalise cs in if is_space c then rest else c ∷ rest
