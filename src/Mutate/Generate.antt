-- ===== src/Mutate/Generate.antt =====
-- tools/mutate/operators.ts: the mutants of a file.
use wac_mono.Base.{
  ℕ, ◌+◌, ◌-◌, Bool, true, false, ◌&&◌, Option, none, some, List, [], ◌∷◌, ◌++◌, map, get_elem?,
  ◌==◌, if◌then◌else◌, length,
}
use wac_mono.Mutate.Texts.{Text, text, same_text, slice}
use wac_mono.Mutate.Edits.{Edit, Mutant, operator}
use wac_mono.Mutate.Functions.{Token, Function, is_kind, functions}
use wac_mono.Mutate.Numerals.{bump_literal, write_number}
use wac_mono.Mutate.Literals.{is_int_literal, literal_wanted, has}
use wac_mono.Mutate.Defaults.{default_value_for, normalise}
use wac_mono.Mutate.Names.{short}

-- `lineStart`: 0, and the position behind each line feed, from position `i`.
unfoldable pub line_starts : ℕ → Text → List ℕ
line_starts i [] = []
line_starts i (c ∷ cs) =
    let rest = line_starts (i + 1) cs in if c == 10 then (i + 1) ∷ rest else rest

-- The offset of a line and a column. A line that the source does not have has none: the lexer reports no such
-- line, and 0 stands for it here.
unfoldable pub offset : Text → Token → ℕ
offset source t = elim (get_elem? (0 ∷ line_starts 0 source) (t.line - 1)) [
  | none ↦ 0
  | some s ↦ s + (t.col - 1)
]

-- `edit`
abbrev pub edit : Text → ℕ → Text → Text → Edit
edit file at was replacement = record {
  file = file;
  start = at;
  end = at + length was;
  replacement = replacement;
  was = was;
}

abbrev pub relational : List (Text × List Text)
relational =
    (text "<", text "<=" ∷ text ">" ∷ [])
    ∷ (text "<=", text "<" ∷ text ">=" ∷ [])
    ∷ (text ">", text ">=" ∷ text "<" ∷ [])
    ∷ (text ">=", text ">" ∷ text "<=" ∷ [])
    ∷ (text "==", text "!=" ∷ [])
    ∷ (text "!=", text "==" ∷ [])
    ∷ []

-- `RELATIONAL[kind]`, where nothing is there is nothing to do.
abbrev pub alternatives : List (Text × List Text) → Text → List Text
alternatives [] kind = []
alternatives ((k, alts) ∷ rest) kind = if same_text k kind then alts else alternatives rest kind

-- A mutant of one edit.
abbrev pub one_edit : Text → Edit → Mutant
one_edit name e = record {
  name = name;
  edits = e ∷ [];
  origin = operator;
  ratio_only = none;
  must_survive = none;
  equivalent = none;
}

abbrev pub place : Token → Text
place t = text ":" ++ write_number 10 t.line ++ text ":" ++ write_number 10 t.col

abbrev pub body_with : Text → Text
body_with [] = text "{ }"
body_with (c ∷ cs) = text "{ return " ++ (c ∷ cs) ++ text "; }"

-- The mutant that empties a function, between the offsets of its braces.
unfoldable pub extreme_between : Text → Text → Text → Text → ℕ → ℕ → List Mutant
extreme_between file source name value start end =
    let replacement = body_with value in
    if same_text (normalise (slice source start end)) (normalise replacement)
    then []
    else one_edit (text "extreme/" ++ short file ++ text "/" ++ name) (record {
      file = file;
      start = start;
      end = end;
      replacement = replacement;
      was = slice source start end;
    })
      ∷ []

unfoldable pub extreme_of : Text → Text → List Token → Function → List Mutant
extreme_of file source tokens f = elim (default_value_for f.ret_type) [
  | none ↦ []
  | some value ↦ (elim (get_elem? tokens f.opening) [
    | none ↦ []
    | some brace ↦ (elim (get_elem? tokens f.closing) [
      | none ↦ []
      | some last ↦
          extreme_between file source f.name value (offset source brace) (offset source last + 1)
    ])
  ])
]

unfoldable pub relational_of : Text → Text → Token → List Mutant
relational_of file source t =
    if same_text t.text t.kind
    then map
        (λ alt.
          one_edit (text "relational/" ++ short file ++ place t ++ text "/" ++ t.text ++ 8594 ∷ alt)
            (edit file (offset source t) t.text alt))
        (alternatives relational t.kind)
    else []

unfoldable pub literal_of : Text → Text → Bool → Token → List Mutant
literal_of file source wanted t =
    if is_int_literal t && wanted
    then (elim (bump_literal t.text) [
      | none ↦ []
      | some bumped ↦
          one_edit (text "literal/" ++ short file ++ place t ++ text "/" ++ t.text ++ 8594 ∷ bumped)
            (edit file (offset source t) t.text bumped)
          ∷ []
    ])
    else []

-- Where the edit of a guard ends: behind the `;` that follows.
abbrev pub guard_end : Text → Token → Option Token → ℕ
guard_end source t none = offset source t + length t.text
guard_end source t (some semi) =
    if is_kind ";" semi then offset source semi + 1 else offset source t + length t.text

unfoldable pub guard_of : Text → Text → Token → Option Token → List Mutant
guard_of file source t next =
    if is_kind "trap" t
    then (let start = offset source t in
        let end = guard_end source t next in
        one_edit (text "guard/" ++ short file ++ place t) (record {
          file = file;
          start = start;
          end = end;
          replacement = [];
          was = slice source start end;
        })
        ∷ [])
    else []

-- `want`
pub record Operators : Type 0 where
  pub relational : Bool
  pub literal : Bool
  pub guard : Bool
  pub extreme : Bool

abbrev pub when {ℓ} : {A : Type ℓ} → Bool → List A → List A
when true xs = xs
when false xs = []

-- The mutants at each token, from position `i`.
unfoldable pub token_mutants : Text → Text → Operators → List ℕ → ℕ → List Token → List Mutant
token_mutants file source want wanted i [] = []
token_mutants file source want wanted i (t ∷ rest) =
    when want.relational (relational_of file source t)
    ++ when want.literal (literal_of file source (has wanted i) t)
    ++ when want.guard (guard_of file source t (get_elem? rest 0))
    ++ token_mutants file source want wanted (i + 1) rest

unfoldable pub extreme_mutants : Text → Text → List Token → List Function → List Mutant
extreme_mutants file source tokens [] = []
extreme_mutants file source tokens (f ∷ rest) =
    extreme_of file source tokens f ++ extreme_mutants file source tokens rest

-- What the lexer gives for a source.
pub record Lexed : Type 0 where
  pub tokens : List Token
  pub errors : List Text

unfoldable pub generate_from :
    Text → Text → Operators → Option ℕ → List Token → List Text → List Mutant
generate_from file source want per_shape tokens (e ∷ es) = []
generate_from file source want per_shape tokens [] =
    let spans = functions tokens in
    when want.extreme (extreme_mutants file source tokens spans)
    ++ token_mutants file source want (literal_wanted tokens spans per_shape) 0 tokens

unfoldable pub generate :
    (wac_lex : Text → Lexed) → Text → Text → Operators → Option ℕ → List Mutant
generate wac_lex file source want per_shape =
    let lexed = wac_lex source in generate_from file source want per_shape lexed.tokens lexed.errors
