-- ===== src/Mutate/Literals.antt =====
-- tools/mutate/operators.ts: which integer literals of a file are mutated.
use wac_mono.Base.{
  ℕ, zero, suc, ◌+◌, ◌-◌, ◌*◌, ◌/◌, Bool, true, false, ◌&&◌, ◌||◌, Option, none, some, List, [],
  ◌∷◌, ◌++◌, map, get_elem?, leb, ◌==◌, if◌then◌else◌, length,
}
use wac_mono.Mutate.Texts.{Text, text, same_text, join_by}
use wac_mono.Mutate.Edits.{TextMap, push}
use wac_mono.Mutate.Functions.{Token, Function, is_kind}
use wac_mono.Mutate.Numerals.{bump_literal}

abbrev pub is_int_literal : Token → Bool
is_int_literal t = is_kind "int" t

-- `tokens[k]?.kind ?? "^"`, for k = i - back and for k = i + ahead.
abbrev pub kind_or_none : Option Token → Text
kind_or_none none = text "^"
kind_or_none (some t) = t.kind

abbrev pub kind_back : List Token → ℕ → ℕ → Text
kind_back tokens i back =
    if leb back i then kind_or_none (get_elem? tokens (i - back)) else text "^"

abbrev pub kind_ahead : List Token → ℕ → ℕ → Text
kind_ahead tokens i ahead = kind_or_none (get_elem? tokens (i + ahead))

-- The kinds of the four tokens on either side, behind the name of the declaration.
unfoldable pub shape_key : List Token → ℕ → Text → Text
shape_key tokens i fn =
    fn
    ++ text "|"
    ++ join_by (text " ") (
        map (kind_back tokens i) (4 ∷ 3 ∷ 2 ∷ 1 ∷ [])
        ++ map (kind_ahead tokens i) (1 ∷ 2 ∷ 3 ∷ 4 ∷ []))

-- `scope[k] = f.name` for each function in turn, where `scope` is filled with `name`.
abbrev pub name_in_spans : List Function → ℕ → Text → Text
name_in_spans [] k name = name
name_in_spans (f ∷ rest) k name =
    name_in_spans rest k (if leb f.opening k && leb k f.closing then f.name else name)

-- The search for the `=` of a `const`, from the tokens behind it, where `before` stands in front of them.
unfoldable pub const_name : Text → Token → List Token → Text
const_name last before [] = last
const_name last before (t ∷ rest) =
    let further = const_name last t rest in
    if is_kind ";" t
    then last
    else if is_kind "=" t
    then (if is_kind "ident" before then before.text else last)
    else further

-- The declaration that each token belongs to, from position `k`, where `last` is the last constant's name.
unfoldable pub scopes_from : List Function → ℕ → Text → List Token → List Text
scopes_from spans k last [] = []
scopes_from spans k last (t ∷ rest) =
    let name = name_in_spans spans k [] in
    let seen = if is_kind "const" t then const_name last t rest else last in
    let entry : Text × Text = if same_text name [] then (seen, seen) else (name, last) in
    entry.0 ∷ scopes_from spans (k + 1) entry.1 rest

abbrev pub is_mutable : Token → Bool
is_mutable t = is_int_literal t && (elim (bump_literal t.text) [ none ↦ false | some b ↦ true ])

-- `shapeMembers`, from position `i`: the literals of each shape, in their order.
unfoldable pub shape_members :
    List Token → ℕ → List Token → List Text → TextMap (List ℕ) → TextMap (List ℕ)
shape_members tokens i [] scopes groups = groups
shape_members tokens i (t ∷ rest) [] groups = groups
shape_members tokens i (t ∷ rest) (scope ∷ scopes) groups =
    shape_members tokens (i + 1) rest scopes
      (if is_mutable t then push groups (shape_key tokens i scope) i else groups)

-- `Math.round(a / b)` of two numbers that are not negative. At `b = 0` it is not a number.
abbrev pub round_ratio : ℕ → ℕ → Option ℕ
round_ratio a zero = none
round_ratio a (suc b) = some ((2 * a + suc b) / (2 * suc b))

-- `members[..]` of such a number: `undefined` is not added.
abbrev pub spread_one : List ℕ → ℕ → ℕ → List ℕ
spread_one members per_shape k = elim (round_ratio (k * (length members - 1)) (per_shape - 1)) [
  | none ↦ []
  | some at ↦ (elim (get_elem? members at) [ none ↦ [] | some i ↦ i ∷ [] ])
]

-- The picks for k, k + 1, .., `left` of them.
unfoldable pub spread : List ℕ → ℕ → ℕ → ℕ → List ℕ
spread members per_shape k zero = []
spread members per_shape k (suc left) =
    spread_one members per_shape k ++ spread members per_shape (k + 1) left

-- The members of one shape that are mutated. `none` is no bound.
unfoldable pub wanted_members : Option ℕ → List ℕ → List ℕ
wanted_members none members = members
wanted_members (some per_shape) members =
    if leb (length members) per_shape then members else spread members per_shape 0 per_shape

unfoldable pub wanted_in : Option ℕ → TextMap (List ℕ) → List ℕ
wanted_in per_shape [] = []
wanted_in per_shape ((key, members) ∷ rest) =
    wanted_members per_shape members ++ wanted_in per_shape rest

-- `literalWanted`
unfoldable pub literal_wanted : List Token → List Function → Option ℕ → List ℕ
literal_wanted tokens spans per_shape =
    wanted_in per_shape (shape_members tokens 0 tokens (scopes_from spans 0 [] tokens) [])

abbrev pub has : List ℕ → ℕ → Bool
has [] i = false
has (x ∷ xs) i = (x == i) || has xs i
