-- ===== src/Mutate/Functions.antt =====
-- tools/mutate/operators.ts: the top-level functions of a file, found in its tokens.
use wac_mono.Base.{
  ℕ, zero, suc, ◌+◌, ◌-◌, Bool, true, false, ◌||◌, Option, none, some, List, [], ◌∷◌, ◌++◌,
  if◌then◌else◌, get_elem?, drop, length, ◌==◌, ℤ, pos, negsuc,
}
use Prim.Native.String.{String}
use wac_mono.Mutate.Texts.{Text, text, same_text}

-- A token of the lexer.
pub record Token : Type 0 where
  pub kind : Text
  pub text : Text
  pub line : ℕ
  pub col : ℕ

pub record Function : Type 0 where
  pub ret_type : List Text
  pub name : Text
  pub opening : ℕ
  pub closing : ℕ

abbrev pub is_kind : String → Token → Bool
is_kind k t = same_text t.kind (text k)

abbrev pub kind_at : List Token → ℕ → String → Bool
kind_at tokens i k = elim (get_elem? tokens i) [ none ↦ false | some t ↦ is_kind k t ]

-- What ends the walk back over a return type.
abbrev pub ends_ret_type : Token → Bool
ends_ret_type t =
    is_kind "export" t || is_kind ";" t || is_kind "}" t || is_kind "{" t || is_kind "," t

-- The texts of the tokens before position `j`, back to one that ends the walk, in front of `found`.
unfoldable pub ret_type_before : List Token → ℕ → List Text → List Text
ret_type_before tokens zero found = found
ret_type_before tokens (suc j) found = elim (get_elem? tokens j) [
  | none ↦ found
  | some t ↦ if ends_ret_type t then found else ret_type_before tokens j (t.text ∷ found)
]

-- How many are open after a token, of which `count` + 1 were before.
abbrev pub still_open : String → String → Token → ℕ → ℕ
still_open opener closer t count =
    if is_kind opener t then suc (suc count) else if is_kind closer t then count else suc count

-- `for (; p < tokens.length && count > 0; p++)`: the count at the end, and the position behind the last token
-- that was looked at.
unfoldable pub skip_matched : String → String → List Token → ℕ → ℕ → ℕ × ℕ
skip_matched opener closer [] count p = (count, p)
skip_matched opener closer (t ∷ rest) zero p = (zero, p)
skip_matched opener closer (t ∷ rest) (suc count) p =
    skip_matched opener closer rest (still_open opener closer t count) (p + 1)

-- The body that opens at `p`, where a `{` does.
unfoldable pub body_at : List Token → List Text → Text → ℕ → Option Function
body_at tokens ret_type name p =
    if kind_at tokens p "{"
    then (let braces = skip_matched "{" "}" (drop (p + 1) tokens) 1 (p + 1) in
        if braces.0 == 0
        then some (record { ret_type = ret_type; name = name; opening = p; closing = braces.1 - 1 })
        else none)
    else none

-- The function whose parameters open at `i`, with its name and return type. Without a return type there is none.
unfoldable pub typed_at : List Token → ℕ → Text → List Text → Option Function
typed_at tokens i name [] = none
typed_at tokens i name (t ∷ ts) =
    body_at tokens (t ∷ ts) name (skip_matched "(" ")" (drop (i + 1) tokens) 1 (i + 1)).1

-- The same, from the token in front of the parameters, which is at `before`.
unfoldable pub named_at : List Token → ℕ → Option Token → Option Function
named_at tokens before none = none
named_at tokens before (some name) =
    if is_kind "ident" name
    then typed_at tokens (suc before) name.text (ret_type_before tokens before [])
    else none

unfoldable pub function_at : List Token → ℕ → Option Function
function_at tokens zero = none
function_at tokens (suc before) =
    if kind_at tokens (suc before) "("
    then named_at tokens before (get_elem? tokens before)
    else none

abbrev pub increment : ℤ → ℤ
increment (pos n) = pos (n + 1)
increment (negsuc zero) = pos 0
increment (negsuc (suc n)) = negsuc n

abbrev pub decrement : ℤ → ℤ
decrement (pos zero) = negsuc 0
decrement (pos (suc n)) = pos n
decrement (negsuc n) = negsuc (n + 1)

abbrev pub is_zero : ℤ → Bool
is_zero (pos zero) = true
is_zero (pos (suc n)) = false
is_zero (negsuc n) = false

-- One turn of the loop: what it finds, and where the next turn stands.
pub record Turn : Type 0 where
  pub found : List Function
  pub next : ℕ
  pub depth : ℤ

unfoldable pub look : List Token → ℕ → ℤ → Token → Turn
look tokens i depth t =
    if is_kind "{" t
    then record { found = []; next = i + 1; depth = increment depth }
    else if is_kind "}" t
    then record { found = []; next = i + 1; depth = decrement depth }
    else if is_zero depth
    then (elim (function_at tokens i) [
      | none ↦ record { found = []; next = i + 1; depth = depth }
      | some f ↦ record { found = f ∷ []; next = f.closing + 1; depth = depth }
    ])
    else record { found = []; next = i + 1; depth = depth }

-- The loop, from position `i`.
unfoldable pub functions_from : List Token → ℕ → ℕ → ℤ → List Function
functions_from tokens zero i depth = []
functions_from tokens (suc fuel) i depth = elim (get_elem? tokens i) [
  | none ↦ []
  | some t ↦
      let turn = look tokens i depth t in
      turn.found ++ functions_from tokens fuel turn.next turn.depth
]

-- Each turn moves on by a token or more, so that as many turns as tokens are enough.
unfoldable pub functions : List Token → List Function
functions tokens = functions_from tokens (length tokens) 0 (pos 0)
