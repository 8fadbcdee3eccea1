-- ===== src/Mutate/Texts.antt =====
-- Texts as their UTF-16 code units, and what the tool asks of them.
use wac_mono.Base.{
  ℕ, ◌-◌, Bool, true, false, ◌&&◌, ◌||◌, Option, none, some, List, [], ◌∷◌, ◌++◌, ◌==◌,
  if◌then◌else◌, take, drop, length,
}
use Prim.Native.String.{String}
use Prim.Native.Char.{code}

abbrev pub Text : Type 0
Text = List ℕ

-- A text of the source, all of whose characters are one unit long.
abbrev pub text : String → Text
text String.[] = []
text (String.◌∷◌ c cs) = code c ∷ text cs

abbrev pub same_text : Text → Text → Bool
same_text [] [] = true
same_text [] (y ∷ ys) = false
same_text (x ∷ xs) [] = false
same_text (x ∷ xs) (y ∷ ys) = (x == y) && same_text xs ys

abbrev pub text_in : Text → List Text → Bool
text_in x [] = false
text_in x (y ∷ ys) = same_text x y || text_in x ys

-- `s.slice(start, end)`
abbrev pub slice : Text → ℕ → ℕ → Text
slice s start end = take (end - start) (drop start s)

-- What is left of a text behind a prefix.
abbrev pub after_prefix : Text → Text → Option Text
after_prefix [] s = some s
after_prefix (x ∷ xs) [] = none
after_prefix (x ∷ xs) (y ∷ ys) = if x == y then after_prefix xs ys else none

-- What is left of a text in front of a suffix.
abbrev pub before_suffix : Text → Text → Option Text
before_suffix suffix s =
    let n = length s - length suffix in
    if same_text (drop n s) suffix then some (take n s) else none

-- `parts.join(separator)`
abbrev pub join_by : Text → List Text → Text
join_by separator [] = []
join_by separator (x ∷ []) = x
join_by separator (x ∷ (y ∷ ys)) = x ++ separator ++ join_by separator (y ∷ ys)

-- `s.split(separator)`, where the separator is one unit and `part` is what stands before `s` of the same part.
abbrev pub split_at : ℕ → Text → Text → List Text
split_at separator part [] = part ∷ []
split_at separator part (c ∷ cs) =
    if c == separator
    then part ∷ split_at separator [] cs
    else split_at separator (part ++ c ∷ []) cs
