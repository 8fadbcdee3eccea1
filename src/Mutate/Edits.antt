-- ===== src/Mutate/Edits.antt =====
-- tools/mutate/types.ts: edits, mutants, and the sources that a mutant makes.
use wac_mono.Base.{
  ℕ, ◌++◌, Bool, true, false, Option, none, some, List, [], ◌∷◌, take, drop, leb, ltb,
  if◌then◌else◌, ◌&&◌, ◌||◌,
}
use wac_mono.Mutate.Texts.{Text, text, same_text, text_in, split_at}

pub record Edit : Type 0 where
  pub file : Text
  pub start : ℕ
  pub end : ℕ
  pub replacement : Text
  pub was : Text

pub data Origin : Type 0 where
  curated operator : Origin

pub record Mutant : Type 0 where
  pub name : Text
  pub edits : List Edit
  pub origin : Origin
  pub ratio_only : Option Bool
  pub must_survive : Option Bool
  pub equivalent : Option Text

-- A `Map` from texts, in the order in which its keys were set first.
abbrev pub TextMap : Type 0 → Type 0
TextMap A = List (Text × A)

module _ {A : Type 0} where
  abbrev pub get : TextMap A → Text → Option A
  get [] key = none
  get ((k, a) ∷ rest) key = if same_text k key then some a else get rest key

  abbrev pub set : TextMap A → Text → A → TextMap A
  set [] key a = (key, a) ∷ []
  set ((k, b) ∷ rest) key a = if same_text k key then (k, a) ∷ rest else (k, b) ∷ set rest key a

  -- `map.get(key) ?? []`, with `a` pushed, set again.
  abbrev pub push : TextMap (List A) → Text → A → TextMap (List A)
  push [] key a = (key, a ∷ []) ∷ []
  push ((k, items) ∷ rest) key a =
      if same_text k key then (k, items ++ a ∷ []) ∷ rest else (k, items) ∷ push rest key a

-- One edit made in a text.
unfoldable pub splice : Text → Edit → Text
splice s e = take e.start s ++ e.replacement ++ drop e.end s

-- `[...edits].sort((a, b) => b.start - a.start)`, which is stable.
unfoldable pub insert_edit : Edit → List Edit → List Edit
insert_edit e [] = e ∷ []
insert_edit e (f ∷ rest) = if leb f.start e.start then e ∷ f ∷ rest else f ∷ insert_edit e rest

unfoldable pub sort_edits : List Edit → List Edit
sort_edits [] = []
sort_edits (e ∷ rest) = insert_edit e (sort_edits rest)

unfoldable pub splice_all : Text → List Edit → Text
splice_all s [] = s
splice_all s (e ∷ rest) = splice_all (splice s e) rest

unfoldable pub by_file : TextMap (List Edit) → List Edit → TextMap (List Edit)
by_file groups [] = groups
by_file groups (e ∷ rest) = by_file (push groups e.file e) rest

-- The sources of the touched files, one file after another. `none` is the error that a source is not loaded.
unfoldable pub apply_groups : TextMap Text → TextMap (List Edit) → Option (TextMap Text)
apply_groups out [] = some out
apply_groups out ((file, edits) ∷ rest) = elim (get out file) [
  | none ↦ none
  | some s ↦ apply_groups (set out file (splice_all s (sort_edits edits))) rest
]

unfoldable pub apply_edits : TextMap Text → Mutant → Option (TextMap Text)
apply_edits sources m = apply_groups sources (by_file [] m.edits)

-- `Set.add`
abbrev pub add_text : List Text → Text → List Text
add_text seen x = if text_in x seen then seen else seen ++ x ∷ []

-- The order of texts by their units, which `sort()` takes.
abbrev pub text_leb : Text → Text → Bool
text_leb [] ys = true
text_leb (x ∷ xs) [] = false
text_leb (x ∷ xs) (y ∷ ys) = ltb x y || (leb x y && text_leb xs ys)

abbrev pub insert_text : Text → List Text → List Text
insert_text x [] = x ∷ []
insert_text x (y ∷ ys) = if text_leb x y then x ∷ y ∷ ys else y ∷ insert_text x ys

abbrev pub sort_texts : List Text → List Text
sort_texts [] = []
sort_texts (x ∷ xs) = insert_text x (sort_texts xs)

abbrev pub package_of : List Text → Option Text
package_of (first ∷ (pkg ∷ rest)) = if same_text first (text "packages") then some pkg else none
package_of (first ∷ []) = none
package_of [] = none

unfoldable pub packages_from : List Text → List Edit → List Text
packages_from seen [] = seen
packages_from seen (e ∷ rest) = elim (package_of (split_at 47 [] e.file)) [
  | none ↦ packages_from seen rest
  | some pkg ↦ packages_from (add_text seen pkg) rest
]

pub packages_of : Mutant → List Text
packages_of m = sort_texts (packages_from [] m.edits)
