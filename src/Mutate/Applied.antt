-- ===== src/Mutate/Applied.antt =====
-- A generated mutant that is applied to the sources.
use wac_mono.Base.{
  ℕ, ◌≡◌, ◌≢◌, refl, sym, ◌∙◌, ap, Bool, true, false, Option, none, some, [], ◌∷◌, if◌then◌else◌,
  All, All-imp,
}
use wac_mono.Mutate.Texts.{Text, same_text}
use wac_mono.Mutate.TextLaws.{same_text-eq, same_text_refl}
use wac_mono.Mutate.Edits.{
  Edit, Mutant, TextMap, get, set, splice, insert_edit, sort_edits, splice_all, by_file,
  apply_groups, apply_edits,
}
use wac_mono.Mutate.Generate.{Operators, Lexed, generate}
use wac_mono.Mutate.Faithful.{IsFaithful}
use wac_mono.Mutate.Mutants.{LexerLaws, generate-IsFaithful}

module _ {A : Type 0} where
  pub get-set : (m : TextMap A) (key : Text) (a : A) → get (set m key a) key ≡ some a
  get-set [] key a = rw (same_text_refl key) refl
  get-set ((k, b) ∷ rest) key a = found (same_text k key) refl (get-set rest key a)
    where
      found :
          (s : Bool)
          → same_text k key ≡ s
          → get (set rest key a) key ≡ some a
          → get (if s then (k, a) ∷ rest else (k, b) ∷ set rest key a) key ≡ some a
      found true e ih = rw e refl
      found false e ih = rw e ih

  pub get-set_other :
      (m : TextMap A) (key other : Text) (a : A)
      → other ≢ key
      → get (set m key a) other ≡ get m other
  get-set_other [] key other a n = differ (same_text key other) refl
    where
      differ : (s : Bool) → same_text key other ≡ s → (if s then some a else none) ≡ none
      differ true e = absurd (n (sym (same_text-eq key other e)))
      differ false e = refl
  get-set_other ((k, b) ∷ rest) key other a n =
      found (same_text k key) refl (get-set_other rest key other a n)
    where
      at_other :
          (s : Bool)
          → same_text k other ≡ s
          → k ≡ key
          → (if s then some a else get rest other) ≡ (if s then some b else get rest other)
      at_other true e here = absurd (n (sym (same_text-eq k other e) ∙ here))
      at_other false e here = refl

      found :
          (s : Bool)
          → same_text k key ≡ s
          → get (set rest key a) other ≡ get rest other
          → get (if s then (k, a) ∷ rest else (k, b) ∷ set rest key a) other
            ≡ get ((k, b) ∷ rest) other
      found true e ih = at_other (same_text k other) refl (same_text-eq k key e)
      found false e ih = ap (λ g. if same_text k other then some b else g) ih

-- What a mutant that changes one file makes of the sources.
unfoldable pub ChangesOnly : Text → Text → TextMap Text → TextMap Text → Type 0
ChangesOnly file source before after =
    ((changed : Text) × (get after file ≡ some changed) × (changed ≢ source))
    × ((other : Text) → other ≢ file → get after other ≡ get before other)

apply_one :
    (sources : TextMap Text) (source : Text) (e : Edit)
    → get sources e.file ≡ some source
    → apply_groups sources (by_file [] (e ∷ [])) ≡ some (set sources e.file (splice source e))
unfolding apply_groups by_file sort_edits insert_edit splice_all
apply_one sources source e h = rw (apply_groups, h) refl

applied-ChangesOnly :
    (sources : TextMap Text) (file source : Text) (m : Mutant)
    → get sources file ≡ some source
    → IsFaithful file source m
    → (after : TextMap Text) × (apply_edits sources m ≡ some after)
      × ChangesOnly file source sources after
unfolding IsFaithful ChangesOnly apply_edits
applied-ChangesOnly sources file source m h (e, one, at, was, changes) =
    let here : get sources e.file ≡ some source = ap (get sources) at ∙ h in
    (
      set sources e.file (splice source e),
      ap (λ es. apply_groups sources (by_file [] es)) one ∙ apply_one sources source e here,
      (
        (
          splice source e,
          ap (get (set sources e.file (splice source e))) (sym at)
              ∙ get-set sources e.file (splice source e),
          changes,
        ),
        λ other n. get-set_other sources e.file other (splice source e) (λ same. n (same ∙ at)),
      ),
    )

-- Where the file is among the sources, and the lexer gives tokens of it in their order, each with a text that stands at
-- its line and column, but for strings and the end of the file, of which nothing is asked, and characters, which have some
-- text and a single quote at their place: every mutant that is generated for the file can be applied, which gives the file
-- another text and leaves all other files as they are.
pub generate-ChangesOnly :
    (wac_lex : Text → Lexed) (sources : TextMap Text) (file source : Text) (want : Operators)
    (per_shape : Option ℕ)
    → get sources file ≡ some source
    → LexerLaws source (wac_lex source).tokens
    → All
        (λ m.
          (after : TextMap Text) × (apply_edits sources m ≡ some after)
          × ChangesOnly file source sources after)
        (generate wac_lex file source want per_shape)
generate-ChangesOnly wac_lex sources file source want per_shape h laws =
    All-imp (λ m. applied-ChangesOnly sources file source m h) _
      (generate-IsFaithful wac_lex file source want per_shape laws)
