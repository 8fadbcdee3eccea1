-- ===== src/Mutate/Faithful.antt =====
-- A mutant that is one edit, of what stands in the source, and that changes the source.
use wac_mono.Base.{
  ℕ, ◌+◌, ◌≤◌, ◌≡◌, ◌≢◌, refl, sym, ◌∙◌, arith, Bool, true, false, subst, ap, suc, ◌-◌, ◌⊎◌, inl,
  inr, drop, take, ◌&&◌, Option, none, some, List, [], ◌∷◌, ◌++◌, map, if_intro, length, All,
  All-imp,
}
use wac_mono.Mutate.Texts.{Text, text, same_text, slice}
use wac_mono.Mutate.Edits.{Edit, Mutant, splice}
use wac_mono.Mutate.Functions.{Token, is_kind}
use wac_mono.Mutate.Numerals.{bump_literal}
use wac_mono.Mutate.Digits.{bump_literal-ne, bump_literal-unquoted}
use wac_mono.Mutate.Literals.{is_int_literal}
use wac_mono.Mutate.Generate.{
  offset, edit, relational, alternatives, one_edit, place, relational_of, literal_of,
}
use wac_mono.Mutate.Names.{short}
use wac_mono.Mutate.TextLaws.{same_text-eq, same_text-ne, replaced_ne}

-- A character literal stands at a place of the source: a single quote opens it.
abbrev pub Quoted : Text → ℕ → Type 0
Quoted source at = (behind : Text) × (drop at source ≡ 39 ∷ behind)

-- The edit of a mutant is of this file, says what stood there unless that is a character literal, and makes another
-- text of the source.
unfoldable pub IsFaithful : Text → Text → Mutant → Type 0
IsFaithful file source m =
    (e : Edit) × (m.edits ≡ e ∷ [])
    × (e.file ≡ file)
    × ((e.was ≡ slice source e.start e.end) ⊎ Quoted source e.start)
    × (splice source e ≢ source)

pub one_edit-IsFaithful :
    (file source name : Text) (start end : ℕ) (was replacement : Text)
    → (was ≡ slice source start end) ⊎ Quoted source start
    → start ≤ end
    → replacement ≢ slice source start end
    → IsFaithful file source (
        one_edit name
          (record { file = file; start = start; end = end; replacement = replacement; was = was }))
unfolding IsFaithful splice
one_edit-IsFaithful file source name start end was replacement w h n =
    (_, refl, refl, w, replaced_ne source start end replacement h n)

-- A token of the lexer: the end of the file, which has no text; a string, which has the text that it stands for; an
-- integer that is written as a character, which has its code; or any other, which has its text as it stands in the
-- source, at its line and column.
pub data TokenIn (source : Text) (t : Token) : Type 0 where
  ends : is_kind "eof" t ≡ true → TokenIn source t
  decoded : is_kind "string" t ≡ true → TokenIn source t
  character :
      is_kind "int" t ≡ true → t.text ≢ [] → Quoted source (offset source t) → TokenIn source t
  spelled :
      t.text ≢ []
      → slice source (offset source t) (offset source t + length t.text) ≡ t.text
      → TokenIn source t

-- A token is of one kind.
pub kinds_agree :
    (k : Text) (a b : Text) → same_text k a ≡ true → same_text k b ≡ true → same_text a b ≡ true
kinds_agree k a b ha hb = subst (λ x. same_text x b ≡ true) (same_text-eq k a ha) hb

token_edit-IsFaithful :
    (file source name : Text) (t : Token) (replacement : Text)
    → slice source (offset source t) (offset source t + length t.text) ≡ t.text
    → replacement ≢ t.text
    → IsFaithful file source (one_edit name (edit file (offset source t) t.text replacement))
token_edit-IsFaithful file source name t replacement h n =
    one_edit-IsFaithful file source name (offset source t) (offset source t + length t.text) t.text
      replacement (inl (sym h)) (omega arith) (λ e. n (e ∙ h))

-- A replacement without a quote is not what stands at a character literal.
Quoted-ne :
    (source x replacement : Text) (at : ℕ)
    → Quoted source at
    → x ≢ []
    → All (λ c. c ≢ 39) replacement
    → replacement ≢ slice source at (at + length x)
Quoted-ne source [] replacement at q n h = absurd (n refl)
Quoted-ne source (c ∷ cs) replacement at (behind, q) n h = λ same.
    let size : at + suc (length cs) - at ≡ suc (length cs) = omega arith in
    let starts : replacement ≡ 39 ∷ take (length cs) behind = same ∙ rw (size, q) refl in
    (subst (All (λ c. c ≢ 39)) starts h).0 refl

character_edit-IsFaithful :
    (file source name : Text) (t : Token) (replacement : Text)
    → Quoted source (offset source t)
    → t.text ≢ []
    → All (λ c. c ≢ 39) replacement
    → IsFaithful file source (one_edit name (edit file (offset source t) t.text replacement))
character_edit-IsFaithful file source name t replacement q n h =
    one_edit-IsFaithful file source name (offset source t) (offset source t + length t.text) t.text
      replacement (inr q) (omega arith)
      (Quoted-ne source t.text replacement (offset source t) q n h)

alternatives-differ :
    (rows : List (Text × List Text)) (kind : Text)
    → All (λ row. All (λ alt. same_text alt row.0 ≡ false) row.1) rows
    → All (λ alt. alt ≢ kind) (alternatives rows kind)
alternatives-differ [] kind h = tt
alternatives-differ ((k, alts) ∷ rest) kind h =
    if_intro (All (λ alt. alt ≢ kind)) (same_text k kind)
      (λ same. differ alts (same_text-eq k kind same) h.0)
      (λ other. alternatives-differ rest kind h.1)
  where
    differ :
        (alts : List Text)
        → k ≡ kind
        → All (λ alt. same_text alt k ≡ false) alts
        → All (λ alt. alt ≢ kind) alts
    differ [] e h = tt
    differ (alt ∷ alts) e h = (λ same. same_text-ne alt k h.0 (same ∙ sym e), differ alts e h.1)

relational-differ : All (λ row. All (λ alt. same_text alt row.0 ≡ false) row.1) relational
relational-differ = (
  (refl, (refl, tt)),
  ((refl, (refl, tt)), ((refl, (refl, tt)), ((refl, (refl, tt)), ((refl, tt), ((refl, tt), tt))))),
)

All-map {ℓ ℓ' κ} :
    {A : Type ℓ} {B : Type ℓ'} (P : B → Type κ) (f : A → B) (xs : List A)
    → All (λ x. P (f x)) xs
    → All P (map f xs)
All-map P f [] h = tt
All-map P f (x ∷ xs) h = (h.0, All-map P f xs h.1)

-- The kinds of the tokens that have another text have no alternatives.
no_relation :
    (kind k : Text)
    → same_text kind k ≡ true
    → alternatives relational k ≡ []
    → alternatives relational kind ≡ []
no_relation kind k h e = ap (alternatives relational) (same_text-eq kind k h) ∙ e

relational_of-none :
    (file source : Text) (t : Token)
    → alternatives relational t.kind ≡ []
    → All (IsFaithful file source) (relational_of file source t)
unfolding relational_of
relational_of-none file source t e =
    if_intro (All (IsFaithful file source)) (same_text t.text t.kind) (λ same. rw e tt)
      (λ other. tt)

pub relational_of-IsFaithful :
    (file source : Text) (t : Token)
    → TokenIn source t
    → All (IsFaithful file source) (relational_of file source t)
unfolding relational_of
relational_of-IsFaithful file source t (ends k) =
    relational_of-none file source t (no_relation t.kind (text "eof") k refl)
relational_of-IsFaithful file source t (decoded k) =
    relational_of-none file source t (no_relation t.kind (text "string") k refl)
relational_of-IsFaithful file source t (character k n q) =
    relational_of-none file source t (no_relation t.kind (text "int") k refl)
relational_of-IsFaithful file source t (spelled n h) =
    if_intro (All (IsFaithful file source)) (same_text t.text t.kind)
      (λ same.
        let differ = alternatives-differ relational t.kind relational-differ in
        All-map (IsFaithful file source) _ (alternatives relational t.kind) (
          All-imp
            (λ alt n.
              token_edit-IsFaithful file source _ t alt h
                (λ e. n (e ∙ same_text-eq t.text t.kind same)))
            _ differ))
      (λ other. tt)

-- A bumped literal at an integer.
bumped-IsFaithful :
    (file source name : Text) (t : Token) (b : Text)
    → TokenIn source t
    → is_kind "int" t ≡ true
    → bump_literal t.text ≡ some b
    → IsFaithful file source (one_edit name (edit file (offset source t) t.text b))
bumped-IsFaithful file source name t b (ends k) int e =
    let same = kinds_agree t.kind (text "int") (text "eof") int k in cc
bumped-IsFaithful file source name t b (decoded k) int e =
    let same = kinds_agree t.kind (text "int") (text "string") int k in cc
bumped-IsFaithful file source name t b (character k n q) int e =
    character_edit-IsFaithful file source name t b q n (bump_literal-unquoted t.text b e)
bumped-IsFaithful file source name t b (spelled n h) int e =
    token_edit-IsFaithful file source name t b h (λ same. bump_literal-ne t.text b e (sym same))

pub literal_of-IsFaithful :
    (file source : Text) (wanted : Bool) (t : Token)
    → TokenIn source t
    → All (IsFaithful file source) (literal_of file source wanted t)
unfolding literal_of
literal_of-IsFaithful file source wanted t h =
    if_intro (All (IsFaithful file source)) (is_int_literal t && wanted)
      (λ yes. bumped (ground arith) (bump_literal t.text) refl) (λ denied. tt)
  where
    bumped :
        is_kind "int" t ≡ true
        → (o : Option Text) → bump_literal t.text ≡ o
        → All (IsFaithful file source) (elim o [
          | none ↦ []
          | some b ↦
              one_edit
                (text "literal/" ++ short file ++ place t ++ text "/" ++ t.text ++ 8594 ∷ b)
                (edit file (offset source t) t.text b)
              ∷ []
        ])
    bumped int none e = tt
    bumped int (some b) e = (bumped-IsFaithful file source _ t b h int e, tt)
