-- ===== src/Mutate/Mutants.antt =====
-- The mutants of a file: each is one edit, of what stands in the source, that changes the source.
use wac_mono.Base.{
  ℕ, zero, suc, ◌+◌, ◌-◌, ◌≤◌, ◌<◌, ◌≡◌, ◌≢◌, inl, refl, sym, ap, arith, Bool, true, false, Option,
  none, some, List, [], ◌∷◌, if_intro, some_inj, get_elem?, drop, length, All, All-append,
  All-get_elem?, length-take, length-drop,
}
use wac_mono.Mutate.Texts.{Text, text, same_text, slice}
use wac_mono.Mutate.Edits.{Mutant}
use wac_mono.Mutate.Functions.{Token, Function, is_kind, functions}
use wac_mono.Mutate.Literals.{literal_wanted, has}
use wac_mono.Mutate.Generate.{
  offset, body_with, extreme_between, extreme_of, guard_end, guard_of, Operators, when,
  token_mutants, extreme_mutants, Lexed, generate_from, generate,
}
use wac_mono.Mutate.Defaults.{normalise, default_value_for}
use wac_mono.Mutate.TextLaws.{same_text-ne, slice-nonempty}
use wac_mono.Mutate.Faithful.{
  kinds_agree, TokenIn, ends, decoded, character, spelled, IsFaithful, one_edit-IsFaithful,
  relational_of-IsFaithful, literal_of-IsFaithful,
}
use wac_mono.Mutate.Spans.{IsSpan-lt}
use wac_mono.Mutate.Loop.{AreSpans, functions-AreSpans}

-- The tokens come in the order of the source.
abbrev pub Ordered : Text → List Token → Type 0
Ordered source [] = Unit {0}
Ordered source (t ∷ rest) = All (λ u. offset source t < offset source u) rest × Ordered source rest

-- What the lexer says of the tokens of a source: they are in it, and in its order.
pub record LexerLaws (source : Text) (tokens : List Token) : Type 0 where
  pub in_source : All (TokenIn source) tokens
  pub in_order : Ordered source tokens

nonempty_length : (x : Text) → x ≢ [] → 1 ≤ length x
nonempty_length [] n = absurd (n refl)
nonempty_length (c ∷ cs) n = omega arith

guarded-IsFaithful :
    (file source : Text) (t : Token) (next : Option Token)
    → t.text ≢ []
    → slice source (offset source t) (offset source t + length t.text) ≡ t.text
    → ((semi : Token) → next ≡ some semi → offset source t < offset source semi)
    → All (IsFaithful file source) (guard_of file source t next)
unfolding guard_of
guarded-IsFaithful file source t next full stands order =
    if_intro (All (IsFaithful file source)) (is_kind "trap" t)
      (λ trap. (
        one_edit-IsFaithful file source _ (offset source t) (guard_end source t next) _ []
            (inl refl) (omega (arith, behind next order))
            (λ e.
              slice-nonempty source (offset source t) (guard_end source t next) (behind next order)
                within (sym e)),
        tt,
      ))
      (λ other. tt)
  where
    within : offset source t < length source
    within =
        let n = nonempty_length t.text full in
        let m =
          length-take (offset source t + length t.text - offset source t)
            (drop (offset source t) source) in
        let k = length-drop (offset source t) source in omega (arith, n, m, k, ap length stands)

    behind :
        (next : Option Token)
        → ((semi : Token) → next ≡ some semi → offset source t < offset source semi)
        → offset source t < guard_end source t next
    behind none order = omega (arith, nonempty_length t.text full)
    behind (some semi) order =
        if_intro (λ end. offset source t < end) (is_kind ";" semi)
          (λ yes. omega (arith, order semi refl))
          (λ other. omega (arith, nonempty_length t.text full))

-- A token of another kind is no guard.
unguarded :
    (file source : Text) (t : Token) (next : Option Token) (k : Text)
    → same_text t.kind k ≡ true
    → same_text k (text "trap") ≡ false
    → All (IsFaithful file source) (guard_of file source t next)
unfolding guard_of
unguarded file source t next k here other =
    if_intro (All (IsFaithful file source)) (is_kind "trap" t)
      (λ trap. let same = kinds_agree t.kind k (text "trap") here trap in cc) (λ none_there. tt)

guard_of-IsFaithful :
    (file source : Text) (t : Token) (next : Option Token)
    → TokenIn source t
    → ((semi : Token) → next ≡ some semi → offset source t < offset source semi)
    → All (IsFaithful file source) (guard_of file source t next)
guard_of-IsFaithful file source t next (ends k) order =
    unguarded file source t next (text "eof") k refl
guard_of-IsFaithful file source t next (decoded k) order =
    unguarded file source t next (text "string") k refl
guard_of-IsFaithful file source t next (character k n q) order =
    unguarded file source t next (text "int") k refl
guard_of-IsFaithful file source t next (spelled n h) order =
    guarded-IsFaithful file source t next n h order

when-All {ℓ κ} :
    {A : Type ℓ} (P : A → Type κ) (b : Bool) (xs : List A) → All P xs → All P (when b xs)
when-All P true xs h = h
when-All P false xs h = tt

first_later :
    (source : Text) (t : Token) (rest : List Token) (u : Token)
    → All (λ u. offset source t < offset source u) rest
    → get_elem? rest 0 ≡ some u
    → offset source t < offset source u
first_later source t [] u h e = cc
first_later source t (v ∷ rest) u h e = rw (← some_inj v u e) h.0

token_mutants-IsFaithful :
    (file source : Text) (want : Operators) (wanted : List ℕ) (i : ℕ) (tokens : List Token)
    → All (TokenIn source) tokens
    → Ordered source tokens
    → All (IsFaithful file source) (token_mutants file source want wanted i tokens)
unfolding token_mutants
token_mutants-IsFaithful file source want wanted i [] h o = tt
token_mutants-IsFaithful file source want wanted i (t ∷ rest) h o =
    All-append F _ _
      (All-append F _ _
        (All-append F _ _
          (when-All F want.relational _ (relational_of-IsFaithful file source t h.0))
          (when-All F want.literal _ (literal_of-IsFaithful file source (has wanted i) t h.0)))
        (when-All F want.guard _ (
          guard_of-IsFaithful file source t (get_elem? rest 0) h.0
            (λ u. first_later source t rest u o.0))))
      (token_mutants-IsFaithful file source want wanted (i + 1) rest h.1 o.1)
  where
    F : Mutant → Type 0
    F = IsFaithful file source

ordered_at :
    (source : Text) (tokens : List Token) (i j : ℕ) (t u : Token)
    → Ordered source tokens
    → i < j
    → get_elem? tokens i ≡ some t
    → get_elem? tokens j ≡ some u
    → offset source t < offset source u
ordered_at source [] i j t u o h et eu = cc
ordered_at source (v ∷ rest) i zero t u o h et eu = absurd (omega arith)
ordered_at source (v ∷ rest) zero (suc j) t u o h et eu =
    rw (← some_inj v t et) (All-get_elem? (λ u. offset source v < offset source u) j rest u eu o.0)
ordered_at source (v ∷ rest) (suc i) (suc j) t u o h et eu =
    ordered_at source rest i j t u o.1 (omega arith) et eu

extreme_of-IsFaithful :
    (file source : Text) (tokens : List Token) (f : Function)
    → Ordered source tokens
    → f.opening < f.closing
    → All (IsFaithful file source) (extreme_of file source tokens f)
unfolding extreme_of extreme_between
extreme_of-IsFaithful file source tokens f o h =
    valued (default_value_for f.ret_type) (get_elem? tokens f.opening) refl
      (get_elem? tokens f.closing) refl
  where
    between :
        (value : Text) (start end : ℕ)
        → start < end
        → All (IsFaithful file source) (extreme_between file source f.name value start end)
    between value start end lt =
        if_intro (All (IsFaithful file source))
          (same_text (normalise (slice source start end)) (normalise (body_with value)))
          (λ same. tt)
          (λ other. (
            one_edit-IsFaithful file source _ start end _ (body_with value) (inl refl) (omega arith)
                (λ e. same_text-ne _ _ other (ap normalise (sym e))),
            tt,
          ))

    valued :
        (value : Option Text) (brace : Option Token)
        → get_elem? tokens f.opening ≡ brace
        → (last : Option Token) → get_elem? tokens f.closing ≡ last
        → All (IsFaithful file source) (elim value [
          | none ↦ []
          | some value ↦ (elim brace [
            | none ↦ []
            | some brace ↦ (elim last [
              | none ↦ []
              | some last ↦
                  extreme_between file source f.name value
                    (offset source brace)
                    (offset source last + 1)
            ])
          ])
        ])
    valued none brace eb last el = tt
    valued (some value) none eb last el = tt
    valued (some value) (some brace) eb none el = tt
    valued (some value) (some brace) eb (some last) el =
        between value _ _
          (omega (arith, ordered_at source tokens f.opening f.closing brace last o h eb el))

extreme_mutants-IsFaithful :
    (file source : Text) (tokens : List Token) (i : ℕ) (fs : List Function)
    → Ordered source tokens
    → AreSpans tokens i fs
    → All (IsFaithful file source) (extreme_mutants file source tokens fs)
unfolding extreme_mutants AreSpans
extreme_mutants-IsFaithful file source tokens i [] o h = tt
extreme_mutants-IsFaithful file source tokens i (f ∷ fs) o h =
    All-append (IsFaithful file source) _ _
      (extreme_of-IsFaithful file source tokens f o (IsSpan-lt tokens f h.1))
      (extreme_mutants-IsFaithful file source tokens (f.closing + 1) fs o h.2)

-- Where the lexer's tokens are tokens of the source, in its order: every mutant that is generated has one edit, which is
-- of the file, says what stands in the source at its place unless that is a character literal, and makes a text that is
-- not the source.
pub generate-IsFaithful :
    (wac_lex : Text → Lexed) (file source : Text) (want : Operators) (per_shape : Option ℕ)
    → LexerLaws source (wac_lex source).tokens
    → All (IsFaithful file source) (generate wac_lex file source want per_shape)
unfolding generate
generate-IsFaithful wac_lex file source want per_shape laws = without (wac_lex source).errors
  where
    tokens : List Token
    tokens = (wac_lex source).tokens

    without :
        (errors : List Text)
        → All (IsFaithful file source) (generate_from file source want per_shape tokens errors)
    without (e ∷ es) = unfold generate_from in tt
    without [] =
        unfold generate_from in
        All-append (IsFaithful file source) _ _
          (when-All (IsFaithful file source) want.extreme _ (
            extreme_mutants-IsFaithful file source tokens 0 (functions tokens) laws.in_order
              (functions-AreSpans tokens)))
          (token_mutants-IsFaithful file source want
            (literal_wanted tokens (functions tokens) per_shape) 0 tokens laws.in_source
            laws.in_order)
