-- ===== src/Mutate/Distinct.antt =====
-- No experiment is run twice.
use wac_mono.Base.{
  ◌≡◌, ◌≢◌, ◌⊎◌, inl, inr, refl, ◌∙◌, ap, arith, Bool, true, false, ◌||◌, Option, none, some, List,
  [], ◌∷◌, ◌++◌, if◌then◌else◌,
}
use wac_mono.Mutate.Texts.{Text, same_text, text_in}
use wac_mono.Mutate.TextLaws.{same_text-eq}
use wac_mono.Mutate.Edits.{Mutant, TextMap, get, set}
use wac_mono.Mutate.Reach.{text_in-append}
use wac_mono.Mutate.Applied.{get-set, get-set_other}
use wac_mono.Mutate.Triage.{
  Verdict, run, equivalent, duplicate, invalid, Measured, uncompiled, signed, Seen, is_true, triage,
  triage_all, new_seen,
}

-- The signature of a mutant that is run and is not a control.
abbrev pub run_signature : Mutant → Measured → Verdict → List Text
run_signature m (uncompiled file) v = []
run_signature m (signed signature original) run =
    if is_true m.must_survive then [] else signature ∷ []
run_signature m (signed signature original) equivalent = []
run_signature m (signed signature original) (duplicate first) = []
run_signature m (signed signature original) (invalid detail) = []

abbrev pub run_signatures : List (Mutant × Measured × Verdict) → List Text
run_signatures [] = []
run_signatures ((m, measured, verdict) ∷ rest) =
    run_signature m measured verdict ++ run_signatures rest

abbrev pub AllDistinct : List Text → Type 0
AllDistinct [] = Unit {0}
AllDistinct (x ∷ xs) = (text_in x xs ≡ false) × AllDistinct xs

-- What one triage does: it runs nothing that is counted, and remembers nothing; or it runs a signature that was not
-- seen, and remembers it.
IsNew : Seen → Mutant → List Text → TextMap Text → Type 0
IsNew s m own after =
    ((own ≡ []) × (after ≡ s.seen_hash))
    ⊎ ((signature : Text) × (own ≡ signature ∷ [])
        × (get s.seen_hash signature ≡ none)
        × (after ≡ set s.seen_hash signature m.name))

triage-IsNew :
    (s : Seen) (m : Mutant) (measured : Measured)
    → IsNew s m (run_signature m measured (triage s m measured).0) (triage s m measured).1.seen_hash
unfolding triage IsNew
triage-IsNew s m (uncompiled file) = inl (refl, refl)
triage-IsNew s m (signed signature original) =
    judged (is_true m.must_survive) refl (same_text signature original) (get s.seen_hash signature)
      refl
  where
    judged :
        (c : Bool)
        → is_true m.must_survive ≡ c
        → (noop : Bool) (o : Option Text) → get s.seen_hash signature ≡ o
        → (let t : Verdict × Seen =
              if c
              then (run, record s { control_is_noop = set s.control_is_noop m.name noop })
              else if noop
              then (equivalent, s)
              else (elim o [
                | none ↦ (run, record s { seen_hash = set s.seen_hash signature m.name })
                | some first ↦ (duplicate first, s)
              ]) in
            IsNew s m (run_signature m (signed signature original) t.0) t.1.seen_hash)
    judged true c noop o e = inl (rw c refl, refl)
    judged false c true o e = inl (refl, refl)
    judged false c false none e = inr (signature, rw c refl, e, refl)
    judged false c false (some first) e = inl (refl, refl)

one_in : (x y : Text) → x ≢ y → text_in x (y ∷ []) ≡ false
one_in x y n = decided (same_text x y) refl
  where
    decided : (b : Bool) → same_text x y ≡ b → (b || false) ≡ false
    decided true e = absurd (n (same_text-eq x y e))
    decided false e = refl

-- A signature that was seen is not counted again.
not_again :
    (s : Seen) (mutants : List (Mutant × Measured)) (signature name : Text)
    → get s.seen_hash signature ≡ some name
    → text_in signature (run_signatures (triage_all s mutants)) ≡ false
unfolding triage_all IsNew
not_again s [] signature name e = refl
not_again s ((m, measured) ∷ rest) signature name e =
    after (triage-IsNew s m measured) (λ h. not_again (triage s m measured).1 rest signature name h)
  where
    later : List Text
    later = run_signatures (triage_all (triage s m measured).1 rest)

    after :
        {own : List Text}
        → IsNew s m own (triage s m measured).1.seen_hash
        → (get (triage s m measured).1.seen_hash signature ≡ some name
            → text_in signature later ≡ false)
        → text_in signature (own ++ later) ≡ false
    after (inl (none_here, same)) ih = rw none_here (ih (ap (λ g. get g signature) same ∙ e))
    after (inr (new, one, unseen, kept)) ih =
        let other : signature ≢ new = λ q. cc in
        let still = ih (
          ap (λ g. get g signature) kept
          ∙ get-set_other s.seen_hash new signature m.name other
          ∙ e) in
        rw one (
          ground
            (arith, text_in-append signature (new ∷ []) later, one_in signature new other, still))

triage_all-AllDistinct :
    (s : Seen) (mutants : List (Mutant × Measured))
    → AllDistinct (run_signatures (triage_all s mutants))
unfolding triage_all IsNew
triage_all-AllDistinct s [] = tt
triage_all-AllDistinct s ((m, measured) ∷ rest) =
    after (triage-IsNew s m measured) (triage_all-AllDistinct (triage s m measured).1 rest)
  where
    later : List Text
    later = run_signatures (triage_all (triage s m measured).1 rest)

    after :
        {own : List Text}
        → IsNew s m own (triage s m measured).1.seen_hash
        → AllDistinct later
        → AllDistinct (own ++ later)
    after (inl (none_here, same)) ih = rw none_here ih
    after (inr (new, one, unseen, kept)) ih =
        let there : get (triage s m measured).1.seen_hash new ≡ some m.name =
          ap (λ g. get g new) kept ∙ get-set s.seen_hash new m.name in
        rw one (not_again (triage s m measured).1 rest new m.name there, ih)

-- Of any mutants, in any order: no two that are run and are not controls compile to the same signature, so that no
-- experiment is made twice.
pub runs-AllDistinct :
    (mutants : List (Mutant × Measured))
    → AllDistinct (run_signatures (triage_all new_seen mutants))
runs-AllDistinct mutants = triage_all-AllDistinct new_seen mutants
