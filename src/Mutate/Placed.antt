-- ===== src/Mutate/Placed.antt =====
-- A curated mutation that is located: its edits stand where they say.
use wac_mono.Base.{
  ℕ, ◌+◌, ◌≡◌, refl, ap, subst, arith, Option, none, some, List, [], ◌∷◌, ◌++◌, length,
  length-append, All, All-append, All-get_elem?,
}
use wac_mono.Mutate.Texts.{Text, slice}
use wac_mono.Mutate.Edits.{Edit, Mutant, TextMap, get}
use wac_mono.Mutate.Locate.{
  CuratedEdit, Curated, Located, found, broken, no_such_file, hits_from, or_else, Hit, hit, miss,
  choose_hit, locate_edits, locate,
}
use wac_mono.Mutate.Hits.{HitAt, hits_from-HitAt, hit-slice, chosen_among}

-- The edit's text stands at its place in the source of its file.
unfoldable pub StandsAt : TextMap Text → Edit → Type 0
StandsAt sources e =
    (source : Text) × (get sources e.file ≡ some source) × (slice source e.start e.end ≡ e.was)

located_edits-StandsAt :
    (sources : TextMap Text) (c : Curated) (rest : List CuratedEdit) (edits : List Edit)
    (m : Mutant)
    → locate_edits sources c rest edits ≡ found m
    → All (StandsAt sources) edits
    → All (StandsAt sources) m.edits × (length m.edits ≡ length edits + length rest)
unfolding locate_edits StandsAt
located_edits-StandsAt sources c [] edits m e h =
    let same : edits ≡ m.edits = ap edits_of e in
    (subst (All (StandsAt sources)) same h, rw (← same) (omega arith))
  where
    edits_of : Located → List Edit
    edits_of (found m) = m.edits
    edits_of (broken name problem) = edits
located_edits-StandsAt sources c (r ∷ rest) edits m e h =
    sourced (get sources r.file) refl e (λ more. located_edits-StandsAt sources c rest more m)
  where
    next : ℕ → Edit
    next at = record {
      file = r.file;
      start = at;
      end = at + length r.find;
      replacement = r.replace;
      was = r.find;
    }

    Rest : Type 0
    Rest =
        (more : List Edit)
        → locate_edits sources c rest more ≡ found m
        → All (StandsAt sources) more
        → All (StandsAt sources) m.edits × (length m.edits ≡ length more + length rest)

    chosen :
        (source : Text)
        → get sources r.file ≡ some source
        → (k : Hit) → choose_hit (hits_from r.find 0 source) (or_else r.nth c.nth) ≡ k
        → (elim k [
          | miss problem ↦ broken c.name problem
          | hit at ↦ locate_edits sources c rest (edits ++ next at ∷ [])
        ])
          ≡ found m
        → Rest
        → All (StandsAt sources) m.edits × (length m.edits ≡ length edits + length (r ∷ rest))
    chosen source s (miss problem) k e ih = cc
    chosen source s (hit at) k e ih =
        let among = chosen_among (hits_from r.find 0 source) (or_else r.nth c.nth) at k in
        let here =
          All-get_elem? (HitAt r.find 0 source) among.0 (hits_from r.find 0 source) at among.1
            (hits_from-HitAt r.find 0 source) in
        let all = ih _ e (
          All-append (StandsAt sources) edits (next at ∷ []) h
            ((source, s, hit-slice r.find source at here), tt)) in
        (all.0, omega (arith, all.1, length-append edits (next at ∷ [])))

    sourced :
        (o : Option Text)
        → get sources r.file ≡ o
        → (elim o [
          | none ↦ broken c.name no_such_file
          | some source ↦ (elim (choose_hit (hits_from r.find 0 source) (or_else r.nth c.nth)) [
            | miss problem ↦ broken c.name problem
            | hit at ↦ locate_edits sources c rest (edits ++ next at ∷ [])
          ])
        ])
          ≡ found m
        → Rest
        → All (StandsAt sources) m.edits × (length m.edits ≡ length edits + length (r ∷ rest))
    sourced none s e ih = cc
    sourced (some source) s e ih =
        chosen source s (choose_hit (hits_from r.find 0 source) (or_else r.nth c.nth)) refl e ih

-- Of a curated mutation that is located: it has an edit for each of the mutation's, and each edit's text stands
-- at its place in the source of its file.
pub locate-StandsAt :
    (sources : TextMap Text) (c : Curated) (m : Mutant)
    → locate sources c ≡ found m
    → All (StandsAt sources) m.edits × (length m.edits ≡ length c.edits)
unfolding locate
locate-StandsAt sources c m e =
    let all = located_edits-StandsAt sources c c.edits [] m e tt in (all.0, omega (arith, all.1))
