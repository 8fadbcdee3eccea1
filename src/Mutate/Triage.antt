-- ===== src/Mutate/Triage.antt =====
-- tools/mutate.ts: which mutants are worth a run, from what they compile to.
use wac_mono.Base.{
  ℕ, ◌*◌, Bool, true, false, not, ◌&&◌, ◌||◌, Option, none, some, List, [], ◌∷◌, ◌++◌, map,
  if◌then◌else◌, length, ltb, min,
}
use wac_mono.Mutate.Texts.{Text, text, same_text, text_in, join_by}
use wac_mono.Mutate.Edits.{Edit, Mutant, TextMap, get, set, add_text, sort_texts}
use wac_mono.Mutate.Numerals.{write_number}
use wac_mono.Mutate.Sample.{word, xor}

-- A lane of the hash, over the bytes.
unfoldable pub lane : ℕ → ℕ → List ℕ → ℕ
lane factor a [] = a
lane factor a (b ∷ bs) = lane factor (word (xor a b * factor)) bs

unfoldable pub hash_text : List ℕ → Text
hash_text bytes =
    write_number 10 (length bytes)
    ++ text ":"
    ++ write_number 16 (lane 16777619 2166136261 bytes)
    ++ text ":"
    ++ write_number 16 (lane 2246822507 16777619 bytes)

-- `${h}` of a hash that may be missing, or `null`.
abbrev pub hash_or_word : Option (Option Text) → Text
hash_or_word none = text "undefined"
hash_or_word (some none) = text "null"
hash_or_word (some (some h)) = h

abbrev pub is_none {ℓ} : {A : Type ℓ} → Option A → Bool
is_none none = true
is_none (some a) = false

abbrev pub is_true : Option Bool → Bool
is_true none = false
is_true (some b) = b

-- Whether a text that may be missing is there, and not empty.
abbrev pub says : Option Text → Bool
says none = false
says (some []) = false
says (some (c ∷ cs)) = true

-- `[...new Set(m.edits.map((e) => e.file))]`
abbrev pub files_from : List Text → List Edit → List Text
files_from seen [] = seen
files_from seen (e ∷ rest) = files_from (add_text seen e.file) rest

abbrev pub touched : Mutant → List Text
touched m = sort_texts (files_from [] m.edits)

pub data Verdict : Type 0 where
  run equivalent : Verdict
  duplicate : Text → Verdict
  invalid : Text → Verdict

-- What a mutant compiles to: a file of it does not compile, or its signature beside the unmutated one.
pub data Measured : Type 0 where
  uncompiled : Text → Measured
  signed : Text → Text → Measured

pub record Seen : Type 0 where
  pub seen_hash : TextMap Text
  pub control_is_noop : TextMap Bool

-- `compile` gives the bytes of a file's own module among the sources, or nothing where it does not compile.
module _ (compile : TextMap Text → Text → Option (List ℕ)) where
  unfoldable pub wasm_hash : TextMap Text → Text → Option Text
  wasm_hash files entry = elim (compile files entry) [
    | none ↦ none
    | some bytes ↦ some (hash_text bytes)
  ]

  unfoldable pub baseline_edits :
      TextMap Text → TextMap (Option Text) → List Edit → TextMap (Option Text)
  baseline_edits sources found [] = found
  baseline_edits sources found (e ∷ rest) =
      baseline_edits sources
        (if is_none (get found e.file) then set found e.file (wasm_hash sources e.file) else found)
        rest

  unfoldable pub baseline :
      TextMap Text → TextMap (Option Text) → List Mutant → TextMap (Option Text)
  baseline sources found [] = found
  baseline sources found (m ∷ rest) = baseline sources (baseline_edits sources found m.edits) rest

  -- The loop over the files, with the parts so far.
  unfoldable pub measure_files : TextMap Text → List Text → Text → List Text → Measured
  measure_files mutated [] original parts = signed (join_by (text "|") parts) original
  measure_files mutated (file ∷ rest) original parts = elim (wasm_hash mutated file) [
    | none ↦ uncompiled file
    | some h ↦ measure_files mutated rest original (parts ++ (file ++ text "=" ++ h) ∷ [])
  ]

  unfoldable pub measure : TextMap Text → TextMap (Option Text) → Mutant → Measured
  measure mutated base m =
      measure_files mutated (touched m)
        (join_by (text "|") (map (λ f. f ++ text "=" ++ hash_or_word (get base f)) (touched m))) []

-- The files that do not compile unmutated. The tool stops where there are any.
unfoldable pub broken_baseline : TextMap (Option Text) → List Text
broken_baseline [] = []
broken_baseline ((file, none) ∷ rest) = file ∷ broken_baseline rest
broken_baseline ((file, some h) ∷ rest) = broken_baseline rest

-- `triage`, from what the mutant compiles to.
unfoldable pub triage : Seen → Mutant → Measured → Verdict × Seen
triage s m (uncompiled file) = (invalid (file ++ text " does not compile"), s)
triage s m (signed signature original) =
    let noop = same_text signature original in
    let control : Verdict × Seen =
      (run, record s { control_is_noop = set s.control_is_noop m.name noop }) in
    let fresh : Verdict × Seen = elim (get s.seen_hash signature) [
      | none ↦ (run, record s { seen_hash = set s.seen_hash signature m.name })
      | some first ↦ (duplicate first, s)
    ] in
    let same : Verdict × Seen = (equivalent, s) in
    if is_true m.must_survive then control else if noop then same else fresh

-- `mutants.map(..)`, over mutants with what they compile to.
unfoldable pub triage_all : Seen → List (Mutant × Measured) → List (Mutant × Measured × Verdict)
triage_all s [] = []
triage_all s ((m, measured) ∷ rest) =
    let t = triage s m measured in (m, measured, t.0) ∷ triage_all t.1 rest

abbrev pub new_seen : Seen
new_seen = record { seen_hash = []; control_is_noop = [] }

-- What a run has found of a mutant.
pub record Outcome : Type 0 where
  pub mutant : Mutant
  pub killed : Bool
  pub not_covered : Bool

-- `killed`, and `notCovered` where the plan was that nothing reaches the lines. An exit code of 0 is a pass.
abbrev pub outcome : Mutant → Bool → ℕ → Bool → Outcome
outcome m timed_out exit_code unhit =
    let killed = timed_out || ltb 0 exit_code in
    record { mutant = m; killed = killed; not_covered = unhit && not killed }

-- The deadline of a scope, in milliseconds, from how long it took unmutated.
abbrev pub deadline_for : ℕ → ℕ
deadline_for baseline_ms =
    let scaled = baseline_ms * 10 in min 600000 (if ltb scaled 30000 then 30000 else scaled)

-- A survivor that is neither a control nor explained.
abbrev pub is_real_survivor : List Text → Outcome → Bool
is_real_survivor known r =
    not (is_true r.mutant.must_survive)
    && not r.killed
    && not (is_true r.mutant.ratio_only)
    && not (says r.mutant.equivalent)
    && not (text_in r.mutant.name known)

-- Generated mutants that the list of known survivors names, and that were killed.
abbrev pub is_stale_known : List Text → Outcome → Bool
is_stale_known known r =
    not (is_true r.mutant.must_survive) && r.killed && text_in r.mutant.name known

abbrev pub some_of {ℓ} : {A : Type ℓ} → (A → Bool) → List A → Bool
some_of p [] = false
some_of p (x ∷ xs) = p x || some_of p xs

abbrev pub is_noop_control : Seen → Outcome → Bool
is_noop_control s r = is_true (get s.control_is_noop r.mutant.name)

-- The exit code of the report: 2 where a control shows that the harness is broken, 1 where something survived,
-- could not be located, or contradicts the list of known survivors.
unfoldable pub exit_code_of : Seen → List Text → Bool → List Outcome → ℕ
exit_code_of s known located_all results =
    if some_of (λ r. is_true r.mutant.must_survive && not (is_noop_control s r)) results
    then 2
    else if some_of (λ r. is_true r.mutant.must_survive && r.killed) results
    then 2
    else if some_of (is_real_survivor known) results
        || not located_all
        || some_of (is_stale_known known) results
    then 1
    else 0
