-- ===== src/Faults/Travel.antt =====
-- The category that was found where the error was thrown is the one that the caller reads.
use Prim.Native.String.{String}
use wac_mono.Base.{
  ℕ, ◌%◌, ◌≤◌, ◌≡◌, ◌≢◌, ◌⊎◌, refl, sym, arith, true, ◌||◌, not, Option, none, some, List, ◌==◌,
  if_intro, if◌then◌else◌, Bool-cases, inl, inr,
}
use wac_mono.Faults.{
  Thrown, DenoError, not_found, permission_denied, already_exists, fault_not_found,
  fault_not_representable, or_else, deno_fault, code_fault, name_fault, text_fault, fault_of,
  has_replacement, fault_of_path, path_failure, stat_fault, change_bytes, faulted_bytes, changed,
  faulted_message, fault_none,
}

-- The categories that the tests of `faultOf` find.
abbrev pub IsKnown : ℕ → Type 0
IsKnown fault = (1 ≤ fault) × (fault ≤ 7)

abbrev IsKnown? : Option ℕ → Type 0
IsKnown? none = Unit
IsKnown? (some fault) = IsKnown fault

deno_fault-IsKnown : (d : Option DenoError) → IsKnown? (deno_fault d)
unfolding deno_fault
deno_fault-IsKnown none = tt
deno_fault-IsKnown (some not_found) = (omega arith, omega arith)
deno_fault-IsKnown (some permission_denied) = (omega arith, omega arith)
deno_fault-IsKnown (some already_exists) = (omega arith, omega arith)

code_fault-IsKnown : (c : Option String) → IsKnown? (code_fault c)
unfolding code_fault
code_fault-IsKnown none = tt
code_fault-IsKnown (some c) = ground arith

name_fault-IsKnown : (n : Option String) → IsKnown? (name_fault n)
unfolding name_fault
name_fault-IsKnown none = tt
name_fault-IsKnown (some n) = ground arith

text_fault-IsKnown : (m : String) → IsKnown (text_fault m)
unfolding text_fault
text_fault-IsKnown m = ground arith

or_else-IsKnown : (a : Option ℕ) (b : ℕ) → IsKnown? a → IsKnown b → IsKnown (or_else a b)
or_else-IsKnown none b h k = k
or_else-IsKnown (some a) b h k = h

-- An error that names its own category names one of these.
abbrev pub NamesKnown : Thrown → Type 0
NamesKnown e = IsKnown? e.faulted

-- Every error is given one of the seven categories of failure, if a category that it names itself is one.
pub fault_of-IsKnown : (e : Thrown) → NamesKnown e → IsKnown (fault_of e)
unfolding fault_of
fault_of-IsKnown e h = or_else-IsKnown e.faulted _ h (
    or_else-IsKnown _ _ (deno_fault-IsKnown e.deno) (
      or_else-IsKnown _ _ (code_fault-IsKnown e.code)
        (or_else-IsKnown _ _ (name_fault-IsKnown e.name) (text_fault-IsKnown e.message))))

fault_of_path-IsKnown : (e : Thrown) (path : String) → NamesKnown e → IsKnown (fault_of_path e path)
unfolding fault_of_path
fault_of_path-IsKnown e path h = let known = fault_of-IsKnown e h in ground arith

fault_of_path_cases :
    (e : Thrown) (path : String)
    → (fault_of_path e path ≡ fault_of e) ⊎ (fault_of_path e path ≡ fault_not_representable)
unfolding fault_of_path
fault_of_path_cases e path =
    if_intro (λ (f : ℕ). (f ≡ fault_of e) ⊎ (f ≡ fault_not_representable))
      (not (fault_of e == fault_not_found) || not (has_replacement path)) (λ a. inl refl)
      (λ a. inr refl)

fault_of-path_failure :
    (e : Thrown) (path : String) → fault_of (path_failure e path) ≡ fault_of_path e path
unfolding path_failure
fault_of-path_failure e path =
    if_intro (λ (t : Thrown). fault_of t ≡ fault_of_path e path)
      (not (fault_of_path e path == fault_not_representable))
      (λ other. same other (fault_of_path_cases e path)) (λ lost. unfold fault_of in ground arith)
  where
    same :
        not (fault_of_path e path == fault_not_representable) ≡ true
        → (fault_of_path e path ≡ fault_of e) ⊎ (fault_of_path e path ≡ fault_not_representable)
        → fault_of e ≡ fault_of_path e path
    same other (inl f) = sym f
    same other (inr f) = absurd (ground arith)

-- The category that a failed operation on `path` is given where it is thrown, which is that of the error unless
-- the path cannot be expressed, is the category that the caller reads from the answer, with the message that was
-- thrown, if the decoder reads back what the encoder writes of that message, and a category that the error names
-- itself is one of the seven.
pub path_failure-travels :
    (encode : String → List ℕ) (decode : List ℕ → String)
    → (e : Thrown) (path : String)
    → decode (encode (path_failure e path).message) ≡ (path_failure e path).message
    → NamesKnown e
    → let thrown = path_failure e path in
      faulted_message decode (faulted_bytes encode (fault_of thrown) thrown.message)
      ≡ (fault_of_path e path, thrown.message)
unfolding faulted_message faulted_bytes change_bytes
path_failure-travels encode decode e path back h =
    let known = fault_of_path-IsKnown e path h in
    let small : fault_of_path e path % 256 ≡ fault_of_path e path =
      omega (arith, known.0, known.1) in
    rw (fault_of-path_failure e path, small, back) refl

-- The answer of a change starts with the category 0 where the work did not throw; where it did, it carries the
-- category of the error, which is not 0, and the words that were chosen for it, if the decoder reads back what
-- the encoder writes of these words, and a category that the error names itself is one of the seven.
pub changed_tells :
    (encode : String → List ℕ) (decode : List ℕ → String)
    → (e : Thrown) (describe : ℕ → String → String)
    → (let said = describe (fault_of e) e.message in decode (encode said) ≡ said)
    → NamesKnown e
    → ((faulted_message decode (changed encode none describe)).0 ≡ fault_none)
      × (faulted_message decode (changed encode (some e) describe)
          ≡ (fault_of e, describe (fault_of e) e.message))
      × (fault_of e ≢ fault_none)
unfolding faulted_message changed change_bytes
changed_tells encode decode e describe back h =
    let known = fault_of-IsKnown e h in
    let small : fault_of e % 256 ≡ fault_of e = omega (arith, known.0, known.1) in
    (refl, rw (small, back) refl, λ z. omega (arith, known.0))

-- A path that the host reports as missing is no fault of a `stat`, but for a path with the replacement
-- character in it, whose name the host may be unable to express.
pub stat_fault-missing :
    (e : Thrown) (path : String)
    → fault_of e ≡ fault_not_found
    → stat_fault e path ≡ (if has_replacement path then fault_not_representable else fault_none)
unfolding stat_fault fault_of_path
stat_fault-missing e path missing = elim (Bool-cases (has_replacement path)) [
  | inl lossy ↦ rw (missing, lossy) refl
  | inr plain ↦ rw (missing, plain) refl
]
