-- ===== src/Faults/Examples.antt =====
-- Errors of the three runtimes, and the categories that they are given.
use Prim.Native.Char.{Char, code as code_point}
use Prim.Native.String.{String}
use wac_mono.Base.{ℕ, ◌≡◌, refl, none, some, List, [], ◌∷◌, ◌==◌, if◌then◌else◌}
use wac_mono.Faults.{
  Thrown, fault_of, fault_of_path, path_failure, faulted_bytes, faulted_message, deno_fault,
  code_fault, name_fault, text_fault, mentions, begins, has_replacement,
}
use wac_mono.Faults.Travel.{path_failure-travels}

-- A code for texts of the letters g, o, n and e.
abbrev encode : String → List ℕ
encode String.[] = []
encode (String.◌∷◌ c cs) = code_point c ∷ encode cs

abbrev letter : ℕ → Char
letter b = if b == 103 then "g" else if b == 111 then "o" else if b == 110 then "n" else "e"

abbrev decode : List ℕ → String
decode [] = ""
decode (b ∷ bs) = String.◌∷◌ (letter b) (decode bs)

abbrev gone : Thrown
gone = record {
  faulted = none;
  deno = none;
  code = some "ENOENT";
  name = some "Error";
  message = "gone";
}

gone-fault : fault_of gone ≡ 1
unfolding fault_of deno_fault code_fault
gone-fault = refl

abbrev ungranted : Thrown
ungranted = record {
  faulted = none;
  deno = none;
  code = none;
  name = some "Error";
  message = "reading is Not Granted";
}

path_failure-travels_example :
    let thrown = path_failure gone "one" in
    faulted_message decode (faulted_bytes encode (fault_of thrown) thrown.message)
    ≡ (fault_of_path gone "one", thrown.message)
path_failure-travels_example =
    path_failure-travels encode decode gone "one"
      (unfold path_failure fault_of_path fault_of deno_fault code_fault has_replacement in refl) tt

ungranted-fault : fault_of ungranted ≡ 7
unfolding fault_of deno_fault code_fault name_fault text_fault mentions begins
ungranted-fault = refl
