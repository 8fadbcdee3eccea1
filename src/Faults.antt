-- ===== src/Faults.antt =====
-- packages/platform/host/faults.ts: which category a host's error belongs to, and how the category travels in
-- an answer; and `faultedMessage` of call.ts, which reads it back. A thrown value is what `faultOf` asks of it.
-- The runtime's text encoder and decoder are parameters.
pub mod Travel
mod Examples
use Prim.Native.Char.{Char, code as code_point}
use Prim.Native.String.{String, ◌++◌ as join_text}
use text.Mathlib.Text.{◌==◌ as same_text}
use wac_mono.Base.{
  ℕ, ◌+◌, ◌%◌, Bool, true, false, ◌||◌, ◌&&◌, not, Option, none, some, List, [], ◌∷◌, ltb, leb,
  ◌==◌, if◌then◌else◌,
}

abbrev pub fault_none : ℕ
fault_none = 0

abbrev pub fault_not_found : ℕ
fault_not_found = 1

abbrev pub fault_denied : ℕ
fault_denied = 2

abbrev pub fault_exists : ℕ
fault_exists = 3

abbrev pub fault_not_empty : ℕ
fault_not_empty = 4

abbrev pub fault_other : ℕ
fault_other = 5

abbrev pub fault_not_representable : ℕ
fault_not_representable = 6

abbrev pub fault_not_granted : ℕ
fault_not_granted = 7

-- The three classes of Deno's errors that are asked for.
pub data DenoError : Type 0 where
  not_found permission_denied already_exists : DenoError

-- A thrown value: the category of a `Faulted`, its class among Deno's errors (under Node it has none), its
-- `code` and its `name` where these are texts, and its message.
pub record Thrown : Type 0 where
  pub faulted : Option ℕ
  pub deno : Option DenoError
  pub code : Option String
  pub name : Option String
  pub message : String

-- What the first test that knows the error says.
abbrev pub or_else : Option ℕ → ℕ → ℕ
or_else none later = later
or_else (some fault) later = fault

unfoldable pub deno_fault : Option DenoError → Option ℕ
deno_fault none = none
deno_fault (some not_found) = some fault_not_found
deno_fault (some permission_denied) = some fault_denied
deno_fault (some already_exists) = some fault_exists

unfoldable pub code_fault : Option String → Option ℕ
code_fault none = none
code_fault (some code) =
    if same_text code "ENOENT"
    then some fault_not_found
    else if same_text code "EACCES" || same_text code "EPERM"
    then some fault_denied
    else if same_text code "EEXIST"
    then some fault_exists
    else if same_text code "ENOTEMPTY"
    then some fault_not_empty
    else none

unfoldable pub name_fault : Option String → Option ℕ
name_fault none = none
name_fault (some name) =
    if same_text name "NotFoundError"
    then some fault_not_found
    else if same_text name "NotAllowedError"
        || same_text name "NoModificationAllowedError"
        || same_text name "SecurityError"
    then some fault_denied
    else if same_text name "InvalidModificationError"
    then some fault_not_empty
    else none

-- An ASCII capital as its small letter, which is all that the flag `i` folds beside a pattern in ASCII.
abbrev pub fold : ℕ → ℕ
fold c = if leb 65 c && leb c 90 then c + 32 else c

unfoldable pub begins : String → String → Bool
begins String.[] text = true
begins (String.◌∷◌ p ps) String.[] = false
begins (String.◌∷◌ p ps) (String.◌∷◌ c cs) = fold (code_point c) == code_point p && begins ps cs

-- `/pattern/i.test(text)`, of a pattern in small letters.
unfoldable pub mentions : String → String → Bool
mentions pattern String.[] = begins pattern String.[]
mentions pattern (String.◌∷◌ c cs) = begins pattern (String.◌∷◌ c cs) || mentions pattern cs

unfoldable pub text_fault : String → ℕ
text_fault message =
    if mentions "not empty" message
      || mentions "os error 39" message
      || mentions "os error 66" message
    then fault_not_empty
    else if mentions "not granted" message
    then fault_not_granted
    else fault_other

unfoldable pub fault_of : Thrown → ℕ
fault_of e = or_else e.faulted (
    or_else (deno_fault e.deno)
      (or_else (code_fault e.code) (or_else (name_fault e.name) (text_fault e.message))))

-- `path.includes("\ufffd")`.
unfoldable pub has_replacement : String → Bool
has_replacement String.[] = false
has_replacement (String.◌∷◌ c cs) = code_point c == 65533 || has_replacement cs

unfoldable pub fault_of_path : Thrown → String → ℕ
fault_of_path e path =
    if not (fault_of e == fault_not_found) || not (has_replacement path)
    then fault_of e
    else fault_not_representable

unfoldable pub path_failure : Thrown → String → Thrown
path_failure e path = if not (fault_of_path e path == fault_not_representable) then e else record {
  faulted = some fault_not_representable;
  deno = none;
  code = none;
  name = some "Faulted";
  message =
      join_text path
        ": the name is not representable on this host — it contains U+FFFD, which is what a lossy directory read leaves in place of bytes that are not valid UTF-8, and no path in this runtime's filesystem API can name the original";
}

unfoldable pub stat_fault : Thrown → String → ℕ
stat_fault e path =
    let fault = fault_of_path e path in
    if fault == fault_not_representable || fault == fault_denied then fault else fault_none

module _ (encode : String → List ℕ) where
  -- The category in the first byte, then the message.
  unfoldable pub change_bytes : ℕ → String → List ℕ
  change_bytes fault message = fault % 256 ∷ encode message

  unfoldable pub faulted_bytes : ℕ → String → List ℕ
  faulted_bytes fault message = change_bytes fault message

  -- The outcome of some work, `none` where it did not throw, as the answer of a change.
  unfoldable pub changed : Option Thrown → (ℕ → String → String) → List ℕ
  changed none describe = fault_none ∷ []
  changed (some e) describe = change_bytes (fault_of e) (describe (fault_of e) e.message)

-- Split an error payload into its category byte and its message.
unfoldable pub faulted_message : (List ℕ → String) → List ℕ → ℕ × String
faulted_message decode [] = (5, "")
faulted_message decode (b ∷ bs) = (b, decode bs)
