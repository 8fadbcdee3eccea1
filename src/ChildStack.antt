-- ===== src/ChildStack.antt =====
-- packages/platform/host/child.ts: the programs that run inside a program, one inside the other. The innermost
-- stands first here, where the source keeps it last. What an operation changes is returned beside its answer, and
-- `none` is the answer that no child is running.
pub mod Capture
pub mod Reading
mod Examples
use wac_mono.Base.{
  ℕ, ◌+◌, ◌-◌, min, pos, Bool, true, false, ◌||◌, Option, none, some, List, [], ◌∷◌, ◌++◌, ◌==◌,
  ltb, if◌then◌else◌, length, take, drop, concat,
}
use wac_mono.Wire.Bytes.{Bytes, i32le}
use wac_mono.Wire.Requests.{prefixed}
use wac_mono.Mutate.Texts.{Text}

-- The most that one `readChunk` answers with.
abbrev pub chunk_bytes : ℕ
chunk_bytes = 65536

-- The most that a child may write.
abbrev pub cap_bytes : ℕ
cap_bytes = 8388608

-- `stdin` is what the child reads and `at` how far it has read; `out` and `err` are what it wrote, and `written` is
-- how much `out` holds.
pub record Frame : Type 0 where
  pub argv : List Text
  pub stdin : Bytes
  pub at : ℕ
  pub cwd : Text
  pub out : List Bytes
  pub err : List Bytes
  pub written : ℕ

abbrev pub Stack : Type 0
Stack = List Frame

abbrev starts_with_slash : Text → Bool
starts_with_slash [] = false
starts_with_slash (c ∷ cs) = c == 47

abbrev ends_with_slash : Text → Bool
ends_with_slash [] = false
ends_with_slash (c ∷ []) = c == 47
ends_with_slash (c ∷ d ∷ rest) = ends_with_slash (d ∷ rest)

abbrev is_empty : Text → Bool
is_empty [] = true
is_empty (c ∷ cs) = false

unfoldable pub join_path : Text → Text → Text
join_path cwd path =
    if is_empty cwd || starts_with_slash path
    then path
    else if is_empty path
    then cwd
    else if ends_with_slash cwd
    then cwd ++ path
    else cwd ++ (47 ∷ path)

unfoldable pub active : Stack → Bool
active [] = false
active (f ∷ rest) = true

unfoldable pub push : Stack → List Text → Bytes → Text → Stack
push s argv stdin cwd =
    record { argv = argv; stdin = stdin; at = 0; cwd = cwd; out = []; err = []; written = 0 } ∷ s

unfoldable pub args : Stack → Option (List Text)
args [] = none
args (f ∷ rest) = some f.argv

-- What a child wrote, on its two streams.
pub record Captured : Type 0 where
  pub out : Bytes
  pub err : Bytes

-- A pop with nothing pushed gives two empty arrays.
unfoldable pub pop : Stack → Captured × Stack
pop [] = (record { out = []; err = [] }, [])
pop (f ∷ rest) = (record { out = concat f.out; err = concat f.err }, rest)

unfoldable pub read_chunk : Stack → Option Bytes × Stack
read_chunk [] = (none, [])
read_chunk (f ∷ rest) =
    let end = min (f.at + chunk_bytes) (length f.stdin) in
    (some (take (end - f.at) (drop f.at f.stdin)), record f { at = end } ∷ rest)

unfoldable pub read_all : Stack → Option Bytes × Stack
read_all [] = (none, [])
read_all (f ∷ rest) = (some (drop f.at f.stdin), record f { at = length f.stdin } ∷ rest)

-- Whether the bytes are kept.
unfoldable pub write : Stack → Bytes → Bool × Stack
write [] bytes = (false, [])
write (f ∷ rest) bytes =
    if ltb cap_bytes (f.written + length bytes)
    then (false, f ∷ rest)
    else (true, record f { out = f.out ++ bytes ∷ []; written = f.written + length bytes } ∷ rest)

unfoldable pub warn : Stack → Bytes → Bool × Stack
warn [] bytes = (false, [])
warn (f ∷ rest) bytes = (true, record f { err = f.err ++ bytes ∷ [] } ∷ rest)

unfoldable pub path : Stack → Text → Text
unfolding join_path
path [] p = p
path (f ∷ rest) p = join_path f.cwd p

-- The answer to `popChild`.
unfoldable pub pack_captured : Captured → Bytes
pack_captured c = i32le (pos (length c.out)) ++ (c.out ++ c.err)

-- What a program can do that reaches the children.
pub data Act : Type 0 where
  pushes : List Text → Bytes → Text → Act
  pops reads_chunk reads_all : Act
  writes warns : Bytes → Act

unfoldable pub act : Stack → Act → Stack
unfolding push pop read_chunk read_all write warn
act s (pushes argv stdin cwd) = push s argv stdin cwd
act s pops = (pop s).1
act s reads_chunk = (read_chunk s).1
act s reads_all = (read_all s).1
act s (writes bytes) = (write s bytes).1
act s (warns bytes) = (warn s bytes).1

unfoldable pub run : Stack → List Act → Stack
unfolding act
run s [] = s
run s (a ∷ rest) = run (act s a) rest
