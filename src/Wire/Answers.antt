-- ===== src/Wire/Answers.antt =====
-- What the hosts answer (deno.ts, children.ts and child.ts), and how provider.ts reads it for the program. A call is
-- collected, or it throws with a message and a category. The runtime's encoder and decoder are parameters, as is
-- the message of its own error where an answer is too short.
use wac_mono.Base.{
  ℕ, ℤ, pos, negsuc, Bool, true, false, Option, none, some, List, [], ◌∷◌, ◌++◌, ◌==◌,
  if◌then◌else◌, ◌>>=◌, get_elem?, replicate,
}
use wac_mono.Wire.Bytes.{Bytes, i32le, i64le, get_i64, read_i32le, subarray, subarray_from, ◌+ℤ◌}
use wac_mono.Wire.Requests.{flag_byte, join_nul}
use wac_mono.Wire.Unpack.{split_nul, byte_is_one}
use wac_mono.Mutate.Texts.{Text}
use wac_mono.Faults.{fault_other}

pub data Collected : Type 0 where
  answered : Bytes → Collected
  threw : Text → ℕ → Collected

pub data Read : Type 0 where
  got : Bytes → Read
  ended : Read
  broke : Text → Read

-- A started program: the handles of its output and of its error stream, or why there is none.
pub record ChildHandle : Type 0 where
  pub handle : ℤ
  pub err_handle : ℤ
  pub error : Text

pub record SocketHandle : Type 0 where
  pub handle : ℤ
  pub error : Text
  pub peer : Text
  pub port : ℤ

pub record Streams : Type 0 where
  pub out : Bytes
  pub err : Bytes

pub record Stat : Type 0 where
  pub exists : Bool
  pub is_file : Bool
  pub is_dir : Bool
  pub size : ℤ
  pub mtime : ℤ
  pub is_symlink : Bool
  pub fault : ℕ

pub record FileResult : Type 0 where
  pub ok : Bool
  pub bytes : Bytes
  pub error : Text
  pub fault : ℕ

-- `why.split("\n")[0]`
abbrev pub first_line : Text → Text
first_line [] = []
first_line (c ∷ cs) = let more = first_line cs in if c == 10 then [] else c ∷ more

-- The value, or what a throw inside of the `try` comes to.
abbrev or_failed {ℓ} : {A : Type ℓ} → Option A → A → A
or_failed none failed = failed
or_failed (some a) failed = a

-- `data` of deno.ts, `END`, and what a chunk of a stream is as an answer, where an empty one is its end.
abbrev pub data_bytes : Bytes → Bytes
data_bytes bytes = 0 ∷ bytes

abbrev pub end_bytes : Bytes
end_bytes = 1 ∷ []

unfoldable pub chunk_answer : Bytes → Bytes
chunk_answer [] = end_bytes
chunk_answer (b ∷ bs) = data_bytes (b ∷ bs)

-- What the file system says of a file.
pub record Metadata : Type 0 where
  pub file_here : Bool
  pub dir_here : Bool
  pub size : ℤ
  pub mtime : ℤ
  pub symlink : Bool

-- The 21 bytes of an answer to `stat`: of a file that is there, and of a failure.
unfoldable pub stat_bytes : Metadata → Bytes
stat_bytes m =
    1 ∷ flag_byte m.file_here
    ++ (flag_byte m.dir_here
        ++ (i64le m.size ++ (i64le m.mtime ++ (flag_byte m.symlink ++ 0 ∷ []))))

-- Of a failure, with its category, or 0 where the file is absent.
unfoldable pub failed_stat : ℕ → Bytes
failed_stat fault = replicate 20 0 ++ fault ∷ []

module _ (encode : Text → Bytes) where
  unfoldable pub failed_bytes : Text → Bytes
  failed_bytes why = 2 ∷ encode why

  unfoldable pub two_handles : ℤ → ℤ → Text → Bytes
  two_handles handle err_handle why = i32le handle ++ (i32le err_handle ++ encode (first_line why))

  unfoldable pub failed_child : Text → Bytes
  unfolding two_handles
  failed_child why = two_handles (negsuc 0) (negsuc 0) why

  unfoldable pub no_spawn_here : Text → Bytes
  unfolding two_handles
  no_spawn_here why = two_handles (negsuc 1) (negsuc 1) why

  unfoldable pub with_peer : ℤ → Text → ℤ → Bytes
  with_peer handle peer port = i32le handle ++ (i32le port ++ encode peer)

  unfoldable pub env_bytes : Option Text → Bytes
  env_bytes none = 0 ∷ []
  env_bytes (some v) = 1 ∷ encode v

  unfoldable pub dir_bytes : List Text → Bytes
  dir_bytes names = encode (join_nul names)

module _ (decode : Bytes → Text) (too_short : Text) where
  unfoldable pub read_of : Bytes → Read
  read_of [] = ended
  read_of (b ∷ bs) = if b == 1 then ended else if b == 2 then broke (decode bs) else got bs

  -- `read`, and `readNow`.
  unfoldable pub read_answer : Collected → Read
  unfolding read_of
  read_answer (answered out) = read_of out
  read_answer (threw message fault) = broke message

  abbrev is_negative : ℤ → Bool
  is_negative (pos n) = false
  is_negative (negsuc n) = true

  unfoldable pub child_answer : Collected → ChildHandle
  unfolding read_i32le
  child_answer (threw message fault) = record {
    handle = negsuc 0;
    err_handle = negsuc 0;
    error = message;
  }
  child_answer (answered out) =
      or_failed
        (do
          handle ← read_i32le out
          err_handle ← read_i32le (subarray_from out (pos 4))
          some (record {
            handle = handle;
            err_handle = err_handle;
            error = if is_negative handle then decode (subarray_from out (pos 8)) else [];
          }))
        (record { handle = negsuc 0; err_handle = negsuc 0; error = too_short })

  unfoldable pub captured_answer : Collected → Streams
  unfolding read_i32le
  captured_answer (threw message fault) = record { out = []; err = [] }
  captured_answer (answered out) =
      or_failed
        (do
          n ← read_i32le out
          some (record {
            out = subarray out (pos 4) (pos 4 +ℤ n);
            err = subarray_from out (pos 4 +ℤ n);
          }))
        (record { out = []; err = [] })

  unfoldable pub socket_answer : Collected → SocketHandle
  unfolding read_i32le
  socket_answer (threw message fault) = record {
    handle = negsuc 0;
    error = message;
    peer = [];
    port = pos 0;
  }
  socket_answer (answered out) =
      or_failed
        (do
          handle ← read_i32le out
          port ← read_i32le (subarray_from out (pos 4))
          some (record {
            handle = handle;
            error = [];
            peer = decode (subarray_from out (pos 8));
            port = port;
          }))
        (record { handle = negsuc 0; error = too_short; peer = []; port = pos 0 })

  unfoldable pub dir_answer : Collected → Option (List Text)
  dir_answer (threw message fault) = none
  dir_answer (answered []) = some []
  dir_answer (answered (b ∷ bs)) = some (split_nul (decode (b ∷ bs)))

  unfoldable pub file_answer : Collected → FileResult
  file_answer (answered out) = record { ok = true; bytes = out; error = []; fault = 0 }
  file_answer (threw message fault) = record {
    ok = false;
    bytes = [];
    error = message;
    fault = fault;
  }

  -- A change: the category of its failure, 0 for none, and the message.
  unfoldable pub change_answer : Collected → ℕ × Text
  change_answer (answered []) = (0, [])
  change_answer (answered (b ∷ bs)) = (b, decode bs)
  change_answer (threw message fault) = (5, message)

unfoldable pub maybe_bytes : Bytes → Option Bytes
maybe_bytes out = if byte_is_one out (pos 0) then some (subarray_from out (pos 1)) else none

abbrev no_stat : Stat
no_stat = record {
  exists = false;
  is_file = false;
  is_dir = false;
  size = pos 0;
  mtime = pos 0;
  is_symlink = false;
  fault = fault_other;
}

unfoldable pub stat_answer : Collected → Stat
stat_answer (threw message fault) = no_stat
stat_answer (answered out) =
    or_failed
      (do
        size ← get_i64 out 3
        mtime ← get_i64 out 11
        some (record {
          exists = byte_is_one out (pos 0);
          is_file = byte_is_one out (pos 1);
          is_dir = byte_is_one out (pos 2);
          size = size;
          mtime = mtime;
          is_symlink = byte_is_one out (pos 19);
          fault = elim (get_elem? out 20) [ none ↦ 0 | some b ↦ b ];
        }))
      no_stat
