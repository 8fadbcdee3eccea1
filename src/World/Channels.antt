-- ===== src/World/Channels.antt =====
-- The handlers of deno.ts for a world's own streams: standard input, output and error, and the programs pushed inside of
-- it. What a write of the runtime comes to, and what a read of the world's own input gives, are parameters of a handler.
use wac_mono.Base.{
  ℕ, ℤ, pos, negsuc, Bool, true, false, not, ◌&&◌, ◌||◌, Option, none, some, List, [], ◌∷◌, ◌++◌,
  ◌==◌, if◌then◌else◌, length, get_elem?, ◌>>=◌,
}
use wac_mono.Wire.Bytes.{Bytes, i32le, read_i32le}
use wac_mono.Wire.Unpack.{unpack_push}
use wac_mono.Wire.Answers.{chunk_answer, data_bytes, end_bytes, failed_bytes}
use wac_mono.ChildStack
use wac_mono.ChildStack.{Stack, Captured, active, pack_captured}
use wac_mono.Faults.{fold}
use wac_mono.Mutate.Texts.{Text, text}

-- `source` and `sink` are the files that are the current input and output, where these are not the standard ones.
pub record Channels : Type 0 where
  pub kids : Stack
  pub source : Option ℕ
  pub sink : Option ℕ
  pub output_failure : Text

-- What leaves the world: a line or bytes to its own output or error stream, or bytes to a file.
pub data Effect : Type 0 where
  logs warns_line writes_out writes_err : Bytes → Effect
  writes_to : ℕ → Bytes → Effect

pub data Reply : Type 0 where
  replies : Bytes → Reply
  throws : Text → Reply

pub record Turn : Type 0 where
  pub channels : Channels
  pub effects : List Effect
  pub reply : Reply

-- `lineOf`
abbrev pub line_of : Bytes → Bytes
line_of p = p ++ 10 ∷ []

abbrev with_kids : Channels → Stack → Channels
with_kids c kids = record c { kids = kids }

abbrev pub done : Channels → List Effect → Turn
done c effects = record { channels = c; effects = effects; reply = replies [] }

-- A line is kept as the output of the program that is pushed, if it fits; what `kids.write` answers is not looked at.
unfoldable pub on_log : Channels → Bytes → Turn
unfolding active ChildStack.write
on_log c p =
    if active c.kids
    then done (with_kids c (ChildStack.write c.kids (line_of p)).1) []
    else done c (logs p ∷ [])

unfoldable pub on_warn : Channels → Bytes → Turn
unfolding ChildStack.warn
on_warn c p =
    let (taken, kids) = ChildStack.warn c.kids (line_of p) in
    if taken then done (with_kids c kids) [] else done c (warns_line p ∷ [])

abbrev begins : Text → Text → Bool
begins [] t = true
begins (p ∷ ps) [] = false
begins (p ∷ ps) (c ∷ cs) = fold c == p && begins ps cs

abbrev mentions_text : Text → Text → Bool
mentions_text pattern [] = begins pattern []
mentions_text pattern (c ∷ cs) = begins pattern (c ∷ cs) || mentions_text pattern cs

-- What is recorded of a failed write: nothing where the reader went away.
unfoldable pub failure_of : Text → Text
failure_of message =
    if mentions_text (text "broken pipe") message || mentions_text (text "os error 32") message
    then []
    else message

-- A write of the runtime, which may fail with a message.
unfoldable pub written : Channels → Effect → Option Text → Turn
unfolding failure_of
written c e none = done c (e ∷ [])
written c e (some message) = record {
  channels = record c { output_failure = failure_of message };
  effects = [];
  reply = throws message;
}

-- The file that the output was opened on comes first.
abbrev out_effect : Option ℕ → Bytes → Effect
out_effect none p = writes_out p
out_effect (some file) p = writes_to file p

unfoldable pub on_write_stdout : Channels → Bytes → Option Text → Turn
unfolding active ChildStack.write written
on_write_stdout c p failure =
    let (taken, kids) = ChildStack.write c.kids p in
    let outside = written c (out_effect c.sink p) failure in
    if active c.kids
    then (if not taken
        then record {
          channels = c;
          effects = [];
          reply = throws (text "the child's output buffer is full");
        }
        else done (with_kids c kids) [])
    else outside

unfoldable pub on_write_stderr : Channels → Bytes → Option Text → Turn
unfolding active ChildStack.warn written
on_write_stderr c p failure =
    let outside = written c (writes_err p) failure in
    if active c.kids then done (with_kids c (ChildStack.warn c.kids p).1) [] else outside

unfoldable pub on_pop_child : Channels → Turn
unfolding ChildStack.pop pack_captured
on_pop_child c =
    let (captured, kids) = ChildStack.pop c.kids in
    record { channels = with_kids c kids; effects = []; reply = replies (pack_captured captured) }

abbrev or_else {ℓ} : {A : Type ℓ} → Option A → A → A
or_else none other = other
or_else (some a) other = a

-- All of the input, where `own` is all of the world's own.
unfoldable pub on_read_stdin : Channels → Bytes → Turn
unfolding ChildStack.read_all
on_read_stdin c own =
    let (fed, kids) = ChildStack.read_all c.kids in
    record { channels = with_kids c kids; effects = []; reply = replies (or_else fed own) }

-- What the current input of the world gives when it is read: a chunk of its caller's, bytes of the runtime's or its end,
-- or a failure.
pub data OwnRead : Type 0 where
  piped : Bytes → OwnRead
  bytes_read : Bytes → OwnRead
  input_ended : OwnRead
  read_failed : Text → OwnRead

abbrev fed_chunk : Option ℕ → Stack → Option Bytes × Stack
fed_chunk none kids = ChildStack.read_chunk kids
fed_chunk (some file) kids = (none, kids)

module _ (encode : Text → Bytes) (decode : Bytes → Text) where
  own_answer : OwnRead → Bytes
  own_answer (piped p) = chunk_answer p
  own_answer (bytes_read b) = data_bytes b
  own_answer input_ended = end_bytes
  own_answer (read_failed why) = failed_bytes encode why

  abbrev chunk_or_own : Option Bytes → OwnRead → Bytes
  chunk_or_own none own = own_answer own
  chunk_or_own (some chunk) own = chunk_answer chunk

  unfoldable pub on_read_chunk : Channels → OwnRead → Turn
  unfolding own_answer ChildStack.read_chunk
  on_read_chunk c own =
      let (fed, kids) = fed_chunk c.source c.kids in
      record { channels = with_kids c kids; effects = []; reply = replies (chunk_or_own fed own) }

  unfoldable pub on_push_child : Channels → Bytes → Option Turn
  unfolding unpack_push ChildStack.push
  on_push_child c p = do
    asked ← unpack_push decode p
    some (done (with_kids c (ChildStack.push c.kids asked.argv asked.stdin asked.cwd)) [])

  abbrev argument_at : List Bytes → ℤ → Bytes
  argument_at own (pos i) = or_else (get_elem? own i) []
  argument_at own (negsuc n) = []

  abbrev encoded : List Text → List Bytes
  encoded [] = []
  encoded (t ∷ rest) = encode t ∷ encoded rest

  -- The arguments that a program sees, as bytes: those of the innermost program that is pushed, if there is one.
  unfoldable pub own_args : Channels → List Bytes → List Bytes
  unfolding ChildStack.args
  own_args c args = elim (ChildStack.args c.kids) [ none ↦ args | some argv ↦ encoded argv ]

  unfoldable pub on_arg_count : Channels → List Bytes → Bytes
  unfolding own_args
  on_arg_count c args = i32le (pos (length (own_args c args)))

  unfoldable pub on_arg : Channels → List Bytes → Bytes → Option Bytes
  unfolding own_args
  on_arg c args p = do i ← read_i32le p; some (argument_at (own_args c args) i)
