-- ===== src/Wire/Told.antt =====
-- What a program is told is what the host meant.
use wac_mono.Base.{
  ℕ, ◌+◌, ◌^◌, ◌<◌, ◌≡◌, refl, arith, ℤ, pos, negsuc, true, false, some, List, [], ◌++◌, length,
  concat,
}
use wac_mono.Wire.Bytes.{
  Bytes, i32le, i64le, get_i64, read_i32le, subarray_from, IsInt32, IsInt64, StandsFrom,
  get_i32-stands, get_i64-stands, StandsFrom-past, subarray-stands, subarray_from-stands,
}
use wac_mono.Wire.Spawning.{StandsFrom-i32, is_one}
use wac_mono.Wire.Answers.{
  answered, Metadata, first_line, two_handles, failed_child, no_spawn_here, with_peer, stat_bytes,
  failed_stat, child_answer, captured_answer, socket_answer, stat_answer,
}
use wac_mono.ChildStack.{Stack, Act, Captured, push, pop, run, pack_captured}
use wac_mono.ChildStack.Capture.{Closes, kept, warned, pop-captures}
use wac_mono.Mutate.Texts.{Text}

pub read_i32le-first : (n : ℤ) (rest : Bytes) → IsInt32 n → read_i32le (i32le n ++ rest) ≡ some n
unfolding read_i32le
read_i32le-first n rest small = get_i32-stands (i32le n ++ rest) 0 n rest small refl

-- Two integers, and what stands behind them: the shape of two of the answers.
module _ (a b : ℤ) (rest : Bytes) where
  abbrev both : Bytes
  both = i32le a ++ (i32le b ++ rest)

  at_second : StandsFrom both 4 (i32le b ++ rest)
  at_second = StandsFrom-i32 both 0 a (i32le b ++ rest) refl

  second : subarray_from both (pos 4) ≡ i32le b ++ rest
  second = subarray_from-stands both 4 (i32le b ++ rest) at_second

  third : subarray_from both (pos 8) ≡ rest
  third = subarray_from-stands both 8 rest (StandsFrom-i32 both 4 b rest at_second)

-- What an answer says of a program that runs is no reason, and of one that does not, the reason.
abbrev reason : ℤ → Text → Text
reason (pos n) why = []
reason (negsuc n) why = why

module _ (encode : Text → Bytes) (decode : Bytes → Text) (too_short : Text) where
  tells_child :
      (why : Text)
      → decode (encode (first_line why)) ≡ first_line why
      → (handle err_handle : ℤ) → IsInt32 handle
      → IsInt32 err_handle
      → child_answer decode too_short (answered (two_handles encode handle err_handle why))
        ≡ record {
          handle = handle;
          err_handle = err_handle;
          error = reason handle (first_line why);
        }
  unfolding child_answer two_handles
  tells_child why back (pos n) e small err_small =
      let rest = encode (first_line why) in
      rw
        (
          read_i32le-first (pos n) (i32le e ++ rest) small,
          second (pos n) e rest,
          read_i32le-first e rest err_small,
        )
        refl
  tells_child why back (negsuc n) e small err_small =
      let rest = encode (first_line why) in
      rw
        (
          read_i32le-first (negsuc n) (i32le e ++ rest) small,
          second (negsuc n) e rest,
          read_i32le-first e rest err_small,
          third (negsuc n) e rest,
          back,
        )
        refl

  -- What a program is told of the child that it spawned: the two handles of one that runs, with no reason; the
  -- handles -1 and the first line of the reason for one that failed to start; and the handles -2 and the reason where
  -- the host cannot spawn; if the two handles are below 2^31 and the decoder reads back what the encoder writes of that
  -- line.
  pub child_answer-two_handles :
      (why : Text) (handle err_handle : ℕ)
      → handle < 2 ^ 31
      → err_handle < 2 ^ 31
      → decode (encode (first_line why)) ≡ first_line why
      → (child_answer decode too_short
            (answered (two_handles encode (pos handle) (pos err_handle) why))
          ≡ record { handle = pos handle; err_handle = pos err_handle; error = [] })
        × (child_answer decode too_short (answered (failed_child encode why))
            ≡ record { handle = negsuc 0; err_handle = negsuc 0; error = first_line why })
        × (child_answer decode too_short (answered (no_spawn_here encode why))
            ≡ record { handle = negsuc 1; err_handle = negsuc 1; error = first_line why })
  unfolding failed_child no_spawn_here
  child_answer-two_handles why handle err_handle small err_small back = (
    tells_child why back (pos handle) (pos err_handle) small err_small,
    tells_child why back (negsuc 0) (negsuc 0) (omega arith) (omega arith),
    tells_child why back (negsuc 1) (negsuc 1) (omega arith) (omega arith),
  )

  -- What a program is told of a socket is its handle, its port and the peer's address.
  pub socket_answer-with_peer :
      (handle port : ℤ) (peer : Text)
      → IsInt32 handle
      → IsInt32 port
      → decode (encode peer) ≡ peer
      → socket_answer decode too_short (answered (with_peer encode handle peer port))
        ≡ record { handle = handle; error = []; peer = peer; port = port }
  unfolding socket_answer with_peer
  socket_answer-with_peer handle port peer small port_small back =
      rw
        (
          read_i32le-first handle (i32le port ++ encode peer) small,
          second handle port (encode peer),
          read_i32le-first port (encode peer) port_small,
          third handle port (encode peer),
          back,
        )
        refl

  captured_answer-pack_captured :
      (c : Captured)
      → length c.out < 2 ^ 31
      → captured_answer decode too_short (answered (pack_captured c))
        ≡ record { out = c.out; err = c.err }
  unfolding captured_answer pack_captured
  captured_answer-pack_captured c fits =
      let p = pack_captured c in
      let at_out : StandsFrom p 4 (c.out ++ c.err) =
        StandsFrom-i32 p 0 (pos (length c.out)) (c.out ++ c.err) refl in
      rw
        (
          read_i32le-first (pos (length c.out)) (c.out ++ c.err) fits,
          subarray-stands p 4 c.out c.err at_out,
          subarray_from-stands p (4 + length c.out) c.err (StandsFrom-past p 4 c.out c.err at_out),
        )
        refl

  -- A program that pushes a child, lets it act, with every program inside it popped again, and pops it, is told just
  -- what the child wrote on each of its streams, without the writes that did not fit under the cap.
  pub captured_answer-pop :
      (s : Stack) (argv : List Text) (stdin : Bytes) (cwd : Text) (acts : List Act)
      → Closes 0 acts
      → captured_answer decode too_short
          (answered (pack_captured (pop (run (push s argv stdin cwd) acts)).0))
        ≡ record { out = concat (kept 0 0 acts); err = concat (warned 0 acts) }
  captured_answer-pop s argv stdin cwd acts closes =
      let captured = pop-captures s argv stdin cwd acts closes in
      rw (captured.0) (
        captured_answer-pack_captured
          (record { out = concat (kept 0 0 acts); err = concat (warned 0 acts) })
          (omega (arith, captured.1)))

-- What a program is told of a file that is there is all that the host knows of it, if its size and its time are integers
-- of 64 bits; and of a failure, that nothing is there, with the category.
pub stat_answer-stat_bytes :
    (m : Metadata) (fault : ℕ)
    → IsInt64 m.size
    → IsInt64 m.mtime
    → (stat_answer (answered (stat_bytes m)) ≡ record {
      exists = true;
      is_file = m.file_here;
      is_dir = m.dir_here;
      size = m.size;
      mtime = m.mtime;
      is_symlink = m.symlink;
      fault = 0;
    })
      × (stat_answer (answered (failed_stat fault)) ≡ record {
        exists = false;
        is_file = false;
        is_dir = false;
        size = pos 0;
        mtime = pos 0;
        is_symlink = false;
        fault = fault;
      })
unfolding stat_answer stat_bytes failed_stat i64le
stat_answer-stat_bytes m fault sized timed = (
  rw
      (
        get_i64-stands (stat_bytes m) 3 m.size _ sized refl,
        get_i64-stands (stat_bytes m) 11 m.mtime _ timed refl,
      )
      (λ i. record {
        exists = true;
        is_file = is_one m.file_here i;
        is_dir = is_one m.dir_here i;
        size = m.size;
        mtime = m.mtime;
        is_symlink = is_one m.symlink i;
        fault = 0;
      }),
  unfold get_i64 in refl,
)
