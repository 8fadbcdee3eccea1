-- ===== src/World/Serve.antt =====
-- The handlers of deno.ts that reach the file system and the network, up to the call of the runtime that they make:
-- their tests for a grant, what they read from the payload, and the path that they mean. What the runtime's call then
-- gives is not modelled. The runtime's text encoder and decoder are parameters; `none` is a payload that is too short,
-- which throws.
use Prim.Native.String.{String}
use wac_mono.Base.{
  ℕ, ℤ, Bool, true, false, not, Option, none, some, [], ◌∷◌, ◌++◌, if◌then◌else◌, ◌>>=◌,
}
use wac_mono.Wire.Bytes.{Bytes}
use wac_mono.Wire.Unpack.{unpack_rename, unpack_write_file, unpack_flagged, unpack_connect}
use wac_mono.Wire.Answers.{failed_stat}
use wac_mono.ChildStack.{Stack, join_path, path}
use wac_mono.Faults.{fault_none, fault_not_granted, change_bytes}
use wac_mono.World.{Options, may_read, may_write}
use wac_mono.Mutate.Texts.{Text, text}

-- The capabilities that need a grant.
pub data HostOp : Type 0 where
  read_file write_file stat link_stat read_dir mkdir remove rename : HostOp
  open_input open_output connect listen : HostOp

-- The call of the runtime that a handler makes.
pub data SystemCall : Type 0 where
  reads_file stats link_stats lists opens_input opens_output : Text → SystemCall
  writes_file : Text → Bytes → SystemCall
  makes_dir removes : Text → Bool → SystemCall
  renames : Text → Text → SystemCall
  connects : Text → ℤ → SystemCall
  listens : Option Text → ℤ → SystemCall

-- A handler makes a call, or answers by itself, or throws an error with a category.
pub data Served : Type 0 where
  calls : SystemCall → Served
  answers : Bytes → Served
  denies : ℕ → Text → Served

abbrev or_empty : Option Text → Text
or_empty none = []
or_empty (some t) = t

-- `P`: a path as this world means it.
unfoldable pub place : Options → Stack → Text → Text
place opts kids p = join_path (or_empty opts.cwd) (path kids p)

abbrev is_empty : Text → Bool
is_empty [] = true
is_empty (c ∷ cs) = false

unfoldable pub deny : Text → Served
deny what = denies fault_not_granted (what ++ text " not granted to this application")

module _ (encode : Text → Bytes) (decode : Bytes → Text) (opts : Options) (kids : Stack) where
  unfoldable pub not_granted : String → Served
  not_granted message = answers (change_bytes (λ s. encode (text s)) fault_not_granted message)

  -- What a change answers where writing is not granted, and its call where it is.
  unfoldable pub when_writable : Option Served → Option Served
  unfolding not_granted
  when_writable served =
      if not (may_write opts)
      then some (not_granted "filesystem write not granted to this application")
      else served

  unfoldable pub when_readable : Option Served → Option Served
  unfolding deny
  when_readable served =
      if not (may_read opts) then some (deny (text "filesystem read")) else served

  unfoldable pub when_seen : Option Served → Option Served
  when_seen served =
      if not (may_read opts) then some (answers (failed_stat fault_not_granted)) else served

  unfoldable pub when_online : Option Served → Option Served
  unfolding deny
  when_online served = if not opts.net then some (deny (text "network access")) else served

  -- The current input or output goes back to the standard one where the path is empty, which needs no grant.
  unfoldable pub opened : Text → Option Served → Option Served
  opened p served = if is_empty p then some (answers (fault_none ∷ [])) else served

  unfoldable pub on_read_file : Bytes → Option Served
  unfolding when_readable place
  on_read_file p = when_readable (some (calls (reads_file (place opts kids (decode p)))))

  unfoldable pub on_write_file : Bytes → Option Served
  unfolding when_writable place
  on_write_file p = when_writable (do
    asked ← unpack_write_file decode p
    some (calls (writes_file (place opts kids asked.0) asked.1)))

  unfoldable pub on_stat : Bytes → Option Served
  unfolding when_seen place
  on_stat p = when_seen (some (calls (stats (place opts kids (decode p)))))

  unfoldable pub on_link_stat : Bytes → Option Served
  unfolding when_seen place
  on_link_stat p = when_seen (some (calls (link_stats (place opts kids (decode p)))))

  unfoldable pub on_read_dir : Bytes → Option Served
  unfolding when_readable place
  on_read_dir p = when_readable (some (calls (lists (place opts kids (decode p)))))

  unfoldable pub on_mkdir : Bytes → Option Served
  unfolding when_writable place
  on_mkdir p =
      let asked = unpack_flagged decode p in
      when_writable (some (calls (makes_dir (place opts kids asked.1) asked.0)))

  unfoldable pub on_remove : Bytes → Option Served
  unfolding when_writable place
  on_remove p =
      let asked = unpack_flagged decode p in
      when_writable (some (calls (removes (place opts kids asked.1) asked.0)))

  unfoldable pub on_rename : Bytes → Option Served
  unfolding when_writable place
  on_rename p = when_writable (do
    asked ← unpack_rename decode p
    some (calls (renames (place opts kids asked.0) (place opts kids asked.1))))

  unfoldable pub on_open_input : Bytes → Option Served
  unfolding opened not_granted place
  on_open_input p = opened (decode p) (
      if not (may_read opts)
      then some (not_granted "filesystem read not granted to this application")
      else some (calls (opens_input (place opts kids (decode p)))))

  unfoldable pub on_open_output : Bytes → Option Served
  unfolding opened when_writable place
  on_open_output p =
      opened (decode p) (when_writable (some (calls (opens_output (place opts kids (decode p))))))

  unfoldable pub on_connect : Bytes → Option Served
  unfolding when_online
  on_connect p =
      when_online (do asked ← unpack_connect decode p; some (calls (connects asked.0 asked.1)))

  unfoldable pub on_listen : Bytes → Option Served
  unfolding when_online
  on_listen p = when_online (do
    asked ← unpack_connect decode p
    some (calls (listens (if is_empty (asked.0) then none else some (asked.0)) asked.1)))

  -- The table of the handlers.
  unfoldable pub serve : HostOp → Bytes → Option Served
  unfolding on_read_file on_write_file on_stat on_link_stat on_read_dir on_mkdir on_remove on_rename
      on_open_input on_open_output on_connect on_listen
  serve read_file p = on_read_file p
  serve write_file p = on_write_file p
  serve stat p = on_stat p
  serve link_stat p = on_link_stat p
  serve read_dir p = on_read_dir p
  serve mkdir p = on_mkdir p
  serve remove p = on_remove p
  serve rename p = on_rename p
  serve open_input p = on_open_input p
  serve open_output p = on_open_output p
  serve connect p = on_connect p
  serve listen p = on_listen p
