-- ===== src/Wire/Unpack.antt =====
-- The host's reading of a payload: `want`, `unpackSpawn`, `unpackSpawnSelf` and `unpackArgs` of children.ts,
-- `unpackPush` of child.ts, and what the handlers of deno.ts read by themselves. `none` is a read beyond the payload,
-- which throws. The runtime's text decoder is a parameter.
use wac_mono.Base.{
  ℕ, zero, suc, ℤ, pos, negsuc, Bool, false, Option, none, some, List, [], ◌∷◌, ◌++◌, ◌==◌,
  if◌then◌else◌, get_elem?, ◌>>=◌,
}
use wac_mono.Wire.Bytes.{Bytes, get_i32, subarray, subarray_from, ◌+ℤ◌, read_i32le}
use wac_mono.Mutate.Texts.{Text}

-- `args` and `at` of what `unpackArgs` returns.
pub record Unpacked : Type 0 where
  pub args : List Bytes
  pub at : ℤ

-- The rounds of `for (i = 0; i < count; i++)`.
abbrev rounds : ℤ → ℕ
rounds (pos n) = n
rounds (negsuc n) = 0

unfoldable pub unpack_rounds : Bytes → ℕ → ℤ → List Bytes → Option Unpacked
unpack_rounds p zero cursor args = some (record { args = args; at = cursor })
unpack_rounds p (suc left) cursor args = do
  len ← get_i32 p cursor
  let arg = subarray p (cursor +ℤ pos 4) (cursor +ℤ pos 4 +ℤ len)
  unpack_rounds p left (cursor +ℤ (pos 4 +ℤ len)) (args ++ arg ∷ [])

unfoldable pub unpack_args : Bytes → ℤ → Option Unpacked
unfolding unpack_rounds
unpack_args p at = do count ← get_i32 p at; unpack_rounds p (rounds count) (at +ℤ pos 4) []

-- `p[at] === 1`, of an index that can be beyond the payload.
abbrev pub byte_is_one : Bytes → ℤ → Bool
byte_is_one p (pos at) = elim (get_elem? p at) [ none ↦ false | some b ↦ b == 1 ]
byte_is_one p (negsuc n) = false

-- `want`: the grants that a payload asks for.
unfoldable pub want : Bytes → Option ℤ
unfolding get_i32
want p = get_i32 p (pos 0)

pub record SpawnRequest : Type 0 where
  pub source : Text
  pub args : List Bytes
  pub cwd : Text
  pub inherit_in : Bool

pub record SpawnSelfRequest : Type 0 where
  pub args : List Bytes
  pub cwd : Text
  pub inherit_in : Bool

pub record PushRequest : Type 0 where
  pub argv : List Text
  pub stdin : Bytes
  pub cwd : Text

-- A unit more in front of the first part.
abbrev pub push_front : ℕ → List Text → List Text
push_front c [] = (c ∷ []) ∷ []
push_front c (part ∷ parts) = (c ∷ part) ∷ parts

-- `text.split("\u0000")`
abbrev pub split_nul : Text → List Text
split_nul [] = [] ∷ []
split_nul (c ∷ cs) = let parts = split_nul cs in if c == 0 then [] ∷ parts else push_front c parts

-- The arguments, of their count and the joined text, which alone cannot tell none from one that is empty.
abbrev pub told_args : ℤ → Text → List Text
told_args (pos zero) joined = []
told_args (pos (suc n)) joined = split_nul joined
told_args (negsuc n) joined = split_nul joined

module _ (decode : Bytes → Text) where
  unfoldable pub unpack_spawn : Bytes → Option SpawnRequest
  unfolding unpack_args
  unpack_spawn p = do
    source_len ← get_i32 p (pos 4)
    let args_at = pos 8 +ℤ source_len
    after ← unpack_args p args_at
    cwd_len ← get_i32 p after.at
    let cwd_at = after.at +ℤ pos 4
    some (record {
      source = decode (subarray p (pos 8) args_at);
      args = after.args;
      cwd = decode (subarray p cwd_at (cwd_at +ℤ cwd_len));
      inherit_in = byte_is_one p (cwd_at +ℤ cwd_len);
    })

  unfoldable pub unpack_spawn_self : Bytes → Option SpawnSelfRequest
  unfolding unpack_args
  unpack_spawn_self p = do
    after ← unpack_args p (pos 4)
    cwd_len ← get_i32 p after.at
    let cwd_at = after.at +ℤ pos 4
    some (record {
      args = after.args;
      cwd = decode (subarray p cwd_at (cwd_at +ℤ cwd_len));
      inherit_in = byte_is_one p (cwd_at +ℤ cwd_len);
    })

  unfoldable pub unpack_push : Bytes → Option PushRequest
  unpack_push p = do
    count ← get_i32 p (pos 0)
    argv_len ← get_i32 p (pos 4)
    let cwd_at = pos 8 +ℤ argv_len
    cwd_len ← get_i32 p cwd_at
    some (record {
      argv = told_args count (decode (subarray p (pos 8) cwd_at));
      stdin = subarray_from p (cwd_at +ℤ pos 4 +ℤ cwd_len);
      cwd = decode (subarray p (cwd_at +ℤ pos 4) (cwd_at +ℤ pos 4 +ℤ cwd_len));
    })

  -- The two paths of a rename, before the world's own directory is put in front of them.
  unfoldable pub unpack_rename : Bytes → Option (Text × Text)
  unfolding read_i32le
  unpack_rename p = do
    n ← read_i32le p
    some (decode (subarray p (pos 4) (pos 4 +ℤ n)), decode (subarray_from p (pos 4 +ℤ n)))

  unfoldable pub unpack_write_file : Bytes → Option (Text × Bytes)
  unfolding read_i32le
  unpack_write_file p = do
    n ← read_i32le p
    some (decode (subarray p (pos 4) (pos 4 +ℤ n)), subarray_from p (pos 4 +ℤ n))

  -- `mkdir` and `remove`: the flag, and the path.
  unfoldable pub unpack_flagged : Bytes → Bool × Text
  unpack_flagged p = (byte_is_one p (pos 0), decode (subarray_from p (pos 1)))

  -- `connect` and `listen`: the address, and the port.
  unfoldable pub unpack_connect : Bytes → Option (Text × ℤ)
  unfolding read_i32le
  unpack_connect p = do port ← read_i32le p; some (decode (subarray_from p (pos 4)), port)
