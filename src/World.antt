-- ===== src/World.antt =====
-- packages/platform/host/deno.ts, the world of one program: what it is granted, and what it grants the programs that
-- it spawns. The flags of a grant are those of ops.ts.
pub mod Grants
pub mod Serve
pub mod Served
pub mod Arrives
pub mod Channels
pub mod Inside
pub mod Handles
pub mod Fresh
mod Examples
use wac_mono.Base.{
  ℕ, ◌*◌, ◌/◌, ◌%◌, ℤ, Bool, true, false, not, ◌||◌, ◌&&◌, Option, none, some, List, [], ◌∷◌, ◌==◌,
  if◌then◌else◌,
}
use wac_mono.Wire.Bytes.{Bytes, wrap32}
use wac_mono.Mutate.Texts.{Text}

abbrev pub grant_read : ℕ
grant_read = 1

abbrev pub grant_write : ℕ
grant_write = 2

abbrev pub grant_net : ℕ
grant_net = 4

abbrev pub grant_env : ℕ
grant_env = 8

pub record FileGrant : Type 0 where
  pub read : Bool
  pub write : Bool

-- The options of a world: `none` is an option that is left out, and a flag that is left out is false.
pub record Options : Type 0 where
  pub args : List Bytes
  pub fs : Option FileGrant
  pub net : Bool
  pub env : Option (Text → Option Text)
  pub cwd : Option Text
  pub self_source : Option Text

-- `opts.fs?.read === true`, and `opts.fs?.write === true`.
unfoldable pub may_read : Options → Bool
may_read opts = elim (opts.fs) [ none ↦ false | some fs ↦ fs.read ]

unfoldable pub may_write : Options → Bool
may_write opts = elim (opts.fs) [ none ↦ false | some fs ↦ fs.write ]

abbrev pub is_some {ℓ} : {A : Type ℓ} → Option A → Bool
is_some none = false
is_some (some a) = true

-- `(wanted & flag) !== 0`, of a flag that is a power of two.
unfoldable pub asks : ℤ → ℕ → Bool
asks wanted flag = wrap32 wanted / flag % 2 == 1

-- `give` of `startChild`: what is asked for, narrowed to what this world has.
pub record Give : Type 0 where
  pub read : Bool
  pub write : Bool
  pub net : Bool
  pub env : Bool

unfoldable pub give : Options → ℤ → Give
unfolding may_read may_write asks
give opts wanted = record {
  read = asks wanted grant_read && may_read opts;
  write = asks wanted grant_write && may_write opts;
  net = asks wanted grant_net && opts.net;
  env = asks wanted grant_env && is_some opts.env;
}

-- What a `spawn` or a `spawnSelf` asks for, beside the source.
pub record Wanted : Type 0 where
  pub args : List Bytes
  pub grants : ℤ
  pub cwd : Text

abbrev is_empty : Text → Bool
is_empty [] = true
is_empty (c ∷ cs) = false

-- Absent rather than false where nothing of it is given.
abbrev pub fs_given : Bool → Bool → Option FileGrant
fs_given read write = if read || write then some (record { read = read; write = write }) else none

-- The options that `startChild` passes to the world of the child.
unfoldable pub child_options : Options → Wanted → Options
unfolding give
child_options opts w =
    let g = give opts w.grants in
    record {
      args = w.args;
      fs = fs_given g.read g.write;
      net = if g.net then true else false;
      env = if g.env then opts.env else none;
      cwd = if is_empty w.cwd then opts.cwd else some w.cwd;
      self_source = opts.self_source;
    }
