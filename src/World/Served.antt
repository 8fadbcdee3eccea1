-- ===== src/World/Served.antt =====
-- A handler makes a call of the runtime only where the program was granted it.
use wac_mono.Base.{
  ◌≡◌, refl, Bool, true, false, ◌&&◌, not, Option, none, some, List, [], ◌∷◌, if◌then◌else◌, subst,
  sym, ◌∙◌, ◌>>=◌,
}
use wac_mono.Wire.Bytes.{Bytes}
use wac_mono.Wire.Unpack.{unpack_rename, unpack_write_file, unpack_connect}
use wac_mono.ChildStack.{Stack}
use wac_mono.World.{Options, Wanted, may_read, may_write}
use wac_mono.World.Grants.{
  Grant, reading, writing, network, holds, descendant, always_asked, holds-descendant,
}
use wac_mono.World.Serve.{
  on_read_file, on_write_file, on_stat, on_link_stat, on_read_dir, on_mkdir, on_remove, on_rename,
  on_open_input, on_open_output, on_connect, on_listen, HostOp, read_file, write_file, stat,
  link_stat, read_dir, mkdir, remove, rename, open_input, open_output, connect, listen, SystemCall,
  reads_file, stats, link_stats, lists, opens_input, opens_output, writes_file, makes_dir, removes,
  renames, connects, listens, Served, calls, answers, denies, when_writable, when_readable,
  when_seen, when_online, opened, not_granted, deny, serve,
}
use wac_mono.Mutate.Texts.{Text}

-- What a call of the runtime needs.
abbrev pub needs : SystemCall → Grant
needs (reads_file path) = reading
needs (stats path) = reading
needs (link_stats path) = reading
needs (lists path) = reading
needs (opens_input path) = reading
needs (opens_output path) = writing
needs (writes_file path bytes) = writing
needs (makes_dir path parents) = writing
needs (removes path recursive) = writing
needs (renames from to) = writing
needs (connects host port) = network
needs (listens address port) = network

module _ (encode : Text → Bytes) (decode : Bytes → Text) (opts : Options) (kids : Stack) where
  -- A call that is made at all is one that was granted.
  abbrev CallsGranted : Option Served → Type 0
  CallsGranted none = Unit
  CallsGranted (some (calls c)) = holds opts (needs c) ≡ true
  CallsGranted (some (answers bytes)) = Unit
  CallsGranted (some (denies fault why)) = Unit

  opened-Granted :
      (p : Text) (served : Option Served)
      → CallsGranted served
      → CallsGranted (opened encode decode opts kids p served)
  unfolding opened
  opened-Granted [] served h = tt
  opened-Granted (c ∷ cs) served h = h

  gated :
      (allowed : Bool) (refusal : Served) (served : Option Served)
      → CallsGranted (some refusal)
      → (allowed ≡ true → CallsGranted served)
      → CallsGranted (if not allowed then some refusal else served)
  gated true refusal served refused h = h refl
  gated false refusal served refused h = refused

  then_calls :
      {A : Type 0} (o : Option A) (c : A → SystemCall)
      → ((a : A) → holds opts (needs (c a)) ≡ true)
      → CallsGranted (o >>= λ a. some (calls (c a)))
  then_calls none c h = tt
  then_calls (some a) c h = h a

  serve-CallsGranted : (op : HostOp) (p : Bytes) → CallsGranted (serve encode decode opts kids op p)
  unfolding serve on_read_file on_write_file on_stat on_link_stat on_read_dir on_mkdir on_remove
      on_rename on_open_input on_open_output on_connect on_listen when_writable when_readable
      when_seen when_online deny not_granted
  serve-CallsGranted read_file p = gated (may_read opts) _ _ tt (λ h. h)
  serve-CallsGranted write_file p =
      gated (may_write opts) _ _ tt (λ h. then_calls (unpack_write_file decode p) _ (λ asked. h))
  serve-CallsGranted stat p = gated (may_read opts) _ _ tt (λ h. h)
  serve-CallsGranted link_stat p = gated (may_read opts) _ _ tt (λ h. h)
  serve-CallsGranted read_dir p = gated (may_read opts) _ _ tt (λ h. h)
  serve-CallsGranted mkdir p = gated (may_write opts) _ _ tt (λ h. h)
  serve-CallsGranted remove p = gated (may_write opts) _ _ tt (λ h. h)
  serve-CallsGranted rename p =
      gated (may_write opts) _ _ tt (λ h. then_calls (unpack_rename decode p) _ (λ asked. h))
  serve-CallsGranted open_input p =
      opened-Granted (decode p) _ (gated (may_read opts) _ _ tt (λ h. h))
  serve-CallsGranted open_output p =
      opened-Granted (decode p) _ (gated (may_write opts) _ _ tt (λ h. h))
  serve-CallsGranted connect p =
      gated opts.net _ _ tt (λ h. then_calls (unpack_connect decode p) _ (λ asked. h))
  serve-CallsGranted listen p =
      gated opts.net _ _ tt (λ h. then_calls (unpack_connect decode p) _ (λ asked. h))

and_left : (a b : Bool) → a && b ≡ true → a ≡ true
and_left true b h = refl
and_left false b h = h

and_right : (a b : Bool) → a && b ≡ true → b ≡ true
and_right true b h = h
and_right false b h = cc

-- Of a program that descends from another: whatever its capabilities are called with, a handler of its world makes a
-- call of the runtime only where the first program holds what that call needs and every spawn on the way asked for it.
pub serve-granted :
    (encode : Text → Bytes) (decode : Bytes → Text) (kids : Stack) (opts : Options)
    (chain : List Wanted) (op : HostOp) (p : Bytes) (c : SystemCall)
    → serve encode decode (descendant opts chain) kids op p ≡ some (calls c)
    → (holds opts (needs c) ≡ true) × (always_asked (needs c) chain ≡ true)
serve-granted encode decode kids opts chain op p c e =
    let own = descendant opts chain in
    let held : holds own (needs c) ≡ true =
      subst (CallsGranted encode decode own kids) e
        (serve-CallsGranted encode decode own kids op p) in
    let both = sym (holds-descendant (needs c) opts chain) ∙ held in
    (and_right _ _ both, and_left _ _ both)
