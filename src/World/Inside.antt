-- ===== src/World/Inside.antt =====
-- A program that is pushed inside another speaks to it alone.
use wac_mono.Base.{
  ℕ, ◌+◌, ◌≡◌, refl, Bool, not, Option, none, List, [], ◌∷◌, ◌++◌, length, ltb, if_intro,
}
use wac_mono.Wire.Bytes.{Bytes}
use wac_mono.ChildStack
use wac_mono.ChildStack.{Frame, Stack, active, cap_bytes}
use wac_mono.World.Channels.{
  Channels, Turn, OwnRead, line_of, on_log, on_warn, on_write_stdout, on_write_stderr,
  on_read_stdin, on_read_chunk,
}
use wac_mono.Mutate.Texts.{Text}

-- A program that has written something, or not, since.
pub record IsSameChild (f g : Frame) : Type 0 where
  pub argv : g.argv ≡ f.argv
  pub stdin : g.stdin ≡ f.stdin
  pub at : g.at ≡ f.at
  pub cwd : g.cwd ≡ f.cwd

same_child :
    (f : Frame) (out err : List Bytes) (total : ℕ)
    → IsSameChild f (record f { out = out; err = err; written = total })
same_child f out err total = record { argv = refl; stdin = refl; at = refl; cwd = refl }

-- The stack of programs, of which only the innermost has written.
abbrev pub OnlyWrote : Frame → Stack → Stack → Type 0
OnlyWrote f rest kids = (g : Frame) × (kids ≡ g ∷ rest) × IsSameChild f g

-- Nothing leaves the world, and the rest of it is as it was.
abbrev pub StaysInside : Channels → Frame → Stack → Turn → Type 0
StaysInside c f rest t =
    (t.effects ≡ [])
    × ((kids : Stack) × OnlyWrote f rest kids × (t.channels ≡ record c { kids = kids }))

module _ (c : Channels) (f : Frame) (rest : Stack) where
  abbrev inside : Channels
  inside = record c { kids = f ∷ rest }

  write-OnlyWrote : (p : Bytes) → OnlyWrote f rest (ChildStack.write (f ∷ rest) p).1
  unfolding ChildStack.write
  write-OnlyWrote p =
      if_intro (λ (r : Bool × Stack). OnlyWrote f rest (r.1)) (ltb cap_bytes (f.written + length p))
        (λ over. (f, refl, same_child f f.out f.err f.written))
        (λ fits. (_, refl, same_child f (f.out ++ p ∷ []) f.err (f.written + length p)))

  warn-OnlyWrote : (p : Bytes) → OnlyWrote f rest (ChildStack.warn (f ∷ rest) p).1
  unfolding ChildStack.warn
  warn-OnlyWrote p = (_, refl, same_child f f.out (f.err ++ p ∷ []) f.written)

  log-StaysInside : (p : Bytes) → StaysInside c f rest (on_log inside p)
  unfolding on_log active
  log-StaysInside p = (refl, (_, write-OnlyWrote (line_of p), refl))

  warn-StaysInside : (p : Bytes) → StaysInside c f rest (on_warn inside p)
  unfolding on_warn ChildStack.warn
  warn-StaysInside p = (refl, (_, warn-OnlyWrote (line_of p), refl))

  stdout-StaysInside :
      (p : Bytes) (failure : Option Text) → StaysInside c f rest (on_write_stdout inside p failure)
  unfolding on_write_stdout active
  stdout-StaysInside p failure =
      if_intro (λ t. StaysInside c f rest t) (not (ChildStack.write (f ∷ rest) p).0)
        (λ full. (refl, (f ∷ rest, (f, refl, same_child f f.out f.err f.written), refl)))
        (λ taken. (refl, (_, write-OnlyWrote p, refl)))

  stderr-StaysInside :
      (p : Bytes) (failure : Option Text) → StaysInside c f rest (on_write_stderr inside p failure)
  unfolding on_write_stderr active
  stderr-StaysInside p failure = (refl, (_, warn-OnlyWrote p, refl))

  -- While a program is pushed inside another, whatever it writes as a line, as a diagnostic, or as bytes on either of its
  -- streams, and whatever a write of the world's own would come to: nothing leaves the world, and nothing of it changes but
  -- what the innermost program has written. What that one is told when it reads, all at once or a chunk at a time, does not
  -- depend on what the world itself could read, where no file has been opened for input.
  pub inside-StaysInside :
      (p : Bytes) (failure : Option Text) (encode : Text → Bytes) (decode : Bytes → Text)
      (all all' : Bytes) (own own' : OwnRead)
      → c.source ≡ none
      → StaysInside c f rest (on_log inside p)
        × StaysInside c f rest (on_warn inside p)
        × StaysInside c f rest (on_write_stdout inside p failure)
        × StaysInside c f rest (on_write_stderr inside p failure)
        × (on_read_stdin inside all ≡ on_read_stdin inside all')
        × (on_read_chunk encode decode inside own ≡ on_read_chunk encode decode inside own')
  unfolding on_read_stdin on_read_chunk ChildStack.read_all ChildStack.read_chunk
  inside-StaysInside p failure encode decode all all' own own' standard = (
    log-StaysInside p,
    warn-StaysInside p,
    stdout-StaysInside p failure,
    stderr-StaysInside p failure,
    refl,
    rw standard refl,
  )
