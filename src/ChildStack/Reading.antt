-- ===== src/ChildStack/Reading.antt =====
-- A child that reads its input chunk by chunk reads what one that asks for all of it is given.
use wac_mono.Base.{
  ℕ, zero, suc, ◌+◌, ◌-◌, ◌≤◌, ◌<◌, min, ◌≡◌, refl, sym, ap, ◌∙◌, arith, Option, none, some, [],
  ◌∷◌, ◌++◌, length, take, drop, length-drop, length-take, take-append-drop, drop_all, ◌>>=◌,
}
use wac_mono.Wire.Bytes.{Bytes, drop_twice}
use wac_mono.ChildStack.{Frame, Stack, chunk_bytes, read_chunk, read_all}

-- What was read in all, and the children after it.
abbrev pub Reading : Type 0
Reading = Bytes × Stack

-- A program stops at an empty chunk, and where no child is running.
abbrev go_on : Option Bytes → Stack → Option Reading → Option Reading
go_on none s later = some ([], s)
go_on (some []) s later = some ([], s)
go_on (some (b ∷ bs)) s later = later >>= λ r. some ((b ∷ bs) ++ r.0, r.1)

-- The loop of a program that reads chunks until one is empty, where each turn costs a unit of fuel.
unfoldable pub read_until : ℕ → Stack → Option Reading
read_until zero s = none
read_until (suc fuel) s =
    let (chunk, after) = read_chunk s in go_on chunk after (read_until fuel after)

-- A child has not read beyond its input.
abbrev pub IsWithin : Frame → Type 0
IsWithin f = f.at ≤ length f.stdin

module _ (f : Frame) where
  chunk_end : ℕ
  chunk_end = min (f.at + chunk_bytes) (length f.stdin)

  the_chunk : Bytes
  unfolding chunk_end
  the_chunk = take (chunk_end - f.at) (drop f.at f.stdin)

  length-the_chunk : IsWithin f → length the_chunk ≡ min chunk_bytes (length f.stdin - f.at)
  unfolding the_chunk chunk_end
  length-the_chunk h =
      omega (arith, length-take (chunk_end - f.at) (drop f.at f.stdin), length-drop f.at f.stdin)

  chunk-then_rest : IsWithin f → the_chunk ++ drop chunk_end f.stdin ≡ drop f.at f.stdin
  unfolding the_chunk chunk_end
  chunk-then_rest h =
      let e : f.at + (chunk_end - f.at) ≡ chunk_end = omega arith in
      ap (λ r. the_chunk ++ r)
        (sym (drop_twice (chunk_end - f.at) f.at f.stdin ∙ ap (λ n. drop n f.stdin) e))
      ∙ take-append-drop (chunk_end - f.at) (drop f.at f.stdin)

-- A program that reads chunks until one is empty has then read just what it would have been given for all of its
-- input at once, from wherever it stood, and leaves the children as that does; one turn more than bytes are left is
-- enough.
pub read_until-read_all :
    (fuel : ℕ) (f : Frame) (rest : Stack)
    → IsWithin f
    → length f.stdin - f.at < fuel
    → read_until fuel (f ∷ rest)
      ≡ (read_all (f ∷ rest)).0 >>= λ all. some (all, (read_all (f ∷ rest)).1)
unfolding read_until read_chunk read_all the_chunk chunk_end
read_until-read_all zero f rest within enough = absurd (omega arith)
read_until-read_all (suc fuel) f rest within enough =
    step (the_chunk f) refl (λ less. read_until-read_all fuel after rest (omega arith) less)
  where
    after : Frame
    after = record f { at = chunk_end f }

    done : Stack
    done = record f { at = length f.stdin } ∷ rest

    sized : length (the_chunk f) ≡ min chunk_bytes (length f.stdin - f.at)
    sized = length-the_chunk f within

    step :
        (c : Bytes)
        → the_chunk f ≡ c
        → (length f.stdin - chunk_end f < fuel
            → read_until fuel (after ∷ rest) ≡ some (drop (chunk_end f) f.stdin, done))
        → go_on (some c) (after ∷ rest) (read_until fuel (after ∷ rest))
          ≡ some (drop f.at f.stdin, done)
    step [] e later =
        let nothing : length f.stdin - f.at ≡ 0 = omega (arith, sized, ap length e) in
        let at_end : chunk_end f ≡ length f.stdin = omega arith in
        rw (at_end, drop_all f.at f.stdin (omega arith)) refl
    step (b ∷ bs) e later =
        let some_left : 0 < length f.stdin - f.at = omega (arith, sized, ap length e) in
        rw (later (omega arith)) (
          ap (λ all. some (all, done))
            (ap (λ c. c ++ drop (chunk_end f) f.stdin) (sym e) ∙ chunk-then_rest f within))
