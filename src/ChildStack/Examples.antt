-- ===== src/ChildStack/Examples.antt =====
-- A child in a child, and a child that reads its input.
use wac_mono.Base.{◌≤◌, ◌≡◌, refl, arith, some, List, [], ◌∷◌, concat, length, ◌>>=◌}
use wac_mono.ChildStack.{
  Act, Frame, writes, warns, pushes, pops, reads_chunk, push, pop, run, join_path, read_all,
  cap_bytes,
}
use wac_mono.ChildStack.Capture.{kept, pop-captures}
use wac_mono.ChildStack.Reading.{read_until, read_until-read_all}
use wac_mono.Mutate.Texts.{text}

abbrev nested : List Act
nested =
    writes (1 ∷ [])
    ∷ reads_chunk
    ∷ pushes [] [] []
    ∷ writes (9 ∷ [])
    ∷ pops
    ∷ warns (7 ∷ [])
    ∷ writes (2 ∷ 3 ∷ [])
    ∷ []

pop-captures_example :
    (pop (run (push [] [] (5 ∷ []) []) nested)
      ≡ (record { out = 1 ∷ 2 ∷ 3 ∷ []; err = 7 ∷ [] }, []))
    × (length (concat (kept 0 0 nested)) ≤ cap_bytes)
pop-captures_example = pop-captures [] [] (5 ∷ []) [] nested tt

abbrev reader : Frame
reader = record {
  argv = [];
  stdin = 1 ∷ 2 ∷ 3 ∷ [];
  at = 1;
  cwd = [];
  out = [];
  err = [];
  written = 0;
}

read_until-read_all_example :
    read_until 3 (reader ∷ [])
    ≡ (read_all (reader ∷ [])).0 >>= λ all. some (all, (read_all (reader ∷ [])).1)
read_until-read_all_example = read_until-read_all 3 reader [] (omega arith) (omega arith)

rest_read : (read_all (reader ∷ [])).0 ≡ some (2 ∷ 3 ∷ [])
unfolding read_all
rest_read = refl

joined_below : join_path (text "sub/") (text "f") ≡ text "sub/f"
unfolding join_path
joined_below = refl

joined_absolute : join_path (text "sub") (text "/f") ≡ text "/f"
unfolding join_path
joined_absolute = refl
