-- ===== src/ChildStack/Capture.antt =====
-- What a child leaves behind: its own output, up to the cap, and nothing else that its parent could notice.
use wac_mono.Base.{
  ℕ, zero, suc, ◌+◌, ◌≤◌, ◌≡◌, refl, sym, ◌∙◌, arith, Bool, true, false, List, [], ◌∷◌, ◌++◌,
  append_assoc, append-nil, length, concat, ltb, if◌then◌else◌, length-append,
}
use wac_mono.Wire.Bytes.{Bytes}
use wac_mono.ChildStack.{
  Frame, Stack, Act, pushes, pops, reads_chunk, reads_all, writes, warns, cap_bytes, push, pop,
  read_chunk, read_all, write, warn, act, run,
}
use wac_mono.Mutate.Texts.{Text}

-- Every program that is pushed is popped again, and no more: at the depth 0 the child itself acts.
abbrev pub Closes : ℕ → List Act → Type 0
Closes zero [] = Unit {0}
Closes (suc depth) [] = ⊥
Closes depth (pushes argv stdin cwd ∷ rest) = Closes (suc depth) rest
Closes zero (pops ∷ rest) = ⊥
Closes (suc depth) (pops ∷ rest) = Closes depth rest
Closes depth (reads_chunk ∷ rest) = Closes depth rest
Closes depth (reads_all ∷ rest) = Closes depth rest
Closes depth (writes bytes ∷ rest) = Closes depth rest
Closes depth (warns bytes ∷ rest) = Closes depth rest

abbrev is_over : ℕ → Bytes → Bool
is_over total bytes = ltb cap_bytes (total + length bytes)

-- The child's own writes that still fit, after so many bytes.
abbrev pub kept : ℕ → ℕ → List Act → List Bytes
kept depth total [] = []
kept depth total (pushes argv stdin cwd ∷ rest) = kept (suc depth) total rest
kept zero total (pops ∷ rest) = []
kept (suc depth) total (pops ∷ rest) = kept depth total rest
kept depth total (reads_chunk ∷ rest) = kept depth total rest
kept depth total (reads_all ∷ rest) = kept depth total rest
kept zero total (writes bytes ∷ rest) =
    let later = kept zero (if is_over total bytes then total else total + length bytes) rest in
    if is_over total bytes then later else bytes ∷ later
kept (suc depth) total (writes bytes ∷ rest) = kept (suc depth) total rest
kept depth total (warns bytes ∷ rest) = kept depth total rest

-- The child's own diagnostics.
abbrev pub warned : ℕ → List Act → List Bytes
warned depth [] = []
warned depth (pushes argv stdin cwd ∷ rest) = warned (suc depth) rest
warned zero (pops ∷ rest) = []
warned (suc depth) (pops ∷ rest) = warned depth rest
warned depth (reads_chunk ∷ rest) = warned depth rest
warned depth (reads_all ∷ rest) = warned depth rest
warned depth (writes bytes ∷ rest) = warned depth rest
warned zero (warns bytes ∷ rest) = bytes ∷ warned zero rest
warned (suc depth) (warns bytes ∷ rest) = warned (suc depth) rest

-- What is left of a child and of those below it.
record Left (f : Frame) (rest after : Stack) (out err : List Bytes) : Type 0 where
  child : Frame
  there : after ≡ child ∷ rest
  wrote : child.out ≡ f.out ++ out
  complained : child.err ≡ f.err ++ err

Leaves : Stack → Frame → Stack → List Act → Type 0
Leaves top f rest acts =
    Left f rest (run (top ++ (f ∷ rest)) acts) (kept (length top) f.written acts)
      (warned (length top) acts)

-- Reading changes neither what a child wrote nor how much.
as_before :
    (f : Frame) {at : ℕ} {rest after : Stack} {out err : List Bytes}
    → Left (record f { at = at }) rest after out err
    → Left f rest after out err
as_before f l = record {
  child = l.child;
  there = l.there;
  wrote = l.wrote;
  complained = l.complained;
}

whether :
    (over : Bool) (P : Stack → Type 0) {s s' : Stack}
    → P s
    → P s'
    → P (if◌then◌else◌ {A = Bool × Stack} over (false, s) (true, s')).1
whether true P old new = old
whether false P old new = new

abbrev wider : Frame → Bytes → Frame
wider f bytes = record f { out = f.out ++ bytes ∷ []; written = f.written + length bytes }

keeps :
    (f : Frame) (rest : Stack) (bytes : Bytes) (acts : List Act) (over : Bool)
    → Left f rest (run (f ∷ rest) acts) (kept 0 f.written acts) (warned 0 acts)
    → Left
        (wider f bytes)
        rest
        (run (wider f bytes ∷ rest) acts)
        (kept 0 (f.written + length bytes) acts)
        (warned 0 acts)
    → Left f rest
        (run
          (if◌then◌else◌ {A = Bool × Stack} over (false, f ∷ rest) (true, wider f bytes ∷ rest)).1
          acts)
        (let later = kept 0 (if over then f.written else f.written + length bytes) acts in
          if over then later else bytes ∷ later)
        (warned 0 acts)
keeps f rest bytes acts true refused taken = refused
keeps f rest bytes acts false refused taken = record {
  child = taken.child;
  there = taken.there;
  wrote = taken.wrote ∙ append_assoc f.out (bytes ∷ []) _;
  complained = taken.complained;
}

leaves :
    (acts : List Act) (top : Stack) (f : Frame) (rest : Stack)
    → Closes (length top) acts
    → Leaves top f rest acts
unfolding Leaves run act push pop read_chunk read_all write warn
leaves [] [] f rest h = record {
  child = f;
  there = refl;
  wrote = sym (append-nil f.out);
  complained = sym (append-nil f.err);
}
leaves [] (t ∷ top) f rest h = absurd h
leaves (pushes argv stdin cwd ∷ acts) top f rest h = leaves acts (_ ∷ top) f rest h
leaves (pops ∷ acts) [] f rest h = absurd h
leaves (pops ∷ acts) (t ∷ top) f rest h = leaves acts top f rest h
leaves (reads_chunk ∷ acts) [] f rest h = as_before f (leaves acts [] _ rest h)
leaves (reads_chunk ∷ acts) (t ∷ top) f rest h = leaves acts (_ ∷ top) f rest h
leaves (reads_all ∷ acts) [] f rest h = as_before f (leaves acts [] _ rest h)
leaves (reads_all ∷ acts) (t ∷ top) f rest h = leaves acts (_ ∷ top) f rest h
leaves (writes bytes ∷ acts) [] f rest h =
    keeps f rest bytes acts (is_over f.written bytes) (leaves acts [] f rest h)
      (leaves acts [] (wider f bytes) rest h)
leaves (writes bytes ∷ acts) (t ∷ top) f rest h =
    whether (is_over t.written bytes)
      (λ s.
        Left f rest (run s acts) (kept (suc (length top)) f.written acts)
          (warned (suc (length top)) acts))
      (leaves acts (t ∷ top) f rest h) (leaves acts (wider t bytes ∷ top) f rest h)
leaves (warns bytes ∷ acts) [] f rest h =
    let l = leaves acts [] (record f { err = f.err ++ bytes ∷ [] }) rest h in
    record {
      child = l.child;
      there = l.there;
      wrote = l.wrote;
      complained = l.complained ∙ append_assoc f.err (bytes ∷ []) (warned 0 acts);
    }
leaves (warns bytes ∷ acts) (t ∷ top) f rest h = leaves acts (_ ∷ top) f rest h

kept_step :
    (bytes : Bytes) (acts : List Act) (total : ℕ) (over : Bool)
    → total + length (concat (kept 0 total acts)) ≤ cap_bytes
    → (over ≡ false
        → total + length bytes + length (concat (kept 0 (total + length bytes) acts)) ≤ cap_bytes)
    → let later = kept 0 (if over then total else total + length bytes) acts in
      total + length (concat (if over then later else bytes ∷ later)) ≤ cap_bytes
kept_step bytes acts total true refused taken = refused
kept_step bytes acts total false refused taken =
    omega (arith, taken refl, length-append bytes (concat (kept 0 (total + length bytes) acts)))

kept-fits :
    (acts : List Act) (depth total : ℕ)
    → total ≤ cap_bytes
    → total + length (concat (kept depth total acts)) ≤ cap_bytes
kept-fits [] depth total h = omega arith
kept-fits (pushes argv stdin cwd ∷ acts) depth total h = kept-fits acts (suc depth) total h
kept-fits (pops ∷ acts) zero total h = omega arith
kept-fits (pops ∷ acts) (suc depth) total h = kept-fits acts depth total h
kept-fits (reads_chunk ∷ acts) depth total h = kept-fits acts depth total h
kept-fits (reads_all ∷ acts) depth total h = kept-fits acts depth total h
kept-fits (writes bytes ∷ acts) zero total h =
    kept_step bytes acts total (is_over total bytes) (kept-fits acts zero total h)
      (λ fits. kept-fits acts zero (total + length bytes) (ground arith))
kept-fits (writes bytes ∷ acts) (suc depth) total h = kept-fits acts (suc depth) total h
kept-fits (warns bytes ∷ acts) depth total h = kept-fits acts depth total h

-- Of a program that is pushed, whatever it and the programs inside it do, each of which is popped again: the pop
-- that ends it answers with its own writes in order, but for those that did not fit under the cap beside the ones
-- before them, and its own diagnostics in order, so that the first is never longer than the cap; and the programs
-- outside it are as they were.
pub pop-captures :
    (s : Stack) (argv : List Text) (stdin : Bytes) (cwd : Text) (acts : List Act)
    → Closes 0 acts
    → (pop (run (push s argv stdin cwd) acts)
        ≡ (record { out = concat (kept 0 0 acts); err = concat (warned 0 acts) }, s))
      × (length (concat (kept 0 0 acts)) ≤ cap_bytes)
unfolding pop push Leaves
pop-captures s argv stdin cwd acts closes =
    let newborn : Frame = record {
      argv = argv;
      stdin = stdin;
      at = 0;
      cwd = cwd;
      out = [];
      err = [];
      written = 0;
    } in
    let l = leaves acts [] newborn s closes in
    (rw (l.there, pop, l.wrote, l.complained) refl, omega (arith, kept-fits acts 0 0 (omega arith)))
