-- ===== src/StreamRing/Endings.antt =====
-- A reader that is told of the end has everything, if nothing comes between the loads of its turn; and what it can lose if
-- something does.
use wac_mono.Base.{
  ◌⊎◌, inl, inr, subst, Bool-cases, ℕ, ◌-◌, ◌≤◌, ◌<◌, ◌≡◌, refl, sym, ap, ◌∙◌, arith, ℤ, pos,
  negsuc, true, false, not, ◌&&◌, ◌||◌, List, [], ◌∷◌, append-nil, length-append, ltb, ◌==◌,
  if_intro, length,
}
use wac_mono.StreamRing.Pipe.{move_all, Pipe, accept, feed_turn, read_turn, free_of}
use wac_mono.StreamRing.Delivery.{
  Delivers, move_all-Delivers, nil_of, accept-Delivers, read_turn-Delivers, feed_turn-Delivers,
  feed_turn-given, read_turn-given,
}
use wac_mono.StreamRing.Ending.{
  is_available, Reader, idle, past_error, ended, broken, sampled, Stream, new_stream, write_chunk,
  feed, close, abort_error, abort_end, look, test_error, test_end, Act, writes, feeds, closes,
  aborts_error, aborts_end, looks, tests_error, tests_end, act, run,
}

-- Acts of the producer alone, and whole turns of the reader.
pub data Turn : Type 0 where
  gives : List ℕ → Turn
  copies finishes gives_up gives_up_end reads : Turn

abbrev pub acts_of : Turn → List Act
acts_of (gives bytes) = writes bytes ∷ []
acts_of copies = feeds ∷ []
acts_of finishes = closes ∷ []
acts_of gives_up = aborts_error ∷ []
acts_of gives_up_end = aborts_end ∷ []
acts_of reads = looks ∷ tests_error ∷ tests_end ∷ []

unfoldable pub run_turns : Stream → List Turn → Stream
run_turns s [] = s
run_turns s (t ∷ rest) = run_turns (run s (acts_of t)) rest

-- Nothing is left to copy once the stream is closed or aborted, and a reader at the end has everything.
record Inv (s : Stream) : Type 0 where
  delivers : Delivers s.pipe
  quiet : (s.eof || s.err) ≡ true → s.pipe.rest ≡ []
  whole : s.reader ≡ ended → (s.pipe.got ≡ s.pipe.given) × (s.eof ≡ true) × (s.err ≡ false)
  between : (s.reader ≡ idle) ⊎ ((s.reader ≡ ended) ⊎ (s.reader ≡ broken))

feed_turn-idle : (p : Pipe) (h : ℤ) → p.rest ≡ [] → feed_turn p h ≡ p
unfolding feed_turn
feed_turn-idle p h e =
    if_intro (λ t. t ≡ p) (length p.rest == 0 || free_of h p.tail == 0) (λ waits. refl)
      (λ busy. absurd (let none_left = ap length e in ground (arith, none_left)))

-- An open stream has no reader at its end.
open_unended :
    (s : Stream) {B : Type 0}
    → (s.reader ≡ ended → (s.pipe.got ≡ s.pipe.given) × (s.eof ≡ true) × (s.err ≡ false))
    → (not s.eof && not s.err) ≡ true
    → s.reader ≡ ended
    → B
open_unended s whole is_open e = let closed = (whole e).1 in absurd (ground arith)

copies-Inv : (s : Stream) → length s.pipe.given < 2147483648 → Inv s → Inv (feed s)
unfolding feed
copies-Inv s small inv = elim (Bool-cases (s.eof || s.err)) [
  | inl shut ↦
      subst (λ p. Inv (record s { pipe = p }))
        (sym (feed_turn-idle s.pipe s.pipe.head (inv.quiet shut)))
        (record {
          delivers = inv.delivers;
          quiet = inv.quiet;
          whole = inv.whole;
          between = inv.between;
        })
  | inr is_open ↦ record {
    delivers = feed_turn-Delivers s.pipe s.pipe.head refl small inv.delivers;
    quiet = λ shut. cc;
    whole = λ e. open_unended s inv.whole (ground arith) e;
    between = inv.between;
  }
]

gives-Inv : (s : Stream) (bytes : List ℕ) → Inv s → Inv (write_chunk s bytes)
unfolding write_chunk
gives-Inv s bytes inv =
    if_intro Inv (not s.eof && not s.err)
      (λ is_open. record {
        delivers = accept-Delivers s.pipe bytes inv.delivers;
        quiet = λ shut. absurd (ground arith);
        whole = λ e. open_unended s inv.whole is_open e;
        between = inv.between;
      })
      (λ shut. inv)

finishes-Inv : (s : Stream) → Inv s → Inv (close s)
unfolding close
finishes-Inv s inv =
    if_intro Inv ((not s.eof && not s.err) && (length s.pipe.rest == 0) && not s.pipe.failed)
      (λ settled. record {
        delivers = inv.delivers;
        quiet = λ shut. nil_of s.pipe.rest (ground arith);
        whole = λ e. open_unended s inv.whole (ground arith) e;
        between = inv.between;
      })
      (λ other. inv)

gives_up-Inv : (s : Stream) → Inv s → Inv (abort_error s)
unfolding abort_error
gives_up-Inv s inv =
    if_intro Inv ((not s.eof && not s.err) && (length s.pipe.rest == 0) && not s.pipe.failed)
      (λ settled. record {
        delivers = inv.delivers;
        quiet = λ shut. nil_of s.pipe.rest (ground arith);
        whole = λ e. open_unended s inv.whole (ground arith) e;
        between = inv.between;
      })
      (λ other. inv)

gives_up_end-Inv : (s : Stream) → Inv s → Inv (abort_end s)
unfolding abort_end
gives_up_end-Inv s inv =
    if_intro Inv s.err
      (λ given_up. record {
        delivers = inv.delivers;
        quiet = λ shut. inv.quiet (ground arith);
        whole = λ e. let unfailed = (inv.whole e).2 in absurd (cc);
        between = inv.between;
      })
      (λ other. inv)

-- With nothing available and nothing left to copy, all that was given has been read.
nothing_left :
    (p : Pipe) → Delivers p → is_available p p.head ≡ false → p.rest ≡ [] → p.got ≡ p.given
nothing_left p v none_there empty =
    let unseen = sym (ap (is_available p) v.head_at) ∙ none_there in
    let level : v.at - p.tail ≡ 0 = ground (arith, unseen) in
    sym (append-nil p.got) ∙ (rw (level, empty) at v.order)

read_turn-rest : (p : Pipe) (h : ℤ) → (read_turn p h).rest ≡ p.rest
unfolding read_turn
read_turn-rest p (negsuc k) = refl
read_turn-rest p (pos h) =
    if_intro (λ (t : Pipe). t.rest ≡ p.rest) (ltb p.tail h) (λ more. refl) (λ none_there. refl)

-- A whole turn of the reader.
abbrev turn_from : Stream → Reader → Stream
turn_from s r =
    let looked = look s r in
    let tested = test_error looked looked.reader in test_end tested tested.reader

reads-Inv :
    (s : Stream) (r : Reader)
    → s.reader ≡ r
    → (r ≡ idle) ⊎ ((r ≡ ended) ⊎ (r ≡ broken))
    → Inv s
    → Inv (turn_from s r)
unfolding look test_error test_end
reads-Inv s (sampled h) e (inl k) inv = cc
reads-Inv s (sampled h) e (inr (inl k)) inv = cc
reads-Inv s (sampled h) e (inr (inr k)) inv = cc
reads-Inv s past_error e (inl k) inv = cc
reads-Inv s past_error e (inr (inl k)) inv = cc
reads-Inv s past_error e (inr (inr k)) inv = cc
reads-Inv s ended e h inv =
    subst (λ q. Inv (test_end (test_error s q) (test_error s q).reader)) (sym e)
      (subst (λ q. Inv (test_end s q)) (sym e) inv)
reads-Inv s broken e h inv =
    subst (λ q. Inv (test_end (test_error s q) (test_error s q).reader)) (sym e)
      (subst (λ q. Inv (test_end s q)) (sym e) inv)
reads-Inv s idle e h inv =
    if_intro (λ t. Inv (test_end t t.reader)) (is_available s.pipe s.pipe.head)
      (λ available. record {
        delivers = read_turn-Delivers s.pipe s.pipe.head refl inv.delivers;
        quiet = λ shut. read_turn-rest s.pipe s.pipe.head ∙ inv.quiet shut;
        whole = λ k. cc;
        between = inl refl;
      })
      (λ none_there.
        if_intro (λ t. Inv (test_end t t.reader)) s.err
          (λ given_up. record {
            delivers = inv.delivers;
            quiet = inv.quiet;
            whole = λ k. cc;
            between = inr (inr refl);
          })
          (λ fine.
            if_intro Inv s.eof
              (λ closed. record {
                delivers = inv.delivers;
                quiet = inv.quiet;
                whole = λ k. (
                  nothing_left s.pipe inv.delivers none_there (inv.quiet (ground arith)),
                  closed,
                  fine,
                );
                between = inr (inl refl);
              })
              (λ still. record {
                delivers = inv.delivers;
                quiet = inv.quiet;
                whole = λ k. cc;
                between = inl refl;
              })))

run_turn-Inv :
    (s : Stream) (t : Turn) → length s.pipe.given < 2147483648 → Inv s → Inv (run s (acts_of t))
unfolding run act
run_turn-Inv s (gives bytes) small inv = gives-Inv s bytes inv
run_turn-Inv s copies small inv = copies-Inv s small inv
run_turn-Inv s finishes small inv = finishes-Inv s inv
run_turn-Inv s gives_up small inv = gives_up-Inv s inv
run_turn-Inv s gives_up_end small inv = gives_up_end-Inv s inv
run_turn-Inv s reads small inv = reads-Inv s s.reader refl inv.between inv

-- Bytes that were given stay given.
accept_grows : (p : Pipe) (bytes : List ℕ) → length p.given ≤ length (accept p bytes).given
unfolding accept
accept_grows p bytes =
    if_intro (λ (t : Pipe). length p.given ≤ length t.given) (p.failed || ltb 0 (length p.rest))
      (λ busy. omega arith) (λ idle. omega (arith, length-append p.given bytes))

look-pipe : (s : Stream) (r : Reader) → (look s r).pipe ≡ s.pipe
unfolding look
look-pipe s idle = refl
look-pipe s past_error = refl
look-pipe s ended = refl
look-pipe s broken = refl
look-pipe s (sampled h) = refl

test_error-given : (s : Stream) (r : Reader) → (test_error s r).pipe.given ≡ s.pipe.given
unfolding test_error
test_error-given s idle = refl
test_error-given s past_error = refl
test_error-given s ended = refl
test_error-given s broken = refl
test_error-given s (sampled h) =
    if_intro (λ (t : Stream). t.pipe.given ≡ s.pipe.given) (is_available s.pipe h)
      (λ available. read_turn-given s.pipe h)
      (λ none_there.
        if_intro (λ (t : Stream). t.pipe.given ≡ s.pipe.given) s.err (λ given_up. refl)
          (λ fine. refl))

test_end-pipe : (s : Stream) (r : Reader) → (test_end s r).pipe ≡ s.pipe
unfolding test_end
test_end-pipe s idle = refl
test_end-pipe s past_error =
    if_intro (λ (t : Stream). t.pipe ≡ s.pipe) s.eof (λ closed. refl) (λ still. refl)
test_end-pipe s ended = refl
test_end-pipe s broken = refl
test_end-pipe s (sampled h) = refl

kept : (p q : Pipe) → q.given ≡ p.given → length p.given ≤ length q.given
kept p q e = omega (arith, ap length e)

act_grows : (s : Stream) (a : Act) → length s.pipe.given ≤ length (act s a).pipe.given
unfolding act write_chunk feed close abort_error abort_end
act_grows s (writes bytes) =
    if_intro (λ (t : Stream). length s.pipe.given ≤ length t.pipe.given) (not s.eof && not s.err)
      (λ is_open. accept_grows s.pipe bytes) (λ shut. omega arith)
act_grows s feeds = kept s.pipe (feed s).pipe (feed_turn-given s.pipe s.pipe.head)
act_grows s closes =
    if_intro (λ (t : Stream). length s.pipe.given ≤ length t.pipe.given)
      ((not s.eof && not s.err) && (length s.pipe.rest == 0) && not s.pipe.failed)
      (λ settled. omega arith) (λ other. omega arith)
act_grows s aborts_error =
    if_intro (λ (t : Stream). length s.pipe.given ≤ length t.pipe.given)
      ((not s.eof && not s.err) && (length s.pipe.rest == 0) && not s.pipe.failed)
      (λ settled. omega arith) (λ other. omega arith)
act_grows s aborts_end =
    if_intro (λ (t : Stream). length s.pipe.given ≤ length t.pipe.given) s.err
      (λ given_up. omega arith) (λ other. omega arith)
act_grows s looks =
    kept s.pipe (look s s.reader).pipe (ap (λ (q : Pipe). q.given) (look-pipe s s.reader))
act_grows s tests_error = kept s.pipe (test_error s s.reader).pipe (test_error-given s s.reader)
act_grows s tests_end =
    kept s.pipe (test_end s s.reader).pipe (ap (λ (q : Pipe). q.given) (test_end-pipe s s.reader))

run_grows : (s : Stream) (acts : List Act) → length s.pipe.given ≤ length (run s acts).pipe.given
unfolding run
run_grows s [] = omega arith
run_grows s (a ∷ rest) = omega (arith, act_grows s a, run_grows (act s a) rest)

run_turns_grows :
    (s : Stream) (turns : List Turn) → length s.pipe.given ≤ length (run_turns s turns).pipe.given
unfolding run_turns
run_turns_grows s [] = omega arith
run_turns_grows s (t ∷ rest) =
    omega (arith, run_grows s (acts_of t), run_turns_grows (run s (acts_of t)) rest)

run_turns-Inv :
    (s : Stream) (turns : List Turn)
    → length (run_turns s turns).pipe.given < 2147483648
    → Inv s
    → Inv (run_turns s turns)
unfolding run_turns
run_turns-Inv s [] small inv = inv
run_turns-Inv s (t ∷ rest) small inv =
    let next = run s (acts_of t) in
    run_turns-Inv next rest small (
      run_turn-Inv s t (omega (arith, small, run_grows s (acts_of t), run_turns_grows next rest))
        inv)

new_stream-Inv : Inv new_stream
unfolding move_all
new_stream-Inv = record {
  delivers = move_all-Delivers [] (omega arith);
  quiet = λ shut. refl;
  whole = λ e. cc;
  between = inl refl;
}

-- As long as fewer than 2^31 bytes are given to the stream, and nothing of the producer comes between the loads of one
-- turn of `read`: a reader that is told of the end has read exactly what was given, and the stream was not aborted.
pub run_turns-Whole :
    (turns : List Turn)
    → length (run_turns new_stream turns).pipe.given < 2147483648
    → (run_turns new_stream turns).reader ≡ ended
    → ((run_turns new_stream turns).pipe.got ≡ (run_turns new_stream turns).pipe.given)
      × ((run_turns new_stream turns).err ≡ false)
run_turns-Whole turns small e =
    let told = (run_turns-Inv new_stream turns small new_stream-Inv).whole e in (told.0, told.2)
