-- ===== src/StreamRing/Delivery.antt =====
-- What the transform reads is what was written, as long as the counters do not run over.
use wac_mono.Base.{
  ℕ, ◌+◌, ◌-◌, ◌%◌, ◌≤◌, ◌<◌, ◌≡◌, refl, sym, ◌∙◌, ap, arith, min, ℤ, pos, negsuc, true, false,
  ◌||◌, Option, none, some, List, [], ◌∷◌, ◌++◌, ltb, ◌==◌, if_intro, length, take, drop,
  append-nil, append_assoc, length-append, length-take, length-drop, take-append-drop,
}
use wac_mono.StreamRing.{cap, Ring, ring_write, ring_read}
use wac_mono.StreamRing.Fifo.{window, ring_write-write_each, ring_read-window, window-write_each}
use wac_mono.StreamRing.Pipe.{
  int32, free_of, write_at, Pipe, new_pipe, copied, feed_turn, read_turn, accept, Move, writes,
  feeds, reads, move, move_all,
}

-- Every byte that was given is read, in the ring, or still to be copied, in this order.
pub record Delivers (s : Pipe) : Type 0 where
  pub at : ℕ
  pub head_at : s.head ≡ pos at
  pub behind : s.tail ≤ at
  pub within : at ≤ s.tail + cap
  pub counted : at + length s.rest ≡ length s.given
  pub unfailed : s.failed ≡ false
  pub order : s.got ++ (window s.ring s.tail (at - s.tail) ++ s.rest) ≡ s.given

int32_small : (v : ℕ) → v < 2147483648 → int32 v ≡ pos v
int32_small v h =
    let e : v % 4294967296 ≡ v = omega arith in
    let f : ltb v 2147483648 ≡ true = ground arith in rw (e, f) refl

pub nil_of : (xs : List ℕ) → length xs ≡ 0 → xs ≡ []
nil_of [] h = refl
nil_of (x ∷ xs) h = absurd (omega arith)

pub accept-Delivers : (s : Pipe) (bytes : List ℕ) → Delivers s → Delivers (accept s bytes)
unfolding accept
accept-Delivers s bytes v =
    if_intro Delivers (s.failed || ltb 0 (length s.rest)) (λ busy. v)
      (λ idle. taken (nil_of s.rest (ground arith)))
  where
    taken : s.rest ≡ [] → Delivers (record s { rest = bytes; given = s.given ++ bytes })
    taken e = record {
      at = v.at;
      head_at = v.head_at;
      behind = v.behind;
      within = v.within;
      counted = omega (arith, v.counted, length-append s.given bytes, ap length e);
      unfailed = v.unfailed;
      order =
          sym (append_assoc s.got (window s.ring s.tail (v.at - s.tail)) bytes)
          ∙ ap (λ (xs : List ℕ). xs ++ bytes)
              (ap (◌++◌ s.got) (
                  sym (append-nil (window s.ring s.tail (v.at - s.tail)))
                  ∙ ap (◌++◌ (window s.ring s.tail (v.at - s.tail))) (sym e))
                ∙ v.order);
    }

pub read_turn-Delivers : (s : Pipe) (h : ℤ) → s.head ≡ h → Delivers s → Delivers (read_turn s h)
unfolding read_turn
read_turn-Delivers s (negsuc k) e v = v
read_turn-Delivers s (pos h) e v =
    if_intro Delivers (ltb s.tail h) (λ more. all_read (cc v.head_at) (ground arith))
      (λ none_there. v)
  where
    all_read :
        v.at ≡ h
        → s.tail < h
        → Delivers (record s { tail = h; got = s.got ++ ring_read s.ring s.tail (h - s.tail) })
    all_read same more =
        let none_left : v.at - h ≡ 0 = omega arith in
        record {
          at = v.at;
          head_at = v.head_at;
          behind = omega arith;
          within = omega arith;
          counted = v.counted;
          unfailed = v.unfailed;
          order =
              rw (none_left, ring_read-window s.ring s.tail (h - s.tail) (omega arith))
                (append_assoc s.got (window s.ring s.tail (h - s.tail)) s.rest
                  ∙ rw same at v.order);
        }

pub feed_turn-Delivers :
    (s : Pipe) (h : ℤ)
    → s.head ≡ h
    → length s.given < 2147483648
    → Delivers s
    → Delivers (feed_turn s h)
unfolding feed_turn
feed_turn-Delivers s (negsuc k) e small v = cc v.head_at
feed_turn-Delivers s (pos h) e small v =
    if_intro Delivers (length s.rest == 0 || cap + s.tail - h == 0) (λ waits. v)
      (λ some_room.
        let same : v.at ≡ h = cc v.head_at in
        fed (min (cap + s.tail - h) (length s.rest)) same (omega arith) (omega arith))
  where
    fed :
        (n : ℕ)
        → v.at ≡ h
        → n ≤ length s.rest
        → h + n ≤ s.tail + cap
        → Delivers (copied s (pos h) n (ring_write s.ring h (take n s.rest)))
    fed n same fits room =
        rw
          (ring_write-write_each s.ring h (take n s.rest)
            (omega (arith, length-take n s.rest, v.behind)))
          (unfold copied in
            record {
              at = h + n;
              head_at = int32_small (h + n) (omega (arith, v.counted));
              behind = omega (arith, v.behind);
              within = room;
              counted = omega (arith, v.counted, length-drop n s.rest);
              unfailed = v.unfailed;
              order =
                  ap (λ (xs : List ℕ). s.got ++ (xs ++ drop n s.rest))
                    (window-write_each s.ring s.tail (h - s.tail) h (h + n - s.tail) (take n s.rest)
                      (omega arith) (omega (arith, length-take n s.rest)) (omega arith))
                  ∙ ap (◌++◌ s.got) (
                      append_assoc (window s.ring s.tail (h - s.tail)) (take n s.rest)
                        (drop n s.rest)
                      ∙ ap (◌++◌ (window s.ring s.tail (h - s.tail))) (take-append-drop n s.rest))
                  ∙ rw same at v.order;
            })

pub feed_turn-given : (s : Pipe) (h : ℤ) → (feed_turn s h).given ≡ s.given
unfolding feed_turn
feed_turn-given s h =
    let n = min (free_of h s.tail) (length s.rest) in
    if_intro (λ (t : Pipe). t.given ≡ s.given) (length s.rest == 0 || free_of h s.tail == 0)
      (λ waits. refl) (λ some_room. copied_given n (write_at s.ring h (take n s.rest)))
  where
    copied_given : (n : ℕ) (r : Option Ring) → (copied s h n r).given ≡ s.given
    copied_given n none = unfold copied in refl
    copied_given n (some ring) = unfold copied in refl

pub read_turn-given : (s : Pipe) (h : ℤ) → (read_turn s h).given ≡ s.given
unfolding read_turn
read_turn-given s (negsuc k) = refl
read_turn-given s (pos h) =
    if_intro (λ (t : Pipe). t.given ≡ s.given) (ltb s.tail h) (λ more. refl) (λ none_there. refl)

-- Bytes that were given stay given.
given_grows : (s : Pipe) (m : Move) → length s.given ≤ length (move s m).given
unfolding move accept
given_grows s (writes bytes) =
    if_intro (λ (t : Pipe). length s.given ≤ length t.given) (s.failed || ltb 0 (length s.rest))
      (λ busy. omega arith) (λ idle. omega (arith, length-append s.given bytes))
given_grows s feeds = omega (arith, ap length (feed_turn-given s s.head))
given_grows s reads = omega (arith, ap length (read_turn-given s s.head))

given_grows_all : (s : Pipe) (ms : List Move) → length s.given ≤ length (move_all s ms).given
unfolding move_all
given_grows_all s [] = omega arith
given_grows_all s (m ∷ ms) = omega (arith, given_grows s m, given_grows_all (move s m) ms)

move-Delivers :
    (s : Pipe) (m : Move) → length s.given < 2147483648 → Delivers s → Delivers (move s m)
unfolding move
move-Delivers s (writes bytes) small v = accept-Delivers s bytes v
move-Delivers s feeds small v = feed_turn-Delivers s s.head refl small v
move-Delivers s reads small v = read_turn-Delivers s s.head refl v

move_all-Delivers_from :
    (s : Pipe) (ms : List Move)
    → length (move_all s ms).given < 2147483648
    → Delivers s
    → Delivers (move_all s ms)
unfolding move_all
move_all-Delivers_from s [] small v = v
move_all-Delivers_from s (m ∷ ms) small v =
    move_all-Delivers_from (move s m) ms small
      (move-Delivers s m (omega (arith, small, given_grows s m, given_grows_all (move s m) ms)) v)

-- As long as fewer than 2^31 bytes are given to the stream: after any turns of either side, `feed` has not
-- thrown, the counters are at most `cap` apart, and what the transform has read, followed by what is in the
-- ring and what is left of the chunk, is exactly what was given.
pub move_all-Delivers :
    (ms : List Move)
    → length (move_all new_pipe ms).given < 2147483648
    → Delivers (move_all new_pipe ms)
move_all-Delivers ms small = move_all-Delivers_from new_pipe ms small (record {
  at = 0;
  head_at = refl;
  behind = omega arith;
  within = omega arith;
  counted = refl;
  unfailed = refl;
  order = refl;
})
