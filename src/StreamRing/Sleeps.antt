-- ===== src/StreamRing/Sleeps.antt =====
-- A transform that sleeps for input has missed nothing.
use wac_mono.Base.{
  ℕ, ◌+◌, ◌%◌, ◌≤◌, ◌<◌, ◌≡◌, refl, sym, subst, arith, ℤ, pos, negsuc, true, false, not, ◌&&◌, List,
  [], ◌∷◌, length, ◌==◌, if_intro,
}
use wac_mono.StreamRing.Wakes.{
  Place, idle, ended, broken, counted, past_head, past_error, to_wait, asleep, Scene, new_scene,
  is_available, may_begin, publish, close, abort_error, abort_end, woken, count_event, notify,
  take_to, read_step, Event, publishes, closes, aborts_error, aborts_end, counts, notifies, reads,
  happen, happen_all,
}

-- If there was no event since the count `q` was loaded and none is due, then `P`.
record Since (s : Scene) (q : ℕ) (P : Type 0) : Type 0 where
  behind : q ≤ s.events
  clear : s.events ≡ q → s.due ≡ false → P

-- Nothing is available and neither mark is set.
pub record Quiet (s : Scene) : Type 0 where
  pub none_there : is_available s.head s.tail ≡ false
  pub unfailed : s.err ≡ false
  pub still_open : s.eof ≡ false

Quiet-reader : (s : Scene) (p : Place) → Quiet s → Quiet (record s { reader = p })
Quiet-reader s p v = record {
  none_there = v.none_there;
  unfailed = v.unfailed;
  still_open = v.still_open;
}

record Asleep (s : Scene) : Type 0 where
  clear : s.due ≡ false → s.waking ≡ false → Quiet s

abbrev Holds : Scene → Place → Type 0
Holds s idle = Unit
Holds s ended = Unit
Holds s broken = Unit
Holds s (counted q) = Since s q Unit
Holds s (past_head q) = Since s q (is_available s.head s.tail ≡ false)
Holds s (past_error q) = Since s q ((is_available s.head s.tail ≡ false) × (s.err ≡ false))
Holds s (to_wait q) = Since s q (Quiet s)
Holds s (asleep q) = Asleep s

-- What the producer has stored and not counted is not yet said.
owed-Since :
    (s t : Scene) (q : ℕ) {P R : Type 0}
    → t.due ≡ true
    → t.events ≡ s.events
    → Since s q P
    → Since t q R
owed-Since s t q owes same v = record {
  behind = omega (arith, v.behind);
  clear = λ e none_due. absurd (cc);
}

owed-Holds : (s t : Scene) (p : Place) → t.due ≡ true → t.events ≡ s.events → Holds s p → Holds t p
owed-Holds s t idle owes same v = v
owed-Holds s t ended owes same v = v
owed-Holds s t broken owes same v = v
owed-Holds s t (counted q) owes same v = owed-Since s t q owes same v
owed-Holds s t (past_head q) owes same v = owed-Since s t q owes same v
owed-Holds s t (past_error q) owes same v = owed-Since s t q owes same v
owed-Holds s t (to_wait q) owes same v = owed-Since s t q owes same v
owed-Holds s t (asleep q) owes same v = record { clear = λ none_due none_woken. absurd (cc) }

later-Since :
    (s t : Scene) (q : ℕ) {P R : Type 0} → t.events ≡ s.events + 1 → Since s q P → Since t q R
later-Since s t q next v = record {
  behind = omega (arith, v.behind);
  clear = λ e none_due. absurd (omega (arith, v.behind));
}

-- After the count, and before `notify`, nothing is said of a sleeper; `notify` wakes it.
later-Holds :
    (s t : Scene) (p : Place) → t.events ≡ s.events + 1 → t.waking ≡ true → Holds s p → Holds t p
later-Holds s t idle next wakes v = v
later-Holds s t ended next wakes v = v
later-Holds s t broken next wakes v = v
later-Holds s t (counted q) next wakes v = later-Since s t q next v
later-Holds s t (past_head q) next wakes v = later-Since s t q next v
later-Holds s t (past_error q) next wakes v = later-Since s t q next v
later-Holds s t (to_wait q) next wakes v = later-Since s t q next v
later-Holds s t (asleep q) next wakes v = record { clear = λ none_due none_woken. absurd (cc) }

woken-Holds :
    (s : Scene) (p : Place)
    → Holds s p
    → Holds (record s { waking = false; reader = woken p }) (woken p)
woken-Holds s idle v = v
woken-Holds s ended v = v
woken-Holds s broken v = v
woken-Holds s (counted q) v = record { behind = v.behind; clear = v.clear }
woken-Holds s (past_head q) v = record { behind = v.behind; clear = v.clear }
woken-Holds s (past_error q) v = record { behind = v.behind; clear = v.clear }
woken-Holds s (to_wait q) v = record {
  behind = v.behind;
  clear = λ e none_due.
      let quiet = v.clear e none_due in
      record {
        none_there = quiet.none_there;
        unfailed = quiet.unfailed;
        still_open = quiet.still_open;
      };
}
woken-Holds s (asleep q) v = tt

take_to-Holds :
    (s : Scene) (h : ℤ) → is_available h s.tail ≡ true → Holds (take_to s h) (take_to s h).reader
take_to-Holds s (pos h) more = tt
take_to-Holds s (negsuc k) more = absurd (ground arith)

same_count : {a q : ℕ} → q ≤ a → a < 4294967296 → a % 4294967296 ≡ q % 4294967296 → a ≡ q
same_count behind small level = omega arith

read_step-Holds :
    (s : Scene) (p : Place)
    → s.events < 4294967296
    → s.reader ≡ p
    → Holds s p
    → Holds (read_step s p) (read_step s p).reader
unfolding read_step
read_step-Holds s idle small e v = record { behind = omega arith; clear = λ k none_due. tt }
read_step-Holds s ended small e v = subst (Holds s) (sym e) v
read_step-Holds s broken small e v = subst (Holds s) (sym e) v
read_step-Holds s (asleep q) small e v = subst (Holds s) (sym e) v
read_step-Holds s (counted q) small e v =
    if_intro (λ (t : Scene). Holds t t.reader) (is_available s.head s.tail)
      (λ more. take_to-Holds s s.head more)
      (λ none_there. record { behind = v.behind; clear = λ k none_due. none_there })
read_step-Holds s (past_head q) small e v =
    if_intro (λ (t : Scene). Holds t t.reader) s.err (λ failed. tt)
      (λ fine. record { behind = v.behind; clear = λ k none_due. (v.clear k none_due, fine) })
read_step-Holds s (past_error q) small e v =
    if_intro (λ (t : Scene). Holds t t.reader) s.eof (λ closed. tt)
      (λ still. record {
        behind = v.behind;
        clear = λ k none_due. record {
          none_there = (v.clear k none_due).0;
          unfailed = (v.clear k none_due).1;
          still_open = still;
        };
      })
read_step-Holds s (to_wait q) small e v =
    if_intro (λ (t : Scene). Holds t t.reader) (s.events % 4294967296 == q % 4294967296)
      (λ level.
        let same : s.events ≡ q = same_count v.behind small (ground (arith, level)) in
        record { clear = λ none_due none_woken. Quiet-reader s (asleep q) (v.clear same none_due) })
      (λ moved_on. tt)

begin_owed :
    (s t : Scene)
    → t.due ≡ true
    → t.events ≡ s.events
    → t.reader ≡ s.reader
    → Holds s s.reader
    → Holds t t.reader
begin_owed s t owes same stays v = subst (Holds t) (sym stays) (owed-Holds s t s.reader owes same v)

happen-Holds :
    (s : Scene) (e : Event)
    → s.events < 4294967296
    → Holds s s.reader
    → Holds (happen s e) (happen s e).reader
unfolding happen publish close abort_error abort_end count_event notify
happen-Holds s (publishes n) small v =
    if_intro (λ (t : Scene). Holds t t.reader) (may_begin s)
      (λ begins. begin_owed s _ refl refl refl v) (λ waits. v)
happen-Holds s closes small v =
    if_intro (λ (t : Scene). Holds t t.reader) (may_begin s)
      (λ begins. begin_owed s _ refl refl refl v) (λ waits. v)
happen-Holds s aborts_error small v =
    if_intro (λ (t : Scene). Holds t t.reader) (may_begin s)
      (λ begins. begin_owed s _ refl refl refl v) (λ waits. v)
happen-Holds s aborts_end small v =
    if_intro (λ (t : Scene). Holds t t.reader) (s.due && s.err)
      (λ begins. begin_owed s _ (ground arith) refl refl v) (λ waits. v)
happen-Holds s counts small v =
    if_intro (λ (t : Scene). Holds t t.reader) (s.due && not (s.err && not s.eof))
      (λ done. later-Holds s _ s.reader refl refl v) (λ waits. v)
happen-Holds s notifies small v =
    if_intro (λ (t : Scene). Holds t t.reader) s.waking (λ wakes. woken-Holds s s.reader v)
      (λ waits. v)
happen-Holds s reads small v = read_step-Holds s s.reader small refl v

take_to-events : (s : Scene) (h : ℤ) → (take_to s h).events ≡ s.events
take_to-events s (pos h) = refl
take_to-events s (negsuc k) = refl

read_step-events : (s : Scene) (p : Place) → (read_step s p).events ≡ s.events
unfolding read_step
read_step-events s idle = refl
read_step-events s ended = refl
read_step-events s broken = refl
read_step-events s (asleep q) = refl
read_step-events s (counted q) =
    if_intro (λ (t : Scene). t.events ≡ s.events) (is_available s.head s.tail)
      (λ more. take_to-events s s.head) (λ none_there. refl)
read_step-events s (past_head q) =
    if_intro (λ (t : Scene). t.events ≡ s.events) s.err (λ failed. refl) (λ fine. refl)
read_step-events s (past_error q) =
    if_intro (λ (t : Scene). t.events ≡ s.events) s.eof (λ closed. refl) (λ still. refl)
read_step-events s (to_wait q) =
    if_intro (λ (t : Scene). t.events ≡ s.events) (s.events % 4294967296 == q % 4294967296)
      (λ level. refl) (λ moved_on. refl)

happen-events : (s : Scene) (e : Event) → (happen s e).events ≤ s.events + 1
unfolding happen publish close abort_error abort_end count_event notify
happen-events s (publishes n) =
    if_intro (λ (t : Scene). t.events ≤ s.events + 1) (may_begin s) (λ begins. omega arith)
      (λ waits. omega arith)
happen-events s closes =
    if_intro (λ (t : Scene). t.events ≤ s.events + 1) (may_begin s) (λ begins. omega arith)
      (λ waits. omega arith)
happen-events s aborts_error =
    if_intro (λ (t : Scene). t.events ≤ s.events + 1) (may_begin s) (λ begins. omega arith)
      (λ waits. omega arith)
happen-events s aborts_end =
    if_intro (λ (t : Scene). t.events ≤ s.events + 1) (s.due && s.err) (λ begins. omega arith)
      (λ waits. omega arith)
happen-events s counts =
    if_intro (λ (t : Scene). t.events ≤ s.events + 1) (s.due && not (s.err && not s.eof))
      (λ done. omega arith) (λ waits. omega arith)
happen-events s notifies =
    if_intro (λ (t : Scene). t.events ≤ s.events + 1) s.waking (λ wakes. omega arith)
      (λ waits. omega arith)
happen-events s reads = omega (arith, read_step-events s s.reader)

happen_all-Holds :
    (s : Scene) (es : List Event)
    → s.events + length es < 4294967296
    → Holds s s.reader
    → Holds (happen_all s es) (happen_all s es).reader
unfolding happen_all
happen_all-Holds s [] small v = v
happen_all-Holds s (e ∷ rest) small v =
    happen_all-Holds (happen s e) rest (omega (arith, small, happen-events s e))
      (happen-Holds s e (omega (arith, small)) v)

-- Fewer than 2^32 steps into a stream, in any order of the two sides: when the transform sleeps for input and the
-- producer is not in the middle of a write, a close or an abort, nothing is available to the transform, and the stream
-- is neither closed nor aborted.
pub happen_all-NothingMissed :
    (es : List Event) (q : ℕ)
    → length es < 4294967296
    → (happen_all new_scene es).reader ≡ asleep q
    → (happen_all new_scene es).due ≡ false
    → (happen_all new_scene es).waking ≡ false
    → Quiet (happen_all new_scene es)
happen_all-NothingMissed es q small e none_due none_woken =
    let t = happen_all new_scene es in
    (subst (Holds t) e (happen_all-Holds new_scene es (omega (arith, small)) tt)).clear none_due
      none_woken
