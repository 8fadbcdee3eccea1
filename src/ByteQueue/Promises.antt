-- ===== src/ByteQueue/Promises.antt =====
-- The driver keeps its promises: the resolvers that it holds are those of the calls that wait in the queue.
use mathlib.Core.List.{Perm, perm_append_comm, map-append}
use mathlib.Core.List.Perm
use wac_mono.Base.{
  ℕ, ◌+◌, ◌≡◌, refl, sym, ap, ◌∙◌, List, [], ◌∷◌, ◌++◌, append-nil, append_assoc, map,
}
use wac_mono.ByteQueue.{QueueState, Event, push, next, end, end_with, apply, empty_queue, run}
use wac_mono.ByteQueue.Settling.{reading, writing, waiting, calls}
use wac_mono.ByteQueue.Driver.{
  chunk, Driver, new_queue, run_event, driver_push, driver_next, driver_end, driver_end_with, Call,
  pushes, nexts, ends, ends_with, call, call_all,
}
use wac_mono.ByteQueue.Resolving.{held_calls, run_event-Resolves}

-- The events that calls make, numbered from `n` on.
abbrev pub events_of : ℕ → List Call → List Event
events_of n [] = []
events_of n (pushes bytes ∷ cs) = push n bytes ∷ events_of (n + 1) cs
events_of n (nexts ∷ cs) = next n chunk ∷ events_of (n + 1) cs
events_of n (ends ∷ cs) = end ∷ events_of n cs
events_of n (ends_with bytes ∷ cs) = end_with bytes ∷ events_of n cs

-- The driver `d` has come to the driver `t` as the queue in it has come through the events `es`.
record Follows (d : Driver) (es : List Event) (t : Driver) : Type 0 where
  same_state : t.state ≡ (run d.state es).state
  all_told : t.settled ≡ d.settled ++ (run d.state es).effects
  kept : Perm (held_calls t.readers t.writers) (waiting t.state)

record Started (d : Driver) (e : Event) (n : ℕ) (t : Driver) : Type 0 where
  same_state : t.state ≡ (apply d.state e).state
  same_next : t.next_id ≡ n
  all_told : t.settled ≡ d.settled ++ (apply d.state e).effects
  kept : Perm (held_calls t.readers t.writers) (waiting t.state)

-- One event, after the resolver of its call was put into its map.
started :
    (d d' : Driver) (e : Event)
    → d'.state ≡ d.state
    → d'.settled ≡ d.settled
    → Perm (held_calls d'.readers d'.writers) (waiting d.state ++ calls e)
    → Started d e d'.next_id (run_event d' e)
started d d' e a b p =
    let r = run_event-Resolves d' e (rw a p) in
    record {
      same_state = r.same_state ∙ ap (λ (s : QueueState). (apply s e).state) a;
      same_next = r.same_next;
      all_told = r.all_told ∙ rw (a, b) refl;
      kept = rw r.same_state r.kept;
    }

-- A call that puts its resolver into a map.
new_writer :
    (rs ws : List ℕ) (n : ℕ) → held_calls rs (ws ++ n ∷ []) ≡ held_calls rs ws ++ writing n ∷ []
new_writer rs ws n =
    rw (map-append writing ws (n ∷ []))
      (sym (append_assoc (map reading rs) (map writing ws) (writing n ∷ [])))

new_reader :
    (rs ws : List ℕ) (n : ℕ)
    → Perm (held_calls (rs ++ n ∷ []) ws) (held_calls rs ws ++ reading n ∷ [])
new_reader rs ws n =
    rw
      (
        map-append reading rs (n ∷ []),
        append_assoc (map reading rs) (reading n ∷ []) (map writing ws),
        append_assoc (map reading rs) (map writing ws) (reading n ∷ []),
      )
      (Perm.append_left (map reading rs) (perm_append_comm (reading n ∷ []) (map writing ws)))

call-Started :
    (d : Driver) (c : Call)
    → Perm (held_calls d.readers d.writers) (waiting d.state)
    → (e : Event) × (n : ℕ) × Started d e n (call d c)
      × ((cs : List Call) → events_of d.next_id (c ∷ cs) ≡ e ∷ events_of n cs)
unfolding call driver_push driver_next driver_end driver_end_with
call-Started d (pushes bytes) p = (
  push d.next_id bytes,
  d.next_id + 1,
  started d _ (push d.next_id bytes) refl refl
      (rw (new_writer d.readers d.writers d.next_id) (Perm.append_right _ p)),
  λ cs. refl,
)
call-Started d nexts p = (
  next d.next_id chunk,
  d.next_id + 1,
  started d _ (next d.next_id chunk) refl refl
      (Perm.trans (new_reader d.readers d.writers d.next_id) (Perm.append_right _ p)),
  λ cs. refl,
)
call-Started d ends p =
    (end, d.next_id, started d _ end refl refl (rw (append-nil (waiting d.state)) p), λ cs. refl)
call-Started d (ends_with bytes) p = (
  end_with bytes,
  d.next_id,
  started d _ (end_with bytes) refl refl (rw (append-nil (waiting d.state)) p),
  λ cs. refl,
)

call_all-Follows :
    (d : Driver) (cs : List Call)
    → Perm (held_calls d.readers d.writers) (waiting d.state)
    → Follows d (events_of d.next_id cs) (call_all d cs)
unfolding call_all run
call_all-Follows d [] p = record {
  same_state = refl;
  all_told = sym (append-nil d.settled);
  kept = p;
}
call_all-Follows d (c ∷ cs) p =
    let (e, n, one, events) = call-Started d c p in
    let more = call_all-Follows (call d c) cs one.kept in
    let numbered : events_of d.next_id (c ∷ cs) ≡ e ∷ events_of (call d c).next_id cs =
      events cs ∙ ap (λ (m : ℕ). e ∷ events_of m cs) (sym one.same_next) in
    rw numbered (record {
      same_state =
          more.same_state
          ∙ ap (λ (s : QueueState). (run s (events_of (call d c).next_id cs)).state) one.same_state;
      all_told = more.all_told ∙ rw (one.all_told, one.same_state) (append_assoc d.settled _ _);
      kept = more.kept;
    })

-- After any calls on a new queue: its state and all that its promises have settled with are those of `apply`
-- on the calls as events, numbered in turn, and the resolvers that are left are, up to order, those of the
-- calls that the queue still has waiting. So every effect finds its resolver, and no promise settles twice.
pub promises_kept :
    (cap : ℕ) (cs : List Call)
    → let d = call_all (new_queue cap) cs in
      let r = run (empty_queue cap) (events_of 0 cs) in
      (d.state ≡ r.state)
      × (d.settled ≡ r.effects)
      × Perm (held_calls d.readers d.writers) (waiting r.state)
unfolding new_queue empty_queue
promises_kept cap cs =
    let f = call_all-Follows (new_queue cap) cs (Perm.refl _) in
    (f.same_state, f.all_told, rw f.same_state at f.kept)
