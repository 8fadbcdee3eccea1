-- ===== src/ByteQueue/Resolving.antt =====
-- Effects find the resolvers of the calls that they answer.
use mathlib.Core.List.{Perm, perm_middle, Mem, mem-cons_self, eq-or-mem_of_mem-cons, not-mem-nil}
use mathlib.Core.List.Perm
use mathlib.Core.Logic.Or
use mathlib.Core.Bool.{Bool-set}
use wac_mono.Base.{
  ℕ, ◌==◌, ◌≡◌, refl, sym, ap, ◌∙◌, Bool, true, List, [], ◌∷◌, ◌++◌, append-nil, append_assoc, map,
  if_intro, arith,
}
use wac_mono.ByteQueue.{Event, Effect, reader, writer, apply}
use wac_mono.ByteQueue.Settling.{Caller, reading, writing, addressee, waiting, calls, apply-Settles}
use wac_mono.ByteQueue.Driver.{Driver, has_id, delete_id, resolve, resolve_all, run_event}

-- The calls whose resolvers are held.
abbrev pub held_calls : List ℕ → List ℕ → List Caller
held_calls rs ws = map reading rs ++ map writing ws

delete_id-perm {ℓ} :
    {A : Type ℓ} (f : ℕ → A) (id : ℕ) (xs : List ℕ)
    → has_id id xs ≡ true
    → Perm (f id ∷ map f (delete_id id xs)) (map f xs)
delete_id-perm f id [] h = cc
delete_id-perm f id (x ∷ xs) h =
    if_intro (λ (l : List ℕ). Perm (f id ∷ map f l) (f x ∷ map f xs)) (x == id)
      (λ same. let e : x ≡ id = ground arith in Perm.cons' (ap f (sym e)) (Perm.refl _))
      (λ other.
        Perm.trans (Perm.swap (f x) (f id) _)
          (Perm.cons (f x) (delete_id-perm f id xs (ground arith))))

-- The map that a call's resolver is in has it.
abbrev pub is_held : List ℕ → List ℕ → Caller → Bool
is_held rs ws (reading id) = has_id id rs
is_held rs ws (writing id) = has_id id ws

Mem-is_held : (rs ws : List ℕ) (c : Caller) → Mem c (held_calls rs ws) → is_held rs ws c ≡ true
Mem-is_held [] [] c m = absurd (not-mem-nil m)
Mem-is_held [] (w ∷ ws) c m =
    Or.elim (Bool-set _ _) (eq-or-mem_of_mem-cons m) (λ e. rw e (ground arith))
      (λ n. later c (Mem-is_held [] ws c n))
  where
    later : (c : Caller) → is_held [] ws c ≡ true → is_held [] (w ∷ ws) c ≡ true
    later (reading id) h = h
    later (writing id) h = ground arith
Mem-is_held (r ∷ rs) ws c m =
    Or.elim (Bool-set _ _) (eq-or-mem_of_mem-cons m) (λ e. rw e (ground arith))
      (λ n. later c (Mem-is_held rs ws c n))
  where
    later : (c : Caller) → is_held rs ws c ≡ true → is_held (r ∷ rs) ws c ≡ true
    later (reading id) h = ground arith
    later (writing id) h = h

first-is_held :
    (rs ws : List ℕ) (c : Caller) (cs : List Caller)
    → Perm (c ∷ cs) (held_calls rs ws)
    → is_held rs ws c ≡ true
first-is_held rs ws c cs p = Mem-is_held rs ws c ((Perm.mem_iff p).0 mem-cons_self)

-- What a driver looks like after effects that answer calls whose resolvers it holds.
pub record Resolves (d : Driver) (es : List Effect) (left : List Caller) (t : Driver) : Type 0 where
  pub same_state : t.state ≡ d.state
  pub same_next : t.next_id ≡ d.next_id
  pub all_told : t.settled ≡ d.settled ++ es
  pub kept : Perm (held_calls t.readers t.writers) left

resolve-Resolves :
    (d : Driver) (e : Effect) (left : List Caller)
    → Perm (addressee e ∷ left) (held_calls d.readers d.writers)
    → Resolves d (e ∷ []) left (resolve d e)
unfolding resolve
resolve-Resolves d (reader id bytes) left p =
    let there = first-is_held d.readers d.writers (reading id) left p in
    record {
      same_state = refl;
      same_next = refl;
      all_told = rw there;
      kept = Perm.cons_inv (
          Perm.trans
            (Perm.append_right (map writing d.writers) (delete_id-perm reading id d.readers there))
            (Perm.symm p));
    }
resolve-Resolves d (writer id taken) left p =
    let there = first-is_held d.readers d.writers (writing id) left p in
    record {
      same_state = refl;
      same_next = refl;
      all_told = rw there;
      kept = Perm.cons_inv (
          Perm.trans
            (Perm.symm (
              perm_middle {a = writing id} (map reading d.readers)
                (map writing (delete_id id d.writers))))
            (Perm.trans
              (Perm.append_left (map reading d.readers) (delete_id-perm writing id d.writers there))
              (Perm.symm p)));
    }

resolve_all-Resolves :
    (d : Driver) (es : List Effect) (left : List Caller)
    → Perm (map addressee es ++ left) (held_calls d.readers d.writers)
    → Resolves d es left (resolve_all d es)
unfolding resolve_all
resolve_all-Resolves d [] left p = record {
  same_state = refl;
  same_next = refl;
  all_told = sym (append-nil d.settled);
  kept = Perm.symm p;
}
resolve_all-Resolves d (e ∷ es) left p =
    let one = resolve-Resolves d e (map addressee es ++ left) p in
    let more = resolve_all-Resolves (resolve d e) es left (Perm.symm one.kept) in
    record {
      same_state = more.same_state ∙ one.same_state;
      same_next = more.same_next ∙ one.same_next;
      all_told =
          more.all_told
          ∙ ap (λ (xs : List Effect). xs ++ es) one.all_told
          ∙ append_assoc d.settled (e ∷ []) es;
      kept = more.kept;
    }

pub run_event-Resolves :
    (d : Driver) (e : Event)
    → Perm (held_calls d.readers d.writers) (waiting d.state ++ calls e)
    → let s = apply d.state e in
      Resolves (record d { state = s.state }) s.effects (waiting s.state) (run_event d e)
unfolding run_event
run_event-Resolves d e p =
    resolve_all-Resolves (record d { state = (apply d.state e).state }) (apply d.state e).effects _
      (Perm.trans (apply-Settles d.state e) (Perm.symm p))
