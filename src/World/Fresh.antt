-- ===== src/World/Fresh.antt =====
-- A handle stands for one thing, and one that was closed never stands for another.
use wac_mono.Base.{
  ℕ, ◌+◌, ◌-◌, ◌≤◌, ◌<◌, ◌≡◌, refl, arith, Option, none, some, List, [], ◌∷◌, ◌==◌, if◌then◌else◌,
  if_intro, ◌⊎◌,
}
use wac_mono.World.Handles.{
  add_socket, add_listener, start_child, fail_child, close_socket, Table, Handles, lookup, delete,
  no_handles, Step, opens_socket, opens_listener, spawns, loads, fails, closes, start_loaded, step,
  run, nothing_open, recv_source,
}

-- A handle is in a table.
abbrev pub In : ℕ → Table → Type 0
In h [] = ⊥
In h ((k, v) ∷ rest) = (k ≡ h) ⊎ In h rest

-- How often a handle is in a table.
abbrev pub times : ℕ → Table → ℕ
times h [] = 0
times h ((k, v) ∷ rest) = (if k == h then 1 else 0) + times h rest

-- How often a handle is in any of the tables.
abbrev pub uses : ℕ → Handles → ℕ
uses h s =
    times h s.sockets
    + times h s.listeners
    + times h s.children
    + times h s.err_streams
    + times h s.loading

-- No handle is used twice, and one that was not handed out, not at all.
pub record Inv (s : Handles) : Type 0 where
  pub positive : 0 < s.next
  pub once : (h : ℕ) → uses h s ≤ 1
  pub unused : (h : ℕ) → s.next ≤ h → uses h s ≡ 0
  pub not_input : uses 0 s ≡ 0

times-delete : (h k : ℕ) (t : Table) → times h (delete t k) ≡ (if h == k then 0 else times h t)
unfolding delete
times-delete h k [] = ground arith
times-delete h k ((j, v) ∷ rest) = ground (arith, times-delete h k rest)

times-lookup : (h : ℕ) (t : Table) → times h t ≡ 0 → lookup t h ≡ none
unfolding lookup
times-lookup h [] e = refl
times-lookup h ((j, v) ∷ rest) e = ground (arith, times-lookup h rest)

lookup-times : (h : ℕ) (t : Table) (v : ℕ) → lookup t h ≡ some v → 1 ≤ times h t
unfolding lookup
lookup-times h [] v e = cc
lookup-times h ((j, w) ∷ rest) v e = ground (arith, lookup-times h rest v)

no_handles-Inv : Inv no_handles
unfolding no_handles
no_handles-Inv = record {
  positive = omega arith;
  once = λ h. omega arith;
  unused = λ h e. omega arith;
  not_input = omega arith;
}

loaded-Inv :
    (s : Handles) (h errs : ℕ) (found : Option ℕ)
    → lookup s.loading h ≡ found
    → Inv s
    → Inv (start_loaded found s h errs)
unfolding start_loaded
loaded-Inv s h errs none e inv = inv
loaded-Inv s h errs (some child) e inv = record {
  positive = omega arith;
  once = λ k. ground (
    arith,
    inv.once k,
    inv.once h,
    inv.unused s.next,
    inv.unused h,
    loads_h,
    times-delete k h s.loading,
  );
  unused =
      λ k above. ground (arith, inv.unused k, inv.unused h, loads_h, times-delete k h s.loading);
  not_input =
      ground
        (arith, inv.not_input, inv.positive, inv.unused h, loads_h, times-delete 0 h s.loading);
}
  where
    loads_h : 1 ≤ times h s.loading
    loads_h = lookup-times h s.loading child e

step-Inv : (s : Handles) (a : Step) → Inv s → Inv (step s a)
unfolding step add_socket add_listener start_child fail_child close_socket
step-Inv s (opens_socket conn) inv = record {
  positive = omega arith;
  once = λ k. ground (arith, inv.once k, inv.unused s.next);
  unused = λ k above. ground (arith, inv.unused k);
  not_input = ground (arith, inv.not_input, inv.positive);
}
step-Inv s (opens_listener l) inv = record {
  positive = omega arith;
  once = λ k. ground (arith, inv.once k, inv.unused s.next);
  unused = λ k above. ground (arith, inv.unused k);
  not_input = ground (arith, inv.not_input, inv.positive);
}
step-Inv s (spawns child) inv = record {
  positive = omega arith;
  once = λ k. ground (arith, inv.once k, inv.unused s.next);
  unused = λ k above. ground (arith, inv.unused k);
  not_input = ground (arith, inv.not_input, inv.positive);
}
step-Inv s (loads h errs) inv = loaded-Inv s h errs (lookup s.loading h) refl inv
step-Inv s (fails h) inv = record {
  positive = inv.positive;
  once = λ k. ground (arith, inv.once k, times-delete k h s.loading);
  unused = λ k above. ground (arith, inv.unused k, times-delete k h s.loading);
  not_input = ground (arith, inv.not_input, times-delete 0 h s.loading);
}
step-Inv s (closes h) inv = record {
  positive = inv.positive;
  once = λ k. ground (arith, inv.once k, closed k);
  unused = λ k above. ground (arith, inv.unused k, closed k);
  not_input = ground (arith, inv.not_input, closed 0);
}
  where
    closed :
        (k : ℕ)
        → uses k (step s (closes h))
          ≡ (if k == h then 0 else uses k s - times k s.loading) + times k s.loading
    closed k = ground (
      arith,
      times-delete k h s.sockets,
      times-delete k h s.listeners,
      times-delete k h s.children,
      times-delete k h s.err_streams,
    )

run-Inv : (s : Handles) (steps : List Step) → Inv s → Inv (run s steps)
unfolding run
run-Inv s [] inv = inv
run-Inv s (a ∷ rest) inv = run-Inv (step s a) rest (step-Inv s a inv)

-- Handed out before, and in no table now.
abbrev pub IsGone : ℕ → Handles → Type 0
IsGone h s = (h < s.next) × (uses h s ≡ 0)

start_loaded-IsGone :
    (s : Handles) (h k errs : ℕ) (found : Option ℕ)
    → lookup s.loading k ≡ found
    → IsGone h s
    → IsGone h (start_loaded found s k errs)
unfolding start_loaded
start_loaded-IsGone s h k errs none e gone = gone
start_loaded-IsGone s h k errs (some child) e gone =
    let found_k = lookup-times k s.loading child e in
    (omega (arith, gone.0), ground (arith, gone.0, gone.1, found_k, times-delete h k s.loading))

step-IsGone : (s : Handles) (a : Step) (h : ℕ) → IsGone h s → IsGone h (step s a)
unfolding step add_socket add_listener start_child fail_child close_socket
step-IsGone s (opens_socket conn) h gone = (omega (arith, gone.0), ground (arith, gone.0, gone.1))
step-IsGone s (opens_listener l) h gone = (omega (arith, gone.0), ground (arith, gone.0, gone.1))
step-IsGone s (spawns child) h gone = (omega (arith, gone.0), ground (arith, gone.0, gone.1))
step-IsGone s (loads k errs) h gone = start_loaded-IsGone s h k errs (lookup s.loading k) refl gone
step-IsGone s (fails k) h gone = (gone.0, ground (arith, gone.1, times-delete h k s.loading))
step-IsGone s (closes k) h gone = (
  gone.0,
  ground (
    arith,
    gone.1,
    times-delete h k s.sockets,
    times-delete h k s.listeners,
    times-delete h k s.children,
    times-delete h k s.err_streams,
  ),
)

run-IsGone : (s : Handles) (steps : List Step) (h : ℕ) → IsGone h s → IsGone h (run s steps)
unfolding run
run-IsGone s [] h gone = gone
run-IsGone s (a ∷ rest) h gone = run-IsGone (step s a) rest h (step-IsGone s a h gone)

gone-nothing_open : (s : Handles) (h : ℕ) → 0 < h → IsGone h s → recv_source s h ≡ nothing_open
unfolding recv_source
gone-nothing_open s h above gone =
    let no_child = times-lookup h s.children (omega (arith, gone.1)) in
    let no_error = times-lookup h s.err_streams (omega (arith, gone.1)) in
    let no_socket = times-lookup h s.sockets (omega (arith, gone.1)) in
    if_intro (λ source. source ≡ nothing_open) (h == 0) (λ e. absurd (ground arith))
      (λ e. rw (no_child, no_error, no_socket) refl)

-- Whatever a world has opened, spawned and closed, and whichever of its programs have loaded or failed since: no handle
-- stands for two things, in one table or in two of them, and none stands for anything before it is handed out. Standard
-- input keeps the handle 0 for itself.
pub run-OneEach :
    (steps : List Step) (h : ℕ)
    → let s = run no_handles steps in (uses h s ≤ 1) × (s.next ≤ h → uses h s ≡ 0) × (uses 0 s ≡ 0)
run-OneEach steps h =
    let inv = run-Inv no_handles steps no_handles-Inv in (inv.once h, inv.unused h, inv.not_input)

-- Once a handle that a program was given is closed, nothing that the world does later gives it to anything else: `recv`
-- on it says that nothing is open. The handle is one of those handed out, and no program waits to load under it.
pub closed-nothing_open :
    (before : List Step) (h : ℕ) (later : List Step)
    → 0 < h
    → h < (run no_handles before).next
    → times h (run no_handles before).loading ≡ 0
    → recv_source (run (step (run no_handles before) (closes h)) later) h ≡ nothing_open
closed-nothing_open before h later above given loaded =
    let s = run no_handles before in
    gone-nothing_open (run (step s (closes h)) later) h above (
      run-IsGone (step s (closes h)) later h (
        unfold step close_socket in
        (
          given,
          ground (
            arith,
            loaded,
            times-delete h h s.sockets,
            times-delete h h s.listeners,
            times-delete h h s.children,
            times-delete h h s.err_streams,
          ),
        )))
