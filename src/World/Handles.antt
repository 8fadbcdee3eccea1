-- ===== src/World/Handles.antt =====
-- packages/platform/host/deno.ts: the handles of a world. Sockets, listeners, spawned programs and their error streams
-- share one counter; each is a table from a handle to what it stands for, here a number of the runtime's. A step is one
-- of the places where a handler touches the tables, between its waits.
use wac_mono.Base.{ℕ, ◌+◌, Option, none, some, List, [], ◌∷◌, ◌==◌, if◌then◌else◌}

-- An entry: the handle, and what it stands for. The newest entry stands first.
abbrev pub Table : Type 0
Table = List (ℕ × ℕ)

unfoldable pub lookup : Table → ℕ → Option ℕ
lookup [] h = none
lookup ((k, v) ∷ rest) h = let later = lookup rest h in if k == h then some v else later

unfoldable pub delete : Table → ℕ → Table
delete [] h = []
delete ((k, v) ∷ rest) h = let later = delete rest h in if k == h then later else (k, v) ∷ later

-- `loading` are the programs that were given a handle and have not said whether they load.
pub record Handles : Type 0 where
  pub next : ℕ
  pub sockets : Table
  pub listeners : Table
  pub children : Table
  pub err_streams : Table
  pub loading : Table

unfoldable pub no_handles : Handles
no_handles = record {
  next = 1;
  sockets = [];
  listeners = [];
  children = [];
  err_streams = [];
  loading = [];
}

-- `connect` and `accept` register a socket, `listen` a listener. `startChild` takes a handle before it waits for the
-- program to load; when it has loaded, it takes a second one, for the error stream, and registers both.
pub data Step : Type 0 where
  opens_socket opens_listener spawns : ℕ → Step
  loads : ℕ → ℕ → Step
  fails closes : ℕ → Step

unfoldable pub start_loaded : Option ℕ → Handles → ℕ → ℕ → Handles
start_loaded none s h errs = s
start_loaded (some child) s h errs = record s {
  next = s.next + 1;
  loading = delete s.loading h;
  children = (h, child) ∷ s.children;
  err_streams = (s.next, errs) ∷ s.err_streams;
}

unfoldable pub add_socket : Handles → ℕ → Handles
add_socket s conn = record s { next = s.next + 1; sockets = (s.next, conn) ∷ s.sockets }

unfoldable pub add_listener : Handles → ℕ → Handles
add_listener s l = record s { next = s.next + 1; listeners = (s.next, l) ∷ s.listeners }

unfoldable pub start_child : Handles → ℕ → Handles
start_child s child = record s { next = s.next + 1; loading = (s.next, child) ∷ s.loading }

-- Never registered.
unfoldable pub fail_child : Handles → ℕ → Handles
unfolding delete
fail_child s h = record s { loading = delete s.loading h }

unfoldable pub close_socket : Handles → ℕ → Handles
unfolding delete
close_socket s h = record s {
  sockets = delete s.sockets h;
  listeners = delete s.listeners h;
  children = delete s.children h;
  err_streams = delete s.err_streams h;
}

unfoldable pub step : Handles → Step → Handles
unfolding start_loaded lookup add_socket add_listener start_child fail_child close_socket
step s (opens_socket conn) = add_socket s conn
step s (opens_listener l) = add_listener s l
step s (spawns child) = start_child s child
step s (loads h errs) = start_loaded (lookup s.loading h) s h errs
step s (fails h) = fail_child s h
step s (closes h) = close_socket s h

unfoldable pub run : Handles → List Step → Handles
unfolding step
run s [] = s
run s (a ∷ rest) = run (step s a) rest

-- What `recv` reads from: standard input, a program's output, a program's error stream, or a socket.
pub data Source : Type 0 where
  standard_input nothing_open : Source
  output_of error_of connection : ℕ → Source

abbrev socket_source : Option ℕ → Source
socket_source none = nothing_open
socket_source (some c) = connection c

abbrev error_source : Option ℕ → Source → Source
error_source none later = later
error_source (some e) later = error_of e

abbrev child_source : Option ℕ → Source → Source
child_source none later = later
child_source (some c) later = output_of c

unfoldable pub recv_source : Handles → ℕ → Source
unfolding lookup
recv_source s h =
    if h == 0
    then standard_input
    else child_source (lookup s.children h)
        (error_source (lookup s.err_streams h) (socket_source (lookup s.sockets h)))
