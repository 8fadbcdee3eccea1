-- ===== src/World/Examples.antt =====
-- A world that may read and use the network, a program that it spawns, and handles that come and go.
use wac_mono.Base.{◌≤◌, ◌≡◌, refl, arith, pos, true, ◌&&◌, none, some, List, [], ◌∷◌}
use wac_mono.Wire.Bytes.{Bytes, read_i32le, get_i32, subarray_from}
use wac_mono.Wire.Requests.{flagged, two_paths, write_file_payload, connect_payload}
use wac_mono.Wire.Unpack.{unpack_connect}
use wac_mono.World.{Options, Wanted, child_options, give, asks, may_read, may_write}
use wac_mono.World.Grants.{network, holds, descendant, always_asked, holds-descendant}
use wac_mono.World.Serve.{
  on_connect, serve, connect, write_file, mkdir, remove, rename, calls, connects, writes_file,
  makes_dir, removes, renames, place, when_online,
}
use wac_mono.World.Served.{serve-granted}
use wac_mono.World.Arrives.{serve-arrives}
use wac_mono.World.Handles.{
  add_socket, add_listener, start_child, fail_child, close_socket, Step, opens_socket,
  opens_listener, spawns, loads, closes, step, run, no_handles, recv_source, nothing_open, lookup,
  delete, start_loaded,
}
use wac_mono.ChildStack
use wac_mono.ChildStack.{Frame, active}
use wac_mono.World.Channels.{
  Channels, replies, piped, input_ended, on_log, on_warn, on_write_stdout, on_write_stderr,
  on_read_stdin, on_read_chunk,
}
use wac_mono.World.Inside.{StaysInside, inside-StaysInside}
use wac_mono.World.Fresh.{uses, run-OneEach, closed-nothing_open}
use wac_mono.Mutate.Texts.{Text, text}

abbrev encode : Text → Bytes
encode t = t

abbrev decode : Bytes → Text
decode b = b

abbrev online : Options
online = record {
  args = [];
  fs = some (record { read = true; write = true });
  net = true;
  env = none;
  cwd = some (text "/home");
  self_source = none;
}

-- A spawn that asks for reading and the network, and one that asks for all but reading.
abbrev asked : Wanted
asked = record { args = []; grants = pos 5; cwd = [] }

abbrev then_asked : Wanted
then_asked = record { args = []; grants = pos 14; cwd = text "sub" }

holds-descendant_example :
    holds (descendant online (asked ∷ then_asked ∷ [])) network
    ≡ always_asked network (asked ∷ then_asked ∷ []) && holds online network
holds-descendant_example = holds-descendant network online (asked ∷ then_asked ∷ [])

serve-granted_example : (holds online network ≡ true) × (always_asked network (asked ∷ []) ≡ true)
serve-granted_example =
    serve-granted encode decode [] online (asked ∷ []) connect (80 ∷ 0 ∷ 0 ∷ 0 ∷ 104 ∷ [])
      (connects (104 ∷ []) (pos 80))
      (unfold serve on_connect when_online descendant child_options give asks unpack_connect
          read_i32le get_i32 subarray_from may_read may_write in
        refl)

serve-arrives_example :
    (serve encode decode online [] write_file (write_file_payload encode (text "f") (1 ∷ 2 ∷ []))
      ≡ some (calls (writes_file (place online [] (text "f")) (1 ∷ 2 ∷ []))))
    × (serve encode decode online [] mkdir (flagged encode true (text "f"))
        ≡ some (calls (makes_dir (place online [] (text "f")) true)))
    × (serve encode decode online [] remove (flagged encode true (text "f"))
        ≡ some (calls (removes (place online [] (text "f")) true)))
    × (serve encode decode online [] rename (two_paths encode (text "f") (text "/g"))
        ≡ some (calls (renames (place online [] (text "f")) (place online [] (text "/g")))))
    × (serve encode decode online [] connect (connect_payload encode (text "f") (pos 80))
        ≡ some (calls (connects (text "f") (pos 80))))
serve-arrives_example =
    serve-arrives encode decode online [] (text "f") (text "/g") refl refl (omega arith)
      (1 ∷ 2 ∷ []) true (pos 80) (unfold may_write in refl) refl (omega arith)

abbrev busy : List Step
busy = opens_listener 40 ∷ spawns 41 ∷ opens_socket 42 ∷ loads 2 43 ∷ []

run-OneEach_example :
    let s = run no_handles (closes 1 ∷ busy) in
    (uses 4 s ≤ 1) × (s.next ≤ 4 → uses 4 s ≡ 0) × (uses 0 s ≡ 0)
run-OneEach_example = run-OneEach (closes 1 ∷ busy) 4

closed-nothing_open_example :
    recv_source (run (step (run no_handles busy) (closes 2)) (opens_socket 44 ∷ [])) 2
    ≡ nothing_open
closed-nothing_open_example =
    closed-nothing_open busy 2 (opens_socket 44 ∷ []) (omega arith)
      (unfold no_handles run step add_socket add_listener start_child fail_child close_socket
          start_loaded lookup delete in
        omega arith)
      (unfold no_handles run step add_socket add_listener start_child fail_child close_socket
          start_loaded lookup delete in
        refl)

abbrev outer : Channels
outer = record { kids = []; source = none; sink = some 3; output_failure = [] }

abbrev pushed : Frame
pushed = record {
  argv = [];
  stdin = 1 ∷ [];
  at = 0;
  cwd = [];
  out = [];
  err = [];
  written = 8388607;
}

inside-StaysInside_example :
    let kid = record outer { kids = pushed ∷ [] } in
    StaysInside outer pushed [] (on_log kid (9 ∷ []))
    × StaysInside outer pushed [] (on_warn kid (9 ∷ []))
    × StaysInside outer pushed [] (on_write_stdout kid (9 ∷ []) none)
    × StaysInside outer pushed [] (on_write_stderr kid (9 ∷ []) none)
    × (on_read_stdin kid (5 ∷ []) ≡ on_read_stdin kid [])
    × (on_read_chunk encode decode kid (piped (5 ∷ []))
        ≡ on_read_chunk encode decode kid input_ended)
inside-StaysInside_example =
    inside-StaysInside outer pushed [] (9 ∷ []) none encode decode (5 ∷ []) [] (piped (5 ∷ []))
      input_ended refl

-- One byte below the cap a line does not fit, and the call that dropped it succeeds.
line_dropped :
    (on_log (record outer { kids = pushed ∷ [] }) (9 ∷ []))
    ≡ record { channels = record outer { kids = pushed ∷ [] }; effects = []; reply = replies [] }
unfolding on_log active ChildStack.write
line_dropped = refl
