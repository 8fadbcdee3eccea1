-- ===== src/Wire/Examples.antt =====
-- Payloads and answers at concrete inputs. Every text here is one unit to a byte.
use wac_mono.Base.{
  ◌^◌, ◌≤◌, ◌<◌, ◌≡◌, ◌↔◌, refl, arith, pos, negsuc, true, false, none, some, List, [], ◌∷◌,
}
use wac_mono.SlotRing.Slot.{ready, pending}
use wac_mono.SlotRing.Shutdown.{Cell, WaitTicket}
use wac_mono.Wire.Bytes.{Bytes, i32le, get_i32}
use wac_mono.Wire.Requests.{spawn_payload, push_payload}
use wac_mono.Wire.Unpack.{want, unpack_spawn, unpack_push}
use wac_mono.Wire.Spawning.{unpack_spawn-spawn_payload}
use wac_mono.Wire.Pushing.{unpack_push-push_payload}
use wac_mono.Wire.Ticket.{pack, unpack, is_expired, at_index, first_done, unpack-pack_iff}
use wac_mono.Wire.Answers.{
  answered, two_handles, failed_child, no_spawn_here, child_answer, captured_answer,
}
use wac_mono.Wire.Told.{child_answer-two_handles, captured_answer-pop}
use wac_mono.ChildStack.{Act, writes, warns, pushes, pops, push, pop, run, pack_captured}
use wac_mono.Mutate.Texts.{Text, text}

abbrev encode : Text → Bytes
encode t = t

abbrev decode : Bytes → Text
decode b = b

-- -2 in two's complement.
minus_two : i32le (negsuc 1) ≡ 254 ∷ 255 ∷ 255 ∷ 255 ∷ []
unfolding i32le
minus_two = refl

minus_two-back : get_i32 (7 ∷ 254 ∷ 255 ∷ 255 ∷ 255 ∷ []) (pos 1) ≡ some (negsuc 1)
unfolding get_i32
minus_two-back = refl

too_short : get_i32 (7 ∷ 254 ∷ 255 ∷ []) (pos 0) ≡ none
unfolding get_i32
too_short = refl

unpack_spawn-spawn_payload_example :
    let p =
      spawn_payload encode (text "//wac") ((255 ∷ 0 ∷ []) ∷ [] ∷ []) (pos 5) (text "sub") true in
    (want p ≡ some (pos 5))
    × (unpack_spawn decode p
        ≡ some (record {
          source = text "//wac";
          args = (255 ∷ 0 ∷ []) ∷ [] ∷ [];
          cwd = text "sub";
          inherit_in = true;
        }))
unpack_spawn-spawn_payload_example =
    unpack_spawn-spawn_payload encode decode ((255 ∷ 0 ∷ []) ∷ [] ∷ []) (pos 5) (text "sub") true
      refl (omega arith) (omega arith) (omega arith, (omega arith, tt)) (omega arith) (text "//wac")
      refl (omega arith)

-- No argument, and one that is empty.
unpack_push-push_payload_example :
    unpack_push decode (push_payload encode ([] ∷ []) (1 ∷ 2 ∷ []) (text "d"))
    ≡ some (record { argv = [] ∷ []; stdin = 1 ∷ 2 ∷ []; cwd = text "d" })
unpack_push-push_payload_example =
    unpack_push-push_payload encode decode ([] ∷ []) (1 ∷ 2 ∷ []) (text "d") (tt, tt) (omega arith)
      refl (omega arith) refl (omega arith)

no_arguments :
    unpack_push decode (push_payload encode [] (1 ∷ 2 ∷ []) (text "d"))
    ≡ some (record { argv = []; stdin = 1 ∷ 2 ∷ []; cwd = text "d" })
no_arguments =
    unpack_push-push_payload encode decode [] (1 ∷ 2 ∷ []) (text "d") tt (omega arith) refl
      (omega arith) refl (omega arith)

abbrev late_ticket : WaitTicket
late_ticket = record { slot = 3; gen = 33554432 }

unpack-pack_iff_example :
    (unpack (pack late_ticket) ≡ late_ticket ↔ late_ticket.gen < 2 ^ 25)
    × (is_expired late_ticket.gen (unpack (pack late_ticket)) ≡ true ↔ 2 ^ 25 ≤ late_ticket.gen)
unpack-pack_iff_example = unpack-pack_iff late_ticket (omega arith)

-- The ticket of slot 3 at that generation is held as the one of its first generation.
late_ticket-packed : unpack (pack late_ticket) ≡ record { slot = 3; gen = 0 }
unfolding pack unpack
late_ticket-packed = refl

abbrev two_cells : List Cell
two_cells =
    record { status = pending; gen = 0; failures = 0 }
    ∷ record { status = ready; gen = 1; failures = 0 }
    ∷ []

second_landed : first_done two_cells false 0 (0 ∷ 129 ∷ []) ≡ at_index 1
unfolding unpack
second_landed = refl

child_told :
    (child_answer decode [] (answered (two_handles encode (pos 4) (pos 5) (text "why")))
      ≡ record { handle = pos 4; err_handle = pos 5; error = [] })
    × (child_answer decode [] (answered (failed_child encode (text "why")))
        ≡ record { handle = negsuc 0; err_handle = negsuc 0; error = text "why" })
    × (child_answer decode [] (answered (no_spawn_here encode (text "why")))
        ≡ record { handle = negsuc 1; err_handle = negsuc 1; error = text "why" })
child_told =
    child_answer-two_handles encode decode [] (text "why") 4 5 (omega arith) (omega arith) refl

abbrev nested : List Act
nested =
    writes (1 ∷ [])
    ∷ pushes [] [] []
    ∷ writes (9 ∷ [])
    ∷ pops
    ∷ warns (7 ∷ [])
    ∷ writes (2 ∷ 3 ∷ [])
    ∷ []

child_captured :
    captured_answer decode [] (answered (pack_captured (pop (run (push [] [] [] []) nested)).0))
    ≡ record { out = 1 ∷ 2 ∷ 3 ∷ []; err = 7 ∷ [] }
child_captured = captured_answer-pop encode decode [] [] [] [] [] nested tt
