-- ===== src/Bridge/Examples.antt =====
-- The layout and the pools at concrete inputs.
use wac_mono.Base.{◌+◌, ◌≡◌, refl, pos}
use wac_mono.Bridge.{
  Ctrl, store, blank, req, acquire_buf, release_buf, attach, detach, slot_at, s_req_buf,
}
use wac_mono.Bridge.Pools.{lend-return}

-- The first three request buffers are held.
abbrev three_held : Ctrl
three_held = store (store (store blank 3 (pos 1)) 4 (pos 1)) 5 (pos 1)

takes_the_fourth : (acquire_buf three_held req).value ≡ pos 3
unfolding acquire_buf
takes_the_fourth = refl

lend-return_example :
    let taken =
      detach
        (attach (acquire_buf three_held req).ctrl (slot_at 9) s_req_buf 3)
        (slot_at 9)
        s_req_buf in
    (taken.value ≡ pos 3)
    × (release_buf taken.ctrl req taken.value ≡ store three_held (slot_at 9 + s_req_buf) (pos 0))
lend-return_example = lend-return three_held req 9 s_req_buf 3 takes_the_fourth
