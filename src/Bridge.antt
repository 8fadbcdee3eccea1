-- ===== src/Bridge.antt =====
-- packages/platform/host/layout.ts: the shared memory between a worker and its host, and the two pools of
-- payload buffers in it. The control block is a function from an index to the number there; a loop of
-- compare-and-exchange is one step of whoever runs it.
pub mod Regions
pub mod Pools
mod Examples
use wac_mono.Base.{
  ℕ, zero, suc, ◌+◌, ◌-◌, ◌*◌, ℤ, pos, negsuc, Bool, true, false, ◌==◌, if◌then◌else◌,
}

abbrev pub slots : ℕ
slots = 128

abbrev pub bufs : ℕ
bufs = 8

abbrev pub inline_bytes : ℕ
inline_bytes = 4096

abbrev pub buf_bytes : ℕ
buf_bytes = 131072

abbrev pub ctrl_head : ℕ
ctrl_head = 3

abbrev pub slot_ints : ℕ
slot_ints = 8

-- The offsets within a slot's block that carry a buffer handle.
abbrev pub s_req_buf : ℕ
s_req_buf = 6

abbrev pub s_res_buf : ℕ
s_res_buf = 7

abbrev pub req_free_at : ℕ
req_free_at = ctrl_head

abbrev pub res_free_at : ℕ
res_free_at = req_free_at + bufs

abbrev pub slots_at : ℕ
slots_at = res_free_at + bufs

abbrev pub ctrl_ints : ℕ
ctrl_ints = slots_at + slots * slot_ints

abbrev pub ctrl_bytes : ℕ
ctrl_bytes = ctrl_ints * 4

abbrev pub req_offset : ℕ
req_offset = ctrl_bytes

abbrev pub res_offset : ℕ
res_offset = req_offset + bufs * buf_bytes

abbrev pub inline_offset : ℕ
inline_offset = res_offset + bufs * buf_bytes

abbrev pub total_bytes : ℕ
total_bytes = inline_offset + slots * inline_bytes

-- Where slot `i`'s control block starts.
unfoldable pub slot_at : ℕ → ℕ
slot_at i = slots_at + i * slot_ints

-- The views that `bridgeOf` builds over the memory: the control block, and the payload areas.
pub data View : Type 0 where
  ctrl : View
  req_buf : ℕ → View
  res_buf : ℕ → View
  inline : ℕ → View

unfoldable pub view_start : View → ℕ
view_start ctrl = 0
view_start (req_buf i) = req_offset + i * buf_bytes
view_start (res_buf i) = res_offset + i * buf_bytes
view_start (inline i) = inline_offset + i * inline_bytes

unfoldable pub view_size : View → ℕ
view_size ctrl = ctrl_bytes
view_size (req_buf i) = buf_bytes
view_size (res_buf i) = buf_bytes
view_size (inline i) = inline_bytes

abbrev pub Ctrl : Type 0
Ctrl = ℕ → ℤ

-- `Atomics.store`.
abbrev pub store : Ctrl → ℕ → ℤ → Ctrl
store c p v q = if p == q then v else c q

abbrev pub is_zero : ℤ → Bool
is_zero (pos n) = n == 0
is_zero (negsuc n) = false

-- `new SharedArrayBuffer`.
abbrev pub blank : Ctrl
blank p = pos 0

pub data Dir : Type 0 where
  req res : Dir

abbrev pub free_at : Dir → ℕ
free_at req = req_free_at
free_at res = res_free_at

-- What an operation on the control block answers, and the block after it.
pub record Answer : Type 0 where
  pub value : ℤ
  pub ctrl : Ctrl

-- The flags from `i` on, of which `rounds` are left.
unfoldable pub acquire_loop : ℕ → ℕ → ℕ → Ctrl → Answer
acquire_loop base zero i c = record { value = negsuc 0; ctrl = c }
acquire_loop base (suc rounds) i c =
    let rest = acquire_loop base rounds (i + 1) c in
    if is_zero (c (base + i))
    then record { value = pos i; ctrl = store c (base + i) (pos 1) }
    else rest

-- Take a buffer, or -1 when they are all busy.
unfoldable pub acquire_buf : Ctrl → Dir → Answer
unfolding acquire_loop
acquire_buf c dir = acquire_loop (free_at dir) bufs 0 c

-- Give one back; -1 is what an unattached slot carries.
unfoldable pub release_buf : Ctrl → Dir → ℤ → Ctrl
release_buf c dir (pos i) = store c (free_at dir + i) (pos 0)
release_buf c dir (negsuc i) = c

-- x - 1
abbrev pub pred_ℤ : ℤ → ℤ
pred_ℤ (pos zero) = negsuc 0
pred_ℤ (pos (suc n)) = pos n
pred_ℤ (negsuc n) = negsuc (suc n)

-- Handles are one-based in memory, so that 0 means none.
unfoldable pub attach : Ctrl → ℕ → ℕ → ℕ → Ctrl
attach c at field i = store c (at + field) (pos (i + 1))

unfoldable pub attached : Ctrl → ℕ → ℕ → ℤ
attached c at field = pred_ℤ (c (at + field))

unfoldable pub detach : Ctrl → ℕ → ℕ → Answer
detach c at field = record { value = pred_ℤ (c (at + field)); ctrl = store c (at + field) (pos 0) }
