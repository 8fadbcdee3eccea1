-- ===== src/Bridge/Regions.antt =====
-- The layout leaves no two views of the memory in each other's way.
use wac_mono.Base.{ℕ, ◌+◌, ◌≤◌, ◌<◌, ◌≡◌, ◌≢◌, ◌⊎◌, arith}
use wac_mono.Bridge.{
  View, ctrl, req_buf, res_buf, inline, view_start, view_size, slots, bufs, slot_ints, slot_at,
  total_bytes, ctrl_ints, ctrl_head, Dir, req, res, free_at,
}

abbrev pub IsView : View → Type 0
IsView ctrl = Unit
IsView (req_buf i) = i < bufs
IsView (res_buf i) = i < bufs
IsView (inline i) = i < slots

-- One ends before the other begins.
abbrev pub AreApart : View → View → Type 0
AreApart v w =
    (view_start v + view_size v ≤ view_start w) ⊎ (view_start w + view_size w ≤ view_start v)

-- Every view lies inside the memory that is allocated.
pub view-le-total : (v : View) → IsView v → view_start v + view_size v ≤ total_bytes
unfolding view_start view_size
view-le-total ctrl h = omega arith
view-le-total (req_buf i) h = omega arith
view-le-total (res_buf i) h = omega arith
view-le-total (inline i) h = omega arith

-- Any two different views are apart.
pub views_apart : (v w : View) → IsView v → IsView w → v ≢ w → AreApart v w
unfolding view_start view_size
views_apart v w hv hw n = grind arith

-- A cell of the control block that some operation uses: a pool's flag, or a field of a slot.
pub data Cell : Type 0 where
  flag : Dir → ℕ → Cell
  field : ℕ → ℕ → Cell

abbrev pub cell_at : Cell → ℕ
cell_at (flag dir i) = free_at dir + i
cell_at (field slot f) = slot_at slot + f

abbrev pub IsCell : Cell → Type 0
IsCell (flag dir i) = i < bufs
IsCell (field slot f) = (slot < slots) × (f < slot_ints)

-- Every cell lies inside the control block, behind its three counters.
pub cell_inside : (a : Cell) → IsCell a → (ctrl_head ≤ cell_at a) × (cell_at a < ctrl_ints)
unfolding slot_at
cell_inside (flag req i) h = (omega arith, omega arith)
cell_inside (flag res i) h = (omega arith, omega arith)
cell_inside (field slot f) h = (omega arith, omega arith)

-- Two different cells have two different indices.
pub cells_apart : (a b : Cell) → IsCell a → IsCell b → cell_at a ≡ cell_at b → a ≡ b
unfolding slot_at
cells_apart a b ha hb e = grind arith
