-- ===== src/Bridge/Pools.antt =====
-- The buffer pools: who holds which buffer, and why none is lent twice.
use mathlib.Core.Path.{fun_ext}
use native.Mathlib.Numerals.{add-one}
use wac_mono.Base.{
  ℕ, zero, suc, ◌+◌, ◌≤◌, ◌<◌, ◌≡◌, ◌≢◌, ◌⊎◌, inl, inr, refl, sym, ◌∙◌, ap, arith, ℤ, pos, negsuc,
  true, false, ◌==◌, Bool-cases,
}
use wac_mono.Bridge.{
  Ctrl, store, is_zero, blank, Dir, req, res, free_at, bufs, Answer, acquire_loop, acquire_buf,
  release_buf, pred_ℤ, attach, attached, detach, slot_at,
}

abbrev pub IsFree : Ctrl → ℕ → Type 0
IsFree c p = is_zero (c p) ≡ true

abbrev pub IsHeld : Ctrl → ℕ → Type 0
IsHeld c p = is_zero (c p) ≡ false

-- What a scan of `rounds` flags from `i` on has found: none free, or the first free one, which it took.
pub data Acquires (base i rounds : ℕ) (c : Ctrl) (r : Answer) : Type 0 where
  busy :
      ((k : ℕ) → i ≤ k → k < i + rounds → IsHeld c (base + k))
      → r.value ≡ negsuc 0
      → r.ctrl ≡ c
      → Acquires base i rounds c r
  took :
      (k : ℕ)
      → i ≤ k
      → k < i + rounds
      → IsFree c (base + k)
      → ((j : ℕ) → i ≤ j → j < k → IsHeld c (base + j))
      → r.value ≡ pos k
      → r.ctrl ≡ store c (base + k) (pos 1)
      → Acquires base i rounds c r

-- One flag more in front, which is held.
Acquires-cons :
    (base i rounds : ℕ) (c : Ctrl) (r : Answer)
    → IsHeld c (base + i)
    → Acquires base (i + 1) rounds c r
    → Acquires base i (suc rounds) c r
Acquires-cons base i rounds c r h (busy all v e) = busy (λ k lo hi. from k lo hi (dec_eq k)) v e
  where
    dec_eq : (k : ℕ) → ((k == i) ≡ true) ⊎ ((k == i) ≡ false)
    dec_eq k = Bool-cases (k == i)

    from :
        (k : ℕ)
        → i ≤ k
        → k < i + suc rounds
        → ((k == i) ≡ true) ⊎ ((k == i) ≡ false)
        → IsHeld c (base + k)
    from k lo hi (inl same) = let e : k ≡ i = ground arith in rw e h
    from k lo hi (inr other) = all k (ground arith) (omega arith)
Acquires-cons base i rounds c r h (took k lo hi free before v e) =
    took k (omega arith) (omega arith) free (λ j jl jh. from j jl jh (Bool-cases (j == i))) v e
  where
    from : (j : ℕ) → i ≤ j → j < k → ((j == i) ≡ true) ⊎ ((j == i) ≡ false) → IsHeld c (base + j)
    from j jl jh (inl same) = let e : j ≡ i = ground arith in rw e h
    from j jl jh (inr other) = before j (ground arith) jh

acquire_loop-Acquires :
    (base rounds i : ℕ) (c : Ctrl) → Acquires base i rounds c (acquire_loop base rounds i c)
unfolding acquire_loop
acquire_loop-Acquires base zero i c = busy (λ k lo hi. absurd (omega arith)) refl refl
acquire_loop-Acquires base (suc rounds) i c = elim (Bool-cases (is_zero (c (base + i)))) [
  | inl free ↦
      rw free (took i (omega arith) (omega arith) free (λ j lo hi. absurd (omega arith)) refl refl)
  | inr held ↦
      rw held (Acquires-cons base i rounds c _ held (acquire_loop-Acquires base rounds (i + 1) c))
]

-- `acquireBuf` takes the first free buffer of its pool and marks it held, and answers -1 exactly where all
-- eight are held, which changes nothing.
pub acquire_buf-Acquires :
    (c : Ctrl) (dir : Dir) → Acquires (free_at dir) 0 bufs c (acquire_buf c dir)
unfolding acquire_buf
acquire_buf-Acquires c dir = acquire_loop-Acquires (free_at dir) bufs 0 c

-- Two buffers acquired one after the other are two different buffers.
pub acquired_differ :
    (c : Ctrl) (dir : Dir) (i j : ℕ)
    → (acquire_buf c dir).value ≡ pos i
    → (acquire_buf (acquire_buf c dir).ctrl dir).value ≡ pos j
    → i ≢ j
acquired_differ c dir i j first second same =
    go (acquire_buf-Acquires c dir) (acquire_buf-Acquires (acquire_buf c dir).ctrl dir)
  where
    go :
        Acquires (free_at dir) 0 bufs c (acquire_buf c dir)
        → Acquires
            (free_at dir)
            0
            bufs
            (acquire_buf c dir).ctrl
            (acquire_buf (acquire_buf c dir).ctrl dir)
        → ⊥
    go (busy all v e) b = cc
    go (took k lo hi free before v e) (busy all v' e') = cc
    go (took k lo hi free before v e) (took k' lo' hi' free' before' v' e') =
        let taken : is_zero (store c (free_at dir + k) (pos 1) (free_at dir + k')) ≡ true =
          rw e at free' in
        ground arith

zero_of : (z : ℤ) → is_zero z ≡ true → z ≡ pos 0
zero_of (pos n) h = let e : n ≡ 0 = ground arith in ap pos e
zero_of (negsuc n) h = cc

-- Writing back what stood at an index.
store_back : (c : Ctrl) (p : ℕ) (v z : ℤ) → c p ≡ z → store (store c p v) p z ≡ c
store_back c p v z h = fun_ext λ q. at q (Bool-cases (p == q))
  where
    at : (q : ℕ) → ((p == q) ≡ true) ⊎ ((p == q) ≡ false) → store (store c p v) p z q ≡ c q
    at q (inl same) = let e : q ≡ p = ground arith in rw same (sym (ap c e ∙ h))
    at q (inr other) = rw other

-- Giving back what `acquireBuf` answered, a buffer or -1, leaves the control block as it was before.
pub release-acquire :
    (c : Ctrl) (dir : Dir) → release_buf (acquire_buf c dir).ctrl dir (acquire_buf c dir).value ≡ c
unfolding release_buf
release-acquire c dir = go (acquire_buf-Acquires c dir)
  where
    go :
        Acquires (free_at dir) 0 bufs c (acquire_buf c dir)
        → release_buf (acquire_buf c dir).ctrl dir (acquire_buf c dir).value ≡ c
    go (busy all v e) = rw (v, e)
    go (took k lo hi free before v e) =
        rw (v, e) (store_back c (free_at dir + k) (pos 1) (pos 0) (zero_of _ free))

store_self : (c : Ctrl) (p : ℕ) (v : ℤ) → store c p v p ≡ v
store_self c p v = ground arith

pred_ℤ-suc : (i : ℕ) → pred_ℤ (pos (i + 1)) ≡ pos i
pred_ℤ-suc i = rw add-one

-- What is attached to a slot is what a detach answers, and a second detach answers -1, on which a release
-- changes nothing.
pub detach-attach :
    (c : Ctrl) (dir : Dir) (at f i : ℕ)
    → let c' = attach c at f i in
      let once = detach c' at f in
      let twice = detach once.ctrl at f in
      (attached c' at f ≡ pos i)
      × (once.value ≡ pos i)
      × (twice.value ≡ negsuc 0)
      × (release_buf twice.ctrl dir twice.value ≡ once.ctrl)
unfolding attach attached detach release_buf
detach-attach c dir at f i =
    let p = at + f in
    let there = store_self c p (pos (i + 1)) in
    let gone = store_self (store c p (pos (i + 1))) p (pos 0) in
    (
      ap pred_ℤ there ∙ pred_ℤ-suc i,
      ap pred_ℤ there ∙ pred_ℤ-suc i,
      ap pred_ℤ gone,
      rw gone (fun_ext λ q. ground arith),
    )

-- In memory that nobody has written to, no slot claims a buffer, of either kind.
pub fresh_slots_unattached :
    (slot f : ℕ)
    → (attached blank (slot_at slot) f ≡ negsuc 0)
      × ((detach blank (slot_at slot) f).value ≡ negsuc 0)
unfolding attached detach
fresh_slots_unattached slot f = (refl, refl)

acquired-lt : (c : Ctrl) (dir : Dir) (i : ℕ) → (acquire_buf c dir).value ≡ pos i → i < bufs
acquired-lt c dir i got = go (acquire_buf-Acquires c dir)
  where
    go : Acquires (free_at dir) 0 bufs c (acquire_buf c dir) → i < bufs
    go (busy all v e) = cc
    go (took k lo hi free before v e) = ground arith

-- The pools' flags stand in front of the slots.
flag-ne-slot : (dir : Dir) (i slot f : ℕ) → i < bufs → free_at dir + i ≢ slot_at slot + f
unfolding slot_at
flag-ne-slot req i slot f h = omega arith
flag-ne-slot res i slot f h = omega arith

store_comm :
    (c : Ctrl) (p q : ℕ) (x y z : ℤ)
    → p ≢ q
    → store (store (store c q x) q z) p y ≡ store (store c p y) q z
store_comm c p q x y z n = fun_ext λ r. ground arith

-- A buffer that is acquired, attached to a field of a slot, detached and released: the field answers that
-- very buffer, and the control block is as it was before but for the field, which is clear.
pub lend-return :
    (c : Ctrl) (dir : Dir) (slot f i : ℕ)
    → (acquire_buf c dir).value ≡ pos i
    → let taken = detach (attach (acquire_buf c dir).ctrl (slot_at slot) f i) (slot_at slot) f in
      (taken.value ≡ pos i)
      × (release_buf taken.ctrl dir taken.value ≡ store c (slot_at slot + f) (pos 0))
lend-return c dir slot f i got =
    let lent = (acquire_buf c dir).ctrl in
    let held = detach-attach lent dir (slot_at slot) f i in
    let back : release_buf lent dir (pos i) ≡ c = rw got at (release-acquire c dir) in
    (held.1, rw held.1 (returned lent back (flag-ne-slot dir i slot f (acquired-lt c dir i got))))
  where
    returned :
        (lent : Ctrl)
        → release_buf lent dir (pos i) ≡ c
        → free_at dir + i ≢ slot_at slot + f
        → release_buf (detach (attach lent (slot_at slot) f i) (slot_at slot) f).ctrl dir (pos i)
          ≡ store c (slot_at slot + f) (pos 0)
    returned lent back apart =
        unfold release_buf attach detach in
        store_comm lent (free_at dir + i) (slot_at slot + f) (pos (i + 1)) (pos 0) (pos 0) apart
        ∙ ap (λ (d : Ctrl). store d (slot_at slot + f) (pos 0)) back
