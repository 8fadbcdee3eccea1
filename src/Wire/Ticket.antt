-- ===== src/Wire/Ticket.antt =====
-- `pack` and `unpack` of provider.ts: a ticket as the one integer that a program holds, and what `settled` and a
-- resolver then ask of the slot. Integers are their 32-bit patterns.
use Prim.Native.Nat.{bit_or}
use wac_mono.Base.{
  if_cases, some_inj, if_intro, Option-cases, subst, sym, ◌∙◌, map, List, [], ◌∷◌, ◌&&◌,
  if◌then◌else◌, inl, inr, ap, false, Option, some, none, ℕ, ◌+◌, ◌*◌, ◌/◌, ◌%◌, ◌^◌, ◌≤◌, ◌<◌, ◌≡◌,
  ◌↔◌, refl, arith, Bool, true, not, ◌==◌,
}
use wac_mono.Wire.Bits.{doubled, bit_or-doubled}
use wac_mono.Bridge.{slots}
use wac_mono.SlotRing.Shutdown.{
  Cell, WaitTicket, Waited, settled, out_of_time, waits_on, has_landed, first_landed, wait_turn,
}

-- `Math.ceil(Math.log2(SLOTS))`, of 128 slots.
abbrev pub slot_bits : ℕ
slot_bits = 7

abbrev pub slot_mask : ℕ
slot_mask = 127

-- `t.slot | (t.gen << SLOT_BITS)`
unfoldable pub pack : WaitTicket → ℕ
pack t = bit_or t.slot (t.gen * 2 ^ slot_bits % 2 ^ 32)

-- `id & SLOT_MASK` and `id >>> SLOT_BITS`, where a mask of low bits is a remainder.
unfoldable pub unpack : ℕ → WaitTicket
unpack id = record { slot = id % (slot_mask + 1); gen = id / 2 ^ slot_bits }

-- `Atomics.load(b.ctrl, at + S_GEN) !== t.gen`, the test of `isDone` and of `collect`, on the generation that the
-- slot stands at.
unfoldable pub is_expired : ℕ → WaitTicket → Bool
is_expired at t = not (at == t.gen)

module _ (t : WaitTicket) (small : t.slot < slots) where
  pack-sum : pack t ≡ t.slot + t.gen % 2 ^ 25 * 128
  unfolding pack
  pack-sum =
      let shifted : t.gen * 2 ^ slot_bits % 2 ^ 32 ≡ doubled 7 (t.gen % 2 ^ 25) = omega arith in
      rw shifted (omega (arith, bit_or-doubled 7 t.slot (t.gen % 2 ^ 25) (omega arith)))

  pub unpack-pack : unpack (pack t) ≡ record { slot = t.slot; gen = t.gen % 2 ^ 25 }
  unfolding unpack
  unpack-pack =
      let slot_back : pack t % (slot_mask + 1) ≡ t.slot = omega (arith, pack-sum) in
      let gen_back : pack t / 2 ^ slot_bits ≡ t.gen % 2 ^ 25 = omega (arith, pack-sum) in
      rw (slot_back, gen_back) refl

  unpack-pack_same : t.gen < 2 ^ 25 → unpack (pack t) ≡ t
  unpack-pack_same h = let e : t.gen % 2 ^ 25 ≡ t.gen = omega arith in rw (unpack-pack, e) refl

  gen_kept : unpack (pack t) ≡ t → t.gen < 2 ^ 25
  gen_kept e =
      let kept : t.gen % 2 ^ 25 ≡ t.gen = ap WaitTicket.gen (sym unpack-pack ∙ e) in omega arith

  expired_late : is_expired t.gen (unpack (pack t)) ≡ true → 2 ^ 25 ≤ t.gen
  unfolding is_expired
  expired_late h = let read = ap WaitTicket.gen unpack-pack in ground (arith, read)

  late_expired : 2 ^ 25 ≤ t.gen → is_expired t.gen (unpack (pack t)) ≡ true
  unfolding is_expired
  late_expired h = let read = ap WaitTicket.gen unpack-pack in ground (arith, read)

  -- Of a ticket of one of the slots: it comes back from its integer as it was exactly if its generation is below
  -- 2^25; and at the generation that it was handed out for, the ticket that comes back is taken for expired exactly
  -- if that generation is 2^25 or more.
  pub unpack-pack_iff :
      (unpack (pack t) ≡ t ↔ t.gen < 2 ^ 25)
      × (is_expired t.gen (unpack (pack t)) ≡ true ↔ 2 ^ 25 ≤ t.gen)
  unpack-pack_iff = ((gen_kept, unpack-pack_same), (expired_late, late_expired))

-- What `waitAny` of a program's `Core` answers: the place of a ticket, nothing in time, or another turn.
pub data WaitedIndex : Type 0 where
  at_index : ℕ → WaitedIndex
  no_index : WaitedIndex
  another_turn : WaitedIndex

-- `tickets.findIndex`, -1 as no index.
abbrev find_index : WaitTicket → ℕ → List WaitTicket → WaitedIndex
find_index u at [] = no_index
find_index u at (t ∷ rest) =
    if (t.slot == u.slot) && (t.gen == u.gen) then at_index at else find_index u (at + 1) rest

abbrev index_among : List WaitTicket → Waited → WaitedIndex
index_among tickets (settled t) = find_index t 0 tickets
index_among tickets out_of_time = no_index
index_among tickets waits_on = another_turn

-- A turn of `waitAny`.
unfoldable pub wait_index : List Cell → Bool → List ℕ → WaitedIndex
wait_index cells late ids =
    let tickets = map unpack ids in index_among tickets (wait_turn cells late tickets)

abbrev pub first_done : List Cell → Bool → ℕ → List ℕ → WaitedIndex
first_done cells late at [] = if late then no_index else another_turn
first_done cells late at (id ∷ rest) =
    if has_landed cells (unpack id) then at_index at else first_done cells late (at + 1) rest

first_landed-lands :
    (cells : List Cell) (ts : List WaitTicket) (u : WaitTicket)
    → first_landed cells ts ≡ some u
    → has_landed cells u ≡ true
first_landed-lands cells [] u e = cc
first_landed-lands cells (t ∷ rest) u e = elim (if_cases (has_landed cells t) (some u) e) [
  | inl (landed, found) ↦ subst (λ v. has_landed cells v ≡ true) (some_inj t u found) landed
  | inr (waits, later) ↦ first_landed-lands cells rest u later
]

same_ticket : (t u : WaitTicket) → ((t.slot == u.slot) && (t.gen == u.gen)) ≡ true → t ≡ u
same_ticket t u h =
    let slots_same : t.slot ≡ u.slot = ground arith in
    let gens_same : t.gen ≡ u.gen = ground arith in
    λ i. record { slot = slots_same i; gen = gens_same i }

self_ticket : (t : WaitTicket) → ((t.slot == t.slot) && (t.gen == t.gen)) ≡ true
self_ticket t = ground arith

-- The answer found in two passes is the one of a single pass.
find_index-first :
    (cells : List Cell) (late : Bool) (at : ℕ) (ids : List ℕ) (u : WaitTicket)
    → first_landed cells (map unpack ids) ≡ some u
    → find_index u at (map unpack ids) ≡ first_done cells late at ids
find_index-first cells late at [] u e = cc
find_index-first cells late at (id ∷ rest) u e =
    elim (if_cases (has_landed cells (unpack id)) (some u) e) [
      | inl (landed, found) ↦ rw landed (here found)
      | inr (waits, later) ↦
          rw waits (there waits later (find_index-first cells late (at + 1) rest u later))
    ]
  where
    here : some (unpack id) ≡ some u → find_index u at (unpack id ∷ map unpack rest) ≡ at_index at
    here found = rw (sym (some_inj _ _ found), self_ticket (unpack id)) refl

    clash : has_landed cells u ≡ false → has_landed cells u ≡ true → ⊥
    clash a b = cc

    there :
        has_landed cells (unpack id) ≡ false
        → first_landed cells (map unpack rest) ≡ some u
        → find_index u (at + 1) (map unpack rest) ≡ first_done cells late (at + 1) rest
        → find_index u at (unpack id ∷ map unpack rest) ≡ first_done cells late (at + 1) rest
    there waits later onward =
        if_intro (λ w. w ≡ first_done cells late (at + 1) rest)
          (((unpack id).slot == u.slot) && ((unpack id).gen == u.gen))
          (λ same. absurd (
            clash (subst (λ v. has_landed cells v ≡ false) (same_ticket _ u same) waits)
              (first_landed-lands cells (map unpack rest) u later)))
          (λ other. onward)

not_found :
    (cells : List Cell) (late : Bool) (at : ℕ) (ids : List ℕ)
    → first_landed cells (map unpack ids) ≡ none
    → first_done cells late at ids ≡ (if late then no_index else another_turn)
not_found cells late at [] e = refl
not_found cells late at (id ∷ rest) e = elim (if_cases (has_landed cells (unpack id)) none e) [
  | inl (landed, found) ↦ cc
  | inr (waits, later) ↦ rw waits (not_found cells late (at + 1) rest later)
]

-- Of a program that waits on some tickets, a turn answers the place of the first of them that has landed, in the
-- order that the program gave them; -1 where none has and the time is up; and goes on otherwise. With no ticket at
-- all the answer is -1 at once, also where there is time.
pub wait_index-first_done :
    (cells : List Cell) (late : Bool) (id : ℕ) (rest : List ℕ)
    → (wait_index cells late (id ∷ rest) ≡ first_done cells late 0 (id ∷ rest))
      × (wait_index cells late [] ≡ no_index)
unfolding wait_index wait_turn
wait_index-first_done cells late id rest = (
  elim (Option-cases (first_landed cells tickets)) [
    | inl e ↦ ap answer e ∙ unfound e
    | inr (u, e) ↦ ap answer e ∙ find_index-first cells late 0 (id ∷ rest) u e
  ],
  refl,
)
  where
    tickets : List WaitTicket
    tickets = map unpack (id ∷ rest)

    answer : Option WaitTicket → WaitedIndex
    answer o =
        index_among tickets
          (elim o [ none ↦ if late then out_of_time else waits_on | some v ↦ settled v ])

    in_time :
        (b : Bool)
        → index_among tickets (if b then out_of_time else waits_on)
          ≡ (if b then no_index else another_turn)
    in_time true = refl
    in_time false = refl

    unfound : first_landed cells tickets ≡ none → answer none ≡ first_done cells late 0 (id ∷ rest)
    unfound e = in_time late ∙ sym (not_found cells late 0 (id ∷ rest) e)
