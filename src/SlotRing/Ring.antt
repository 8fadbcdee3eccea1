-- ===== src/SlotRing/Ring.antt =====
-- packages/platform/host/call.ts: the search for a free slot, over the whole ring. A turn of the search is one
-- step here: the host changes no slot in the middle of it.
use wac_mono.Base.{
  ℕ, suc, ◌+◌, ◌≤◌, ◌<◌, ◌≡◌, ◌⊎◌, inl, inr, refl, ap, arith, Bool, true, false, some, List, [],
  ◌∷◌, ◌==◌, if◌then◌else◌, if_intro, get_elem?, take, All,
}
use wac_mono.SlotRing.Slot.{Status, free, is_free, is_ready}

-- A slot is taken, or every slot holds an answer that was not taken and the call fails, or the worker parks.
pub data Claim : Type 0 where
  takes_slot : ℕ → Claim
  all_held parks : Claim

-- The loop of `claim`, from slot `i`, where `held` of the slots before hold an answer.
unfoldable pub claim_from : List Status → ℕ → ℕ → Claim
claim_from [] i held = if held == i then all_held else parks
claim_from (s ∷ rest) i held =
    let further = claim_from rest (i + 1) (if is_ready s then held + 1 else held) in
    if is_free s then takes_slot i else further

unfoldable pub claim_slot : List Status → Claim
claim_slot slots = claim_from slots 0 0

-- What a turn has found of the slots from `i` on, where `held` of those before hold an answer.
FoundFrom : List Status → ℕ → ℕ → Claim → Type 0
FoundFrom slots i held (takes_slot k) =
    (d : ℕ) × (k ≡ i + d)
    × (get_elem? slots d ≡ some free)
    × All (λ s. is_free s ≡ false) (take d slots)
FoundFrom slots i held all_held = (held ≡ i) × All (λ s. is_ready s ≡ true) slots
FoundFrom slots i held parks =
    All (λ s. is_free s ≡ false) slots
    × ((held < i) ⊎ ((d : ℕ) × (s : Status) × (get_elem? slots d ≡ some s) × (is_ready s ≡ false)))

-- What a turn has found of the ring.
unfoldable pub Found : List Status → Claim → Type 0
Found slots (takes_slot k) =
    (get_elem? slots k ≡ some free) × All (λ s. is_free s ≡ false) (take k slots)
Found slots all_held = All (λ s. is_ready s ≡ true) slots
Found slots parks =
    All (λ s. is_free s ≡ false) slots
    × (d : ℕ) × (s : Status) × (get_elem? slots d ≡ some s)
    × (is_ready s ≡ false)

is_free_sound : (s : Status) → is_free s ≡ true → s ≡ free
is_free_sound s e = ground arith

claim_from-FoundFrom :
    (slots : List Status) (i held : ℕ) → held ≤ i → FoundFrom slots i held (claim_from slots i held)
unfolding claim_from FoundFrom
claim_from-FoundFrom [] i held le =
    if_intro (FoundFrom [] i held) (held == i) (λ same. (ground arith, tt))
      (λ fewer. (tt, inl (ground arith)))
claim_from-FoundFrom (s ∷ rest) i held le =
    if_intro (FoundFrom (s ∷ rest) i held) (is_free s)
      (λ f. (0, omega arith, ap some (is_free_sound s f), tt))
      (λ f.
        taken f (is_ready s) refl (claim_from rest (i + 1) (if is_ready s then held + 1 else held))
          (claim_from-FoundFrom rest (i + 1) (if is_ready s then held + 1 else held)
            (if_intro (λ h. h ≤ i + 1) (is_ready s) (λ e. omega arith) (λ e. omega arith))))
  where
    taken :
        is_free s ≡ false
        → (r : Bool) → is_ready s ≡ r
        → (c : Claim) → FoundFrom rest (i + 1) (if r then held + 1 else held) c
        → FoundFrom (s ∷ rest) i held c
    taken f true e (takes_slot k) (d, at, here, before) = (suc d, omega arith, here, (f, before))
    taken f false e (takes_slot k) (d, at, here, before) = (suc d, omega arith, here, (f, before))
    taken f true e all_held (same, all) = (omega arith, (e, all))
    taken f false e all_held (same, all) = absurd (omega (arith, same))
    taken f true e parks (all, inl fewer) = ((f, all), inl (omega arith))
    taken f true e parks (all, inr (d, t, at, unready)) = ((f, all), inr (suc d, t, at, unready))
    taken f false e parks (all, later) = ((f, all), inr (0, s, refl, e))

-- A turn of the search takes the first free slot, if there is one. It fails only if every slot holds an answer
-- that was not taken, which the host cannot free; and it parks only if none is free and some slot is not such a
-- one.
pub claim_slot-Found : (slots : List Status) → Found slots (claim_slot slots)
unfolding claim_slot Found FoundFrom
claim_slot-Found slots = whole (claim_slot slots) (claim_from-FoundFrom slots 0 0 (omega arith))
  where
    whole : (c : Claim) → FoundFrom slots 0 0 c → Found slots c
    whole (takes_slot k) (d, at, here, before) = let e : k ≡ d = omega arith in rw e (here, before)
    whole all_held (same, all) = all
    whole parks (all, inl fewer) = absurd (omega arith)
    whole parks (all, inr later) = (all, later.0, later.1, later.2, later.3)
