-- ===== src/Mutate/Reach.antt =====
-- The tests that are run for a mutant: none that could notice it is left out.
use wac_mono.Base.{
  ◌≡◌, refl, ◌∙◌, ap, subst, arith, Bool, true, false, ◌||◌, Option, none, some, List, [], ◌∷◌,
  ◌++◌, if_intro, some_inj,
}
use wac_mono.Mutate.Texts.{Text, same_text, text_in}
use wac_mono.Mutate.TextLaws.{same_text-eq, same_text_refl}
use wac_mono.Mutate.Edits.{add_text, text_leb, insert_text, sort_texts}
use wac_mono.Mutate.Select.{
  Profile, add_all, tests_at, pick_tests, is_empty, select_tests, narrow, widen, unhit, plan_for,
}

pub text_in-append :
    (x : Text) (xs ys : List Text) → text_in x (xs ++ ys) ≡ text_in x xs || text_in x ys
text_in-append x [] ys = refl
text_in-append x (y ∷ xs) ys = ground (arith, text_in-append x xs ys)

add_text-keeps :
    (x y : Text) (seen : List Text) → text_in x seen ≡ true → text_in x (add_text seen y) ≡ true
add_text-keeps x y seen h =
    if_intro (λ s. text_in x s ≡ true) (text_in y seen) (λ there. h)
      (λ new. ground (arith, text_in-append x seen (y ∷ [])))

add_text-adds : (x : Text) (seen : List Text) → text_in x (add_text seen x) ≡ true
add_text-adds x seen =
    if_intro (λ s. text_in x s ≡ true) (text_in x seen) (λ there. there)
      (λ new. ground (arith, text_in-append x seen (x ∷ []), same_text_refl x))

add_all-keeps :
    (x : Text) (seen tests : List Text)
    → text_in x seen ≡ true
    → text_in x (add_all seen tests) ≡ true
add_all-keeps x seen [] h = h
add_all-keeps x seen (t ∷ ts) h = add_all-keeps x (add_text seen t) ts (add_text-keeps x t seen h)

add_all-adds :
    (x : Text) (seen tests : List Text)
    → text_in x tests ≡ true
    → text_in x (add_all seen tests) ≡ true
add_all-adds x seen [] h = cc
add_all-adds x seen (t ∷ ts) h = added (same_text x t) refl h (add_all-adds x (add_text seen t) ts)
  where
    added :
        (s : Bool)
        → same_text x t ≡ s
        → (s || text_in x ts) ≡ true
        → (text_in x ts ≡ true → text_in x (add_all (add_text seen t) ts) ≡ true)
        → text_in x (add_all (add_text seen t) ts) ≡ true
    added true e h ih = add_all-keeps x (add_text seen t) ts (
        subst (λ u. text_in x (add_text seen u) ≡ true) (same_text-eq x t e) (add_text-adds x seen))
    added false e h ih = ih h

insert_text-keeps :
    (x y : Text) (ys : List Text) → text_in x (insert_text y ys) ≡ same_text x y || text_in x ys
insert_text-keeps x y [] = refl
insert_text-keeps x y (z ∷ zs) =
    if_intro (λ s. text_in x s ≡ same_text x y || text_in x (z ∷ zs)) (text_leb y z) (λ first. refl)
      (λ later. ground (arith, insert_text-keeps x y zs))

sort_texts-keeps : (x : Text) (xs : List Text) → text_in x (sort_texts xs) ≡ text_in x xs
sort_texts-keeps x [] = refl
sort_texts-keeps x (y ∷ ys) =
    ground (arith, insert_text-keeps x y (sort_texts ys), sort_texts-keeps x ys)

module _ (p : Profile) (t : Text) where
  pick_tests-keeps :
      (locations : List Text) (found : List Text × Bool)
      → text_in t found.0 ≡ true
      → found.1 ≡ true
      → (text_in t (pick_tests p locations found).0 ≡ true)
        × ((pick_tests p locations found).1 ≡ true)
  unfolding pick_tests
  pick_tests-keeps [] found h k = (h, k)
  pick_tests-keeps (l ∷ ls) found h k =
      if_intro (λ f. (text_in t (pick_tests p ls f).0 ≡ true) × ((pick_tests p ls f).1 ≡ true))
        (text_in l p.known)
        (λ known.
          pick_tests-keeps ls (add_all found.0 (tests_at p l), true)
            (add_all-keeps t found.0 (tests_at p l) h) refl)
        (λ unknown. pick_tests-keeps ls found h k)

  -- A test at a known location is picked.
  pick_tests-adds :
      (location : Text) (locations : List Text) (found : List Text × Bool)
      → text_in location locations ≡ true
      → text_in location p.known ≡ true
      → text_in t (tests_at p location) ≡ true
      → (text_in t (pick_tests p locations found).0 ≡ true)
        × ((pick_tests p locations found).1 ≡ true)
  unfolding pick_tests
  pick_tests-adds location [] found at known h = cc
  pick_tests-adds location (l ∷ ls) found at known h =
      added (same_text location l) refl at (λ f here. pick_tests-adds location ls f here known h)
    where
      picked :
          text_in l p.known ≡ true
          → text_in t (tests_at p l) ≡ true
          → (text_in t (pick_tests p (l ∷ ls) found).0 ≡ true)
            × ((pick_tests p (l ∷ ls) found).1 ≡ true)
      picked known h =
          rw (pick_tests, known)
            (pick_tests-keeps ls (add_all found.0 (tests_at p l), true)
              (add_all-adds t found.0 (tests_at p l) h) refl)

      added :
          (s : Bool)
          → same_text location l ≡ s
          → (s || text_in location ls) ≡ true
          → ((f : List Text × Bool)
              → text_in location ls ≡ true
              → (text_in t (pick_tests p ls f).0 ≡ true) × ((pick_tests p ls f).1 ≡ true))
          → (text_in t (pick_tests p (l ∷ ls) found).0 ≡ true)
            × ((pick_tests p (l ∷ ls) found).1 ≡ true)
      added true e at ih =
          let same = same_text-eq location l e in
          picked (subst (λ x. text_in x p.known ≡ true) same known)
            (subst (λ x. text_in t (tests_at p x) ≡ true) same h)
      added false e at ih = ih _ at

not_empty : (t : Text) (ts : List Text) → text_in t ts ≡ true → is_empty ts ≡ false
not_empty t [] h = cc
not_empty t (x ∷ xs) h = refl

select_tests-picked :
    (p : Profile) (locations : List Text) (t : Text)
    → text_in t (pick_tests p locations ([], false)).0 ≡ true
    → (pick_tests p locations ([], false)).1 ≡ true
    → select_tests p locations ≡ some (sort_texts (pick_tests p locations ([], false)).0)
unfolding select_tests
select_tests-picked p locations t h k = rw (select_tests, k, not_empty t _ h) refl

planned :
    (t : Text) (o : Option (List Text)) (ts : List Text)
    → o ≡ some ts
    → text_in t ts ≡ true
    → (elim o [ none ↦ widen | some [] ↦ unhit | some (x ∷ xs) ↦ narrow (x ∷ xs) ]) ≡ narrow ts
planned t none ts e h = cc
planned t (some []) ts e h = cc
planned t (some (x ∷ xs)) ts e h = ap narrow (some_inj (x ∷ xs) ts e)

-- A test that the profile has at one of the mutant's lines, where the profile knows the line: the plan is to run
-- some of the tests, and this one is among them.
pub plan_for-narrow :
    (p : Profile) (locations : List Text) (location t : Text)
    → text_in location locations ≡ true
    → text_in location p.known ≡ true
    → text_in t (tests_at p location) ≡ true
    → (ts : List Text) × (plan_for p locations ≡ narrow ts) × (text_in t ts ≡ true)
unfolding plan_for
plan_for-narrow p locations location t at known h =
    let picked = pick_tests-adds p t location locations ([], false) at known h in
    let there = sort_texts-keeps t (pick_tests p locations ([], false)).0 ∙ picked.0 in
    (
      _,
      planned t (select_tests p locations) _ (select_tests-picked p locations t picked.0 picked.1)
          there,
      there,
    )
