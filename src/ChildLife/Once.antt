-- ===== src/ChildLife/Once.antt =====
-- Each promise of a child settles once, and settles when the child is gone.
use wac_mono.Base.{ℕ, ◌+◌, ◌≡◌, Bool, true, false, Option, none, some, List, [], ◌∷◌, ◌++◌, arith}
use wac_mono.ChildLife.{
  LifeEvent, LifeState, LifeEffect, settle_loaded, settle_exit, shutdown, say_on_stderr, LifeStep,
  newborn, step, run,
}

abbrev pub exits : List LifeEffect → ℕ
exits [] = 0
exits (settle_exit c ∷ es) = 1 + exits es
exits (settle_loaded w ∷ es) = exits es
exits (shutdown ∷ es) = exits es
exits (say_on_stderr l ∷ es) = exits es

abbrev pub loads : List LifeEffect → ℕ
loads [] = 0
loads (settle_exit c ∷ es) = loads es
loads (settle_loaded w ∷ es) = 1 + loads es
loads (shutdown ∷ es) = loads es
loads (say_on_stderr l ∷ es) = loads es

abbrev pub shutdowns : List LifeEffect → ℕ
shutdowns [] = 0
shutdowns (settle_exit c ∷ es) = shutdowns es
shutdowns (settle_loaded w ∷ es) = shutdowns es
shutdowns (shutdown ∷ es) = 1 + shutdowns es
shutdowns (say_on_stderr l ∷ es) = shutdowns es

-- 1 for what is there, 0 for what is not.
abbrev pub settled {ℓ} : {A : Type ℓ} → Option A → ℕ
settled none = 0
settled (some a) = 1

abbrev pub set_flag : Bool → ℕ
set_flag false = 0
set_flag true = 1

-- Effects settle exactly what the state newly records.
pub record Accounts (s : LifeState) (r : LifeStep) : Type 0 where
  pub exit : settled s.exited + exits r.effects ≡ settled r.state.exited
  pub load : settled s.loaded + loads r.effects ≡ settled r.state.loaded
  pub close : set_flag s.shut_down + shutdowns r.effects ≡ set_flag r.state.shut_down

step-Accounts : (s : LifeState) (e : LifeEvent) → Accounts s (step s e)
unfolding step
step-Accounts s e = ground arith

exits-append : (xs ys : List LifeEffect) → exits (xs ++ ys) ≡ exits xs + exits ys
exits-append [] ys = omega arith
exits-append (settle_exit c ∷ xs) ys = omega (arith, exits-append xs ys)
exits-append (settle_loaded w ∷ xs) ys = exits-append xs ys
exits-append (shutdown ∷ xs) ys = exits-append xs ys
exits-append (say_on_stderr l ∷ xs) ys = exits-append xs ys

loads-append : (xs ys : List LifeEffect) → loads (xs ++ ys) ≡ loads xs + loads ys
loads-append [] ys = omega arith
loads-append (settle_exit c ∷ xs) ys = loads-append xs ys
loads-append (settle_loaded w ∷ xs) ys = omega (arith, loads-append xs ys)
loads-append (shutdown ∷ xs) ys = loads-append xs ys
loads-append (say_on_stderr l ∷ xs) ys = loads-append xs ys

shutdowns-append : (xs ys : List LifeEffect) → shutdowns (xs ++ ys) ≡ shutdowns xs + shutdowns ys
shutdowns-append [] ys = omega arith
shutdowns-append (settle_exit c ∷ xs) ys = shutdowns-append xs ys
shutdowns-append (settle_loaded w ∷ xs) ys = shutdowns-append xs ys
shutdowns-append (shutdown ∷ xs) ys = omega (arith, shutdowns-append xs ys)
shutdowns-append (say_on_stderr l ∷ xs) ys = shutdowns-append xs ys

run-Accounts : (s : LifeState) (es : List LifeEvent) → Accounts s (run s es)
unfolding run
run-Accounts s [] = omega arith
run-Accounts s (e ∷ es) =
    let one = step-Accounts s e in
    let rest = run-Accounts (step s e).state es in
    let later = (run (step s e).state es).effects in
    record {
      exit = omega (arith, one.exit, rest.exit, exits-append (step s e).effects later);
      load = omega (arith, one.load, rest.load, loads-append (step s e).effects later);
      close = omega (arith, one.close, rest.close, shutdowns-append (step s e).effects later);
    }

-- Over any events of a new child the number of times that the exit settles, that the load settles
-- and that the streams are shut is 1 where the state records it and 0 where it does not.
pub run-settles_once :
    (es : List LifeEvent)
    → let r = run newborn es in
      (exits r.effects ≡ settled r.state.exited)
      × (loads r.effects ≡ settled r.state.loaded)
      × (shutdowns r.effects ≡ set_flag r.state.shut_down)
unfolding newborn
run-settles_once es =
    let a = run-Accounts newborn es in
    (omega (arith, a.exit), omega (arith, a.load), omega (arith, a.close))
