-- ===== src/ChildLife/Order.antt =====
-- What a child's events decide, and in which order its caller learns of it.
use Prim.Native.String.{String}
use wac_mono.Base.{
  ℤ, negsuc, ◌≡◌, ◌⊎◌, refl, Bool, true, false, ◌&&◌, Option, none, some, List, [], ◌∷◌, ◌++◌,
  arith,
}
use wac_mono.ChildLife.{
  LifeEvent, ready, result, error, grace, kill, LifeState, LifeEffect, settle_loaded, settle_exit,
  shutdown, say_on_stderr, newborn, step, run,
}

-- The exit code that the first final event gives.
abbrev pub verdict : List LifeEvent → Option ℤ
verdict [] = none
verdict (ready ∷ es) = verdict es
verdict (grace ∷ es) = verdict es
verdict (result true c ∷ es) = some c
verdict (result false c ∷ es) = some (negsuc 0)
verdict (error message ∷ es) = some (negsuc 0)
verdict (kill ∷ es) = some (negsuc 0)

-- What the first event of all says of the load.
abbrev pub report : List LifeEvent → Option String
report [] = none
report (ready ∷ es) = some ""
report (result okay c ∷ es) = some ""
report (error message ∷ es) = some message
report (grace ∷ es) = some "did not report ready within the grace"
report (kill ∷ es) = some "the child was killed before it reported ready"

abbrev pub is_some {ℓ} : {A : Type ℓ} → Option A → Bool
is_some none = false
is_some (some a) = true

-- A child that is gone has its streams shut and its load answered, and one that is not has not.
pub record Inv (s : LifeState) : Type 0 where
  pub shut_iff : s.shut_down ≡ is_some s.exited
  pub gone_answered : (s.exited ≡ none) ⊎ (is_some s.loaded ≡ true)
  pub started_answered : (s.started ≡ false) ⊎ (is_some s.loaded ≡ true)

newborn-Inv : Inv newborn
unfolding newborn
newborn-Inv = ground arith

step-Inv : (s : LifeState) (e : LifeEvent) → Inv s → Inv (step s e).state
unfolding step
step-Inv s e v = ground arith

run-keeps_Inv : (s : LifeState) (es : List LifeEvent) → Inv s → Inv (run s es).state
unfolding run
run-keeps_Inv s [] v = v
run-keeps_Inv s (e ∷ es) v = run-keeps_Inv (step s e).state es (step-Inv s e v)

-- After any events of a new child its streams are shut exactly if it has exited, and a child that
-- has exited or has started has its load answered.
pub gone_shuts_streams : (es : List LifeEvent) → Inv (run newborn es).state
gone_shuts_streams es = run-keeps_Inv newborn es newborn-Inv

-- What is settled stays as it is.
step_keeps_exit :
    (s : LifeState) (e : LifeEvent) (c : ℤ) → s.exited ≡ some c → (step s e).state.exited ≡ some c
unfolding step
step_keeps_exit s e c h = ground arith

step_keeps_load :
    (s : LifeState) (e : LifeEvent) (w : String)
    → s.loaded ≡ some w
    → (step s e).state.loaded ≡ some w
unfolding step
step_keeps_load s e w h = ground arith

run_keeps_exit :
    (s : LifeState) (es : List LifeEvent) (c : ℤ)
    → s.exited ≡ some c
    → (run s es).state.exited ≡ some c
unfolding run
run_keeps_exit s [] c h = h
run_keeps_exit s (e ∷ es) c h = run_keeps_exit (step s e).state es c (step_keeps_exit s e c h)

run_keeps_load :
    (s : LifeState) (es : List LifeEvent) (w : String)
    → s.loaded ≡ some w
    → (run s es).state.loaded ≡ some w
unfolding run
run_keeps_load s [] w h = h
run_keeps_load s (e ∷ es) w h = run_keeps_load (step s e).state es w (step_keeps_load s e w h)

step-verdict :
    (s : LifeState) (e : LifeEvent) → s.exited ≡ none → (step s e).state.exited ≡ verdict (e ∷ [])
unfolding step
step-verdict s ready h = ground arith
step-verdict s (result true c) h = ground arith
step-verdict s (result false c) h = ground arith
step-verdict s (error message) h = ground arith
step-verdict s grace h = ground arith
step-verdict s kill h = ground arith

run-verdict :
    (s : LifeState) (es : List LifeEvent) → s.exited ≡ none → (run s es).state.exited ≡ verdict es
unfolding run
run-verdict s [] h = h
run-verdict s (ready ∷ es) h = run-verdict (step s ready).state es (step-verdict s ready h)
run-verdict s (grace ∷ es) h = run-verdict (step s grace).state es (step-verdict s grace h)
run-verdict s (result true c ∷ es) h =
    run_keeps_exit (step s (result true c)).state es c (step-verdict s (result true c) h)
run-verdict s (result false c ∷ es) h =
    run_keeps_exit (step s (result false c)).state es _ (step-verdict s (result false c) h)
run-verdict s (error m ∷ es) h =
    run_keeps_exit (step s (error m)).state es _ (step-verdict s (error m) h)
run-verdict s (kill ∷ es) h = run_keeps_exit (step s kill).state es _ (step-verdict s kill h)

-- After any events of a new child its exit code is the one that the first result, error or kill
-- gives, and there is none before such an event.
pub exited-verdict : (es : List LifeEvent) → (run newborn es).state.exited ≡ verdict es
exited-verdict es = run-verdict newborn es (unfold newborn in refl)

step-report :
    (e : LifeEvent) (w : String) → report (e ∷ []) ≡ some w → (step newborn e).state.loaded ≡ some w
unfolding step newborn
step-report e w h = ground arith

-- After any events of a new child, what the load was settled with is what the first event of all
-- says of it.
pub loaded-report : (es : List LifeEvent) → (run newborn es).state.loaded ≡ report es
unfolding run
loaded-report [] = unfold newborn in refl
loaded-report (ready ∷ es) = run_keeps_load _ es _ (step-report ready _ refl)
loaded-report (result okay c ∷ es) = run_keeps_load _ es _ (step-report (result okay c) _ refl)
loaded-report (error m ∷ es) = run_keeps_load _ es _ (step-report (error m) _ refl)
loaded-report (grace ∷ es) = run_keeps_load _ es _ (step-report grace _ refl)
loaded-report (kill ∷ es) = run_keeps_load _ es _ (step-report kill _ refl)

-- Reading the effects in order, with what has been settled and shut before: does the exit settle only
-- behind both?
abbrev pub in_order : Bool → Bool → List LifeEffect → Bool
in_order told shut [] = true
in_order told shut (settle_loaded w ∷ es) = in_order true shut es
in_order told shut (shutdown ∷ es) = in_order told true es
in_order told shut (say_on_stderr l ∷ es) = in_order told shut es
in_order told shut (settle_exit c ∷ es) = told && shut && in_order told shut es

-- An order that goes on from what a state records.
step-in_order :
    (s : LifeState) (e : LifeEvent) (later : List LifeEffect)
    → Inv s
    → in_order (is_some (step s e).state.loaded) (step s e).state.shut_down later ≡ true
    → in_order (is_some s.loaded) s.shut_down ((step s e).effects ++ later) ≡ true
unfolding step
step-in_order s e later v h = ground arith

run-in_order :
    (s : LifeState) (es : List LifeEvent)
    → Inv s
    → in_order (is_some s.loaded) s.shut_down (run s es).effects ≡ true
unfolding run
run-in_order s [] v = refl
run-in_order s (e ∷ es) v =
    step-in_order s e _ v (run-in_order (step s e).state es (step-Inv s e v))

-- Over any events of a new child the exit settles only behind the shutdown of the streams and the
-- answer to the load.
pub exit_last : (es : List LifeEvent) → in_order false false (run newborn es).effects ≡ true
unfolding newborn
exit_last es = run-in_order newborn es newborn-Inv
