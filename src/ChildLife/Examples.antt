-- ===== src/ChildLife/Examples.antt =====
-- Lives of a child, and the theorems about them at concrete inputs.
use wac_mono.Base.{pos, ◌≡◌, refl, true, some, List, [], ◌∷◌}
use wac_mono.ChildLife.{
  LifeEvent, ready, result, grace, kill, settle_loaded, settle_exit, shutdown, newborn, run, step,
}
use wac_mono.ChildLife.Once.{exits, loads, shutdowns, settled, set_flag, run-settles_once}
use wac_mono.ChildLife.Order.{exited-verdict}

-- The grace runs out, the child reports ready all the same, ends with 3, and is killed when it is gone.
abbrev slow : List LifeEvent
slow = grace ∷ ready ∷ result true (pos 3) ∷ kill ∷ []

slow_effects :
    (run newborn slow).effects
    ≡ settle_loaded "did not report ready within the grace" ∷ shutdown ∷ settle_exit (pos 3) ∷ []
unfolding run step newborn
slow_effects = refl

run-settles_once_example :
    (exits (run newborn slow).effects ≡ settled (run newborn slow).state.exited)
    × (loads (run newborn slow).effects ≡ settled (run newborn slow).state.loaded)
    × (shutdowns (run newborn slow).effects ≡ set_flag (run newborn slow).state.shut_down)
run-settles_once_example = run-settles_once slow

exited-verdict_example : (run newborn slow).state.exited ≡ some (pos 3)
exited-verdict_example = exited-verdict slow
