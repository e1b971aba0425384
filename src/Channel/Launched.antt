-- ===== src/Channel/Launched.antt =====
-- src/runtime/runtime.rs: when a launched job runs, among the events while its client waits.
use mathlib.Core.Option
use trust_tee.Prelude.{◌≡◌, refl, Bool, true, false, List, [], ◌∷◌, Option, none, some}
use trust_tee.Channel.{Event, idle, serve, fiber, gone, others}

-- The property when a fiber first runs, and when a fiber first runs after the worker's first visit. A
-- fiber also runs when the worker has left its loop.
unfoldable pub first_fiber : {T : Type 0} → List (Event T) → T → Option T
first_fiber [] t = none
first_fiber (idle ∷ es) t = first_fiber es t
first_fiber (serve ∷ es) t = first_fiber es t
first_fiber (fiber ∷ es) t = some t
first_fiber (gone ∷ es) t = first_fiber es t
first_fiber (others g ∷ es) t = first_fiber es (g t)

unfoldable pub first_launched : {T : Type 0} → List (Event T) → T → Option T
unfolding first_fiber
first_launched [] t = none
first_launched (idle ∷ es) t = first_launched es t
first_launched (serve ∷ es) t = first_fiber es t
first_launched (fiber ∷ es) t = first_launched es t
first_launched (gone ∷ es) t = none
first_launched (others g ∷ es) t = first_launched es (g t)

-- Whether the worker still runs when a fiber first runs, with the property.
unfoldable pub fiber_runs : {T : Type 0} → List (Event T) → Bool → T → Option (Bool × T)
fiber_runs [] b t = none
fiber_runs (idle ∷ es) b t = fiber_runs es b t
fiber_runs (serve ∷ es) b t = fiber_runs es b t
fiber_runs (fiber ∷ es) b t = some (b, t)
fiber_runs (gone ∷ es) b t = fiber_runs es false t
fiber_runs (others g ∷ es) b t = fiber_runs es b (g t)

unfoldable pub launch_runs : {T : Type 0} → List (Event T) → T → Option (Bool × T)
unfolding fiber_runs
launch_runs [] t = none
launch_runs (idle ∷ es) t = launch_runs es t
launch_runs (serve ∷ es) t = fiber_runs es true t
launch_runs (fiber ∷ es) t = launch_runs es t
launch_runs (gone ∷ es) t = none
launch_runs (others g ∷ es) t = launch_runs es (g t)

pub fiber_runs-first_fiber :
    {T : Type 0} (es : List (Event T)) (b : Bool) (t : T)
    → Option.map (λ x. x.1) (fiber_runs es b t) ≡ first_fiber es t
unfolding fiber_runs first_fiber
fiber_runs-first_fiber [] b t = refl
fiber_runs-first_fiber (idle ∷ es) b t = fiber_runs-first_fiber es b t
fiber_runs-first_fiber (serve ∷ es) b t = fiber_runs-first_fiber es b t
fiber_runs-first_fiber (fiber ∷ es) b t = refl
fiber_runs-first_fiber (gone ∷ es) b t = fiber_runs-first_fiber es false t
fiber_runs-first_fiber (others g ∷ es) b t = fiber_runs-first_fiber es b (g t)

pub launch_runs-first_launched :
    {T : Type 0} (es : List (Event T)) (t : T)
    → Option.map (λ x. x.1) (launch_runs es t) ≡ first_launched es t
unfolding launch_runs first_launched
launch_runs-first_launched [] t = refl
launch_runs-first_launched (idle ∷ es) t = launch_runs-first_launched es t
launch_runs-first_launched (serve ∷ es) t = fiber_runs-first_fiber es true t
launch_runs-first_launched (fiber ∷ es) t = launch_runs-first_launched es t
launch_runs-first_launched (gone ∷ es) t = refl
launch_runs-first_launched (others g ∷ es) t = launch_runs-first_launched es (g t)
