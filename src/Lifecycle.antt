-- ===== src/Lifecycle.antt =====
-- pkg/app/lifecycle.go: `LifecycleManager` starts its components in order and stops them in reverse
-- order. The components are a parameter, acting on a state that they share. The manager calls
-- `Stop` in a goroutine and goes on after a timeout, which a component's own timeout comes before:
-- here each call of `Stop` has ended, or timed out, before the next one.
pub mod Laws
use an_lf.Base.{
  ℕ, suc, ◌-◌, ltb, ◌==◌, if◌then◌else◌, Bool, true, false, Option, none, some, List, [], ◌∷◌, ◌++◌,
}

-- `Start` returns the new state and the error, if there is one. The error of `Stop` is logged only.
pub record Component (S E : Type 0) : Type 0 where
  pub start : S → S × Option E
  pub stop : S → S

-- `cancelled` says whether the context of the manager is done.
pub record LifecycleManager (S E : Type 0) : Type 0 where
  pub components : List (Component S E)
  -- The counter of the wait group.
  pub tasks : ℕ
  pub cancelled : Bool

module _ {S E : Type 0} where
  pub new_lifecycle_manager : LifecycleManager S E
  new_lifecycle_manager = record { components = []; tasks = 0; cancelled = false }

  pub register : LifecycleManager S E → Component S E → LifecycleManager S E
  register lm c = record lm { components = lm.components ++ c ∷ [] }

  -- The loop of `StopAll`, from the last component to the first.
  unfoldable pub stop_components : List (Component S E) → S → S
  stop_components [] s = s
  stop_components (c ∷ cs) s = c.stop (stop_components cs s)

  unfoldable pub stop_all : LifecycleManager S E → S → S
  unfolding stop_components
  stop_all lm s = stop_components lm.components s

  -- The loop of `StartAll`: at the first error all components are stopped.
  unfoldable pub start_components : LifecycleManager S E → List (Component S E) → S → S × Option E
  unfolding stop_all
  start_components lm [] s = (s, none)
  start_components lm (c ∷ cs) s =
      let (s', failed) = c.start s in
      elim failed [ some e ↦ (stop_all lm s', some e) | none ↦ start_components lm cs s' ]

  unfoldable pub start_all : LifecycleManager S E → S → S × Option E
  unfolding start_components
  start_all lm s = start_components lm lm.components s

  -- `Shutdown` ends the context first.
  pub shutdown_all : LifecycleManager S E → S → LifecycleManager S E × S
  shutdown_all lm s = (record lm { cancelled = true }, stop_all lm s)

  -- `AddTask`, `TaskDone`, which panics where no task is left, and whether `Wait` returns.
  unfoldable pub add_task : LifecycleManager S E → LifecycleManager S E
  add_task lm = record lm { tasks = suc lm.tasks }

  unfoldable pub task_done : LifecycleManager S E → Option (LifecycleManager S E)
  task_done lm = if ltb 0 lm.tasks then some (record lm { tasks = lm.tasks - 1 }) else none

  unfoldable pub wait_returns : LifecycleManager S E → Bool
  wait_returns lm = lm.tasks == 0
