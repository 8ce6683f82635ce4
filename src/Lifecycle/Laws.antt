-- ===== src/Lifecycle/Laws.antt =====
-- The order of starts and stops in pkg/app/lifecycle.go, on components that record them.
use an_lf.Base.{
  ◌≡◌, refl, ap, ◌∙◌, sym, Bool, true, false, none, some, List, [], ◌∷◌, ◌++◌, map, All,
  append_assoc, append-nil, ℕ, if◌then◌else◌,
}
use an_lf.Lifecycle.{
  Component, LifecycleManager, stop_components, start_components, start_all, stop_all,
}

pub data Action : Type 0 where
  started stopped : ℕ → Action

-- A component with a number, which records its starts and stops and fails or not.
pub tracked : Bool → ℕ → Component (List Action) ℕ
tracked fails n = record {
  start = λ s. (s ++ started n ∷ [], if fails then some n else none);
  stop = λ s. s ++ stopped n ∷ [];
}

-- Components with their numbers and whether their start fails.
abbrev pub all_tracked : List (Bool × ℕ) → List (Component (List Action) ℕ)
all_tracked cs = map (λ c. tracked c.0 c.1) cs

abbrev pub starts : List (Bool × ℕ) → List Action
starts cs = map (λ c. started c.1) cs

-- Stopped from the last to the first.
unfoldable pub stops : List (Bool × ℕ) → List Action
stops [] = []
stops (c ∷ cs) = stops cs ++ stopped c.1 ∷ []

stop_components-stops :
    (cs : List (Bool × ℕ)) (s : List Action) → stop_components (all_tracked cs) s ≡ s ++ stops cs
unfolding stop_components stops tracked
stop_components-stops [] s = sym (append-nil s)
stop_components-stops (c ∷ cs) s =
    ap (λ t. t ++ stopped c.1 ∷ []) (stop_components-stops cs s)
    ∙ append_assoc s (stops cs) (stopped c.1 ∷ [])

abbrev pub manager : List (Bool × ℕ) → LifecycleManager (List Action) ℕ
manager cs = record { components = all_tracked cs; tasks = 0; cancelled = false }

-- Components whose start succeeds are started one after the other.
start_components-front :
    (lm : LifecycleManager (List Action) ℕ) (front rest : List (Bool × ℕ)) (s : List Action)
    → All (λ c. c.0 ≡ false) front
    → start_components lm (all_tracked (front ++ rest)) s
      ≡ start_components lm (all_tracked rest) (s ++ starts front)
start_components-front lm [] rest s h =
    ap (start_components lm (all_tracked rest)) (sym (append-nil s))
start_components-front lm ((fails, n) ∷ front) rest s h =
    step
    ∙ start_components-front lm front rest (s ++ started n ∷ []) h.1
    ∙ ap (start_components lm (all_tracked rest)) (append_assoc s (started n ∷ []) (starts front))
  where
    step :
        start_components lm (all_tracked ((fails, n) ∷ (front ++ rest))) s
        ≡ start_components lm (all_tracked (front ++ rest)) (s ++ started n ∷ [])
    step = unfold start_components tracked in rw h.0 refl

-- If every start succeeds, `StartAll` starts the components in the order of their registration and
-- stops none.
pub start_all_ok :
    (cs : List (Bool × ℕ))
    → All (λ c. c.0 ≡ false) cs
    → start_all (manager cs) [] ≡ (starts cs, none)
unfolding start_all
start_all_ok cs h =
    ap (λ l. start_components (manager cs) (all_tracked l) []) (sym (append-nil cs))
    ∙ start_components-front (manager cs) cs [] [] h
    ∙ (unfold start_components in refl)

-- If the start of a component fails, `StartAll` starts those before it and the failing one, none
-- behind it, returns the error, and stops all registered components in reverse order: also the one
-- that failed and those that it has not started.
pub start_all_fails :
    (front rest : List (Bool × ℕ)) (n : ℕ)
    → All (λ c. c.0 ≡ false) front
    → let cs = front ++ (true, n) ∷ rest in
      start_all (manager cs) [] ≡ ((starts front ++ started n ∷ []) ++ stops cs, some n)
unfolding start_all
start_all_fails front rest n h =
    let cs = front ++ (true, n) ∷ rest in
    start_components-front (manager cs) front ((true, n) ∷ rest) [] h
    ∙ (unfold start_components tracked stop_all in
        ap (λ t. (t, some n)) (stop_components-stops cs (starts front ++ started n ∷ [])))
