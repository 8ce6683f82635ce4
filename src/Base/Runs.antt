-- ===== src/Base/Runs.antt =====
-- Runs of a machine whose steps are partial: an event that cannot happen ends them.
use an_lf.Base.{◌≡◌, subst, ap, Option, none, some, List, [], ◌∷◌, Option-cases, inl, inr}

module _ {S E : Type 0} (fire : S → E → Option S) where
  unfoldable pub run_events : S → List E → Option S
  run_events s [] = some s
  run_events s (e ∷ es) = elim (fire s e) [ none ↦ none | some s' ↦ run_events s' es ]

  -- A run is one event and then the rest.
  pub run_events-cons :
      (s : S) (e : E) (es : List E) (u : S)
      → run_events s (e ∷ es) ≡ some u
      → (s' : S) × (fire s e ≡ some s') × (run_events s' es ≡ some u)
  unfolding run_events
  run_events-cons s e es u h = elim (Option-cases (fire s e)) [
    | inl stuck ↦ absurd (none_some (rw (stuck, run_events) at h))
    | inr (s', step) ↦ (s', step, rw (step, run_events) at h)
  ]
    where
      none_some : none ≡ some u → ⊥
      none_some e = cc

  pub run_events-step :
      (s s' : S) (e : E) (es : List E)
      → fire s e ≡ some s'
      → run_events s (e ∷ es) ≡ run_events s' es
  unfolding run_events
  run_events-step s s' e es h = rw (h, run_events)

  -- What every step keeps, every run keeps.
  pub run_events-keeps :
      (P : S → Type 0)
      → ((s : S) (e : E) (u : S) → P s → fire s e ≡ some u → P u)
      → (s : S) (es : List E) (u : S) → P s
      → run_events s es ≡ some u
      → P u
  unfolding run_events
  run_events-keeps P step s [] u v h = subst P (ap or_start h) v
    where
      or_start : Option S → S
      or_start none = s
      or_start (some t) = t
  run_events-keeps P step s (e ∷ es) u v h =
      let (s', one, rest) = run_events-cons s e es u h in
      run_events-keeps P step s' es u (step s e s' v one) rest
