-- ===== src/Service/Termination/Laws.antt =====
-- What a termination of pkg/service/init.go guarantees, with the timeouts of pkg/app/lifecycle.go.
use an_lf.Base.{
  ◌≢◌, Bool-cases, ◌≡◌, refl, sym, ap, ◌∙◌, Bool, true, false, Option, none, some, List, [], ◌∷◌,
  ◌++◌, append_assoc, append-nil, arith, inl, inr, ◌⊎◌,
}
use an_lf.Base.Runs.{run_events-keeps}
use an_lf.Service.Termination.{
  Termination, shutting_dispatcher, complete, Ending, graceful, waits, forced, terminate, Event,
  server_stopped, calls_next, stop_returns, stop_times_out, all_stopped, dispatcher_done,
  sees_complete, time_is_over, is_looping, call_next, returns, give_up, fire, run, waited,
}

module _ {P : Type 0} where
  -- What holds at any time.
  record IsOrderly (d : Bool) (ps : List P) (t : Termination P) : Type 0 where
    pub same_dispatcher : t.has_dispatcher ≡ d
    pub in_order : t.called ++ t.todo ≡ ps
    pub all_done : t.stage ≡ complete → (t.todo ≡ []) × (t.current ≡ none)
    pub past_loop : t.stage ≡ shutting_dispatcher → (t.todo ≡ []) × (t.current ≡ none)
    pub shut_last : t.dispatcher_shut ≡ true → t.stage ≡ complete
    pub complete_shut : t.stage ≡ complete → t.dispatcher_shut ≡ d
    pub graceful_complete : t.ending ≡ graceful → t.stage ≡ complete
    pub nobody_else : t.given_up ≡ [] → t.called ≡ t.in_time ++ waited t.current

  call_next-IsOrderly :
      (d : Bool) (ps : List P) (t : Termination P) (todo : List P) (u : Termination P)
      → IsOrderly d ps t
      → t.todo ≡ todo
      → t.current ≡ none
      → is_looping t.stage ≡ true
      → call_next t todo ≡ some u
      → IsOrderly d ps u
  unfolding call_next
  call_next-IsOrderly d ps t [] u v e c l h = cc
  call_next-IsOrderly d ps t (p ∷ rest) u v e c l h =
      ground (arith, append_assoc t.called (p ∷ []) rest, append-nil t.in_time)

  returns-IsOrderly :
      (d : Bool) (ps : List P) (t : Termination P) (o : Option P) (u : Termination P)
      → IsOrderly d ps t
      → t.current ≡ o
      → returns t o ≡ some u
      → IsOrderly d ps u
  unfolding returns
  returns-IsOrderly d ps t none u v e h = cc
  returns-IsOrderly d ps t (some p) u v e h = ground (arith, append-nil (t.in_time ++ p ∷ []))

  not_nil : (xs : List P) (x : P) → xs ++ x ∷ [] ≡ [] → ⊥
  not_nil [] x h = cc
  not_nil (y ∷ xs) x h = cc

  give_up-IsOrderly :
      (d : Bool) (ps : List P) (t : Termination P) (o : Option P) (u : Termination P)
      → IsOrderly d ps t
      → t.current ≡ o
      → give_up t o ≡ some u
      → IsOrderly d ps u
  unfolding give_up
  give_up-IsOrderly d ps t none u v e h = cc
  give_up-IsOrderly d ps t (some p) u v e h = ground (arith, not_nil t.given_up p)

  fire-IsOrderly :
      (d : Bool) (ps : List P) (t : Termination P) (e : Event) (u : Termination P)
      → IsOrderly d ps t
      → fire t e ≡ some u
      → IsOrderly d ps u
  unfolding fire
  fire-IsOrderly d ps t server_stopped u v h = ground arith
  fire-IsOrderly d ps t calls_next u v h = ground (arith, call_next-IsOrderly d ps t t.todo u v)
  fire-IsOrderly d ps t stop_returns u v h = returns-IsOrderly d ps t t.current u v refl h
  fire-IsOrderly d ps t stop_times_out u v h = give_up-IsOrderly d ps t t.current u v refl h
  fire-IsOrderly d ps t all_stopped u v h = ground arith
  fire-IsOrderly d ps t dispatcher_done u v h = ground arith
  fire-IsOrderly d ps t sees_complete u v h = ground arith
  fire-IsOrderly d ps t time_is_over u v h = ground arith

  begun : (d : Bool) (ps : List P) → IsOrderly d ps (terminate d ps)
  begun d ps = unfold terminate in ground arith

  run-IsOrderly :
      (d : Bool) (ps : List P) (es : List Event) (u : Termination P)
      → run (terminate d ps) es ≡ some u
      → IsOrderly d ps u
  run-IsOrderly d ps es u h =
      run_events-keeps fire (IsOrderly d ps) (fire-IsOrderly d ps) (terminate d ps) es u
        (begun d ps) h

  all_called :
      (d : Bool) (ps : List P) (u : Termination P)
      → IsOrderly d ps u
      → u.stage ≡ complete
      → u.called ≡ ps
  all_called d ps u v s =
      sym (append-nil u.called) ∙ ap (◌++◌ u.called) (sym (v.all_done s).0) ∙ v.in_order

  -- Whatever takes too long: the calls of `Stop` that were made are the first ones of the list,
  -- each once. A dispatcher is shut down only if there is one, and after the calls for all
  -- components, of which none is waited for any more. A termination that reports success has made
  -- all calls, waits for none, and has shut down the dispatcher if there is one.
  pub run_terminates :
      (d : Bool) (ps : List P) (es : List Event) (u : Termination P)
      → run (terminate d ps) es ≡ some u
      → (u.called ++ u.todo ≡ ps)
        × ((u.dispatcher_shut ≡ false) ⊎ ((d ≡ true) × (u.called ≡ ps) × (u.current ≡ none)))
        × ((u.ending ≢ graceful) ⊎ ((u.dispatcher_shut ≡ d) × (u.called ≡ ps) × (u.current ≡ none)))
  run_terminates d ps es u h =
      let v = run-IsOrderly d ps es u h in
      (
        v.in_order,
        elim (Bool-cases u.dispatcher_shut) [
          | inl s ↦
              let c = v.shut_last s in
              inr (sym (v.complete_shut c) ∙ s, all_called d ps u v c, (v.all_done c).1)
          | inr off ↦ inl off
        ],
        elim (is_graceful u.ending) [
          | inl g ↦
              let c = v.graceful_complete g in
              inr (v.complete_shut c, all_called d ps u v c, (v.all_done c).1)
          | inr other ↦ inl other
        ],
      )
    where
      is_graceful : (e : Ending) → (e ≡ graceful) ⊎ (e ≢ graceful)
      is_graceful graceful = inl refl
      is_graceful waits = inr (λ h. cc)
      is_graceful forced = inr (λ h. cc)

  -- If no `Stop` is given up by its timeout, then before the dispatcher is shut down all of them
  -- have returned, in the order of the list. What a component still does after its `Stop` has
  -- returned is not part of this.
  pub stopped_before_shut :
      (d : Bool) (ps : List P) (es : List Event) (u : Termination P)
      → run (terminate d ps) es ≡ some u
      → u.given_up ≡ []
      → u.dispatcher_shut ≡ true
      → u.in_time ≡ ps
  stopped_before_shut d ps es u h g s =
      let v = run-IsOrderly d ps es u h in
      let c = v.shut_last s in
      let (todo, current) = v.all_done c in
      sym (append-nil u.in_time)
      ∙ ap (λ o. u.in_time ++ waited o) (sym current)
      ∙ sym (v.nobody_else g)
      ∙ all_called d ps u v c
