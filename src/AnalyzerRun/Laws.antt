-- ===== src/AnalyzerRun/Laws.antt =====
-- What the loop of `FlowAnalyzer` makes of the batches that reach it, and what a stop leaves
-- (internal/analyzer/analyzer.go).
use an_lf.Base.{
  ℕ, ◌≤◌, ◌≡◌, refl, sym, ap, ◌∙◌, subst, Bool, true, Option, none, some, List, [], ◌∷◌, ◌++◌,
  length, length-append, append_assoc, append-nil, arith,
}
use an_lf.Base.Runs.{run_events, run_events-step, run_events-keeps}
use an_lf.Float.{Float64}
use an_lf.Models.{BatchUeTrafficRecords}
use an_lf.Analyzer.{FlowAnalyzer, Sent, process_batch, process_batches}
use an_lf.AnalyzerRun.{
  AnalyzerRun, Event, looping, returned, uncalled, waiting, stopped, offers, closes, cancels,
  loop_cancelled, loop_stopped, loop_receives, loop_closed, stop_called, stop_returns,
  stop_times_out, new_flow_analyzer, start_analyzer, take_batch, fire, run,
}

module _ {F : Type 0} (fl : Float64 F) where
  process_batches-snoc :
      (a : FlowAnalyzer) (bs : List (BatchUeTrafficRecords F)) (b : BatchUeTrafficRecords F)
      → process_batches fl a (bs ++ b ∷ []) ≡ (
        (process_batch fl (process_batches fl a bs).0 b).0,
        (process_batches fl a bs).1 ++ (process_batch fl (process_batches fl a bs).0 b).1,
      )
  unfolding process_batches
  process_batches-snoc a [] b =
      ap (λ s. ((process_batch fl a b).0, s)) (append-nil (process_batch fl a b).1)
  process_batches-snoc a (c ∷ bs) b =
      let (a', first) = process_batch fl a c in
      let (a'', later) = process_batches fl a' bs in
      ap (λ p. (p.0, first ++ p.1)) (process_batches-snoc a' bs b)
      ∙ ap (λ s. ((process_batch fl a'' b).0, s))
          (sym (append_assoc first later (process_batch fl a'' b).1))

  abbrev or_same : AnalyzerRun F → Option (AnalyzerRun F) → AnalyzerRun F
  or_same q none = q
  or_same q (some u) = u

  -- The loop has done what `process_batches` does to the batches so far.
  pub record Follows (a : FlowAnalyzer) (q : AnalyzerRun F) : Type 0 where
    pub within : length q.channel ≤ q.capacity
    pub kept : q.offered ≡ q.processed ++ q.channel
    pub done : (q.analyzer, q.sent) ≡ process_batches fl a q.processed
    pub ended : q.stop ≡ stopped → q.loop ≡ returned

  take_batch-Follows :
      (a : FlowAnalyzer) (q : AnalyzerRun F) (bs : List (BatchUeTrafficRecords F))
      (u : AnalyzerRun F)
      → Follows a q
      → q.channel ≡ bs
      → take_batch fl q bs ≡ some u
      → Follows a u
  unfolding take_batch
  take_batch-Follows a q [] u v e h = cc
  take_batch-Follows a q (b ∷ rest) u v e h = subst (Follows a) (ap (or_same q) h) (record {
    within = omega (arith, v.within, ap length e);
    kept = v.kept ∙ ap (◌++◌ q.processed) e ∙ sym (append_assoc q.processed (b ∷ []) rest);
    done =
        ap (λ p. ((process_batch fl p.0 b).0, p.1 ++ (process_batch fl p.0 b).1)) v.done
        ∙ sym (process_batches-snoc a q.processed b);
    ended = v.ended;
  })

  fire-Follows :
      (a : FlowAnalyzer) (q : AnalyzerRun F) (e : Event F) (u : AnalyzerRun F)
      → Follows a q
      → fire fl q e ≡ some u
      → Follows a u
  unfolding fire
  fire-Follows a q (offers b) u v h =
      ground (arith, length-append q.channel (b ∷ []), append_assoc q.processed q.channel (b ∷ []))
  fire-Follows a q closes u v h = ground arith
  fire-Follows a q cancels u v h = ground arith
  fire-Follows a q loop_cancelled u v h = ground arith
  fire-Follows a q loop_stopped u v h = ground arith
  fire-Follows a q loop_receives u v h = ground (arith, take_batch-Follows a q q.channel u v)
  fire-Follows a q loop_closed u v h = ground arith
  fire-Follows a q stop_called u v h = ground arith
  fire-Follows a q stop_returns u v h = ground arith
  fire-Follows a q stop_times_out u v h = ground arith

  -- From the start on, whatever happens: the channel keeps to its capacity, the batches that got
  -- into it are those that were processed followed by those in it, and the analyzer has the counter
  -- and has sent what processing them one after the other gives.
  pub run_processes :
      (capacity : ℕ) (enabled : Bool) (es : List (Event F)) (u : AnalyzerRun F)
      → run fl (start_analyzer (new_flow_analyzer capacity enabled)) es ≡ some u
      → (length u.channel ≤ u.capacity)
        × (u.offered ≡ u.processed ++ u.channel)
        × ((u.analyzer, u.sent)
            ≡ process_batches fl
                (record { poll_counter = 0; detector_enabled = enabled })
                u.processed)
  run_processes capacity enabled es u h =
      let a : FlowAnalyzer = record { poll_counter = 0; detector_enabled = enabled } in
      let q : AnalyzerRun F = start_analyzer (new_flow_analyzer capacity enabled) in
      let v =
        run_events-keeps (fire fl) (Follows a) (fire-Follows a) q es u (begun capacity enabled) h in
      (v.within, v.kept, v.done)
    where
      begun :
          (capacity : ℕ) (enabled : Bool)
          → Follows
              (record { poll_counter = 0; detector_enabled = enabled })
              (start_analyzer (new_flow_analyzer capacity enabled))
      begun capacity enabled =
          unfold start_analyzer new_flow_analyzer process_batches in ground arith

  -- Nothing changes what has been processed and sent.
  IsOver : List (BatchUeTrafficRecords F) → List (Sent F) → AnalyzerRun F → Type 0
  IsOver processed sent q = (q.loop ≡ returned) × (q.processed ≡ processed) × (q.sent ≡ sent)

  fire-IsOver :
      (processed : List (BatchUeTrafficRecords F)) (sent : List (Sent F)) (q : AnalyzerRun F)
      (e : Event F) (u : AnalyzerRun F)
      → IsOver processed sent q
      → fire fl q e ≡ some u
      → IsOver processed sent u
  unfolding fire IsOver
  fire-IsOver p s q (offers b) u v h = ground arith
  fire-IsOver p s q closes u v h = ground arith
  fire-IsOver p s q cancels u v h = ground arith
  fire-IsOver p s q loop_cancelled u v h = ground arith
  fire-IsOver p s q loop_stopped u v h = ground arith
  fire-IsOver p s q loop_receives u v h = ground arith
  fire-IsOver p s q loop_closed u v h = ground arith
  fire-IsOver p s q stop_called u v h = ground arith
  fire-IsOver p s q stop_returns u v h = ground arith
  fire-IsOver p s q stop_times_out u v h = ground arith

  -- A stop does not empty the channel: while the loop runs, a call of `Stop` may return nil with
  -- all batches still in the channel, and whatever happens after that, none of them is processed
  -- and nothing more is sent.
  pub stop_abandons :
      (q : AnalyzerRun F) (es : List (Event F)) (u : AnalyzerRun F)
      → q.loop ≡ looping
      → q.stop ≡ uncalled
      → run fl q (stop_called ∷ loop_stopped ∷ stop_returns ∷ es) ≡ some u
      → (t : AnalyzerRun F) × (run fl q (stop_called ∷ loop_stopped ∷ stop_returns ∷ []) ≡ some t)
        × (t.stop ≡ stopped)
        × (t.channel ≡ q.channel)
        × (u.processed ≡ q.processed)
        × (u.sent ≡ q.sent)
  unfolding fire IsOver
  stop_abandons q es u l s h =
      let q1 : AnalyzerRun F = record q { stop = waiting; told = true } in
      let q2 : AnalyzerRun F = record q1 { loop = returned } in
      let q3 : AnalyzerRun F = record q2 { stop = stopped } in
      let stops : (rest : List (Event F))
          → run fl q (stop_called ∷ loop_stopped ∷ stop_returns ∷ rest) ≡ run fl q3 rest =
        λ rest.
          run_events-step (fire fl) q q1 stop_called _ (ground arith)
          ∙ run_events-step (fire fl) q1 q2 loop_stopped _ (ground arith)
          ∙ run_events-step (fire fl) q2 q3 stop_returns rest refl in
      let after =
        run_events-keeps (fire fl) (IsOver q.processed q.sent) (fire-IsOver q.processed q.sent) q3
          es u (refl, refl, refl) (sym (stops es) ∙ h) in
      (q3, stops [] ∙ (unfold run_events in refl), refl, refl, after.1, after.2)
