-- ===== src/Tests/Loop.antt =====
-- Runs of the goroutine of the analyzer (internal/analyzer/analyzer.go).
use an_lf.Base.{◌≡◌, ◌≤◌, refl, true, false, some, List, [], ◌∷◌, ◌++◌, length}
use an_lf.Base.Int.{ℤ}
use an_lf.Base.Runs.{run_events}
use an_lf.Float.Fixed.{fixed}
use an_lf.Analyzer.{FlowAnalyzer, process_batch, process_batches}
use an_lf.AnalyzerRun.{
  AnalyzerRun, Event, looping, returned, uncalled, stopped, offers, loop_receives, loop_stopped,
  stop_called, stop_returns, new_flow_analyzer, start_analyzer, take_batch, fire, run,
}
use an_lf.AnalyzerRun.Laws.{run_processes, stop_abandons}
use an_lf.Tests.Exports.{batch}

abbrev fresh : FlowAnalyzer
fresh = record { poll_counter = 0; detector_enabled = true }

-- Three batches for a channel of two, of which one is read.
abbrev events : List (Event ℤ)
events = offers batch ∷ offers batch ∷ offers batch ∷ loop_receives ∷ []

abbrev busy : AnalyzerRun ℤ
busy = record {
  analyzer = (process_batch fixed fresh batch).0;
  channel = batch ∷ [];
  capacity = 2;
  closed = false;
  told = false;
  cancelled = false;
  loop = looping;
  stop = uncalled;
  offered = batch ∷ batch ∷ [];
  processed = batch ∷ [];
  sent = (process_batch fixed fresh batch).1;
}

events_reach : run fixed (start_analyzer (new_flow_analyzer 2 true)) events ≡ some busy
unfolding run_events fire take_batch start_analyzer new_flow_analyzer
events_reach = refl

run_processes_example :
    (length busy.channel ≤ busy.capacity)
    × (busy.offered ≡ busy.processed ++ busy.channel)
    × ((busy.analyzer, busy.sent) ≡ process_batches fixed fresh busy.processed)
run_processes_example = run_processes fixed 2 true events busy events_reach

-- It stops with one batch in the channel, and another one comes.
abbrev over : AnalyzerRun ℤ
over = record busy {
  told = true;
  loop = returned;
  stop = stopped;
  channel = batch ∷ batch ∷ [];
  offered = batch ∷ batch ∷ batch ∷ [];
}

stop_reaches :
    run fixed busy (stop_called ∷ loop_stopped ∷ stop_returns ∷ offers batch ∷ []) ≡ some over
unfolding run_events fire
stop_reaches = refl

stop_abandons_example :
    (t : AnalyzerRun ℤ) × (run fixed busy (stop_called ∷ loop_stopped ∷ stop_returns ∷ []) ≡ some t)
    × (t.stop ≡ stopped)
    × (t.channel ≡ busy.channel)
    × (over.processed ≡ busy.processed)
    × (over.sent ≡ busy.sent)
stop_abandons_example = stop_abandons fixed busy (offers batch ∷ []) over refl refl stop_reaches
