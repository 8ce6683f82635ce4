-- ===== src/Tests/Pipeline.antt =====
-- A run of the analyzer, the detector and an export queue with two workers, to the files
-- (internal/analyzer).
use mathlib.Core.List.{Perm}
use an_lf.Base.{◌≡◌, refl, true, false, none, some, List, [], ◌∷◌, ◌++◌, Bytes, bytes}
use an_lf.Base.Int.{ℤ, pos}
use an_lf.Base.Permutations.{gather}
use an_lf.Float.Fixed.{fixed}
use an_lf.Sort.{exchange_sort}
use an_lf.Models.{BatchUeTrafficRecords}
use an_lf.Message.{
  QueueItem, export_item, new_batch_traffic_records_message, new_inference_result_message,
}
use an_lf.Base.Runs.{run_events}
use an_lf.Queue.{
  QueueConfig, BaseQueue, Event, enqueues, stops, worker_stopped, worker_receives, worker_handles,
  drain_returns, stop_returns, new_base_queue, size_or, default_queue_config, start, send, receive,
  drain_next, take_out, process_message, drain_message, is_empty, enqueue, fire, run,
}
use an_lf.Analyzer.{FlowAnalyzer, process_batch, process_batches}
use an_lf.Analyzer.Batches.{exported_batches, filled}
use an_lf.Detector.{
  AnomalyDetector, ActiveDetector, UeRun, analyse, batch_results, sort_results_by_supi,
  score_results, handle_active, handle_batch,
}
use an_lf.Detector.Scoring.{BatchRun}
use an_lf.Delivery.{deliver, result_rows, disk}
use an_lf.Pipeline.{
  Interleaves, ends, takes_left, takes_right, analyzer_items, detector_items, batch_rows,
  batches_on_disk,
}
use an_lf.Tests.Exports.{traffic, batch, paper-IsLossless}
use an_lf.Tests.Detection.{active, answering}

abbrev config : QueueConfig
config = record { buffer_size = pos 4; worker_count = pos 2 }

abbrev analyzer : FlowAnalyzer
analyzer = record { poll_counter = 6; detector_enabled = true }

-- A detector without a risk scorer, and a batch with one record for it.
abbrev plain : ActiveDetector ℤ
plain = record active { risk_scorer = none }

abbrev detector : AnomalyDetector ℤ
detector = record { active = some plain; stopped = false; done = false }

abbrev single : BatchUeTrafficRecords ℤ
single = record batch { records = traffic (bytes "imsi-1") ∷ [] }

abbrev request : UeRun ℤ
request = record { ue = traffic (bytes "imsi-1"); server = answering; now = pos 9 }

abbrev runs : List (BatchRun ℤ)
runs = record { batch = some single; runs = request ∷ []; now = pos 10 } ∷ []

abbrev first : QueueItem ℤ
first = export_item (new_batch_traffic_records_message (filled fixed analyzer batch))

abbrev second : QueueItem ℤ
second =
    export_item (new_inference_result_message (analyse fixed plain single.global_stats request))

-- The worker with the second message is faster.
abbrev events : List (Event (QueueItem ℤ))
events =
    enqueues false first
    ∷ worker_receives
    ∷ enqueues true second
    ∷ worker_receives
    ∷ worker_handles 1
    ∷ stops
    ∷ worker_stopped
    ∷ worker_handles 0
    ∷ worker_stopped
    ∷ drain_returns
    ∷ drain_returns
    ∷ stop_returns
    ∷ []

abbrev served : BaseQueue (QueueItem ℤ)
served = record {
  buffer = [];
  capacity = 4;
  stopped = true;
  done = true;
  cancelled = false;
  timed_out = false;
  worker_count = 2;
  running = 0;
  draining = 0;
  exited = 2;
  busy = [];
  clearing = [];
  accepted = first ∷ second ∷ [];
  handled = second ∷ first ∷ [];
  late = 0;
}

events_serve : run (start (new_base_queue config)) events ≡ some served
unfolding run_events fire enqueue send receive drain_next take_out process_message drain_message
    is_empty start new_base_queue size_or default_queue_config
events_serve = refl

interleaved :
    Interleaves
      (analyzer_items (process_batches fixed analyzer (batch ∷ [])).1)
      (detector_items fixed detector runs)
      served.accepted
unfolding process_batches process_batch analyzer_items detector_items handle_batch handle_active
    score_results batch_results sort_results_by_supi exchange_sort
interleaved = takes_left (takes_right ends)

batches_on_disk_example :
    let after = deliver served.handled (disk fixed paper-IsLossless paper-IsLossless [] []) in
    (new seen : List (List Bytes)) × (after.traffic ≡ [] ++ new)
    × Perm new (
        gather
          (batch_rows fixed)
          (exported_batches (process_batches fixed analyzer (batch ∷ [])).1))
    × (after.inference ≡ [] ++ seen)
    × Perm seen (result_rows fixed (detector_items fixed detector runs))
batches_on_disk_example =
    batches_on_disk fixed paper-IsLossless paper-IsLossless config events served [] [] analyzer
      (batch ∷ []) detector runs events_serve refl refl refl interleaved
