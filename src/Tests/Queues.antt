-- ===== src/Tests/Queues.antt =====
-- Runs of a queue (internal/analyzer/queue/base_queue.go) with a buffer of two and one worker.
use mathlib.Core.List.{Perm}
use an_lf.Base.{◌≤◌, length, ◌++◌, ◌+◌, ℕ, ◌≡◌, refl, true, false, some, none, List, [], ◌∷◌, arith}
use an_lf.Base.Int.{pos}
use an_lf.Base.Runs.{run_events}
use an_lf.Queue.{
  QueueConfig, BaseQueue, Event, enqueues, cancels, stops, worker_stopped, worker_receives,
  worker_handles, drain_receives, drain_handles, drain_returns, stop_returns, new_base_queue,
  size_or, default_queue_config, start, send, receive, drain_next, take_out, process_message,
  drain_message, is_empty, enqueue, fire, run,
}
use an_lf.Queue.Invariant.{Inv, start-Inv, run-Inv}
use an_lf.Queue.Order.{run_conserves, run-Ordered}
use an_lf.Queue.Shutdown.{late_enqueue_lost, cancel_loses, leave}

abbrev config : QueueConfig
config = record { buffer_size = pos 2; worker_count = pos 1 }

abbrev begin : BaseQueue ℕ
begin = start (new_base_queue config)

-- Two messages, one handled before the stop and one in the drain.
abbrev events : List (Event ℕ)
events =
    enqueues false 7
    ∷ enqueues true 8
    ∷ worker_receives
    ∷ stops
    ∷ worker_handles 0
    ∷ worker_stopped
    ∷ drain_receives
    ∷ drain_handles 0
    ∷ drain_returns
    ∷ stop_returns
    ∷ []

abbrev served : BaseQueue ℕ
served = record {
  buffer = [];
  capacity = 2;
  stopped = true;
  done = true;
  cancelled = false;
  timed_out = false;
  worker_count = 1;
  running = 0;
  draining = 0;
  exited = 1;
  busy = [];
  clearing = [];
  accepted = 7 ∷ 8 ∷ [];
  handled = 7 ∷ 8 ∷ [];
  late = 0;
}

events_serve : run begin events ≡ some served
unfolding run_events fire enqueue send receive drain_next take_out process_message drain_message
    is_empty start new_base_queue size_or default_queue_config
events_serve = refl

run_conserves_example :
    (length served.buffer ≤ served.capacity)
    × (served.running
          + length served.busy
          + (served.draining + length served.clearing)
          + served.exited
        ≡ served.worker_count)
    × Perm served.accepted (served.handled ++ (served.busy ++ (served.clearing ++ served.buffer)))
run_conserves_example = run_conserves config events served events_serve

run-Ordered_example :
    served.accepted ≡ served.handled ++ (served.busy ++ (served.clearing ++ served.buffer))
unfolding start new_base_queue size_or default_queue_config
run-Ordered_example = run-Ordered begin events served (start-Inv config) refl refl events_serve

served-Inv : Inv served
served-Inv = run-Inv begin events served (start-Inv config) events_serve

abbrev lost : BaseQueue ℕ
lost = record served { buffer = 9 ∷ []; accepted = 7 ∷ 8 ∷ 9 ∷ []; late = 1 }

late_run : run (enqueue false served 9).0 [] ≡ some lost
unfolding run_events enqueue send
late_run = refl

late_enqueue_lost_example :
    ((enqueue false served 9).1 ≡ none)
    × ((enqueue false served 9).0.accepted ≡ 7 ∷ 8 ∷ 9 ∷ [])
    × (lost.handled ≡ served.handled)
late_enqueue_lost_example =
    late_enqueue_lost served 9 [] lost served-Inv refl (omega arith) late_run

-- A queue at work, with two messages waiting.
abbrev waiting : BaseQueue ℕ
waiting = record served {
  buffer = 8 ∷ 9 ∷ [];
  stopped = false;
  done = false;
  running = 1;
  exited = 0;
  accepted = 7 ∷ 8 ∷ 9 ∷ [];
  handled = 7 ∷ [];
}

cancel_loses_example :
    (u : BaseQueue ℕ) × (run waiting (cancels ∷ leave 1 (stops ∷ stop_returns ∷ [])) ≡ some u)
    × (u.done ≡ true)
    × (u.buffer ≡ waiting.buffer)
    × (u.handled ≡ waiting.handled)
cancel_loses_example = cancel_loses waiting refl refl refl refl refl refl
