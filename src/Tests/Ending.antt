-- ===== src/Tests/Ending.antt =====
-- Terminations of an application with three components (pkg/service/init.go).
use an_lf.Base.{◌≡◌, ◌≢◌, ◌⊎◌, refl, true, false, none, some, List, [], ◌∷◌, ◌++◌}
use an_lf.Base.Runs.{run_events}
use an_lf.Service.{Part, smf_client, export_queue, flow_analyzer}
use an_lf.Service.Termination.{
  Termination, complete, graceful, terminate, Event, server_stopped, calls_next, stop_returns,
  stop_times_out, all_stopped, dispatcher_done, sees_complete, call_next, returns, give_up, fire,
  run,
}
use an_lf.Service.Termination.Laws.{run_terminates, stopped_before_shut}

abbrev parts : List Part
parts = flow_analyzer ∷ export_queue ∷ smf_client ∷ []

abbrev ended : Termination Part
ended = record {
  has_dispatcher = true;
  stage = complete;
  ending = graceful;
  todo = [];
  current = none;
  called = parts;
  in_time = parts;
  given_up = [];
  dispatcher_shut = true;
}

abbrev events : List Event
events =
    server_stopped ∷ calls_next ∷ stop_returns ∷ calls_next ∷ stop_returns ∷ calls_next
    ∷ stop_returns ∷ all_stopped ∷ dispatcher_done ∷ sees_complete ∷ []

events_end : run (terminate true parts) events ≡ some ended
unfolding run_events fire terminate call_next returns
events_end = refl

stopped_before_shut_example : ended.in_time ≡ parts
stopped_before_shut_example = stopped_before_shut true parts events ended events_end refl refl

-- The stop of the queue takes too long.
abbrev given_up : Termination Part
given_up = record ended { in_time = flow_analyzer ∷ smf_client ∷ []; given_up = export_queue ∷ [] }

slow_events_end :
    run (terminate true parts) (
      server_stopped ∷ calls_next ∷ stop_returns ∷ calls_next ∷ stop_times_out ∷ calls_next
      ∷ stop_returns ∷ all_stopped ∷ dispatcher_done ∷ sees_complete ∷ [])
    ≡ some given_up
unfolding run_events fire terminate call_next returns give_up
slow_events_end = refl

run_terminates_example :
    (given_up.called ++ given_up.todo ≡ parts)
    × ((given_up.dispatcher_shut ≡ false)
        ⊎ ((true ≡ true) × (given_up.called ≡ parts) × (given_up.current ≡ none)))
    × ((given_up.ending ≢ graceful)
        ⊎ ((given_up.dispatcher_shut ≡ true)
            × (given_up.called ≡ parts)
            × (given_up.current ≡ none)))
run_terminates_example = run_terminates true parts _ given_up slow_events_end
