-- ===== src/Tests/Smf.antt =====
-- A run of the SMF client (internal/sbi/consumer/smf_client.go).
use an_lf.Base.{◌≡◌, ◌≤◌, refl, true, false, none, some, List, [], ◌∷◌, bytes, insert}
use an_lf.Base.Runs.{run_events}
use an_lf.UeTable.{
  PduSessionInfo, SmfReply, replied, new_smf_client, start_smf_client, stop_smf_client,
  fetch_ue_data, add_contexts, add_context,
}
use an_lf.UeTable.Polling.{
  SmfRun, Event, idle, ticks, receives, updates, loop_ends, stop_called, start, begin_request,
  update_table, fire, run, last_told, applied, late_results,
}
use an_lf.UeTable.Polling.Laws.{run-last_told}

-- Three replies, of which the second is a failure; the third comes, and empties the table, after
-- the stop.
abbrev session : PduSessionInfo
session = record {
  supi = bytes "imsi-1";
  pdu_session_id = bytes "1";
  pdu_address = bytes "10.60.0.1";
}

abbrev first_reply : SmfReply
first_reply = replied 200 (some (session ∷ []))

abbrev smf_events : List Event
smf_events =
    ticks
    ∷ receives (replied 500 none)
    ∷ updates
    ∷ ticks
    ∷ stop_called
    ∷ receives (replied 404 none)
    ∷ updates
    ∷ loop_ends
    ∷ []

abbrev smf_after : SmfRun
smf_after = record {
  client = record { ue_table = []; poll_counter = 1; cancelled = true };
  looping = false;
  fetch = idle;
}

smf_runs : run (start first_reply) smf_events ≡ some smf_after
unfolding run_events fire begin_request update_table start start_smf_client new_smf_client
    stop_smf_client fetch_ue_data add_contexts add_context insert
smf_runs = refl

run-last_told_example :
    ([] ≡ last_told [] (first_reply ∷ applied none smf_events)) × (late_results smf_events ≤ 1)
run-last_told_example = run-last_told first_reply smf_events smf_after smf_runs
