-- ===== src/UeTable/Polling.antt =====
-- `Start`, `pollLoop` and `Stop` of internal/sbi/consumer/smf_client.go: which reply the table
-- shows.
pub mod Laws
use an_lf.Base.{
  ℕ, suc, ◌+◌, ◌≤◌, ◌≡◌, refl, ap, ◌∙◌, Bool, true, false, ◌&&◌, Option, none, some, List, [], ◌∷◌,
  ◌==◌, Bytes, Dict, arith, if◌then◌else◌, Bool-cases, inl, inr,
}
use an_lf.Base.Runs.{run_events, run_events-cons, run_events-keeps}
use an_lf.UeTable.{
  PduSessionInfo, SmfClient, SmfReply, not_created, not_sent, not_read, replied, new_smf_client,
  add_contexts, take_contexts, fetch_ue_data, start_smf_client, stop_smf_client,
}

-- What the goroutine of `pollLoop` is at in `fetchUeData`: it has no request under way, it waits
-- for one to come to its end, or it has the result and has not yet updated the table.
pub data Fetch : Type 0 where
  idle sending : Fetch
  received : SmfReply → Fetch

-- The client, whether the goroutine runs, and what it is at.
pub record SmfRun : Type 0 where
  pub client : SmfClient
  pub looping : Bool
  pub fetch : Fetch

-- A tick, the end of a request with its result, the update of the table for a result, the end of
-- the loop for the context, and a call of `Stop`.
pub data Event : Type 0 where
  ticks : Event
  receives : SmfReply → Event
  updates loop_ends stop_called : Event

-- `Start`, with the reply to its first request.
unfoldable pub start : SmfReply → SmfRun
unfolding start_smf_client new_smf_client
start reply = record {
  client = start_smf_client new_smf_client reply;
  looping = true;
  fetch = idle;
}

-- A request under a context that is done is not sent. The `select` may take a tick after that.
unfoldable pub begin_request : SmfClient → Fetch
begin_request c = if c.cancelled then received not_sent else sending

abbrev pub tick : SmfRun → Fetch → Option SmfRun
tick q idle = if q.looping then some (record q { fetch = begin_request q.client }) else none
tick q _ = none

-- A request that is under way when the context ends may still come to any result.
abbrev pub receive : SmfRun → Fetch → SmfReply → Option SmfRun
receive q sending r = some (record q { fetch = received r })
receive q _ r = none

unfoldable pub update_table : SmfRun → Fetch → Option SmfRun
unfolding fetch_ue_data
update_table q (received r) =
    some (record q { client = (fetch_ue_data q.client r).0; fetch = idle })
update_table q _ = none

abbrev pub end_loop : SmfRun → Fetch → Option SmfRun
end_loop q idle =
    if q.looping && q.client.cancelled then some (record q { looping = false }) else none
end_loop q _ = none

-- `Stop` ends the context and does not wait for the goroutine.
unfoldable pub fire : SmfRun → Event → Option SmfRun
unfolding begin_request update_table stop_smf_client
fire q ticks = tick q q.fetch
fire q (receives r) = receive q q.fetch r
fire q updates = update_table q q.fetch
fire q loop_ends = end_loop q q.fetch
fire q stop_called = some (record q { client = stop_smf_client q.client })

abbrev pub run : SmfRun → List Event → Option SmfRun
run q es = run_events fire q es

-- The table that a reply tells, if it tells one.
abbrev pub table_of_contexts : Option (List PduSessionInfo) → Option (Dict Bytes)
table_of_contexts none = none
table_of_contexts (some cs) = some (add_contexts [] cs)

pub told_by : SmfReply → Option (Dict Bytes)
told_by (replied code contexts) =
    if code == 404 then some [] else if code == 200 then table_of_contexts contexts else none
told_by _ = none

abbrev pub or_old : Dict Bytes → Option (Dict Bytes) → Dict Bytes
or_old old none = old
or_old old (some new) = new

-- The last table that one of the replies tells, or the old one.
unfoldable pub last_told : Dict Bytes → List SmfReply → Dict Bytes
unfolding told_by
last_told old [] = old
last_told old (r ∷ rs) = last_told (or_old old (told_by r)) rs

-- The results that the table was updated for, given the one that is waiting for it.
unfoldable pub applied : Option SmfReply → List Event → List SmfReply
applied o [] = []
applied o (receives r ∷ es) = applied (some r) es
applied none (updates ∷ es) = applied none es
applied (some r) (updates ∷ es) = r ∷ applied none es
applied o (ticks ∷ es) = applied o es
applied o (loop_ends ∷ es) = applied o es
applied o (stop_called ∷ es) = applied o es

-- The number of results, in all and after the first call of `Stop`.
unfoldable pub results : List Event → ℕ
results [] = 0
results (receives r ∷ es) = suc (results es)
results (ticks ∷ es) = results es
results (updates ∷ es) = results es
results (loop_ends ∷ es) = results es
results (stop_called ∷ es) = results es

unfoldable pub late_results : List Event → ℕ
unfolding results
late_results [] = 0
late_results (stop_called ∷ es) = results es
late_results (ticks ∷ es) = late_results es
late_results (receives r ∷ es) = late_results es
late_results (updates ∷ es) = late_results es
late_results (loop_ends ∷ es) = late_results es
