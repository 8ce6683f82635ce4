-- ===== src/UeTable/Polling/Laws.antt =====
-- Which replies the table of internal/sbi/consumer/smf_client.go shows, and that `Stop` lets at
-- most one more come in.
use an_lf.Base.{
  ℕ, ◌+◌, ◌≤◌, ◌≡◌, refl, ◌∙◌, true, Option, none, some, List, [], ◌∷◌, ◌==◌, Bytes, Dict, arith,
  Bool-cases, inl, inr,
}
use an_lf.Base.Runs.{run_events, run_events-cons}
use an_lf.UeTable.{
  PduSessionInfo, SmfClient, SmfReply, not_created, not_sent, not_read, replied, new_smf_client,
  take_contexts, fetch_ue_data, start_smf_client, stop_smf_client,
}
use an_lf.UeTable.Polling.{
  Fetch, idle, sending, received, SmfRun, Event, ticks, receives, updates, loop_ends, stop_called,
  start, begin_request, tick, receive, update_table, end_loop, fire, run, table_of_contexts,
  told_by, or_old, last_told, applied, results, late_results,
}

take_contexts-table :
    (c : SmfClient) (o : Option (List PduSessionInfo))
    → ((take_contexts c o).0.ue_table ≡ or_old c.ue_table (table_of_contexts o))
      × ((take_contexts c o).0.cancelled ≡ c.cancelled)
take_contexts-table c none = (refl, refl)
take_contexts-table c (some cs) = (refl, refl)

fetch_ue_data-table :
    (c : SmfClient) (r : SmfReply)
    → ((fetch_ue_data c r).0.ue_table ≡ or_old c.ue_table (told_by r))
      × ((fetch_ue_data c r).0.cancelled ≡ c.cancelled)
unfolding fetch_ue_data told_by
fetch_ue_data-table c not_created = (refl, refl)
fetch_ue_data-table c not_sent = (refl, refl)
fetch_ue_data-table c not_read = (refl, refl)
fetch_ue_data-table c (replied code contexts) = elim (Bool-cases (code == 404)) [
  | inl gone ↦ rw (gone, fetch_ue_data) (refl, refl)
  | inr here ↦ elim (Bool-cases (code == 200)) [
    | inl ok ↦ rw (here, ok, fetch_ue_data) (take_contexts-table c contexts)
    | inr bad ↦ rw (here, bad, fetch_ue_data) (refl, refl)
  ]
]

-- The result that waits for its update agrees with the state, where one that was not sent may also
-- stand for none.
Waits : Option SmfReply → Fetch → Type 0
Waits none (received r) = r ≡ not_sent
Waits (some r) (received q) = q ≡ r
Waits none _ = Unit
Waits (some r) _ = ⊥

record IsTold (table : Dict Bytes) (o : Option SmfReply) (q : SmfRun) : Type 0 where
  pub table_is : q.client.ue_table ≡ table
  pub waits : Waits o q.fetch

abbrev told_if : Option SmfReply → Option (Dict Bytes)
told_if none = none
told_if (some r) = told_by r

abbrev told_more : Dict Bytes → Option SmfReply → Event → Dict Bytes
told_more table o updates = or_old table (told_if o)
told_more table o _ = table

abbrev next_result : Option SmfReply → Event → Option SmfReply
next_result o (receives r) = some r
next_result o updates = none
next_result o _ = o

tick-IsTold :
    (table : Dict Bytes) (o : Option SmfReply) (q : SmfRun) (f : Fetch) (u : SmfRun)
    → q.client.ue_table ≡ table
    → Waits o f
    → tick q f ≡ some u
    → IsTold table o u
unfolding begin_request Waits
tick-IsTold table none q idle u t w h = ground arith
tick-IsTold table (some r) q idle u t w h = absurd w
tick-IsTold table o q sending u t w h = cc
tick-IsTold table o q (received r) u t w h = cc

receive-IsTold :
    (table : Dict Bytes) (q : SmfRun) (f : Fetch) (r : SmfReply) (u : SmfRun)
    → q.client.ue_table ≡ table
    → receive q f r ≡ some u
    → IsTold table (some r) u
unfolding Waits
receive-IsTold table q idle r u t h = cc
receive-IsTold table q sending r u t h = ground arith
receive-IsTold table q (received p) r u t h = cc

update_table-IsTold :
    (table : Dict Bytes) (o : Option SmfReply) (q : SmfRun) (f : Fetch) (u : SmfRun)
    → q.client.ue_table ≡ table
    → Waits o f
    → update_table q f ≡ some u
    → IsTold (told_more table o updates) none u
unfolding update_table Waits told_by
update_table-IsTold table o q idle u t w h = cc
update_table-IsTold table o q sending u t w h = cc
update_table-IsTold table none q (received r) u t w h =
    let (same, on) = fetch_ue_data-table q.client r in ground arith
update_table-IsTold table (some p) q (received r) u t w h =
    let (same, on) = fetch_ue_data-table q.client r in ground arith

end_loop-IsTold :
    (table : Dict Bytes) (o : Option SmfReply) (q : SmfRun) (f : Fetch) (u : SmfRun)
    → q.client.ue_table ≡ table
    → q.fetch ≡ f
    → Waits o f
    → end_loop q f ≡ some u
    → IsTold table o u
unfolding Waits
end_loop-IsTold table none q idle u t s w h = ground arith
end_loop-IsTold table (some r) q idle u t s w h = absurd w
end_loop-IsTold table o q sending u t s w h = cc
end_loop-IsTold table o q (received r) u t s w h = cc

fire-IsTold :
    (table : Dict Bytes) (o : Option SmfReply) (q : SmfRun) (e : Event) (u : SmfRun)
    → IsTold table o q
    → fire q e ≡ some u
    → IsTold (told_more table o e) (next_result o e) u
unfolding fire stop_smf_client
fire-IsTold table o q ticks u v h = tick-IsTold table o q q.fetch u v.table_is v.waits h
fire-IsTold table o q (receives r) u v h = receive-IsTold table q q.fetch r u v.table_is h
fire-IsTold table o q updates u v h = update_table-IsTold table o q q.fetch u v.table_is v.waits h
fire-IsTold table o q loop_ends u v h =
    end_loop-IsTold table o q q.fetch u v.table_is refl v.waits h
fire-IsTold table o q stop_called u v h = ground arith

applied-cons :
    (table : Dict Bytes) (o : Option SmfReply) (e : Event) (es : List Event)
    → last_told (told_more table o e) (applied (next_result o e) es)
      ≡ last_told table (applied o (e ∷ es))
unfolding last_told applied
applied-cons table none ticks es = refl
applied-cons table (some r) ticks es = refl
applied-cons table none (receives q) es = refl
applied-cons table (some r) (receives q) es = refl
applied-cons table none updates es = refl
applied-cons table (some r) updates es = refl
applied-cons table none loop_ends es = refl
applied-cons table (some r) loop_ends es = refl
applied-cons table none stop_called es = refl
applied-cons table (some r) stop_called es = refl

run-IsTold :
    (table : Dict Bytes) (o : Option SmfReply) (q : SmfRun) (es : List Event) (u : SmfRun)
    → IsTold table o q
    → run q es ≡ some u
    → u.client.ue_table ≡ last_told table (applied o es)
unfolding last_told applied
run-IsTold table o q [] u v h = unfold run_events in told q u v h
  where
    told : (q u : SmfRun) → IsTold table o q → some q ≡ some u → u.client.ue_table ≡ table
    told q u v h = let same = v.table_is in cc
run-IsTold table o q (e ∷ es) u v h =
    let (q', step, rest) = run_events-cons fire q e es u h in
    run-IsTold (told_more table o e) (next_result o e) q' es u (fire-IsTold table o q e q' v step)
      rest
    ∙ applied-cons table o e es

-- The number of requests that are under way.
under_way : Fetch → ℕ
under_way sending = 1
under_way _ = 0

abbrev is_result : Event → ℕ
is_result (receives r) = 1
is_result _ = 0

fire-under_way :
    (q : SmfRun) (f : Fetch) (e : Event) (u : SmfRun)
    → q.fetch ≡ f
    → q.client.cancelled ≡ true
    → fire q e ≡ some u
    → (is_result e + under_way u.fetch ≤ under_way f) × (u.client.cancelled ≡ true)
unfolding fire begin_request update_table stop_smf_client under_way fetch_ue_data
fire-under_way q idle ticks u s c h = ground arith
fire-under_way q sending ticks u s c h = ground arith
fire-under_way q (received r) ticks u s c h = ground arith
fire-under_way q idle (receives p) u s c h = ground arith
fire-under_way q sending (receives p) u s c h = ground arith
fire-under_way q (received r) (receives p) u s c h = ground arith
fire-under_way q idle updates u s c h = ground arith
fire-under_way q sending updates u s c h = ground arith
fire-under_way q (received r) updates u s c h =
    let (same, on) = fetch_ue_data-table q.client r in ground arith
fire-under_way q idle loop_ends u s c h = ground arith
fire-under_way q sending loop_ends u s c h = ground arith
fire-under_way q (received r) loop_ends u s c h = ground arith
fire-under_way q f stop_called u s c h = ground arith

results-cons : (e : Event) (es : List Event) → results (e ∷ es) ≡ is_result e + results es
unfolding results
results-cons ticks es = omega arith
results-cons (receives r) es = omega arith
results-cons updates es = omega arith
results-cons loop_ends es = omega arith
results-cons stop_called es = omega arith

run-results :
    (q : SmfRun) (es : List Event) (u : SmfRun)
    → q.client.cancelled ≡ true
    → run q es ≡ some u
    → results es ≤ under_way q.fetch
run-results q [] u c h = unfold results in omega arith
run-results q (e ∷ es) u c h =
    let (q', step, rest) = run_events-cons fire q e es u h in
    let (less, on) = fire-under_way q q.fetch e q' refl c step in
    omega (arith, results-cons e es, less, run-results q' es u on rest)

under_way-at_most_one : (f : Fetch) → under_way f ≤ 1
unfolding under_way
under_way-at_most_one idle = omega arith
under_way-at_most_one sending = omega arith
under_way-at_most_one (received r) = omega arith

run-late_results :
    (q : SmfRun) (es : List Event) (u : SmfRun) → run q es ≡ some u → late_results es ≤ 1
unfolding late_results
run-late_results q [] u h = omega arith
run-late_results q (stop_called ∷ es) u h =
    let (q', step, rest) = run_events-cons fire q stop_called es u h in
    let cancelled : q'.client.cancelled ≡ true = stopped q q' step in
    omega (arith, run-results q' es u cancelled rest, under_way-at_most_one q'.fetch)
  where
    stopped : (q u : SmfRun) → fire q stop_called ≡ some u → u.client.cancelled ≡ true
    stopped q u h = unfold fire stop_smf_client in ground arith
run-late_results q (ticks ∷ es) u h =
    let (q', step, rest) = run_events-cons fire q ticks es u h in run-late_results q' es u rest
run-late_results q (receives r ∷ es) u h =
    let (q', step, rest) = run_events-cons fire q (receives r) es u h in
    run-late_results q' es u rest
run-late_results q (updates ∷ es) u h =
    let (q', step, rest) = run_events-cons fire q updates es u h in run-late_results q' es u rest
run-late_results q (loop_ends ∷ es) u h =
    let (q', step, rest) = run_events-cons fire q loop_ends es u h in run-late_results q' es u rest

-- After the start and any events the table is the one that the last of the results told that told
-- any and that it was updated for: the contexts of a reply with status 200, or none for status 404.
-- Failures, however many, leave it as it was. After the first `Stop` at most one more result comes
-- in, that of a request under way, and the table may still be updated for it.
pub run-last_told :
    (first : SmfReply) (es : List Event) (u : SmfRun)
    → run (start first) es ≡ some u
    → (u.client.ue_table ≡ last_told [] (first ∷ applied none es)) × (late_results es ≤ 1)
unfolding start start_smf_client new_smf_client last_told Waits
run-last_told first es u h =
    let (table, on) = fetch_ue_data-table new_smf_client first in
    (
      run-IsTold (or_old [] (told_by first)) none (start first) es u
          (record { table_is = table; waits = tt }) h,
      run-late_results (start first) es u h,
    )
