-- ===== src/Delivery.antt =====
-- The way of a message from the export queue to the files: the workers of
-- internal/analyzer/queue/base_queue.go hand each message through the adapter of export_queue.go to
-- the dispatcher, and it to the CSV exporters. A worker only logs the handler's error.
use mathlib.Core.List.{Perm}
use an_lf.Base.{
  ◌≡◌, refl, sym, ap, ◌∙◌, true, false, some, List, [], ◌∷◌, ◌++◌, Bytes, map, append-nil,
  append_assoc,
}
use an_lf.Base.Permutations.{gather}
use an_lf.Float.{Float64}
use an_lf.Message.{
  MessageType, traffic_record, batch_traffic_records, inference_result, enhanced_inference_result,
  other_type, Payload, record_data, batch_data, result_data, enhanced_data, QueueItem, export_item,
  batch_item, other_item, export_adapter, as_traffic_record, as_batch_traffic_records,
  as_inference_result, as_enhanced_inference_result,
}
use an_lf.Sort.{exchange_sort}
use an_lf.Exporter.{
  CsvWriter, csv_exporter, inference_exporter, record_before, csv_export, inference_export,
  export_batch, export_record,
}
use an_lf.Exporter.Laws.{IsLossless, put_row_lem, export_records_lem}
use an_lf.Rows.{record_row, enhanced_row, legacy_row}
use an_lf.Dispatcher.{
  ExportDispatcher, handle, to_traffic, to_inference, handle_traffic_record,
  handle_batch_traffic_records, handle_inference_result, handle_enhanced_inference_result,
}
use an_lf.Queue.{BaseQueue, QueueConfig, Event, new_base_queue, start, run}
use an_lf.Queue.Shutdown.{stop_drains}

module _ {F : Type 0} where
  -- The messages that the workers take, one after the other.
  unfoldable pub deliver :
      {S T : Type 0} → List (QueueItem F) → ExportDispatcher F S T → ExportDispatcher F S T
  unfolding export_adapter
  deliver [] d = d
  deliver (item ∷ items) d = deliver items (export_adapter (λ m d'. handle d' m) item d).0

-- The rows that a message is worth: of the traffic, and of the results of the inference. A message
-- whose payload is not what its type says is worth none.
module _ {F : Type 0} (fl : Float64 F) where
  abbrev pub rows_of : MessageType → Payload F → List (List Bytes)
  rows_of traffic_record (record_data r) = record_row fl r ∷ []
  rows_of batch_traffic_records (batch_data b) =
      map (record_row fl) (exchange_sort record_before b.records)
  rows_of _ _ = []

  abbrev pub results_of : MessageType → Payload F → List (List Bytes)
  results_of inference_result (result_data r) = legacy_row fl r ∷ []
  results_of enhanced_inference_result (enhanced_data e) = enhanced_row fl e ∷ []
  results_of _ _ = []

  abbrev pub item_rows : QueueItem F → List (List Bytes)
  item_rows (export_item m) = rows_of m.kind m.payload
  item_rows (batch_item b) = []
  item_rows other_item = []

  abbrev pub item_results : QueueItem F → List (List Bytes)
  item_results (export_item m) = results_of m.kind m.payload
  item_results (batch_item b) = []
  item_results other_item = []

  abbrev pub traffic_rows : List (QueueItem F) → List (List Bytes)
  traffic_rows items = gather item_rows items

  abbrev pub result_rows : List (QueueItem F) → List (List Bytes)
  result_rows items = gather item_results items

module _ {F W V : Type 0} (fl : Float64 F) {cw : CsvWriter W} {cv : CsvWriter V}
    {rows : W → List (List Bytes)} {results : V → List (List Bytes)} (lw : IsLossless cw rows)
    (lv : IsLossless cv results) where
  -- The dispatcher with both CSV exporters.
  abbrev pub disk : W → V → ExportDispatcher F W V
  disk w v = record {
    traffic_exporter = csv_exporter fl cw;
    inference_exporter = some (inference_exporter fl cv);
    traffic = w;
    inference = v;
  }

  abbrev Wrote : W → V → List (List Bytes) → List (List Bytes) → ExportDispatcher F W V → Type 0
  Wrote w v new found after =
      (w' : W) × (v' : V) × (after ≡ disk w' v')
      × (rows w' ≡ rows w ++ new)
      × (results v' ≡ results v ++ found)

  Wrote-nothing : (w : W) (v : V) → Wrote w v [] [] (disk w v)
  Wrote-nothing w v = (w, v, refl, sym (append-nil (rows w)), sym (append-nil (results v)))

  handle-Wrote :
      (k : MessageType) (p : Payload F) (w : W) (v : V)
      → Wrote w v
          (rows_of fl k p)
          (results_of fl k p)
          (handle (disk w v) (record { kind = k; payload = p })).0
  unfolding handle to_traffic to_inference handle_traffic_record handle_batch_traffic_records
      handle_inference_result handle_enhanced_inference_result as_traffic_record
      as_batch_traffic_records as_inference_result as_enhanced_inference_result csv_exporter
      inference_exporter csv_export inference_export export_batch export_record
  handle-Wrote traffic_record (record_data r) w v =
      (_, v, refl, (put_row_lem lw (record_row fl r) w).1, sym (append-nil (results v)))
  handle-Wrote traffic_record _ w v = Wrote-nothing w v
  handle-Wrote batch_traffic_records (batch_data b) w v = (
    _,
    v,
    refl,
    (export_records_lem lw fl (exchange_sort record_before b.records) w).1,
    sym (append-nil (results v)),
  )
  handle-Wrote batch_traffic_records _ w v = Wrote-nothing w v
  handle-Wrote inference_result (result_data r) w v =
      (w, _, refl, sym (append-nil (rows w)), (put_row_lem lv (legacy_row fl r) v).1)
  handle-Wrote inference_result _ w v = Wrote-nothing w v
  handle-Wrote enhanced_inference_result (enhanced_data e) w v =
      (w, _, refl, sym (append-nil (rows w)), (put_row_lem lv (enhanced_row fl e) v).1)
  handle-Wrote enhanced_inference_result _ w v = Wrote-nothing w v
  handle-Wrote (other_type n) p w v = Wrote-nothing w v

  item-Wrote :
      (item : QueueItem F) (w : W) (v : V)
      → Wrote w v
          (item_rows fl item)
          (item_results fl item)
          (export_adapter (λ m d. handle d m) item (disk w v)).0
  unfolding export_adapter
  item-Wrote (export_item m) w v = handle-Wrote m.kind m.payload w v
  item-Wrote (batch_item b) w v = Wrote-nothing w v
  item-Wrote other_item w v = Wrote-nothing w v

  deliver-Wrote :
      (items : List (QueueItem F)) (w : W) (v : V)
      → Wrote w v (traffic_rows fl items) (result_rows fl items) (deliver items (disk w v))
  unfolding deliver gather
  deliver-Wrote [] w v = Wrote-nothing w v
  deliver-Wrote (item ∷ items) w v =
      let (w1, v1, same, new, found) = item-Wrote item w v in
      let (w2, v2, same2, new2, found2) = deliver-Wrote items w1 v1 in
      (
        w2,
        v2,
        ap (deliver items) same ∙ same2,
        new2
            ∙ ap (λ t. t ++ traffic_rows fl items) new
            ∙ append_assoc (rows w) (item_rows fl item) (traffic_rows fl items),
        found2
            ∙ ap (λ t. t ++ result_rows fl items) found
            ∙ append_assoc (results v) (item_results fl item) (result_rows fl items),
      )

  -- From a new export queue to the files: let the queue run with any events until its `Stop` has
  -- returned nil, let the context not have ended before, let no message be taken after the stop,
  -- and let the writers of both files not fail. Then every message that was enqueued has been
  -- handled once, and behind their old rows the files have those of all handled messages, in the
  -- order in which they were handled, and no others: the records of the traffic, a batch in the
  -- order of its sort, in the one file, and the results in the other.
  pub enqueued_on_disk :
      (cfg : QueueConfig) (es : List (Event (QueueItem F))) (q : BaseQueue (QueueItem F)) (w : W)
      (v : V)
      → run (start (new_base_queue cfg)) es ≡ some q
      → q.done ≡ true
      → q.cancelled ≡ false
      → q.late ≡ 0
      → let after = deliver q.handled (disk w v) in
        Perm q.accepted q.handled
        × (rows after.traffic ≡ rows w ++ traffic_rows fl q.handled)
        × (results after.inference ≡ results v ++ result_rows fl q.handled)
  enqueued_on_disk cfg es q w v r d c l =
      let (w', v', same, new, found) = deliver-Wrote q.handled w v in
      (
        stop_drains cfg es q r d c l,
        ap (λ t. rows t.traffic) same ∙ new,
        ap (λ t. results t.inference) same ∙ found,
      )
