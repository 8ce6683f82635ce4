-- ===== src/Pipeline.antt =====
-- The pipeline that pkg/service/init.go connects: the analyzer and the detector put their messages
-- into one export queue, whose workers hand them to the CSV exporters.
use mathlib.Core.List.{Perm, map-map}
use mathlib.Core.List.Perm
use an_lf.Base.{
  ◌≡◌, refl, sym, ap, subst, ◌∙◌, true, false, some, List, [], ◌∷◌, Bytes, map, ◌++◌, append-nil,
  Option, none, Option-cases, Bool-cases, inl, inr,
}
use an_lf.Base.Permutations.{to_front, gather, gather-append, gather-perm, gather-map_nil}
use an_lf.Base.Int.{ℤ}
use an_lf.Float.{Float64}
use an_lf.Models.{BatchUeTrafficRecords, InferenceResult}
use an_lf.Message.{
  QueueItem, export_item, new_batch_traffic_records_message, new_inference_result_message,
  new_enhanced_inference_result_message,
}
use an_lf.Sort.{exchange_sort}
use an_lf.Rows.{record_row}
use an_lf.Exporter.{CsvWriter, record_before}
use an_lf.Exporter.Laws.{IsLossless}
use an_lf.Queue.{BaseQueue, QueueConfig, Event, new_base_queue, start, run}
use an_lf.Analyzer.{FlowAnalyzer, Sent, exported, enqueued, process_batch, process_batches}
use an_lf.Analyzer.Batches.{exported_batches, filled, one_batch_exported}
use an_lf.Scorer.{RiskScorer, process_inference_results}
use an_lf.Detector.{
  AnomalyDetector, handle_batch, handle_active, score_results, no_records, UeRun, batch_results,
}
use an_lf.Detector.Scoring.{BatchRun}
use an_lf.Delivery.{
  deliver, disk, traffic_rows, result_rows, item_rows, item_results, enqueued_on_disk,
}

-- The list takes the elements of the two others in turn, in some way, and keeps the order of each.
pub data Interleaves {A : Type 0} : List A → List A → List A → Type 0 where
  ends : Interleaves [] [] []
  takes_left : {x : A} {xs ys zs : List A} → Interleaves xs ys zs → Interleaves (x ∷ xs) ys (x ∷ zs)
  takes_right :
      {y : A} {xs ys zs : List A} → Interleaves xs ys zs → Interleaves xs (y ∷ ys) (y ∷ zs)

module _ {A : Type 0} where
  Interleaves-Perm : {xs ys zs : List A} → Interleaves xs ys zs → Perm zs (xs ++ ys)
  Interleaves-Perm ends = Perm.rfl
  Interleaves-Perm (takes_left {x = x} h) = Perm.cons x (Interleaves-Perm h)
  Interleaves-Perm (takes_right {y = y} {xs = xs} {ys = ys} h) =
      Perm.trans (Perm.cons y (Interleaves-Perm h)) (Perm.symm (to_front xs ys y))

module _ {F : Type 0} where
  -- What the analyzer puts into the export queue.
  unfoldable pub analyzer_items : List (Sent F) → List (QueueItem F)
  analyzer_items [] = []
  analyzer_items (exported m ∷ rest) = export_item m ∷ analyzer_items rest
  analyzer_items (enqueued b ∷ rest) = analyzer_items rest

module _ {F : Type 0} (fl : Float64 F) where
  -- What the detector puts into it, batch after batch.
  unfoldable pub detector_items : AnomalyDetector F → List (BatchRun F) → List (QueueItem F)
  detector_items d [] = []
  detector_items d (b ∷ bs) =
      let (d', messages) = handle_batch fl d b.batch b.runs b.now in
      map export_item messages ++ detector_items d' bs

  -- The rows of the records of a batch.
  abbrev pub batch_rows : BatchUeTrafficRecords F → List (List Bytes)
  batch_rows b = map (record_row fl) (exchange_sort record_before b.records)

  one_batch_item :
      (a : FlowAnalyzer) (b : BatchUeTrafficRecords F) (rest : List (Sent F))
      → analyzer_items ((process_batch fl a b).1 ++ rest)
        ≡ export_item (new_batch_traffic_records_message (filled fl a b)) ∷ analyzer_items rest
  unfolding process_batch analyzer_items
  one_batch_item a b rest = elim (Bool-cases a.detector_enabled) [
    | inl on ↦ rw on refl
    | inr off ↦ rw off refl
  ]

  analyzer_items-rows :
      (a : FlowAnalyzer) (bs : List (BatchUeTrafficRecords F))
      → (traffic_rows fl (analyzer_items (process_batches fl a bs).1)
          ≡ gather batch_rows (exported_batches (process_batches fl a bs).1))
        × (result_rows fl (analyzer_items (process_batches fl a bs).1) ≡ [])
  unfolding process_batches new_batch_traffic_records_message gather
  analyzer_items-rows a [] = unfold analyzer_items exported_batches in (refl, refl)
  analyzer_items-rows a (b ∷ bs) =
      let rest = (process_batches fl (process_batch fl a b).0 bs).1 in
      let (rows, none_found) = analyzer_items-rows (process_batch fl a b).0 bs in
      (
        ap (traffic_rows fl) (one_batch_item a b rest)
            ∙ ap (◌++◌ (batch_rows (filled fl a b))) rows
            ∙ sym (ap (gather batch_rows) (one_batch_exported fl a b rest)),
        ap (result_rows fl) (one_batch_item a b rest) ∙ none_found,
      )

  score_results-rows :
      (o : Option (RiskScorer F)) (results : List (InferenceResult F)) (now : ℤ)
      → traffic_rows fl (map export_item (score_results fl o results now).1) ≡ []
  unfolding score_results new_inference_result_message new_enhanced_inference_result_message
  score_results-rows none results now =
      ap (traffic_rows fl) (map-map export_item new_inference_result_message results)
      ∙ gather-map_nil (item_rows fl) (λ r. export_item (new_inference_result_message r))
          (λ r. refl) results
  score_results-rows (some rs) results now =
      let enhanced = (process_inference_results fl rs results now).1 in
      ap (traffic_rows fl) (map-map export_item new_enhanced_inference_result_message enhanced)
      ∙ gather-map_nil (item_rows fl) (λ e. export_item (new_enhanced_inference_result_message e))
          (λ e. refl) enhanced

  handle_batch-rows :
      (d : AnomalyDetector F) (o : Option (BatchUeTrafficRecords F)) (runs : List (UeRun F))
      (now : ℤ)
      → traffic_rows fl (map export_item (handle_batch fl d o runs now).1) ≡ []
  unfolding handle_batch handle_active gather
  handle_batch-rows d none runs now = refl
  handle_batch-rows d (some batch) runs now = elim (Option-cases d.active) [
    | inl off ↦ rw (off, handle_batch) refl
    | inr (a, on) ↦ elim (Bool-cases (no_records batch.records)) [
      | inl empty ↦ rw (on, empty, handle_batch) refl
      | inr full ↦
          rw (on, full, handle_batch)
            (score_results-rows a.risk_scorer (batch_results fl a batch runs) now)
    ]
  ]

  detector_items-rows :
      (d : AnomalyDetector F) (bs : List (BatchRun F)) → traffic_rows fl (detector_items d bs) ≡ []
  unfolding detector_items
  detector_items-rows d [] = unfold gather in refl
  detector_items-rows d (b ∷ bs) =
      let (d', messages) = handle_batch fl d b.batch b.runs b.now in
      gather-append (item_rows fl) (map export_item messages) (detector_items d' bs)
      ∙ rw (handle_batch-rows d b.batch b.runs b.now) (detector_items-rows d' bs)

  -- What a permutation of interleaved messages is worth, if the ones on the left or those on the
  -- right are worth nothing.
  interleaved_worth :
      (f : QueueItem F → List (List Bytes)) (xs ys zs order : List (QueueItem F))
      → Interleaves xs ys zs
      → Perm zs order
      → Perm (gather f order) (gather f xs ++ gather f ys)
  interleaved_worth f xs ys zs order h p =
      subst (Perm (gather f order)) (gather-append f xs ys)
        (gather-perm f (Perm.trans (Perm.symm p) (Interleaves-Perm h)))

module _ {F W V : Type 0} (fl : Float64 F) {cw : CsvWriter W} {cv : CsvWriter V}
    {rows : W → List (List Bytes)} {results : V → List (List Bytes)} (lw : IsLossless cw rows)
    (lv : IsLossless cv results) where
  -- The whole way to the files. The analyzer works on any batches and the detector on any others;
  -- let the export queue take all of their messages, in turn in some way, and let its workers run
  -- in any way until its `Stop` has returned nil, with the context not ended before, no message
  -- taken after the stop, and writers that do not fail. Then the file of the traffic has got
  -- exactly the rows of all records of the batches that the analyzer passed on, and the file of the
  -- results exactly those of the detector's messages, each row as often as it is due, in the order
  -- of the workers.
  pub batches_on_disk :
      (cfg : QueueConfig) (es : List (Event (QueueItem F))) (q : BaseQueue (QueueItem F)) (w : W)
      (v : V) (a : FlowAnalyzer) (bs : List (BatchUeTrafficRecords F)) (d : AnomalyDetector F)
      (runs : List (BatchRun F))
      → run (start (new_base_queue cfg)) es ≡ some q
      → q.done ≡ true
      → q.cancelled ≡ false
      → q.late ≡ 0
      → let sent = (process_batches fl a bs).1 in
        let found = detector_items fl d runs in
        Interleaves (analyzer_items sent) found q.accepted
        → let after = deliver q.handled (disk fl lw lv w v) in
          (new seen : List (List Bytes)) × (rows after.traffic ≡ rows w ++ new)
          × Perm new (gather (batch_rows fl) (exported_batches sent))
          × (results after.inference ≡ results v ++ seen)
          × Perm seen (result_rows fl found)
  batches_on_disk cfg es q w v a bs d runs r done c l h =
      let sent = (process_batches fl a bs).1 in
      let found = detector_items fl d runs in
      let (all, traffic, inference) = enqueued_on_disk fl lw lv cfg es q w v r done c l in
      let (batches, no_results) = analyzer_items-rows fl a bs in
      (
        traffic_rows fl q.handled,
        result_rows fl q.handled,
        traffic,
        subst (Perm (traffic_rows fl q.handled))
            (rw (batches, detector_items-rows fl d runs) (append-nil _))
            (interleaved_worth fl (item_rows fl) (analyzer_items sent) found q.accepted q.handled h
              all),
        inference,
        subst (Perm (result_rows fl q.handled)) (rw no_results refl) (
            interleaved_worth fl (item_results fl) (analyzer_items sent) found q.accepted q.handled
              h all),
      )
