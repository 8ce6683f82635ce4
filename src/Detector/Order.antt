-- ===== src/Detector/Order.antt =====
-- `HandleBatch` (internal/analyzer/detector/anomaly_detector.go) and the order in which its
-- goroutines end.
use mathlib.Core.List.{Perm}
use mathlib.Core.List.Perm
use an_lf.Base.{Option-cases, inl, inr, ◌≡◌, refl, sym, subst, some, List, map}
use an_lf.Base.Int.{ℤ}
use an_lf.Float.{Float64, IsIeee}
use an_lf.Models.{BatchUeTrafficRecords, InferenceResult}
use an_lf.Sort.Distinct.{Distinct, Distinct-Separates}
use an_lf.Sort.Unique.{exchange_sort-order}
use an_lf.Sort.Keys.{by_key-IsWeakOrder}
use an_lf.Client.Predict.{ReadsScores}
use an_lf.Detector.{
  ActiveDetector, AnomalyDetector, UeRun, sort_results_by_supi, analyse, batch_results,
  handle_active, handle_batch,
}
use an_lf.Detector.Batch.{supis-analyse}

module _ {F : Type 0} {fl : Float64 F} (w : IsIeee fl) (p : ReadsScores fl) where
  result_set : IsSet (InferenceResult F)
  result_set = hlevel (w.is_set)

  batch_results-order :
      (a : ActiveDetector F) (batch : BatchUeTrafficRecords F) (runs runs' : List (UeRun F))
      → Distinct (map (λ r. r.supi) (map (λ run. run.ue) runs))
      → Perm runs runs'
      → batch_results fl a batch runs ≡ batch_results fl a batch runs'
  unfolding batch_results sort_results_by_supi
  batch_results-order a batch runs runs' d q =
      exchange_sort-order result_set (by_key-IsWeakOrder (λ r. r.supi)) _ _
        (Distinct-Separates result_set (λ r. r.supi) _
          (subst Distinct (sym (supis-analyse w p a batch.global_stats runs)) d))
        (Perm.map (analyse fl a batch.global_stats) q)

  -- If no two records of a batch have the same SUPI, it does not matter in which order the
  -- goroutines end: the detector with its risk scorer ends up the same, and it sends the same
  -- messages in the same order.
  pub handle_batch-order :
      (d : AnomalyDetector F) (batch : BatchUeTrafficRecords F) (runs runs' : List (UeRun F))
      (now : ℤ)
      → Distinct (map (λ r. r.supi) (map (λ run. run.ue) runs))
      → Perm runs runs'
      → handle_batch fl d (some batch) runs now ≡ handle_batch fl d (some batch) runs' now
  unfolding handle_batch handle_active
  handle_batch-order d batch runs runs' now h q = elim (Option-cases d.active) [
    | inl off ↦ rw (off, handle_batch) refl
    | inr (a, on) ↦ rw (on, batch_results-order a batch runs runs' h q, handle_batch) refl
  ]
