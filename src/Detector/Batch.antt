-- ===== src/Detector/Batch.antt =====
-- What `HandleBatch` (internal/analyzer/detector/anomaly_detector.go) makes of a batch.
use mathlib.Core.List.{Perm, Pairwise}
use mathlib.Core.List.Perm
use an_lf.Sort.Members.{All-perm}
use an_lf.Base.{
  All-map, All-every, ◌≡◌, refl, sym, inl, inr, Option, none, List, [], ◌∷◌, map, arith, Bytes, All,
  Bool-cases, subst, if◌then◌else◌,
}
use an_lf.Float.{Float64, IsIeee}
use an_lf.Models.{UeTrafficRecord, GlobalNetworkStats, BatchUeTrafficRecords, InferenceResult}
use an_lf.Sort.Laws.{Upto, exchange_sort-perm, exchange_sort-sorted}
use an_lf.Sort.Keys.{by_key-IsWeakOrder}
use an_lf.Client.{predict_single_ue}
use an_lf.Client.Predict.{InUnit, ReadsScores, predict_single_ue_cases, default_score-InUnit}
use an_lf.Detector.{
  ActiveDetector, UeRun, is_empty_record, result_before, sort_results_by_supi, or_fail_open,
  analyse, batch_results,
}

abbrev pub stats_for :
    {F : Type 0} → ActiveDetector F → Option (GlobalNetworkStats F) → Option (GlobalNetworkStats F)
stats_for a stats = if a.include_global_context then stats else none

module _ {F : Type 0} {fl : Float64 F} (w : IsIeee fl) (p : ReadsScores fl) where
  zero_score-InUnit : InUnit fl (fl.lit 0 0)
  zero_score-InUnit = (
    w.le_refl _ (w.lit_finite 0 0 (omega arith) (omega arith)),
    w.lt_le _ _
        (w.lit_lt 0 0 10 1 (omega arith) (omega arith) (omega arith) (omega arith) (omega arith)),
  )

  -- A result for the UE, with a score between 0 and 1.
  pub IsResultFor : Bytes → InferenceResult F → Type 0
  IsResultFor supi r = (r.supi ≡ supi) × InUnit fl r.anomaly_score

  request-IsResultFor :
      (a : ActiveDetector F) (stats : Option (GlobalNetworkStats F)) (run : UeRun F)
      → IsResultFor run.ue.supi (
          or_fail_open fl run.ue.supi
            (predict_single_ue fl a.client run.server run.ue (stats_for a stats) run.now))
  unfolding IsResultFor
  request-IsResultFor a stats run =
      elim (predict_single_ue_cases w p a.client run.server run.ue (stats_for a stats) run.now) [
        | inl (e, h, unanswered) ↦ rw h (refl, default_score-InUnit w p)
        | inr (raw, x, answers, read, good, h) ↦ rw h (refl, good)
      ]

  analyse-IsResultFor :
      (a : ActiveDetector F) (stats : Option (GlobalNetworkStats F)) (run : UeRun F)
      → IsResultFor run.ue.supi (analyse fl a stats run)
  unfolding analyse
  analyse-IsResultFor a stats run = elim (Bool-cases (is_empty_record fl run.ue)) [
    | inl empty ↦ rw empty (unfold IsResultFor in (refl, zero_score-InUnit))
    | inr full ↦ rw full (request-IsResultFor a stats run)
  ]

  InUnit-prop : (r : InferenceResult F) → IsProp (InUnit fl r.anomaly_score)
  InUnit-prop r = hlevel

  analyse-supi :
      (a : ActiveDetector F) (stats : Option (GlobalNetworkStats F)) (run : UeRun F)
      → (analyse fl a stats run).supi ≡ run.ue.supi
  unfolding IsResultFor
  analyse-supi a stats run = (analyse-IsResultFor a stats run).0

  analyse-InUnit :
      (a : ActiveDetector F) (stats : Option (GlobalNetworkStats F)) (run : UeRun F)
      → InUnit fl (analyse fl a stats run).anomaly_score
  unfolding IsResultFor
  analyse-InUnit a stats run = (analyse-IsResultFor a stats run).1

  pub supis-analyse :
      (a : ActiveDetector F) (stats : Option (GlobalNetworkStats F)) (runs : List (UeRun F))
      → map (λ r. r.supi) (map (analyse fl a stats) runs)
        ≡ map (λ r. r.supi) (map (λ run. run.ue) runs)
  supis-analyse a stats [] = refl
  supis-analyse a stats (run ∷ runs) =
      λ i. analyse-supi a stats run i ∷ supis-analyse a stats runs i

  -- Let the goroutines of a batch run, in any order, one for each of its records, and let the
  -- server do for each of them whatever it does, failures and malformed answers included. Then the
  -- batch has one result for each record, under the SUPI of that record, the results are sorted by
  -- the SUPI, and every score lies between 0 and 1.
  pub batch_results_complete :
      (a : ActiveDetector F) (batch : BatchUeTrafficRecords F) (runs : List (UeRun F))
      → Perm (map (λ run. run.ue) runs) batch.records
      → let results = batch_results fl a batch runs in
        Perm (map (λ r. r.supi) results) (map (λ r. r.supi) batch.records)
        × Pairwise (Upto result_before) results
        × All (λ r. InUnit fl r.anomaly_score) results
  unfolding batch_results sort_results_by_supi
  batch_results_complete a batch runs started =
      let found = map (analyse fl a batch.global_stats) runs in
      let sorts = exchange_sort-perm result_before found in
      (
        Perm.trans (Perm.map (λ (r : InferenceResult F). r.supi) sorts) (
            subst (λ l. Perm l (map (λ r. r.supi) batch.records))
              (sym (supis-analyse a batch.global_stats runs))
              (Perm.map (λ (r : UeTrafficRecord F). r.supi) started)),
        exchange_sort-sorted (by_key-IsWeakOrder (λ r. r.supi)) found,
        All-perm InUnit-prop found _ (Perm.symm sorts) (
            All-map _ (analyse fl a batch.global_stats) runs
              (All-every _ runs (analyse-InUnit a batch.global_stats))),
      )
