-- ===== src/Detector/Scoring.antt =====
-- The risk scorer under `HandleBatch` (internal/analyzer/detector/anomaly_detector.go).
use an_lf.Base.{
  ◌≡◌, true, false, Option, none, some, List, [], ◌∷◌, arith, Bytes, Bool-cases, Option-cases, inl,
  inr, lookup,
}
use an_lf.Base.Int.{ℤ}
use an_lf.Float.{Float64, IsIeee}
use an_lf.Models.{BatchUeTrafficRecords, GlobalNetworkStats, InferenceResult}
use an_lf.Scorer.{RiskScorerConfig, RiskScorer, new_risk_scorer, is_attack, get_ue_state}
use an_lf.Scorer.Config.{IsReasonable, IsValidScorer, new_risk_scorer-IsValid}
use an_lf.Scorer.Batch.{
  AllSound, process_inference_results-AllSound, process_inference_results-IsValidScorer,
}
use an_lf.Client.{PredictError, failed, predict_single_ue}
use an_lf.Detector.{
  AnomalyDetectorConfig, ActiveDetector, AnomalyDetector, UeRun, new_anomaly_detector, scorer_of,
  is_empty_record, analyse, batch_results, score_results, handle_active, handle_batch, no_records,
}
use an_lf.Detector.Batch.{stats_for}

-- A batch with the runs of its goroutines, and the time of its scoring.
pub record BatchRun (F : Type 0) : Type 0 where
  pub batch : Option (BatchUeTrafficRecords F)
  pub runs : List (UeRun F)
  pub now : ℤ

-- The detector after a sequence of batches.
unfoldable pub handle_batches :
    {F : Type 0} → Float64 F → AnomalyDetector F → List (BatchRun F) → AnomalyDetector F
handle_batches fl d [] = d
handle_batches fl d (b ∷ bs) = handle_batches fl (handle_batch fl d b.batch b.runs b.now).0 bs

module _ {F : Type 0} (fl : Float64 F) where
  -- The steps and thresholds of the scorer are in order, and every stored state is sound.
  pub SoundScorer : Option (RiskScorer F) → Type 0
  SoundScorer none = Unit
  SoundScorer (some rs) = IsValidScorer fl rs × AllSound fl rs

  abbrev pub SoundActive : Option (ActiveDetector F) → Type 0
  SoundActive none = Unit
  SoundActive (some a) = SoundScorer a.risk_scorer

  -- What the configuration of the scorer asks for, if there is one.
  abbrev pub IsReasonableScorer : Option (RiskScorerConfig F) → Type 0
  IsReasonableScorer none = Unit
  IsReasonableScorer (some cfg) = IsReasonable fl cfg

module _ {F : Type 0} {fl : Float64 F} (w : IsIeee fl) where
  scorer_of-Sound :
      (o : Option (RiskScorerConfig F)) → IsReasonableScorer fl o → SoundScorer fl (scorer_of fl o)
  unfolding SoundScorer
  scorer_of-Sound none r = tt
  scorer_of-Sound (some cfg) r = (new_risk_scorer-IsValid w cfg r, nothing_stored cfg)
    where
      nothing_stored : (cfg : RiskScorerConfig F) → AllSound fl (new_risk_scorer fl cfg)
      nothing_stored cfg =
          unfold AllSound new_risk_scorer get_ue_state lookup in λ k s e. ground arith

  score_results-Sound :
      (o : Option (RiskScorer F)) (results : List (InferenceResult F)) (now : ℤ)
      → SoundScorer fl o
      → SoundScorer fl (score_results fl o results now).0
  unfolding SoundScorer score_results
  score_results-Sound none results now h = tt
  score_results-Sound (some rs) results now (v, s) = (
    process_inference_results-IsValidScorer fl rs results now v,
    process_inference_results-AllSound fl w rs results now v s,
  )

  new_anomaly_detector-Sound :
      (read_file : Bytes → Option Bytes) (cfg : AnomalyDetectorConfig F)
      → IsReasonableScorer fl cfg.risk_scorer_config
      → SoundActive fl (new_anomaly_detector fl read_file cfg).active
  unfolding new_anomaly_detector
  new_anomaly_detector-Sound read_file cfg r = elim (Bool-cases cfg.enabled) [
    | inl on ↦ rw on (scorer_of-Sound cfg.risk_scorer_config r)
    | inr off ↦ rw off tt
  ]

  handle_active-Sound :
      (a : ActiveDetector F) (batch : BatchUeTrafficRecords F) (runs : List (UeRun F)) (now : ℤ)
      → SoundScorer fl a.risk_scorer
      → SoundScorer fl (handle_active fl a batch runs now).0.risk_scorer
  unfolding handle_active
  handle_active-Sound a batch runs now s =
      score_results-Sound a.risk_scorer (batch_results fl a batch runs) now s

  handle_batch-Sound :
      (d : AnomalyDetector F) (o : Option (BatchUeTrafficRecords F)) (runs : List (UeRun F))
      (now : ℤ)
      → SoundActive fl d.active
      → SoundActive fl (handle_batch fl d o runs now).0.active
  unfolding handle_batch
  handle_batch-Sound d none runs now s = s
  handle_batch-Sound d (some batch) runs now s = elim (Option-cases d.active) [
    | inl off ↦ rw (off, handle_batch) s
    | inr (a, on) ↦ elim (Bool-cases (no_records batch.records)) [
      | inl empty ↦ rw (on, empty, handle_batch) s
      | inr full ↦ rw (on, full, handle_batch) (handle_active-Sound a batch runs now (rw on at s))
    ]
  ]

  handle_batches-Sound :
      (d : AnomalyDetector F) (bs : List (BatchRun F))
      → SoundActive fl d.active
      → SoundActive fl (handle_batches fl d bs).active
  unfolding handle_batches
  handle_batches-Sound d [] s = s
  handle_batches-Sound d (b ∷ bs) s =
      handle_batches-Sound (handle_batch fl d b.batch b.runs b.now).0 bs
        (handle_batch-Sound d b.batch b.runs b.now s)

  -- After any sequence of batches, whatever the server answered, a detector that was created with a
  -- reasonable configuration has its thresholds and steps in order, keeps every risk score between
  -- 0 and the maximum, and every status in agreement with its score.
  pub new_anomaly_detector-handle_batches :
      (read_file : Bytes → Option Bytes) (cfg : AnomalyDetectorConfig F) (bs : List (BatchRun F))
      → IsReasonableScorer fl cfg.risk_scorer_config
      → SoundActive fl (handle_batches fl (new_anomaly_detector fl read_file cfg) bs).active
  new_anomaly_detector-handle_batches read_file cfg bs r =
      handle_batches-Sound (new_anomaly_detector fl read_file cfg) bs
        (new_anomaly_detector-Sound read_file cfg r)

  -- If the cutoff is above 0.1, a request that fails is not an attack: the detector fails open.
  pub fail_open_calm :
      (rs : RiskScorer F) (a : ActiveDetector F) (stats : Option (GlobalNetworkStats F))
      (run : UeRun F) (e : PredictError)
      → fl.lt (fl.lit 1 1) rs.config.llm_confidence_cutoff ≡ true
      → predict_single_ue fl a.client run.server run.ue (stats_for a stats) run.now ≡ failed e
      → is_attack fl rs (analyse fl a stats run) ≡ false
  unfolding is_attack analyse
  fail_open_calm rs a stats run e above h = elim (Bool-cases (is_empty_record fl run.ue)) [
    | inl empty ↦ rw empty (
        low (fl.lit 0 0) (
          w.lt_le _ _ (
            w.lit_lt 0 0 1 1 (omega arith) (omega arith) (omega arith) (omega arith)
              (omega arith))))
    | inr full ↦
        rw (full, h) (low (fl.lit 1 1) (w.le_refl _ (w.lit_finite 1 1 (omega arith) (omega arith))))
  ]
    where
      low : (x : F) → fl.le x (fl.lit 1 1) ≡ true → fl.le rs.config.llm_confidence_cutoff x ≡ false
      low x below = ground (
        arith,
        w.lt_not_le (fl.lit 1 1) rs.config.llm_confidence_cutoff above,
        w.le_trans rs.config.llm_confidence_cutoff x (fl.lit 1 1),
      )
