-- ===== src/Detector.antt =====
-- internal/analyzer/detector/anomaly_detector.go: a batch of records is put to the language model,
-- one request for each UE at the same time, and the sorted results go to the risk scorer and the
-- exporters. The goroutines append their results in an order that is not determined: a batch is
-- handled with the list of their runs in that order, each with what the server did for it and with
-- its time.
-- Batches that several workers of the queue handle at once reach the scorer one result after the
-- other: such a run is one of batches with one record each.
pub mod Batch
pub mod Order
pub mod Scoring
use an_lf.Base.{
  Bool, true, false, ◌&&◌, Option, none, some, List, [], ◌∷◌, map, Bytes, bytes_lt, if◌then◌else◌,
}
use an_lf.Base.Int.{ℤ, pos}
use an_lf.Float.{Float64}
use an_lf.Models.{
  UeFeatureVector, UeTrafficRecord, GlobalNetworkStats, BatchUeTrafficRecords, InferenceResult,
}
use an_lf.Sort.{exchange_sort}
use an_lf.Scorer.{RiskScorerConfig, RiskScorer, new_risk_scorer, process_inference_results}
use an_lf.Queue.{QueueConfig, BaseQueue, EnqueueError, new_base_queue, start, enqueue, fire, stops}
use an_lf.Message.{
  ExportMessage, QueueItem, batch_item, new_inference_result_message,
  new_enhanced_inference_result_message,
}
use an_lf.Client.{
  LlmClientConfig, LlmClient, LlmServer, Predicted, failed, predicted, new_llm_client,
  predict_single_ue,
}

pub record AnomalyDetectorConfig (F : Type 0) : Type 0 where
  pub client_config : LlmClientConfig F
  pub include_global_context : Bool
  pub risk_scorer_config : Option (RiskScorerConfig F)
  pub queue_config : QueueConfig
  pub enabled : Bool

-- The fields that are set in a detector that is enabled. `riskScoringEnabled` says whether there is
-- a scorer.
pub record ActiveDetector (F : Type 0) : Type 0 where
  pub client : LlmClient F
  pub risk_scorer : Option (RiskScorer F)
  pub include_global_context : Bool
  pub inference_queue : BaseQueue (QueueItem F)

-- `active` is there where `enabled` is true. The flags say whether the two channels are closed.
pub record AnomalyDetector (F : Type 0) : Type 0 where
  pub active : Option (ActiveDetector F)
  pub stopped : Bool
  pub done : Bool

-- The run of the goroutine for one UE.
pub record UeRun (F : Type 0) : Type 0 where
  pub ue : UeTrafficRecord F
  pub server : LlmServer F
  pub now : ℤ

pub is_enabled : {F : Type 0} → AnomalyDetector F → Bool
is_enabled d = elim d.active [ none ↦ false | some a ↦ true ]

abbrev pub scorer_of :
    {F : Type 0} → Float64 F → Option (RiskScorerConfig F) → Option (RiskScorer F)
scorer_of fl none = none
scorer_of fl (some cfg) = some (new_risk_scorer fl cfg)

pub new_anomaly_detector :
    {F : Type 0} → Float64 F → (Bytes → Option Bytes) → AnomalyDetectorConfig F → AnomalyDetector F
new_anomaly_detector fl read_file cfg =
    let active = some (record {
      client = new_llm_client fl read_file cfg.client_config;
      risk_scorer = scorer_of fl cfg.risk_scorer_config;
      include_global_context = cfg.include_global_context;
      inference_queue = new_base_queue cfg.queue_config;
    }) in
    record { active = if cfg.enabled then active else none; stopped = false; done = false }

abbrev pub no_records : {F : Type 0} → List (UeTrafficRecord F) → Bool
no_records [] = true
no_records (r ∷ rs) = false

-- The nine features that the test looks at.
unfoldable pub is_empty_record : {F : Type 0} → Float64 F → UeTrafficRecord F → Bool
is_empty_record {F} fl r =
    let zero : F → Bool = λ x. fl.eq x (fl.lit 0 0) in
    let v = r.features in
    zero v.ul_log_pps
    && zero v.avg_len
    && zero v.icmp_ratio
    && zero v.tcp_ratio
    && zero v.udp_ratio
    && zero v.syn_ratio
    && zero v.rst_ratio
    && zero v.new_flow_rate
    && zero v.fan_out

-- `results[i].Supi > results[j].Supi`: result j belongs before result i.
abbrev pub result_before : {F : Type 0} → InferenceResult F → InferenceResult F → Bool
result_before rj ri = bytes_lt rj.supi ri.supi

unfoldable pub sort_results_by_supi :
    {F : Type 0} → List (InferenceResult F) → List (InferenceResult F)
sort_results_by_supi results = exchange_sort result_before results

module _ {F : Type 0} (fl : Float64 F) where
  -- The result of a request; after a failure 0.1, without a time.
  abbrev pub or_fail_open : Bytes → Predicted F → InferenceResult F
  or_fail_open supi (failed e) = record {
    supi = supi;
    anomaly_score = fl.lit 1 1;
    timestamp = pos 0;
  }
  or_fail_open supi (predicted result) = result

  -- The goroutine for one UE.
  unfoldable pub analyse :
      ActiveDetector F → Option (GlobalNetworkStats F) → UeRun F → InferenceResult F
  analyse a stats run =
      let request =
        predict_single_ue fl a.client run.server run.ue
          (if a.include_global_context then stats else none) run.now in
      if is_empty_record fl run.ue
      then record { supi = run.ue.supi; anomaly_score = fl.lit 0 0; timestamp = run.now }
      else or_fail_open run.ue.supi request

  -- The results of all goroutines, sorted.
  unfoldable pub batch_results :
      ActiveDetector F → BatchUeTrafficRecords F → List (UeRun F) → List (InferenceResult F)
  batch_results a batch runs = sort_results_by_supi (map (analyse a batch.global_stats) runs)

  -- The scorer, if there is one, and the messages that go to the export queue.
  unfoldable pub score_results :
      Option (RiskScorer F)
      → List (InferenceResult F)
      → ℤ
      → Option (RiskScorer F) × List (ExportMessage F)
  score_results none results now = (none, map new_inference_result_message results)
  score_results (some rs) results now =
      let (rs', enhanced) = process_inference_results fl rs results now in
      (some rs', map new_enhanced_inference_result_message enhanced)

  unfoldable pub handle_active :
      ActiveDetector F
      → BatchUeTrafficRecords F
      → List (UeRun F)
      → ℤ
      → ActiveDetector F × List (ExportMessage F)
  handle_active a batch runs now =
      let (scorer, messages) = score_results a.risk_scorer (batch_results a batch runs) now in
      (record a { risk_scorer = scorer }, messages)

  -- `HandleBatch` on the batch, which may be nil: the detector afterwards, and the messages that it
  -- hands to the export queue, in their order. A full queue drops a message, which is only logged.
  unfoldable pub handle_batch :
      AnomalyDetector F
      → Option (BatchUeTrafficRecords F)
      → List (UeRun F)
      → ℤ
      → AnomalyDetector F × List (ExportMessage F)
  handle_batch d none runs now = (d, [])
  handle_batch d (some batch) runs now = elim d.active [
    | none ↦ (d, [])
    | some a ↦
        let (a', messages) = handle_active a batch runs now in
        if no_records batch.records then (d, []) else (record d { active = some a' }, messages)
  ]

-- `createDefaultResults`, which nothing calls.
unfoldable pub create_default_results :
    {F : Type 0} → Float64 F → List (UeTrafficRecord F) → ℤ → List (InferenceResult F)
create_default_results fl records now =
    map (λ r. record { supi = r.supi; anomaly_score = fl.lit 1 1; timestamp = now }) records

module _ {F : Type 0} where
  -- `Start`: the health check is logged only.
  pub start_detector : AnomalyDetector F → AnomalyDetector F
  start_detector d = elim d.active [
    | none ↦ record d { done = true }
    | some a ↦ record d { active = some (record a { inference_queue = start a.inference_queue }) }
  ]

  -- The beginning of `Stop`, up to the wait for the queue: `none` is the panic of a second call.
  pub stop_detector : AnomalyDetector F → Option (AnomalyDetector F)
  stop_detector d = elim d.active [
    | none ↦ some d
    | some a ↦ if d.stopped then none else elim (fire a.inference_queue stops) [
      | none ↦ none
      | some q ↦
          some (record d { active = some (record a { inference_queue = q }); stopped = true })
    ]
  ]

  -- Its end: whatever the queue's `Stop` returns, `doneChan` is closed and the result is nil.
  pub finish_stop : AnomalyDetector F → AnomalyDetector F
  finish_stop d = record d { done = true }

  pub enqueue_batch :
      Bool → AnomalyDetector F → BatchUeTrafficRecords F → AnomalyDetector F × Option EnqueueError
  enqueue_batch pick d batch = elim d.active [
    | none ↦ (d, none)
    | some a ↦
        let (q, e) = enqueue pick a.inference_queue (batch_item batch) in
        (record d { active = some (record a { inference_queue = q }) }, e)
  ]
