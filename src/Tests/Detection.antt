-- ===== src/Tests/Detection.antt =====
-- Runs of the client of the language model and of the detector (internal/analyzer/detector).
use mathlib.Core.List.{Perm, Pairwise}
use mathlib.Core.List.Perm
use an_lf.Base.{
  ◌≡◌, ◌⊎◌, refl, true, false, some, none, List, [], ◌∷◌, Bytes, bytes, map, bytes_eq, All,
}
use an_lf.Base.Int.{ℤ, pos}
use an_lf.Float.Fixed.{fixed, fixed-IsIeee, fix_parse_range}
use an_lf.Models.{UeTrafficRecord, InferenceResult}
use an_lf.Sort.Laws.{Upto}
use an_lf.Regex.{
  find, matches, runs, join_matches, behind, one_byte, no_text, first_match, or_later,
}
use an_lf.Client.{
  LlmClientConfig, LlmClient, LlmServer, PredictError, failed, predicted, score_text, score_regexes,
  score_regex, literal, after_json, after_score, quote_space_colon, predict_single_ue,
}
use an_lf.Client.Laws.{IsScore, score_text-IsScore}
use an_lf.Client.Predict.{InUnit, ReadsScores, predict_single_ue_cases, Answers, IsRead}
use an_lf.Detector.{
  AnomalyDetectorConfig, ActiveDetector, AnomalyDetector, UeRun, new_anomaly_detector,
  result_before, batch_results, handle_batch,
}
use an_lf.Detector.Batch.{batch_results_complete}
use an_lf.Detector.Order.{handle_batch-order}
use an_lf.Detector.Scoring.{
  BatchRun, SoundActive, handle_batches, new_anomaly_detector-handle_batches,
}
use an_lf.Tests.Exports.{traffic, batch}
use an_lf.Tests.Scoring.{defaults, defaults-IsReasonable, scorer}

fixed-ReadsScores : ReadsScores fixed
fixed-ReadsScores = record { reads = λ t x _ h. fix_parse_range t x h }

abbrev answer : Bytes
answer = bytes "Risk Score: 0.83"

found : score_text score_regexes answer ≡ some (bytes "0.83")
unfolding score_text find matches runs join_matches behind one_byte no_text first_match or_later
    score_regexes score_regex literal after_json after_score quote_space_colon
found = refl

-- The fifth pattern, after the other four have failed.
found_late : score_text score_regexes (bytes "Response: 1.0!") ≡ some (bytes "1.0")
unfolding score_text find matches runs join_matches behind one_byte no_text first_match or_later
    score_regexes score_regex literal after_json after_score quote_space_colon
found_late = refl

found_short : score_text score_regexes (bytes "Risk Score: 0.5%, or 7") ≡ some (bytes "0.5")
unfolding score_text find matches runs join_matches behind one_byte no_text first_match or_later
    score_regexes score_regex literal after_json after_score quote_space_colon
found_short = refl

score_text-IsScore_example : IsScore (bytes "0.83")
score_text-IsScore_example = score_text-IsScore answer (bytes "0.83") found

abbrev client_config : LlmClientConfig ℤ
client_config = record {
  server_url = bytes "http://localhost:8000";
  timeout = pos 0;
  system_prompt_path = [];
  max_concurrent = pos 0;
  temperature = pos 0;
  max_tokens = pos 0;
}

abbrev client : LlmClient ℤ
client = record {
  server_url = bytes "http://localhost:8000";
  timeout = pos 5;
  system_prompt = bytes "Rate {fan_out}";
  max_concurrent = pos 100;
  temperature = pos 100;
  max_tokens = pos 50;
}

-- A server that answers every request with the same text, and one that none reaches.
abbrev pub answering : LlmServer ℤ
answering = record {
  marshal = λ system user _ _. some user;
  new_request = λ url body. some body;
  send = λ _. some (record { status_code = 200; body = some answer });
  choices = λ body. some (body ∷ []);
}

abbrev broken : LlmServer ℤ
broken = record answering { marshal = λ _ _ _ _. none }

predict_single_ue_cases_example :
    let asked = traffic (bytes "imsi-1") in
    let out = predict_single_ue fixed client answering asked none (pos 9) in
    ((e : PredictError) × (out ≡ failed e)
      × ((raw : Bytes) → Answers fixed answering client asked none raw → ⊥))
    ⊎ ((raw : Bytes) × (x : ℤ) × Answers fixed answering client asked none raw
        × IsRead fixed raw x
        × InUnit fixed x
        × (out
            ≡ predicted (record { supi = bytes "imsi-1"; anomaly_score = x; timestamp = pos 9 })))
predict_single_ue_cases_example =
    predict_single_ue_cases fixed-IsIeee fixed-ReadsScores client answering
      (traffic (bytes "imsi-1")) none (pos 9)

abbrev pub active : ActiveDetector ℤ
active = record {
  client = client;
  risk_scorer = some scorer;
  include_global_context = true;
  inference_queue = record {
    buffer = [];
    capacity = 4;
    stopped = false;
    done = false;
    cancelled = false;
    timed_out = false;
    worker_count = 1;
    running = 1;
    draining = 0;
    exited = 0;
    busy = [];
    clearing = [];
    accepted = [];
    handled = [];
    late = 0;
  };
}

abbrev detector : AnomalyDetector ℤ
detector = record { active = some active; stopped = false; done = false }

abbrev run_of : Bytes → LlmServer ℤ → UeRun ℤ
run_of supi server = record { ue = traffic supi; server = server; now = pos 9 }

-- The goroutines end in the order of the records, and the other way round.
abbrev ends : List (UeRun ℤ)
ends = run_of (bytes "imsi-2") answering ∷ run_of (bytes "imsi-1") broken ∷ []

abbrev ends_swapped : List (UeRun ℤ)
ends_swapped = run_of (bytes "imsi-1") broken ∷ run_of (bytes "imsi-2") answering ∷ []

batch_results_complete_example :
    let results = batch_results fixed active batch ends in
    Perm
      (map (λ (r : InferenceResult ℤ). r.supi) results)
      (map (λ (r : UeTrafficRecord ℤ). r.supi) batch.records)
    × Pairwise (Upto result_before) results
    × All (λ (r : InferenceResult ℤ). InUnit fixed r.anomaly_score) results
batch_results_complete_example =
    batch_results_complete fixed-IsIeee fixed-ReadsScores active batch ends Perm.rfl

handle_batch-order_example :
    handle_batch fixed detector (some batch) ends (pos 10)
    ≡ handle_batch fixed detector (some batch) ends_swapped (pos 10)
handle_batch-order_example =
    handle_batch-order fixed-IsIeee fixed-ReadsScores detector batch ends ends_swapped (pos 10)
      (unfold bytes_eq in ((refl, tt), (tt, tt))) (Perm.swap _ _ _)

abbrev detector_config : AnomalyDetectorConfig ℤ
detector_config = record {
  client_config = client_config;
  include_global_context = true;
  risk_scorer_config = some defaults;
  queue_config = record { buffer_size = pos 0; worker_count = pos 0 };
  enabled = true;
}

abbrev batches : List (BatchRun ℤ)
batches =
    record { batch = some batch; runs = ends; now = pos 10 }
    ∷ record { batch = some batch; runs = ends_swapped; now = pos 11 }
    ∷ []

new_anomaly_detector-handle_batches_example :
    SoundActive fixed
      (handle_batches fixed (new_anomaly_detector fixed (λ _. none) detector_config) batches).active
new_anomaly_detector-handle_batches_example =
    new_anomaly_detector-handle_batches fixed-IsIeee (λ _. none) detector_config batches
      defaults-IsReasonable
