-- ===== src/Scorer.antt =====
-- internal/analyzer/scorer/risk_scorer.go: a risk score for each UE, charged by attacks, leaking
-- with time, and a status that follows the score with two thresholds.
-- The clock is an argument. The two locks make the update of one UE atomic, so a run of the scorer
-- is a sequence of these updates.
pub mod Refinement
pub mod Config
pub mod Update
pub mod Batch
use an_lf.Base.{
  ℕ, ◌+◌, Bool, true, false, ◌||◌, Option, none, some, List, [], ◌∷◌, Bytes, bytes, Dict, lookup,
  insert, if◌then◌else◌,
}
use an_lf.Base.Int.{ℤ, pos, ◌-ℤ◌, ltb_ℤ, leb_ℤ}
use an_lf.Float.{Float64}
use an_lf.Models.{InferenceResult, EnhancedInferenceResult}

pub data UeStatus : Type 0 where
  normal blocked : UeStatus

unfoldable pub status_string : UeStatus → Bytes
status_string normal = bytes "NORMAL"
status_string blocked = bytes "BLOCKED"

abbrev pub is_blocked_status : UeStatus → Bool
is_blocked_status normal = false
is_blocked_status blocked = true

pub record UeRiskState (F : Type 0) : Type 0 where
  pub supi : Bytes
  pub score : F
  pub status : UeStatus
  pub last_update_ts : ℤ
  pub attack_count : ℕ
  pub blocked_since : ℤ

pub record RiskScorerConfig (F : Type 0) : Type 0 where
  pub max_score : F
  pub block_threshold : F
  pub unblock_threshold : F
  pub llm_confidence_cutoff : F
  pub hits_to_ban : ℤ
  pub seconds_to_forgive : ℤ
  pub time_window_sec : ℤ

pub record RiskScorer (F : Type 0) : Type 0 where
  pub config : RiskScorerConfig F
  pub ue_states : Dict (UeRiskState F)
  pub attack_step : F
  pub decay_step : F

module _ {F : Type 0} (fl : Float64 F) where
  -- The validation in `NewRiskScorer`: each field in turn, over the ones before it.
  unfoldable pub sanitize : RiskScorerConfig F → RiskScorerConfig F
  sanitize c =
      let max = if fl.le c.max_score (fl.lit 0 0) then fl.lit 1000 1 else c.max_score in
      let block =
        if fl.le c.block_threshold (fl.lit 0 0) || fl.lt max c.block_threshold
        then fl.lit 800 1
        else c.block_threshold in
      let unblock =
        if fl.le c.unblock_threshold (fl.lit 0 0) || fl.le block c.unblock_threshold
        then fl.lit 500 1
        else c.unblock_threshold in
      let cutoff =
        if fl.le c.llm_confidence_cutoff (fl.lit 0 0) || fl.lt (fl.lit 10 1) c.llm_confidence_cutoff
        then fl.lit 7 1
        else c.llm_confidence_cutoff in
      record {
        max_score = max;
        block_threshold = block;
        unblock_threshold = unblock;
        llm_confidence_cutoff = cutoff;
        hits_to_ban = if leb_ℤ c.hits_to_ban (pos 0) then pos 2 else c.hits_to_ban;
        seconds_to_forgive =
            if leb_ℤ c.seconds_to_forgive (pos 0) then pos 20 else c.seconds_to_forgive;
        time_window_sec = if leb_ℤ c.time_window_sec (pos 0) then pos 1 else c.time_window_sec;
      }

  unfoldable pub new_risk_scorer : RiskScorerConfig F → RiskScorer F
  unfolding sanitize
  new_risk_scorer given =
      let config = sanitize given in
      record {
        config = config;
        ue_states = [];
        attack_step = fl.div config.max_score (fl.of_int config.hits_to_ban);
        decay_step = fl.div config.max_score (fl.of_int config.seconds_to_forgive);
      }

  unfoldable pub new_ue_state : Bytes → ℤ → UeRiskState F
  new_ue_state supi now = record {
    supi = supi;
    score = fl.lit 0 0;
    status = normal;
    last_update_ts = now;
    attack_count = 0;
    blocked_since = pos 0;
  }

  -- The score after the decay since the last update.
  unfoldable pub decayed : RiskScorer F → ℤ → UeRiskState F → F
  decayed rs now s =
      let lower = fl.sub s.score (fl.mul rs.decay_step (fl.of_int (now -ℤ s.last_update_ts))) in
      if ltb_ℤ (pos 0) (now -ℤ s.last_update_ts)
      then (if fl.lt lower (fl.lit 0 0) then fl.lit 0 0 else lower)
      else s.score

  -- The score after the charge for an attack.
  unfoldable pub charged : RiskScorer F → Bool → F → F
  charged rs is_attack score =
      let higher = fl.add score rs.attack_step in
      if is_attack
      then (if fl.lt rs.config.max_score higher then rs.config.max_score else higher)
      else score

  -- The status and the time of blocking that follow from the new score.
  unfoldable pub transition : RiskScorer F → ℤ → F → UeStatus → ℤ → UeStatus × ℤ
  transition rs now score normal since =
      if fl.le rs.config.block_threshold score then (blocked, now) else (normal, since)
  transition rs now score blocked since =
      if fl.lt score rs.config.unblock_threshold then (normal, pos 0) else (blocked, since)

  unfoldable pub is_attack : RiskScorer F → InferenceResult F → Bool
  is_attack rs result = fl.le rs.config.llm_confidence_cutoff result.anomaly_score

  -- `processOneUE` on the state of that UE.
  unfoldable pub update : RiskScorer F → InferenceResult F → ℤ → UeRiskState F → UeRiskState F
  unfolding decayed charged transition is_attack
  update rs result now s =
      let attack = is_attack rs result in
      let score = charged rs attack (decayed rs now s) in
      let (status, since) = transition rs now score s.status s.blocked_since in
      record s {
        score = score;
        status = status;
        last_update_ts = now;
        attack_count = if attack then s.attack_count + 1 else s.attack_count;
        blocked_since = since;
      }

  unfoldable pub enhance :
      RiskScorer F → InferenceResult F → UeRiskState F → EnhancedInferenceResult F
  enhance rs result s = record {
    result = result;
    risk_score = s.score;
    status = status_string s.status;
    is_blocked = is_blocked_status s.status;
    attack_detected = is_attack rs result;
  }

  -- The state that `processOneUE` works on: the stored one, or a new one.
  unfoldable pub state_of : RiskScorer F → Bytes → ℤ → UeRiskState F
  state_of rs supi now = elim (lookup supi rs.ue_states) [
    | none ↦ new_ue_state supi now
    | some s ↦ s
  ]

  unfoldable pub process_one_ue :
      RiskScorer F → InferenceResult F → ℤ → RiskScorer F × EnhancedInferenceResult F
  process_one_ue rs result now =
      let s = update rs result now (state_of rs result.supi now) in
      (record rs { ue_states = insert result.supi s rs.ue_states }, enhance rs result s)

  -- The loop of `ProcessInferenceResults`, which returns nil for an empty batch.
  unfoldable pub process_inference_results :
      RiskScorer F → List (InferenceResult F) → ℤ → RiskScorer F × List (EnhancedInferenceResult F)
  unfolding process_one_ue
  process_inference_results rs [] now = (rs, [])
  process_inference_results rs (result ∷ rest) now =
      let (rs', enhanced) = process_one_ue rs result now in
      let (final, others) = process_inference_results rs' rest now in (final, enhanced ∷ others)

-- `GetUEState` and `GetAllUEStates` return copies. `none` is the error "not found".
unfoldable pub get_ue_state : {F : Type 0} → RiskScorer F → Bytes → Option (UeRiskState F)
get_ue_state rs supi = lookup supi rs.ue_states

pub get_all_ue_states : {F : Type 0} → RiskScorer F → Dict (UeRiskState F)
get_all_ue_states rs = rs.ue_states

-- `ResetUE`: the new scorer, or `none` for the error, which changes nothing.
unfoldable pub reset_ue :
    {F : Type 0} (fl : Float64 F) → RiskScorer F → Bytes → ℤ → Option (RiskScorer F)
reset_ue fl rs supi now = elim (lookup supi rs.ue_states) [
  | none ↦ none
  | some s ↦ some (record rs {
    ue_states =
        insert supi
          (record s {
            score = fl.lit 0 0;
            status = normal;
            attack_count = 0;
            blocked_since = pos 0;
            last_update_ts = now;
          })
          rs.ue_states;
  })
]

pub get_config : {F : Type 0} → RiskScorer F → RiskScorerConfig F
get_config rs = rs.config
