-- ===== src/Tests/Scoring.antt =====
-- Runs of the risk scorer (internal/analyzer/scorer/risk_scorer.go), in thousandths.
use an_lf.Base.{lookup, ◌≡◌, refl, inl, inr, true, false, List, [], ◌∷◌, bytes, arith}
use an_lf.Base.Int.{ℤ, pos, ◌-ℤ◌, ◌+ℤ◌}
use an_lf.Float.Fixed.{fixed, fixed-IsIeee}
use an_lf.Models.{InferenceResult}
use an_lf.Scorer.{
  normal, blocked, UeRiskState, RiskScorerConfig, RiskScorer, sanitize, new_risk_scorer, update,
  is_attack, get_ue_state, transition, decayed, charged,
}
use an_lf.Settings.{RiskScoring}
use an_lf.Scorer.Config.{IsReasonable, IsValidScorer, new_risk_scorer-IsValid, IsInverted}
use an_lf.Scorer.Update.{InRange, IsSound, update-IsSound, blocked_by_attack, new_risk_scorer_flaps}
use an_lf.Scorer.Batch.{AllSound}

-- No value is given: all defaults are taken.
abbrev pub defaults : RiskScorerConfig ℤ
defaults = record {
  max_score = pos 0;
  block_threshold = pos 0;
  unblock_threshold = pos 0;
  llm_confidence_cutoff = pos 0;
  hits_to_ban = pos 0;
  seconds_to_forgive = pos 0;
  time_window_sec = pos 0;
}

pub defaults-IsReasonable : IsReasonable fixed defaults
defaults-IsReasonable = record {
  max_finite = refl;
  block_finite = refl;
  unblock_finite = refl;
  max_above = inl refl;
  block_above = inl refl;
}

abbrev pub scorer : RiskScorer ℤ
scorer = new_risk_scorer fixed defaults

new_risk_scorer-IsValid_example : IsValidScorer fixed scorer
new_risk_scorer-IsValid_example =
    new_risk_scorer-IsValid fixed-IsIeee defaults defaults-IsReasonable

scorer-IsValid : IsValidScorer fixed scorer
scorer-IsValid = new_risk_scorer-IsValid fixed-IsIeee defaults defaults-IsReasonable

-- A blocking threshold of 40, and an unblocking threshold of 50.
abbrev inverted : RiskScorerConfig ℤ
inverted = record defaults {
  max_score = pos 100000;
  block_threshold = pos 40000;
  unblock_threshold = pos 50000;
}

inverted-IsInverted : IsInverted fixed-IsIeee inverted
inverted-IsInverted = record {
  block_positive = refl;
  block_low = refl;
  max_kept = inr refl;
  unblock_taken = inr refl;
}

-- A section that gives a blocking threshold of 70 and leaves the rest to the defaults.
abbrev section : RiskScoring ℤ
section = record {
  enable = true;
  llm_confidence_cutoff = pos 0;
  hits_to_ban = pos 3;
  seconds_to_forgive = pos 0;
  block_threshold = pos 70000;
  unblock_threshold = pos 0;
}

abbrev pub attack : InferenceResult ℤ
attack = record { supi = bytes "imsi-1"; anomaly_score = pos 900; timestamp = pos 7 }

abbrev pub calm : InferenceResult ℤ
calm = record { supi = bytes "imsi-1"; anomaly_score = pos 100; timestamp = pos 7 }

abbrev other : InferenceResult ℤ
other = record { supi = bytes "imsi-2"; anomaly_score = pos 100; timestamp = pos 7 }

-- One attack below the blocking threshold: the next one blocks.
abbrev suspect : UeRiskState ℤ
suspect = record {
  supi = bytes "imsi-1";
  score = pos 50000;
  status = normal;
  last_update_ts = pos 10;
  attack_count = 1;
  blocked_since = pos 0;
}

suspect-InRange : InRange fixed scorer.config (pos 50000)
unfolding new_risk_scorer sanitize
suspect-InRange = record { nonneg = refl; capped = refl }

suspect-IsSound : IsSound fixed scorer.config suspect
unfolding new_risk_scorer sanitize
suspect-IsSound = record { range = suspect-InRange; agrees = refl }

two_attacks_block : (update fixed scorer attack (pos 10) suspect).status ≡ blocked
unfolding update new_risk_scorer sanitize decayed charged transition is_attack ◌-ℤ◌ ◌+ℤ◌
two_attacks_block = refl

update-IsSound_example : IsSound fixed scorer.config (update fixed scorer attack (pos 10) suspect)
update-IsSound_example =
    update-IsSound fixed-IsIeee scorer scorer-IsValid attack (pos 10) suspect suspect-InRange

calm_is_no_attack : is_attack fixed scorer calm ≡ false
unfolding new_risk_scorer sanitize is_attack
calm_is_no_attack = refl

blocked_by_attack_example : is_attack fixed scorer attack ≡ true
blocked_by_attack_example =
    blocked_by_attack fixed-IsIeee scorer scorer-IsValid attack (pos 10) suspect suspect-IsSound
      refl two_attacks_block

-- A UE whose score stays between the two thresholds of 40 and 50.
abbrev wavering : UeRiskState ℤ
wavering = record {
  supi = bytes "imsi-1";
  score = pos 45000;
  status = normal;
  last_update_ts = pos 10;
  attack_count = 1;
  blocked_since = pos 0;
}

new_risk_scorer_flaps_example :
    (update fixed (new_risk_scorer fixed inverted) calm (pos 10) wavering).status ≡ blocked
unfolding update new_risk_scorer sanitize decayed charged is_attack transition ◌-ℤ◌
new_risk_scorer_flaps_example =
    new_risk_scorer_flaps fixed-IsIeee inverted inverted-IsInverted calm (pos 10) wavering refl refl

nothing_stored : AllSound fixed scorer
unfolding AllSound new_risk_scorer get_ue_state lookup
nothing_stored k s e = ground arith

abbrev batch : List (InferenceResult ℤ)
batch = attack ∷ other ∷ attack ∷ []

abbrev with_suspect : RiskScorer ℤ
with_suspect = record scorer { ue_states = (bytes "imsi-1", suspect) ∷ [] }
