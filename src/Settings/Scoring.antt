-- ===== src/Settings/Scoring.antt =====
-- The thresholds that reach the risk scorer from the configuration file (pkg/factory/config.go and
-- internal/analyzer/scorer/risk_scorer.go).
use an_lf.Base.{◌≡◌, ◌⊎◌, inr, true, false, arith, if◌then◌else◌}
use an_lf.Float.{Float64, IsIeee}
use an_lf.Scorer.{new_risk_scorer}
use an_lf.Scorer.Config.{IsReasonable, IsValidScorer, new_risk_scorer-IsValid}
use an_lf.Settings.{RiskScoring}
use an_lf.Settings.Getters.{scorer_config}

module _ {F : Type 0} {fl : Float64 F} (w : IsIeee fl) where
  finite_choice :
      (x : F) (m : F)
      → fl.finite x ≡ true
      → fl.finite m ≡ true
      → fl.finite (if fl.lt (fl.lit 0 0) x then x else m) ≡ true
  finite_choice x m h k = ground arith

  scorer_config-IsReasonable :
      (r : RiskScoring F)
      → fl.finite r.block_threshold ≡ true
      → fl.finite r.unblock_threshold ≡ true
      → (fl.lt (fl.lit 0 0) r.block_threshold ≡ false)
        ⊎ (fl.lt (fl.lit 500 1) r.block_threshold ≡ true)
      → IsReasonable fl (scorer_config fl r)
  scorer_config-IsReasonable r fb fu above = record {
    max_finite = w.lit_finite 1000 1 (omega arith) (omega arith);
    block_finite =
        finite_choice r.block_threshold _ fb (w.lit_finite 800 1 (omega arith) (omega arith));
    unblock_finite =
        finite_choice r.unblock_threshold _ fu (w.lit_finite 500 1 (omega arith) (omega arith));
    max_above = inr (
        w.lt_le _ _ (
          w.lit_lt 800 1 1000 1 (omega arith) (omega arith) (omega arith) (omega arith)
            (omega arith)));
    block_above = inr (
        ground (
          arith,
          w.lit_lt 500 1 800 1 (omega arith) (omega arith) (omega arith) (omega arith)
              (omega arith),
        ));
  }

  -- For a section whose thresholds are finite and whose blocking threshold is left out or above 50,
  -- the scorer has unblocking < blocking threshold <= maximum, and steps that are finite and not
  -- negative.
  pub scorer_config-IsValidScorer :
      (r : RiskScoring F)
      → fl.finite r.block_threshold ≡ true
      → fl.finite r.unblock_threshold ≡ true
      → (fl.lt (fl.lit 0 0) r.block_threshold ≡ false)
        ⊎ (fl.lt (fl.lit 500 1) r.block_threshold ≡ true)
      → IsValidScorer fl (new_risk_scorer fl (scorer_config fl r))
  scorer_config-IsValidScorer r fb fu above =
      new_risk_scorer-IsValid w (scorer_config fl r) (scorer_config-IsReasonable r fb fu above)
