-- ===== src/Scorer/Update.antt =====
-- One update of one UE by `processOneUE` (internal/analyzer/scorer/risk_scorer.go): the score stays
-- in its range, and the status follows the two thresholds.
use an_lf.Base.{◌≡◌, ap, ◌∙◌, Bool, true, false, arith, Bool-cases, inl, inr, if◌then◌else◌, Bytes}
use an_lf.Base.Int.{ℤ, pos, ◌-ℤ◌, ltb_ℤ}
use an_lf.Float.{Float64, IsIeee}
use an_lf.Models.{InferenceResult}
use an_lf.Scorer.Config.{IsValidScorer, IsInverted, sanitize_inverted}
use an_lf.Scorer.{
  UeStatus, normal, blocked, UeRiskState, RiskScorer, RiskScorerConfig, new_ue_state, decayed,
  charged, transition, is_attack, update, new_risk_scorer,
}

module _ {F : Type 0} (fl : Float64 F) (c : RiskScorerConfig F) where
  -- The status agrees with the score: a blocked UE is not below the unblocking threshold, and a
  -- normal one is below the blocking threshold.
  abbrev pub Agrees : UeStatus → F → Type 0
  Agrees normal score = fl.le c.block_threshold score ≡ false
  Agrees blocked score = fl.lt score c.unblock_threshold ≡ false

  pub record InRange (score : F) : Type 0 where
    pub nonneg : fl.le (fl.lit 0 0) score ≡ true
    pub capped : fl.le score c.max_score ≡ true

  pub record IsSound (s : UeRiskState F) : Type 0 where
    pub range : InRange s.score
    pub agrees : Agrees s.status s.score

module _ {F : Type 0} {fl : Float64 F} (w : IsIeee fl) (rs : RiskScorer F)
    (v : IsValidScorer fl rs) where
  zero_num : fl.le (fl.lit 0 0) (fl.lit 0 0) ≡ true
  zero_num = w.le_left _ _ v.valid.max_nonneg

  zero_finite : fl.finite (fl.lit 0 0) ≡ true
  zero_finite = w.lit_finite 0 0 (omega arith) (omega arith)

  range-finite : (x : F) → InRange fl rs.config x → fl.finite x ≡ true
  range-finite x r =
      w.finite_between (fl.lit 0 0) x rs.config.max_score zero_finite v.valid.max_finite r.nonneg
        r.capped

  decay_amount_nonneg :
      (d : ℤ)
      → ltb_ℤ (pos 0) d ≡ true
      → fl.le (fl.lit 0 0) (fl.mul rs.decay_step (fl.of_int d)) ≡ true
  decay_amount_nonneg (pos n) h =
      w.mul_nonneg _ _ v.decay_finite (w.of_int_finite _) v.decay_nonneg (w.of_int_nonneg n)
  decay_amount_nonneg (ℤ.negsuc n) h = ground arith

  -- Cutting a number at zero from below keeps it below the old score.
  cut_range :
      (x y : F)
      → InRange fl rs.config x
      → fl.le y x ≡ true
      → let z = if fl.lt y (fl.lit 0 0) then fl.lit 0 0 else y in
        InRange fl rs.config z × (fl.le z x ≡ true)
  cut_range x y r le = elim (Bool-cases (fl.lt y (fl.lit 0 0))) [
    | inl low ↦ rw low (record { nonneg = zero_num; capped = v.valid.max_nonneg }, r.nonneg)
    | inr high ↦ rw high (
      record {
        nonneg = w.not_lt_le y (fl.lit 0 0) (w.le_left y x le) zero_num high;
        capped = w.le_trans y x rs.config.max_score le r.capped;
      },
      le,
    )
  ]

  -- The decay keeps the score in its range and never raises it.
  pub decayed_range :
      (now : ℤ) (s : UeRiskState F)
      → InRange fl rs.config s.score
      → InRange fl rs.config (decayed fl rs now s) × (fl.le (decayed fl rs now s) s.score ≡ true)
  unfolding decayed
  decayed_range now s r = elim (Bool-cases (ltb_ℤ (pos 0) (now -ℤ s.last_update_ts))) [
    | inl later ↦ rw later (
        cut_range s.score _ r
          (w.sub_le s.score _ (range-finite s.score r) (decay_amount_nonneg _ later)))
    | inr same ↦ rw same (r, w.le_left _ _ r.capped)
  ]

  -- The charge keeps the score in its range and never lowers it.
  pub charged_range :
      (attack : Bool) (x : F)
      → InRange fl rs.config x
      → InRange fl rs.config (charged fl rs attack x) × (fl.le x (charged fl rs attack x) ≡ true)
  unfolding charged
  charged_range false x r = (r, w.le_left _ _ r.capped)
  charged_range true x r =
      let more : fl.le x (fl.add x rs.attack_step) ≡ true =
        w.add_ge x rs.attack_step (range-finite x r) v.attack_nonneg in
      let max_num : fl.le rs.config.max_score rs.config.max_score ≡ true =
        w.le_right _ _ v.valid.block_le_max in
      elim (Bool-cases (fl.lt rs.config.max_score (fl.add x rs.attack_step))) [
        | inl over ↦ rw over (record { nonneg = v.valid.max_nonneg; capped = max_num }, r.capped)
        | inr under ↦ rw under (
          record {
            nonneg = w.le_trans (fl.lit 0 0) x _ r.nonneg more;
            capped = w.not_lt_le rs.config.max_score _ max_num (w.le_right _ _ more) under;
          },
          more,
        )
      ]

  -- A score cannot be below the unblocking and at or above the blocking threshold at once.
  thresholds_exclude :
      (score : F)
      → fl.le rs.config.block_threshold score ≡ true
      → fl.lt score rs.config.unblock_threshold ≡ false
  thresholds_exclude score h = ground (
    arith,
    w.lt_not_le score rs.config.unblock_threshold,
    w.le_trans rs.config.unblock_threshold rs.config.block_threshold score
        (w.lt_le _ _ v.valid.unblock_lt_block) h,
  )

  transition-Agrees :
      (now : ℤ) (score : F) (status : UeStatus) (since : ℤ)
      → Agrees fl rs.config (transition fl rs now score status since).0 score
  unfolding transition
  transition-Agrees now score normal since =
      elim (Bool-cases (fl.le rs.config.block_threshold score)) [
        | inl up ↦ rw up (thresholds_exclude score up)
        | inr down ↦ rw down down
      ]
  transition-Agrees now score blocked since =
      elim (Bool-cases (fl.lt score rs.config.unblock_threshold)) [
        | inl down ↦ rw down (ground (arith, thresholds_exclude score))
        | inr up ↦ rw up up
      ]

  -- An update keeps the score between 0 and the maximum and leaves a status that agrees with it,
  -- whatever the status was before.
  pub update-IsSound :
      (result : InferenceResult F) (now : ℤ) (s : UeRiskState F)
      → InRange fl rs.config s.score
      → IsSound fl rs.config (update fl rs result now s)
  unfolding update
  update-IsSound result now s r =
      let score = charged fl rs (is_attack fl rs result) (decayed fl rs now s) in
      record {
        range = (charged_range (is_attack fl rs result) _ (decayed_range now s r).0).0;
        agrees = transition-Agrees now score s.status s.blocked_since;
      }

  -- A new state is sound, if the blocking threshold is above 0.
  pub new_ue_state-InRange :
      (supi : Bytes) (now : ℤ) → InRange fl rs.config (new_ue_state fl supi now).score
  unfolding new_ue_state
  new_ue_state-InRange supi now = record { nonneg = zero_num; capped = v.valid.max_nonneg }

  -- Without an attack the score does not grow.
  update_calm :
      (result : InferenceResult F) (now : ℤ) (s : UeRiskState F)
      → InRange fl rs.config s.score
      → is_attack fl rs result ≡ false
      → fl.le (update fl rs result now s).score s.score ≡ true
  unfolding update charged
  update_calm result now s r calm = rw calm (decayed_range now s r).1

  transition_up :
      (now : ℤ) (x : F) (status : UeStatus) (since : ℤ)
      → status ≡ normal
      → (transition fl rs now x status since).0 ≡ blocked
      → fl.le rs.config.block_threshold x ≡ true
  unfolding transition
  transition_up now x normal since n b = ground arith
  transition_up now x blocked since n b = cc

  Agrees-normal :
      (status : UeStatus) (x : F)
      → status ≡ normal
      → Agrees fl rs.config status x
      → fl.le rs.config.block_threshold x ≡ false
  Agrees-normal normal x n a = a
  Agrees-normal blocked x n a = cc

  -- For a scorer with unblocking < blocking threshold <= maximum, a finite maximum and steps that
  -- are not negative, the decay step finite, and for a UE with a score between 0 and the maximum
  -- and a status that agrees with it: the UE becomes blocked only in an update whose result reports
  -- an attack, so decay alone never blocks.
  pub blocked_by_attack :
      (result : InferenceResult F) (now : ℤ) (s : UeRiskState F)
      → IsSound fl rs.config s
      → s.status ≡ normal
      → (update fl rs result now s).status ≡ blocked
      → is_attack fl rs result ≡ true
  unfolding update charged
  blocked_by_attack result now s sound n b = elim (Bool-cases (is_attack fl rs result)) [
    | inl attack ↦ attack
    | inr calm ↦
        let up =
          transition_up now (decayed fl rs now s) s.status s.blocked_since n (rw calm at b) in
        let over : fl.le rs.config.block_threshold s.score ≡ true =
          w.le_trans _ _ _ up (decayed_range now s sound.range).1 in
        let under = Agrees-normal s.status s.score n sound.agrees in cc
  ]

abbrev pub opposite : UeStatus → UeStatus
opposite normal = blocked
opposite blocked = normal

module _ {F : Type 0} (fl : Float64 F) (rs : RiskScorer F) where
  -- Between the two thresholds an update keeps the status and the time of blocking: the hysteresis.
  pub dead_band :
      (result : InferenceResult F) (now : ℤ) (s : UeRiskState F)
      → fl.le rs.config.block_threshold (update fl rs result now s).score ≡ false
      → fl.lt (update fl rs result now s).score rs.config.unblock_threshold ≡ false
      → ((update fl rs result now s).status ≡ s.status)
        × ((update fl rs result now s).blocked_since ≡ s.blocked_since)
  unfolding update transition
  dead_band result now s below above = ground arith

  -- With the thresholds the wrong way round (blocking <= score < unblocking) a UE flaps: each
  -- update that leaves its score there changes its status to the other one.
  pub flapping :
      (result : InferenceResult F) (now : ℤ) (s : UeRiskState F)
      → fl.le rs.config.block_threshold (update fl rs result now s).score ≡ true
      → fl.lt (update fl rs result now s).score rs.config.unblock_threshold ≡ true
      → (update fl rs result now s).status ≡ opposite s.status
  unfolding update transition
  flapping result now s over under = ground arith

-- Where the blocking threshold that is given is in (0, 50] and kept, and the unblocking threshold
-- is not given or not below it, the scorer that `NewRiskScorer` makes has its thresholds the wrong
-- way round: any update that leaves the score of a UE at the blocking threshold or above it, but
-- below 50, changes the status of the UE to the other one.
pub new_risk_scorer_flaps :
    {F : Type 0} {fl : Float64 F} (w : IsIeee fl) (c : RiskScorerConfig F)
    → IsInverted w c
    → (result : InferenceResult F) (now : ℤ) (s : UeRiskState F)
    → let rs = new_risk_scorer fl c in
      let u = update fl rs result now s in
      fl.le c.block_threshold u.score ≡ true
      → fl.lt u.score (fl.lit 500 1) ≡ true
      → u.status ≡ opposite s.status
new_risk_scorer_flaps {fl = fl} w c v result now s over under =
    let rs = new_risk_scorer fl c in
    let u = update fl rs result now s in
    let (block, unblock) = thresholds_kept in
    flapping fl rs result now s (ap (λ t. fl.le t u.score) block ∙ over)
      (ap (λ t. fl.lt u.score t) unblock ∙ under)
  where
    thresholds_kept :
        ((new_risk_scorer fl c).config.block_threshold ≡ c.block_threshold)
        × ((new_risk_scorer fl c).config.unblock_threshold ≡ fl.lit 500 1)
    thresholds_kept = unfold new_risk_scorer in sanitize_inverted w c v
