-- ===== src/Scorer/Config.antt =====
-- What the validation in `NewRiskScorer` (internal/analyzer/scorer/risk_scorer.go) establishes.
use an_lf.Base.{
  ℕ, ◌≤◌, ◌<◌, ◌≡◌, refl, ◌⊎◌, inl, inr, Bool, true, false, ◌||◌, arith, Bool-cases, if◌then◌else◌,
}
use an_lf.Base.Int.{ℤ, pos, negsuc, leb_ℤ}
use an_lf.Float.{Float64, IsIeee}
use an_lf.Scorer.{RiskScorerConfig, RiskScorer, sanitize, new_risk_scorer}

module _ {F : Type 0} (fl : Float64 F) where
  -- The configuration under which the scores and the two thresholds work as intended.
  pub record IsValidConfig (c : RiskScorerConfig F) : Type 0 where
    pub max_finite : fl.finite c.max_score ≡ true
    pub max_nonneg : fl.le (fl.lit 0 0) c.max_score ≡ true
    pub block_le_max : fl.le c.block_threshold c.max_score ≡ true
    pub unblock_lt_block : fl.lt c.unblock_threshold c.block_threshold ≡ true

  pub record IsValidScorer (rs : RiskScorer F) : Type 0 where
    pub valid : IsValidConfig rs.config
    pub attack_nonneg : fl.le (fl.lit 0 0) rs.attack_step ≡ true
    pub attack_finite : fl.finite rs.attack_step ≡ true
    pub decay_nonneg : fl.le (fl.lit 0 0) rs.decay_step ≡ true
    pub decay_finite : fl.finite rs.decay_step ≡ true

  -- What is asked of the values given to `NewRiskScorer`: they are finite, a maximum that is given
  -- is at least 80, and a blocking threshold that is given and kept is above 50.
  pub record IsReasonable (c : RiskScorerConfig F) : Type 0 where
    pub max_finite : fl.finite c.max_score ≡ true
    pub block_finite : fl.finite c.block_threshold ≡ true
    pub unblock_finite : fl.finite c.unblock_threshold ≡ true
    pub max_above :
        (fl.le c.max_score (fl.lit 0 0) ≡ true) ⊎ (fl.le (fl.lit 800 1) c.max_score ≡ true)
    pub block_above :
        (fl.le c.block_threshold (fl.lit 0 0) ≡ true)
        ⊎ (fl.lt (fl.lit 500 1) c.block_threshold ≡ true)

module _ {F : Type 0} {fl : Float64 F} (w : IsIeee fl) where
  clash : {b : Bool} → b ≡ true → b ≡ false → ⊥
  clash p q = cc

  pub zero_le_lit : (m e : ℕ) → m ≤ 1000000 → e ≤ 3 → 0 < m → fl.le (fl.lit 0 0) (fl.lit m e) ≡ true
  zero_le_lit m e h k p =
      w.lt_le _ _ (w.lit_lt 0 0 m e (omega arith) h (omega arith) k (omega arith))

  positive_step :
      (max : F) (n : ℤ)
      → fl.finite max ≡ true
      → fl.le (fl.lit 0 0) max ≡ true
      → leb_ℤ n (pos 0) ≡ false
      → (fl.le (fl.lit 0 0) (fl.div max (fl.of_int n)) ≡ true)
        × (fl.finite (fl.div max (fl.of_int n)) ≡ true)
  positive_step max (pos n) fin le h =
      let p : 0 < n = ground arith in
      (w.div_nonneg max _ fin le (w.of_int_pos n p), w.div_finite max n fin le p)
  positive_step max (negsuc n) fin le h = ground arith

  -- The number of hits and of seconds after the validation.
  or_default :
      (n : ℤ) (d : ℕ) → 0 < d → leb_ℤ (if leb_ℤ n (pos 0) then pos d else n) (pos 0) ≡ false
  or_default n d h = ground arith

  max-positive :
      (max : F)
      → fl.finite max ≡ true
      → let chosen = if fl.le max (fl.lit 0 0) then fl.lit 1000 1 else max in
        (fl.finite chosen ≡ true) × (fl.le (fl.lit 0 0) chosen ≡ true)
  max-positive max fin = elim (Bool-cases (fl.le max (fl.lit 0 0))) [
    | inl low ↦ rw low (
      w.lit_finite 1000 1 (omega arith) (omega arith),
      zero_le_lit 1000 1 (omega arith) (omega arith) (omega arith),
    )
    | inr high ↦
        rw high (fin, w.lt_le _ _ (w.not_le_lt max (fl.lit 0 0) (w.le_refl max fin) zero_num high))
  ]
    where
      zero_num : fl.le (fl.lit 0 0) (fl.lit 0 0) ≡ true
      zero_num = w.le_refl _ (w.lit_finite 0 0 (omega arith) (omega arith))

  -- The default of a threshold is taken, or the given value has passed both tests.
  chosen_cases :
      (low high : Bool) (d t : F) (P : F → Type 0)
      → P d
      → (low ≡ false → high ≡ false → P t)
      → P (if low || high then d else t)
  chosen_cases true high d t P default given = default
  chosen_cases false true d t P default given = default
  chosen_cases false false d t P default given = given refl refl

  max-above :
      (max : F)
      → (fl.le max (fl.lit 0 0) ≡ true) ⊎ (fl.le (fl.lit 800 1) max ≡ true)
      → fl.le (fl.lit 800 1) (if fl.le max (fl.lit 0 0) then fl.lit 1000 1 else max) ≡ true
  max-above max h = elim (Bool-cases (fl.le max (fl.lit 0 0))) [
    | inl low ↦ rw low (
        w.lt_le _ _ (
          w.lit_lt 800 1 1000 1 (omega arith) (omega arith) (omega arith) (omega arith)
            (omega arith)))
    | inr high ↦ rw high (elim h [ inl low ↦ absurd (clash low high) | inr above ↦ above ])
  ]

  lt_num_left : (a b : F) → fl.lt a b ≡ true → fl.le a a ≡ true
  lt_num_left a b h = w.le_left a b (w.lt_le a b h)

  lt_num_right : (a b : F) → fl.lt a b ≡ true → fl.le b b ≡ true
  lt_num_right a b h = w.le_right a b (w.lt_le a b h)

  block-above :
      (max b : F)
      → (fl.le b (fl.lit 0 0) ≡ true) ⊎ (fl.lt (fl.lit 500 1) b ≡ true)
      → fl.lt (fl.lit 500 1) (if fl.le b (fl.lit 0 0) || fl.lt max b then fl.lit 800 1 else b)
        ≡ true
  block-above max b h =
      chosen_cases (fl.le b (fl.lit 0 0)) (fl.lt max b) (fl.lit 800 1) b
        (λ t. fl.lt (fl.lit 500 1) t ≡ true)
        (w.lit_lt 500 1 800 1 (omega arith) (omega arith) (omega arith) (omega arith) (omega arith))
        (λ high _. elim h [ inl low ↦ absurd (clash low high) | inr above ↦ above ])

  block-le-max :
      (max b : F)
      → fl.finite max ≡ true
      → fl.finite b ≡ true
      → fl.le (fl.lit 800 1) max ≡ true
      → fl.le (if fl.le b (fl.lit 0 0) || fl.lt max b then fl.lit 800 1 else b) max ≡ true
  block-le-max max b fm fb h =
      chosen_cases (fl.le b (fl.lit 0 0)) (fl.lt max b) (fl.lit 800 1) b (λ t. fl.le t max ≡ true) h
        (λ _ high. w.not_lt_le max b (w.le_refl max fm) (w.le_refl b fb) high)

  unblock-lt-block :
      (block u : F)
      → fl.finite u ≡ true
      → fl.lt (fl.lit 500 1) block ≡ true
      → fl.lt (if fl.le u (fl.lit 0 0) || fl.le block u then fl.lit 500 1 else u) block ≡ true
  unblock-lt-block block u fu h =
      chosen_cases (fl.le u (fl.lit 0 0)) (fl.le block u) (fl.lit 500 1) u
        (λ t. fl.lt t block ≡ true) h
        (λ _ below. w.not_le_lt block u (lt_num_right _ _ h) (w.le_refl u fu) below)

  sanitize-IsValid : (c : RiskScorerConfig F) → IsReasonable fl c → IsValidConfig fl (sanitize fl c)
  unfolding sanitize
  sanitize-IsValid c r =
      let max = max-positive c.max_score r.max_finite in
      let above = block-above _ c.block_threshold r.block_above in
      record {
        max_finite = max.0;
        max_nonneg = max.1;
        block_le_max =
            block-le-max _ c.block_threshold max.0 r.block_finite
              (max-above c.max_score r.max_above);
        unblock_lt_block = unblock-lt-block _ c.unblock_threshold r.unblock_finite above;
      }

  -- For finite values, a maximum of at least 80 (or none) and a blocking threshold above 50 (or
  -- none), `NewRiskScorer` yields a scorer with unblocking < blocking threshold <= maximum, and
  -- with steps that are finite and not negative.
  pub new_risk_scorer-IsValid :
      (c : RiskScorerConfig F) → IsReasonable fl c → IsValidScorer fl (new_risk_scorer fl c)
  unfolding new_risk_scorer
  new_risk_scorer-IsValid c r =
      let v = sanitize-IsValid c r in
      let hit = positive_step _ _ v.max_finite v.max_nonneg (or_default c.hits_to_ban 2 two) in
      let leak =
        positive_step _ _ v.max_finite v.max_nonneg (or_default c.seconds_to_forgive 20 twenty) in
      record {
        valid = v;
        attack_nonneg = hit.0;
        attack_finite = hit.1;
        decay_nonneg = leak.0;
        decay_finite = leak.1;
      }
    where
      two : 0 < 2
      two = omega arith

      twenty : 0 < 20
      twenty = omega arith

  -- A threshold of at most 50 is not above a maximum that was chosen by the validation.
  under_max :
      (max b : F)
      → fl.le b b ≡ true
      → fl.le b (fl.lit 500 1) ≡ true
      → (fl.le max (fl.lit 0 0) ≡ true) ⊎ (fl.lt max b ≡ false)
      → fl.lt (if fl.le max (fl.lit 0 0) then fl.lit 1000 1 else max) b ≡ false
  under_max max b n low kept = elim (Bool-cases (fl.le max (fl.lit 0 0))) [
    | inl absent ↦ rw absent (ground (arith, w.lt_not_le (fl.lit 1000 1) b, b_below))
    | inr given ↦ rw given (elim kept [ inl h ↦ absurd (clash h given) | inr h ↦ h ])
  ]
    where
      b_below : fl.le b (fl.lit 1000 1) ≡ true
      b_below = w.le_trans b (fl.lit 500 1) (fl.lit 1000 1) low (
          w.lt_le _ _ (
            w.lit_lt 500 1 1000 1 (omega arith) (omega arith) (omega arith) (omega arith)
              (omega arith)))

  -- A blocking threshold in (0, 50], not above a maximum that is given, whose unblocking threshold
  -- is not given or not below it.
  pub record IsInverted (c : RiskScorerConfig F) : Type 0 where
    pub block_positive : fl.le c.block_threshold (fl.lit 0 0) ≡ false
    pub block_low : fl.le c.block_threshold (fl.lit 500 1) ≡ true
    pub max_kept :
        (fl.le c.max_score (fl.lit 0 0) ≡ true) ⊎ (fl.lt c.max_score c.block_threshold ≡ false)
    pub unblock_taken :
        (fl.le c.unblock_threshold (fl.lit 0 0) ≡ true)
        ⊎ (fl.le c.block_threshold c.unblock_threshold ≡ true)

  -- The validation keeps that blocking threshold and sets the unblocking one to 50.
  pub sanitize_inverted :
      (c : RiskScorerConfig F)
      → IsInverted c
      → ((sanitize fl c).block_threshold ≡ c.block_threshold)
        × ((sanitize fl c).unblock_threshold ≡ fl.lit 500 1)
  unfolding sanitize
  sanitize_inverted c v =
      let kept =
        under_max c.max_score c.block_threshold (w.le_left _ _ v.block_low) v.block_low
          v.max_kept in
      rw (v.block_positive, kept) (refl, taken v.unblock_taken)
    where
      taken :
          (fl.le c.unblock_threshold (fl.lit 0 0) ≡ true)
            ⊎ (fl.le c.block_threshold c.unblock_threshold ≡ true)
          → (if fl.le c.unblock_threshold (fl.lit 0 0)
                || fl.le c.block_threshold c.unblock_threshold
              then fl.lit 500 1
              else c.unblock_threshold)
            ≡ fl.lit 500 1
      taken h = ground arith
