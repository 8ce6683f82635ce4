-- ===== src/Scorer/Batch.antt =====
-- The table of UE states over whole batches (`processOneUE`, `ProcessInferenceResults`, `ResetUE`
-- of internal/analyzer/scorer/risk_scorer.go).
use an_lf.Base.{
  ◌≡◌, ◌↔◌, ◌⊎◌, refl, ap, sym, subst, ◌∙◌, Bool, true, false, arith, Option-cases, inl, inr,
  if◌then◌else◌, Option, none, some, List, [], ◌∷◌, map, Bytes, bytes_eq, bytes_eq_refl, lookup,
  insert, lookup-insert, All,
}
use an_lf.Base.Int.{ℤ, pos}
use an_lf.Float.{Float64, IsIeee}
use an_lf.Models.{InferenceResult}
use an_lf.Scorer.Config.{IsValidScorer}
use an_lf.Scorer.Update.{InRange, IsSound, update-IsSound, new_ue_state-InRange}
use an_lf.Scorer.{
  UeRiskState, RiskScorer, UeStatus, normal, blocked, is_blocked_status, update, state_of,
  status_string, enhance, process_one_ue, process_inference_results, get_ue_state, reset_ue,
}

-- What a lookup after an insertion has found: the new value, or an old one.
stored_cases {ℓ} :
    {A : Type ℓ} {s : A} {found : Option A} (b : Bool) (new : A) (old : Option A)
    → found ≡ (if b then some new else old)
    → found ≡ some s
    → (new ≡ s) ⊎ (old ≡ some s)
stored_cases true new old p e = inl (ground arith)
stored_cases false new old p e = inr (sym p ∙ e)

module _ {F : Type 0} (fl : Float64 F) where
  -- Every stored state is sound.
  unfoldable pub AllSound : RiskScorer F → Type 0
  AllSound rs =
      (k : Bytes) (s : UeRiskState F) → get_ue_state rs k ≡ some s → IsSound fl rs.config s

  IsValidScorer-process :
      (rs : RiskScorer F) (result : InferenceResult F) (now : ℤ)
      → IsValidScorer fl rs
      → IsValidScorer fl (process_one_ue fl rs result now).0
  unfolding process_one_ue
  IsValidScorer-process rs result now v = record {
    valid = v.valid;
    attack_nonneg = v.attack_nonneg;
    attack_finite = v.attack_finite;
    decay_nonneg = v.decay_nonneg;
    decay_finite = v.decay_finite;
  }

  -- The state is stored for the UE of the result, and all other UEs keep theirs.
  pub process_one_ue-stores :
      (rs : RiskScorer F) (result : InferenceResult F) (now : ℤ) (k : Bytes)
      → get_ue_state (process_one_ue fl rs result now).0 k ≡ (
          if bytes_eq result.supi k
          then some (update fl rs result now (state_of fl rs result.supi now))
          else get_ue_state rs k)
  unfolding process_one_ue get_ue_state
  process_one_ue-stores rs result now k =
      lookup-insert result.supi k (update fl rs result now (state_of fl rs result.supi now))
        rs.ue_states

  state_of-InRange :
      IsIeee fl
      → (rs : RiskScorer F) (supi : Bytes) (now : ℤ) → IsValidScorer fl rs
      → AllSound rs
      → InRange fl rs.config (state_of fl rs supi now).score
  unfolding AllSound get_ue_state state_of
  state_of-InRange w rs supi now v sound = elim (Option-cases (lookup supi rs.ue_states)) [
    | inl new ↦ rw (new, state_of) (new_ue_state-InRange w rs v supi now)
    | inr (s, old) ↦ rw (old, state_of) (sound supi s old).range
  ]

  -- Updating one UE keeps every stored score in its range and every status in agreement with it.
  pub process_one_ue-AllSound :
      IsIeee fl
      → (rs : RiskScorer F) (result : InferenceResult F) (now : ℤ) → IsValidScorer fl rs
      → AllSound rs
      → AllSound (process_one_ue fl rs result now).0
  unfolding AllSound process_one_ue
  process_one_ue-AllSound w rs result now v sound k s e =
      elim (stored_cases (bytes_eq result.supi k) _ (get_ue_state rs k)
        (process_one_ue-stores rs result now k) e) [
          | inl new ↦ subst (IsSound fl rs.config) new (
              update-IsSound w rs v result now (state_of fl rs result.supi now)
                (state_of-InRange w rs result.supi now v sound))
          | inr old ↦ sound k s old
        ]

  -- A batch keeps every stored score in its range and every status in agreement with it, however
  -- its results repeat or mix UEs.
  pub process_inference_results-AllSound :
      IsIeee fl
      → (rs : RiskScorer F) (results : List (InferenceResult F)) (now : ℤ) → IsValidScorer fl rs
      → AllSound rs
      → AllSound (process_inference_results fl rs results now).0
  unfolding process_inference_results
  process_inference_results-AllSound w rs [] now v sound = sound
  process_inference_results-AllSound w rs (r ∷ rest) now v sound =
      process_inference_results-AllSound w (process_one_ue fl rs r now).0 rest now
        (IsValidScorer-process rs r now v) (process_one_ue-AllSound w rs r now v sound)

  -- A batch leaves the configuration and the steps as they are.
  pub process_inference_results-IsValidScorer :
      (rs : RiskScorer F) (results : List (InferenceResult F)) (now : ℤ)
      → IsValidScorer fl rs
      → IsValidScorer fl (process_inference_results fl rs results now).0
  unfolding process_inference_results
  process_inference_results-IsValidScorer rs [] now v = v
  process_inference_results-IsValidScorer rs (r ∷ rest) now v =
      process_inference_results-IsValidScorer (process_one_ue fl rs r now).0 rest now
        (IsValidScorer-process rs r now v)

  -- A batch reports on each of its results, in their order.
  pub process_inference_results-reports :
      (rs : RiskScorer F) (results : List (InferenceResult F)) (now : ℤ)
      → map (λ e. e.result) (process_inference_results fl rs results now).1 ≡ results
  unfolding process_inference_results process_one_ue enhance
  process_inference_results-reports rs [] now = refl
  process_inference_results-reports rs (r ∷ rest) now =
      ap (◌∷◌ r) (process_inference_results-reports (process_one_ue fl rs r now).0 rest now)

  -- A batch leaves the state of a UE alone that none of its results names.
  pub process_inference_results-frame :
      (rs : RiskScorer F) (results : List (InferenceResult F)) (now : ℤ) (k : Bytes)
      → All (λ r. bytes_eq r.supi k ≡ false) results
      → get_ue_state (process_inference_results fl rs results now).0 k ≡ get_ue_state rs k
  unfolding process_inference_results
  process_inference_results-frame rs [] now k h = refl
  process_inference_results-frame rs (r ∷ rest) now k h =
      process_inference_results-frame (process_one_ue fl rs r now).0 rest now k h.1
      ∙ rw h.0 at (process_one_ue-stores rs r now k)

  -- The report on a UE shows the score and the status that are stored for it, and flags it as
  -- blocked exactly when the stored status is blocked.
  process_one_ue-reports :
      (rs : RiskScorer F) (result : InferenceResult F) (now : ℤ)
      → let (after, e) = process_one_ue fl rs result now in
        (s : UeRiskState F) × (get_ue_state after result.supi ≡ some s)
        × (e.risk_score ≡ s.score)
        × (e.status ≡ status_string s.status)
        × ((e.is_blocked ≡ true) ↔ (s.status ≡ blocked))
        × (s.last_update_ts ≡ now)
  process_one_ue-reports rs result now =
      let s = update fl rs result now (state_of fl rs result.supi now) in
      (
        s,
        rw bytes_eq_refl at (process_one_ue-stores rs result now result.supi),
        unfold process_one_ue enhance in refl,
        unfold process_one_ue enhance in refl,
        unfold process_one_ue enhance in flag_iff s.status,
        unfold update in refl,
      )
    where
      flag_iff : (t : UeStatus) → (is_blocked_status t ≡ true) ↔ (t ≡ blocked)
      flag_iff normal = (λ h. ground arith, λ h. ground arith)
      flag_iff blocked = (λ _. refl, λ _. refl)

  -- `ResetUE` fails for a UE that is not stored. Otherwise it stores for that UE, and only for it,
  -- a state that differs from the old one in its score 0, its status normal, no attacks, no time of
  -- blocking and the new time of the update.
  pub reset_ue_lem :
      (rs : RiskScorer F) (supi : Bytes) (now : ℤ) (k : Bytes)
      → ((get_ue_state rs supi ≡ none) × (reset_ue fl rs supi now ≡ none))
        ⊎ ((s : UeRiskState F) × (rs' : RiskScorer F) × (get_ue_state rs supi ≡ some s)
            × (reset_ue fl rs supi now ≡ some rs')
            × (get_ue_state rs' k ≡ (
                if bytes_eq supi k
                then some (record {
                  supi = s.supi;
                  score = fl.lit 0 0;
                  status = normal;
                  last_update_ts = now;
                  attack_count = 0;
                  blocked_since = pos 0;
                })
                else get_ue_state rs k)))
  unfolding reset_ue get_ue_state
  reset_ue_lem rs supi now k = elim (Option-cases (lookup supi rs.ue_states)) [
    | inl missing ↦ inl (missing, rw (missing, reset_ue))
    | inr (s, found) ↦
        let s' = record s {
          score = fl.lit 0 0;
          status = normal;
          attack_count = 0;
          blocked_since = pos 0;
          last_update_ts = now;
        } in
        inr (
          s,
          record rs { ue_states = insert supi s' rs.ue_states },
          found,
          rw (found, reset_ue),
          lookup-insert supi k s' rs.ue_states,
        )
  ]
