-- ===== src/Scorer/Refinement.antt =====
-- The table of internal/analyzer/scorer/risk_scorer.go against its specification: one automaton for
-- each UE, which sees only the requests that name it.
use an_lf.Base.{
  ◌≡◌, refl, sym, ap, ◌∙◌, inl, inr, Bool, true, false, Option, none, some, List, [], ◌∷◌, Bytes,
  bytes_eq, bytes_eq_iff, lookup, insert, lookup-insert, Dict, Option-cases, Bool-cases,
  if◌then◌else◌,
}
use an_lf.Base.Int.{ℤ, pos}
use an_lf.Float.{Float64}
use an_lf.Models.{InferenceResult}
use an_lf.Scorer.{
  UeRiskState, RiskScorer, normal, new_ue_state, update, state_of, process_one_ue,
  process_inference_results, get_ue_state, reset_ue,
}

-- A call of the scorer with the time at which it happens. A reset that fails changes nothing.
pub data Request (F : Type 0) : Type 0 where
  batch : List (InferenceResult F) → ℤ → Request F
  reset : Bytes → ℤ → Request F

module _ {F : Type 0} (fl : Float64 F) where
  abbrev pub or_unchanged : RiskScorer F → Option (RiskScorer F) → RiskScorer F
  or_unchanged rs none = rs
  or_unchanged rs (some rs') = rs'

  unfoldable pub run_requests : List (Request F) → RiskScorer F → RiskScorer F
  unfolding process_inference_results reset_ue
  run_requests [] rs = rs
  run_requests (batch results now ∷ requests) rs =
      run_requests requests (process_inference_results fl rs results now).0
  run_requests (reset supi now ∷ requests) rs =
      run_requests requests (or_unchanged rs (reset_ue fl rs supi now))

  -- The automaton of one UE: what is known of it, if anything. `rs` gives the settings only.
  abbrev pub known_or_new : Bytes → ℤ → Option (UeRiskState F) → UeRiskState F
  known_or_new supi now none = new_ue_state fl supi now
  known_or_new supi now (some s) = s

  unfoldable pub ue_results :
      RiskScorer F
      → Bytes
      → List (InferenceResult F)
      → ℤ
      → Option (UeRiskState F)
      → Option (UeRiskState F)
  ue_results rs k [] now o = o
  ue_results rs k (r ∷ results) now o =
      ue_results rs k results now
        (if bytes_eq r.supi k then some (update fl rs r now (known_or_new r.supi now o)) else o)

  abbrev pub ue_reset : ℤ → Option (UeRiskState F) → Option (UeRiskState F)
  ue_reset now none = none
  ue_reset now (some s) = some (record s {
    score = fl.lit 0 0;
    status = normal;
    attack_count = 0;
    blocked_since = pos 0;
    last_update_ts = now;
  })

  unfoldable pub ue_replay :
      RiskScorer F → Bytes → List (Request F) → Option (UeRiskState F) → Option (UeRiskState F)
  unfolding ue_results
  ue_replay rs k [] o = o
  ue_replay rs k (batch results now ∷ requests) o =
      ue_replay rs k requests (ue_results rs k results now o)
  ue_replay rs k (reset supi now ∷ requests) o =
      ue_replay rs k requests (if bytes_eq supi k then ue_reset now o else o)

  -- The settings of a scorer with another table.
  abbrev with_table : RiskScorer F → Dict (UeRiskState F) → RiskScorer F
  with_table rs m = record rs { ue_states = m }

  -- A scorer with the same settings whose table has `o` for the UE.
  abbrev HasEntry : RiskScorer F → Bytes → Option (UeRiskState F) → RiskScorer F → Type 0
  HasEntry rs k o after = (m : Dict (UeRiskState F)) × (after ≡ with_table rs m) × (lookup k m ≡ o)

  state_of-known :
      (rs : RiskScorer F) (m : Dict (UeRiskState F)) (k : Bytes) (now : ℤ)
      → state_of fl (with_table rs m) k now ≡ known_or_new k now (lookup k m)
  unfolding state_of new_ue_state lookup
  state_of-known rs m k now = elim (Option-cases (lookup k m)) [
    | inl e ↦ rw e refl
    | inr (s, e) ↦ rw e refl
  ]

  update-with_table :
      (rs : RiskScorer F) (m : Dict (UeRiskState F)) (r : InferenceResult F) (now : ℤ)
      (s : UeRiskState F)
      → update fl (with_table rs m) r now s ≡ update fl rs r now s
  unfolding update
  update-with_table rs m r now s = refl

  process_one_ue-refines :
      (rs : RiskScorer F) (m : Dict (UeRiskState F)) (k : Bytes) (r : InferenceResult F) (now : ℤ)
      → HasEntry rs k
          (if bytes_eq r.supi k
            then some (update fl rs r now (known_or_new r.supi now (lookup k m)))
            else lookup k m)
          (process_one_ue fl (with_table rs m) r now).0
  unfolding process_one_ue
  process_one_ue-refines rs m k r now =
      let old = state_of fl (with_table rs m) r.supi now in
      let s = update fl (with_table rs m) r now old in
      (
        insert r.supi s m,
        refl,
        lookup-insert r.supi k s m ∙ elim (Bool-cases (bytes_eq r.supi k)) [
          | inl h ↦ rw h (
              ap some (
                update-with_table rs m r now old
                ∙ ap (update fl rs r now) (
                    state_of-known rs m r.supi now
                    ∙ ap (λ j. known_or_new r.supi now (lookup j m))
                        ((bytes_eq_iff r.supi k).0 h))))
          | inr h ↦ rw h refl
        ],
      )

  batch-refines :
      (rs : RiskScorer F) (m : Dict (UeRiskState F)) (k : Bytes)
      (results : List (InferenceResult F)) (now : ℤ)
      → HasEntry rs k
          (ue_results rs k results now (lookup k m))
          (process_inference_results fl (with_table rs m) results now).0
  unfolding process_inference_results ue_results
  batch-refines rs m k [] now = (m, refl, refl)
  batch-refines rs m k (r ∷ results) now =
      let (m1, same, found) = process_one_ue-refines rs m k r now in
      let (m2, same2, found2) = batch-refines rs m1 k results now in
      (
        m2,
        ap (λ s. (process_inference_results fl s results now).0) same ∙ same2,
        found2 ∙ ap (ue_results rs k results now) found,
      )

  -- A reset seen at a UE, with what it leaves for the UE that it names.
  at_key :
      (m : Dict (UeRiskState F)) (k supi : Bytes) (now : ℤ) (o : Option (UeRiskState F))
      → lookup supi m ≡ o
      → (if bytes_eq supi k then ue_reset now o else lookup k m)
        ≡ (if bytes_eq supi k then ue_reset now (lookup k m) else lookup k m)
  at_key m k supi now o e = elim (Bool-cases (bytes_eq supi k)) [
    | inl h ↦ rw h (ap (ue_reset now) (sym e ∙ ap (λ j. lookup j m) ((bytes_eq_iff supi k).0 h)))
    | inr h ↦ rw h refl
  ]

  if_same :
      (b : Bool) (o old : Option (UeRiskState F))
      → (b ≡ true → old ≡ o)
      → old ≡ (if b then o else old)
  if_same true o old h = h refl
  if_same false o old h = refl

  reset-refines :
      (rs : RiskScorer F) (m : Dict (UeRiskState F)) (k supi : Bytes) (now : ℤ)
      → HasEntry rs k
          (if bytes_eq supi k then ue_reset now (lookup k m) else lookup k m)
          (or_unchanged (with_table rs m) (reset_ue fl (with_table rs m) supi now))
  unfolding reset_ue lookup
  reset-refines rs m k supi now = elim (Option-cases (lookup supi m)) [
    | inl e ↦ (
      m,
      rw e refl,
      if_same (bytes_eq supi k) none (lookup k m)
            (λ h. ap (λ j. lookup j m) (sym ((bytes_eq_iff supi k).0 h)) ∙ e)
          ∙ at_key m k supi now none e,
    )
    | inr (s, e) ↦
        (insert supi _ m, rw e refl, lookup-insert supi k _ m ∙ at_key m k supi now (some s) e)
  ]

  run_requests-table :
      (requests : List (Request F)) (rs : RiskScorer F) (m : Dict (UeRiskState F)) (k : Bytes)
      → HasEntry rs k
          (ue_replay rs k requests (lookup k m))
          (run_requests requests (with_table rs m))
  unfolding run_requests ue_replay
  run_requests-table [] rs m k = (m, refl, refl)
  run_requests-table (batch results now ∷ requests) rs m k =
      let (m1, same, found) = batch-refines rs m k results now in
      let (m2, same2, found2) = run_requests-table requests rs m1 k in
      (m2, ap (run_requests requests) same ∙ same2, found2 ∙ ap (ue_replay rs k requests) found)
  run_requests-table (reset supi now ∷ requests) rs m k =
      let (m1, same, found) = reset-refines rs m k supi now in
      let (m2, same2, found2) = run_requests-table requests rs m1 k in
      (m2, ap (run_requests requests) same ∙ same2, found2 ∙ ap (ue_replay rs k requests) found)

  -- After any batches and resets, however they mix the UEs, what `GetUEState` returns for a UE is
  -- what an automaton of its own has reached from its old state by the results and resets that name
  -- it. The settings are as they were.
  pub run_requests_refines :
      (requests : List (Request F)) (rs : RiskScorer F) (k : Bytes)
      → (get_ue_state (run_requests requests rs) k ≡ ue_replay rs k requests (get_ue_state rs k))
        × ((run_requests requests rs).config ≡ rs.config)
  unfolding get_ue_state
  run_requests_refines requests rs k =
      let (m, same, found) = run_requests-table requests rs rs.ue_states k in
      (ap (λ s. lookup k s.ue_states) same ∙ found, ap (λ s. s.config) same)
