-- ===== src/Analyzer/Averages.antt =====
-- The averages of `processBatch` (internal/analyzer/analyzer.go) against the means of two lists.
use an_lf.Base.{
  ℕ, suc, ◌+◌, ◌∙◌, ◌≡◌, refl, not, ◌&&◌, List, [], ◌∷◌, keep, Bool-cases, inl, inr, ltb, length,
  if◌then◌else◌, some, arith,
}
use an_lf.Base.Int.{pos}
use an_lf.Float.{Float64}
use an_lf.Models.{UeFeatureVector, UeTrafficRecord, GlobalNetworkStats, BatchUeTrafficRecords}
use an_lf.Analyzer.{
  add_record, Sums, is_inactive, no_sums, add_uplink, add_downlink, add_records, average, averages,
  global_stats,
}

-- The length, counted from a number on.
count_from : {A : Type 0} → ℕ → List A → ℕ
count_from n [] = n
count_from n (x ∷ xs) = count_from (suc n) xs

count_from-length : {A : Type 0} (n : ℕ) (xs : List A) → count_from n xs ≡ n + length xs
unfolding count_from
count_from-length n [] = omega arith
count_from-length n (x ∷ xs) = count_from-length (suc n) xs ∙ omega arith

count_from_zero : {A : Type 0} (xs : List A) → count_from 0 xs ≡ length xs
count_from_zero xs = count_from-length 0 xs ∙ omega arith

module _ {F : Type 0} (fl : Float64 F) where
  is_inactive_lem :
      (r : UeTrafficRecord F)
      → (fl.eq r.features.ul_log_pps (fl.lit 0 0)
          && fl.eq r.features.avg_len (fl.lit 0 0)
          && fl.eq r.features.new_flow_rate (fl.lit 0 0))
        ≡ is_inactive fl r
  unfolding is_inactive
  is_inactive_lem r = refl

  -- The UEs with an uplink packet rate, a mean length or a rate of new flows that is not 0.
  abbrev pub active : List (UeTrafficRecord F) → List (UeTrafficRecord F)
  active rs =
      keep
        (λ r. not (
          fl.eq r.features.ul_log_pps (fl.lit 0 0)
          && fl.eq r.features.avg_len (fl.lit 0 0)
          && fl.eq r.features.new_flow_rate (fl.lit 0 0)))
        rs

  -- Those of them with a downlink packet rate above 0.
  abbrev pub with_downlink : List (UeTrafficRecord F) → List (UeTrafficRecord F)
  with_downlink rs = keep (λ r. fl.lt (fl.lit 0 0) r.features.dl_log_pps) (active rs)

  pub total : (UeFeatureVector F → F) → F → List (UeTrafficRecord F) → F
  total feature x [] = x
  total feature x (r ∷ rs) = total feature (fl.add x (feature r.features)) rs

  -- The mean of a feature over the records, rounded to two decimal places.
  pub mean : (UeFeatureVector F → F) → List (UeTrafficRecord F) → F
  mean feature rs =
      fl.div
        (fl.round (
          fl.mul (fl.div (total feature (fl.lit 0 0) rs) (fl.of_int (pos (length rs))))
            (fl.lit 100 0)))
        (fl.lit 100 0)

  -- The uplink means are those of the active UEs, and the downlink means those of the active UEs
  -- with downlink traffic, 0 if there are none.
  pub active_averages : List (UeTrafficRecord F) → GlobalNetworkStats F
  active_averages rs =
      let up = λ (feature : UeFeatureVector F → F). mean feature (active rs) in
      let down = λ (feature : UeFeatureVector F → F).
        if ltb 0 (length (with_downlink rs)) then mean feature (with_downlink rs) else fl.lit 0 0 in
      record {
        avg_ul_log_pps = up (λ v. v.ul_log_pps);
        avg_dl_log_pps = down (λ v. v.dl_log_pps);
        avg_ul_len = up (λ v. v.avg_len);
        avg_dl_len = down (λ v. v.dl_avg_len);
        avg_pps_ratio = down (λ v. v.pps_ratio);
        avg_byte_ratio = down (λ v. v.byte_ratio);
        avg_new_flow_rate = up (λ v. v.new_flow_rate);
        avg_fan_out = up (λ v. v.fan_out);
      }

  -- The sums of the loop, as totals over the two lists.
  sums_of : Sums F → List (UeTrafficRecord F) → Sums F
  sums_of s rs = record {
    ul_log_pps = total (λ v. v.ul_log_pps) s.ul_log_pps (active rs);
    dl_log_pps = total (λ v. v.dl_log_pps) s.dl_log_pps (with_downlink rs);
    ul_len = total (λ v. v.avg_len) s.ul_len (active rs);
    dl_len = total (λ v. v.dl_avg_len) s.dl_len (with_downlink rs);
    pps_ratio = total (λ v. v.pps_ratio) s.pps_ratio (with_downlink rs);
    byte_ratio = total (λ v. v.byte_ratio) s.byte_ratio (with_downlink rs);
    new_flow_rate = total (λ v. v.new_flow_rate) s.new_flow_rate (active rs);
    fan_out = total (λ v. v.fan_out) s.fan_out (active rs);
    active_count = count_from s.active_count (active rs);
    dl_active_count = count_from s.dl_active_count (with_downlink rs);
  }

  add_record-sums_of :
      (s : Sums F) (r : UeTrafficRecord F) (rs : List (UeTrafficRecord F))
      → sums_of (add_record fl s r) rs ≡ sums_of s (r ∷ rs)
  unfolding add_record is_inactive add_uplink add_downlink sums_of total count_from
  add_record-sums_of s r rs = elim (Bool-cases (is_inactive fl r)) [
    | inl idle ↦ rw (is_inactive_lem r ∙ idle) refl
    | inr busy ↦ elim (Bool-cases (fl.lt (fl.lit 0 0) r.features.dl_log_pps)) [
      | inl down ↦ rw (is_inactive_lem r ∙ busy, down) refl
      | inr up ↦ rw (is_inactive_lem r ∙ busy, up) refl
    ]
  ]

  add_records-sums_of :
      (s : Sums F) (rs : List (UeTrafficRecord F)) → add_records fl s rs ≡ sums_of s rs
  unfolding add_records
  add_records-sums_of s [] = unfold sums_of total count_from in refl
  add_records-sums_of s (r ∷ rs) =
      add_records-sums_of (add_record fl s r) rs ∙ add_record-sums_of s r rs

  averages-active_averages :
      (rs : List (UeTrafficRecord F)) → averages fl (sums_of (no_sums fl) rs) ≡ active_averages rs
  unfolding averages average active_averages mean sums_of no_sums
  averages-active_averages rs =
      rw (count_from_zero (active rs), count_from_zero (with_downlink rs)) refl

  active_count-length :
      (rs : List (UeTrafficRecord F)) → (sums_of (no_sums fl) rs).active_count ≡ length (active rs)
  unfolding sums_of no_sums
  active_count-length rs = count_from_zero (active rs)

  -- The statistics of a batch are the means over its active UEs, and for the downlink over those of
  -- them with downlink traffic. A UE is active if its uplink packet rate, its mean length and its
  -- rate of new flows are not all 0, so one with downlink traffic only does not count. A batch
  -- without an active UE, or with a size of 0, keeps the statistics that it came with.
  pub global_stats-active_averages :
      (b : BatchUeTrafficRecords F)
      → global_stats fl b ≡ (
          if ltb 0 b.batch_size && ltb 0 (length (active b.records))
          then some (active_averages b.records)
          else b.global_stats)
  unfolding global_stats
  global_stats-active_averages b =
      rw
        (
          add_records-sums_of (no_sums fl) b.records,
          averages-active_averages b.records,
          active_count-length b.records,
        )
        refl
