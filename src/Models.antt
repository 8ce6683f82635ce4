-- ===== src/Models.antt =====
-- pkg/models: the records that the monitor, the analyzer, the detector and the exporters share.
-- `F` is the type of float64 values. A pointer that may be nil is an `Option`.
use an_lf.Base.{ℕ, Bool, Option, List, Bytes}
use an_lf.Base.Int.{ℤ}

pub record UeFeatureVector (F : Type 0) : Type 0 where
  pub ul_log_pps : F
  pub avg_len : F
  pub icmp_ratio : F
  pub tcp_ratio : F
  pub udp_ratio : F
  pub syn_ratio : F
  pub rst_ratio : F
  pub new_flow_rate : F
  pub fan_out : F
  pub dl_log_pps : F
  pub dl_avg_len : F
  pub pps_ratio : F
  pub byte_ratio : F
  pub ack_ratio : F

-- The embedded feature vector is the field `features`.
pub record UeTrafficRecord (F : Type 0) : Type 0 where
  pub features : UeFeatureVector F
  pub timestamp : ℤ
  pub supi : Bytes
  pub ue_ip : Bytes
  pub poll_id : ℕ
  pub has_tls_sample : Bool
  pub tls_hello_hex : Bytes
  pub global_ul_log_pps : F
  pub global_dl_log_pps : F
  pub global_ul_avg_len : F
  pub global_dl_avg_len : F
  pub global_pps_ratio : F
  pub global_byte_ratio : F
  pub global_new_flow_rate : F
  pub global_fan_out : F

pub record GlobalNetworkStats (F : Type 0) : Type 0 where
  pub avg_ul_log_pps : F
  pub avg_dl_log_pps : F
  pub avg_ul_len : F
  pub avg_dl_len : F
  pub avg_pps_ratio : F
  pub avg_byte_ratio : F
  pub avg_new_flow_rate : F
  pub avg_fan_out : F

pub record BatchUeTrafficRecords (F : Type 0) : Type 0 where
  pub records : List (UeTrafficRecord F)
  pub timestamp : ℤ
  pub batch_size : ℕ
  pub poll_id : ℕ
  pub global_stats : Option (GlobalNetworkStats F)

pub record InferenceResult (F : Type 0) : Type 0 where
  pub supi : Bytes
  pub anomaly_score : F
  pub timestamp : ℤ

-- The embedded inference result is the field `result`.
pub record EnhancedInferenceResult (F : Type 0) : Type 0 where
  pub result : InferenceResult F
  pub risk_score : F
  pub status : Bytes
  pub is_blocked : Bool
  pub attack_detected : Bool
