-- ===== src/Settings.antt =====
-- pkg/factory/config.go: the sections of the configuration. A pointer that is nil, such as a
-- section that the file leaves out, is `none`.
pub mod Bounds
pub mod Getters
pub mod Logging
pub mod Scoring
pub mod Validation
use an_lf.Base.{Bool, Option, List, Bytes}
use an_lf.Base.Int.{ℤ}

pub record Info : Type 0 where
  pub version : Bytes
  pub description : Bytes

pub record Cert : Type 0 where
  pub pem : Bytes
  pub key : Bytes

pub record Sbi : Type 0 where
  pub scheme : Bytes
  pub binding_ipv4 : Bytes
  pub register_ipv4 : Bytes
  pub port : ℤ
  pub cert : Option Cert

pub record Logger : Type 0 where
  pub enable : Bool
  pub level : Bytes
  pub report_caller : Bool

pub record Recording : Type 0 where
  pub enable : Bool
  pub output_dir : Bytes

pub record Ebpf : Type 0 where
  pub enable : Bool
  pub interface : Bytes

pub record Monitoring : Type 0 where
  pub enable : Bool
  pub poll_interval : ℤ
  pub ue_table_path : Bytes

pub record Smf : Type 0 where
  pub url : Bytes
  pub poll_interval : ℤ

pub record RiskScoring (F : Type 0) : Type 0 where
  pub enable : Bool
  pub llm_confidence_cutoff : F
  pub hits_to_ban : ℤ
  pub seconds_to_forgive : ℤ
  pub block_threshold : F
  pub unblock_threshold : F

pub record AnomalyDetection (F : Type 0) : Type 0 where
  pub enable : Bool
  pub server_url : Bytes
  pub timeout : ℤ
  pub max_concurrent : ℤ
  pub system_prompt_path : Bytes
  pub batch_size : ℤ
  pub temperature : F
  pub max_tokens : ℤ
  pub include_global_context : Bool
  pub risk_scoring : Option (RiskScoring F)

pub record Configuration (F : Type 0) : Type 0 where
  pub nf_name : Bytes
  pub sbi : Option Sbi
  pub service_name_list : List Bytes
  pub nrf_uri : Bytes
  pub nrf_cert_pem : Bytes
  pub recording : Option Recording
  pub ebpf : Option Ebpf
  pub monitoring : Option Monitoring
  pub smf : Option Smf
  pub anomaly_detection : Option (AnomalyDetection F)

pub record Config (F : Type 0) : Type 0 where
  pub info : Option Info
  pub configuration : Option (Configuration F)
  pub logger : Option Logger
