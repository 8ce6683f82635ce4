-- ===== src/Settings/Getters.antt =====
-- The getters of pkg/factory/config.go, with the defaults that they fill in.
use an_lf.Base.{Bool, false, Option, none, some, [], ◌∷◌, ◌++◌, Bytes, bytes, if◌then◌else◌}
use an_lf.Base.Int.{ℤ, pos, ltb_ℤ, eqb_ℤ}
use an_lf.Base.Decimal.{format_int}
use an_lf.Float.{Float64}
use an_lf.Scorer.{RiskScorerConfig}
use an_lf.Settings.{Config, RiskScoring}

abbrev pub positive_or : ℤ → ℤ → ℤ
positive_or default given = if ltb_ℤ (pos 0) given then given else default

abbrev pub text_or : Bytes → Bytes → Bytes
text_or default [] = default
text_or default (c ∷ s) = c ∷ s

-- A value of a section, or the default where the section is left out.
abbrev pub from_section {ℓ κ} : {A : Type ℓ} {B : Type κ} → B → (A → B) → Option A → B
from_section default get none = default
from_section default get (some a) = get a

-- A section of a configuration that may be left out itself.
abbrev pub section_of {ℓ κ} : {A : Type ℓ} {B : Type κ} → (A → Option B) → Option A → Option B
section_of get none = none
section_of get (some a) = get a

-- The address of a variable of the environment with that name, or else the text itself.
abbrev bound_ip : (Bytes → Bytes) → Bytes → Bytes
bound_ip env [] = bytes "0.0.0.0"
bound_ip env (c ∷ s) = text_or (c ∷ s) (env (c ∷ s))

module _ {F : Type 0} where
  -- `none` is the panic without the section Info.
  unfoldable pub get_version : Config F → Option Bytes
  get_version c = from_section none (λ i. some i.version) c.info

  -- The environment is a parameter.
  unfoldable pub get_sbi_binding_ip : (Bytes → Bytes) → Config F → Bytes
  get_sbi_binding_ip env c = elim (section_of (λ x. x.sbi) c.configuration) [
    | none ↦ bytes "0.0.0.0"
    | some s ↦ bound_ip env s.binding_ipv4
  ]

  unfoldable pub get_sbi_port : Config F → ℤ
  get_sbi_port c =
      from_section (pos 8000) (λ s. if eqb_ℤ s.port (pos 0) then pos 8000 else s.port)
        (section_of (λ x. x.sbi) c.configuration)

  unfoldable pub get_sbi_binding_addr : (Bytes → Bytes) → Config F → Bytes
  unfolding get_sbi_binding_ip get_sbi_port
  get_sbi_binding_addr env c = get_sbi_binding_ip env c ++ bytes ":" ++ format_int (get_sbi_port c)

  unfoldable pub get_sbi_scheme : Config F → Bytes
  get_sbi_scheme c =
      from_section (bytes "http") (λ s. text_or (bytes "http") s.scheme)
        (section_of (λ x. x.sbi) c.configuration)

  -- The getters of the certificate do not look for nil: `none` is a panic.
  unfoldable pub get_cert_pem_path : Config F → Option Bytes
  get_cert_pem_path c =
      from_section none (λ t. some t.pem)
        (section_of (λ s. s.cert) (section_of (λ x. x.sbi) c.configuration))

  unfoldable pub get_cert_key_path : Config F → Option Bytes
  get_cert_key_path c =
      from_section none (λ t. some t.key)
        (section_of (λ s. s.cert) (section_of (λ x. x.sbi) c.configuration))

  unfoldable pub get_recording_status : Config F → Bool
  get_recording_status c =
      from_section false (λ r. r.enable) (section_of (λ x. x.recording) c.configuration)

  unfoldable pub get_recording_output_dir : Config F → Bytes
  get_recording_output_dir c =
      from_section (bytes "./output") (λ r. text_or (bytes "./output") r.output_dir)
        (section_of (λ x. x.recording) c.configuration)

  unfoldable pub get_ebpf_enabled : Config F → Bool
  get_ebpf_enabled c = from_section false (λ e. e.enable) (section_of (λ x. x.ebpf) c.configuration)

  unfoldable pub get_ebpf_interface : Config F → Bytes
  get_ebpf_interface c =
      from_section (bytes "upfgtp") (λ e. text_or (bytes "upfgtp") e.interface)
        (section_of (λ x. x.ebpf) c.configuration)

  unfoldable pub get_monitoring_enabled : Config F → Bool
  get_monitoring_enabled c =
      from_section false (λ m. m.enable) (section_of (λ x. x.monitoring) c.configuration)

  unfoldable pub get_monitoring_poll_interval : Config F → ℤ
  get_monitoring_poll_interval c =
      from_section (pos 1) (λ m. positive_or (pos 1) m.poll_interval)
        (section_of (λ x. x.monitoring) c.configuration)

  unfoldable pub get_monitoring_ue_table_path : Config F → Bytes
  get_monitoring_ue_table_path c =
      let default = bytes "./config/static_ue_list.json" in
      from_section default (λ m. text_or default m.ue_table_path)
        (section_of (λ x. x.monitoring) c.configuration)

  unfoldable pub get_smf_url : Config F → Bytes
  get_smf_url c =
      let default = bytes "http://127.0.0.2:8000" in
      from_section default (λ s. text_or default s.url) (section_of (λ x. x.smf) c.configuration)

  unfoldable pub get_smf_poll_interval : Config F → ℤ
  get_smf_poll_interval c =
      from_section (pos 5) (λ s. positive_or (pos 5) s.poll_interval)
        (section_of (λ x. x.smf) c.configuration)

  unfoldable pub get_anomaly_detection_enabled : Config F → Bool
  get_anomaly_detection_enabled c =
      from_section false (λ a. a.enable) (section_of (λ x. x.anomaly_detection) c.configuration)

  unfoldable pub get_anomaly_detection_server_url : Config F → Bytes
  get_anomaly_detection_server_url c =
      let default = bytes "http://127.0.0.1:5000" in
      from_section default (λ a. text_or default a.server_url)
        (section_of (λ x. x.anomaly_detection) c.configuration)

  unfoldable pub get_anomaly_detection_timeout : Config F → ℤ
  get_anomaly_detection_timeout c =
      from_section (pos 5) (λ a. positive_or (pos 5) a.timeout)
        (section_of (λ x. x.anomaly_detection) c.configuration)

  unfoldable pub get_anomaly_detection_system_prompt_path : Config F → Bytes
  get_anomaly_detection_system_prompt_path c =
      let default = bytes "./prompts/anomaly_detection_basic.txt" in
      from_section default (λ a. text_or default a.system_prompt_path)
        (section_of (λ x. x.anomaly_detection) c.configuration)

  unfoldable pub get_anomaly_detection_batch_size : Config F → ℤ
  get_anomaly_detection_batch_size c =
      from_section (pos 5) (λ a. positive_or (pos 5) a.batch_size)
        (section_of (λ x. x.anomaly_detection) c.configuration)

  unfoldable pub get_anomaly_detection_max_tokens : Config F → ℤ
  get_anomaly_detection_max_tokens c =
      from_section (pos 50) (λ a. positive_or (pos 50) a.max_tokens)
        (section_of (λ x. x.anomaly_detection) c.configuration)

  unfoldable pub get_anomaly_detection_max_concurrent : Config F → ℤ
  get_anomaly_detection_max_concurrent c =
      from_section (pos 100) (λ a. positive_or (pos 100) a.max_concurrent)
        (section_of (λ x. x.anomaly_detection) c.configuration)

  unfoldable pub get_anomaly_detection_include_global_context : Config F → Bool
  get_anomaly_detection_include_global_context c =
      from_section false (λ a. a.include_global_context)
        (section_of (λ x. x.anomaly_detection) c.configuration)

module _ {F : Type 0} (fl : Float64 F) where
  abbrev given_or : F → F → F
  given_or default given = if fl.lt (fl.lit 0 0) given then given else default

  unfoldable pub get_anomaly_detection_temperature : Config F → F
  get_anomaly_detection_temperature c =
      from_section (fl.lit 1 1) (λ a. given_or (fl.lit 1 1) a.temperature)
        (section_of (λ x. x.anomaly_detection) c.configuration)

  -- The configuration of the scorer from its section, with what is not given by default.
  abbrev pub scorer_config : RiskScoring F → RiskScorerConfig F
  scorer_config r = record {
    max_score = fl.lit 1000 1;
    block_threshold = given_or (fl.lit 800 1) r.block_threshold;
    unblock_threshold = given_or (fl.lit 500 1) r.unblock_threshold;
    llm_confidence_cutoff = given_or (fl.lit 7 1) r.llm_confidence_cutoff;
    hits_to_ban = positive_or (pos 2) r.hits_to_ban;
    seconds_to_forgive = positive_or (pos 20) r.seconds_to_forgive;
    time_window_sec = pos 1;
  }

  abbrev pub from_risk_scoring : Option (RiskScoring F) → Option (RiskScorerConfig F)
  from_risk_scoring none = none
  from_risk_scoring (some r) = if r.enable then some (scorer_config r) else none

  unfoldable pub get_risk_scorer_config : Config F → Option (RiskScorerConfig F)
  get_risk_scorer_config c =
      from_section none (λ a. from_risk_scoring a.risk_scoring)
        (section_of (λ x. x.anomaly_detection) c.configuration)
