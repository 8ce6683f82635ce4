-- ===== src/Rows.antt =====
-- The rows that the exporters of internal/analyzer/exporter write, with their headers.
use an_lf.Base.{ℕ, ◌/◌, ◌%◌, ◌^◌, none, some, List, [], ◌∷◌, ◌++◌, Bytes, bytes, get_elem?}
use an_lf.Base.Int.{ℤ}
use an_lf.Base.Decimal.{format_nat, format_int, format_bool, format_ip}
use an_lf.Float.{Float64}
use an_lf.Models.{UeTrafficRecord, InferenceResult, EnhancedInferenceResult}
use an_lf.TopStats.{TopStat, TopStats}

unfoldable pub csv_header : List Bytes
csv_header =
    bytes "timestamp"
    ∷ bytes "supi"
    ∷ bytes "ue_ip"
    ∷ bytes "ul_log_pps"
    ∷ bytes "global_ul_log_pps"
    ∷ bytes "dl_log_pps"
    ∷ bytes "global_dl_log_pps"
    ∷ bytes "ul_avg_len"
    ∷ bytes "global_ul_avg_len"
    ∷ bytes "dl_avg_len"
    ∷ bytes "global_dl_avg_len"
    ∷ bytes "pps_ratio"
    ∷ bytes "global_pps_ratio"
    ∷ bytes "byte_ratio"
    ∷ bytes "global_byte_ratio"
    ∷ bytes "tcp_ratio"
    ∷ bytes "udp_ratio"
    ∷ bytes "icmp_ratio"
    ∷ bytes "syn_ratio"
    ∷ bytes "rst_ratio"
    ∷ bytes "new_flow_rate"
    ∷ bytes "global_new_flow_rate"
    ∷ bytes "fan_out"
    ∷ bytes "global_fan_out"
    ∷ bytes "ack_ratio"
    ∷ bytes "has_tls_sample"
    ∷ bytes "tls_hello_hex"
    ∷ []

unfoldable pub inference_header : List Bytes
inference_header =
    bytes "timestamp"
    ∷ bytes "supi"
    ∷ bytes "anomaly_score"
    ∷ bytes "risk_score"
    ∷ bytes "status"
    ∷ bytes "is_blocked"
    ∷ bytes "attack_detected"
    ∷ []

unfoldable pub top_header : List Bytes
top_header =
    bytes "timestamp"
    ∷ bytes "top1_subnet"
    ∷ bytes "top1_subnet_bytes"
    ∷ bytes "top2_subnet"
    ∷ bytes "top2_subnet_bytes"
    ∷ bytes "top3_subnet"
    ∷ bytes "top3_subnet_bytes"
    ∷ bytes "top1_port"
    ∷ bytes "top1_port_bytes"
    ∷ bytes "top2_port"
    ∷ bytes "top2_port_bytes"
    ∷ bytes "top3_port"
    ∷ bytes "top3_port_bytes"
    ∷ bytes "top1_ip"
    ∷ bytes "top1_ip_bytes"
    ∷ bytes "top2_ip"
    ∷ bytes "top2_ip_bytes"
    ∷ bytes "top3_ip"
    ∷ bytes "top3_ip_bytes"
    ∷ []

-- `IPFromNetByteOrder` of pkg/ebpf/manager.go: the four bytes, lowest first, as written.
unfoldable pub ip_string : ℕ → Bytes
ip_string n = format_ip (n % 256) (n / 2 ^ 8 % 256) (n / 2 ^ 16 % 256) (n / 2 ^ 24 % 256)

-- The pair of cells for place i of a top-3 list.
pub top_cells : (ℕ → Bytes) → List TopStat → ℕ → List Bytes
top_cells key_string stats i = elim (get_elem? stats i) [
  | none ↦ [] ∷ bytes "0" ∷ []
  | some s ↦ key_string s.key ∷ format_nat s.traffic ∷ []
]

unfoldable pub top_row : TopStats → ℤ → List Bytes
unfolding top_cells ip_string
top_row stats now =
    format_int now
    ∷ (top_cells (λ k. ip_string k ++ bytes "/24") stats.top_subnets 0
        ++ (top_cells (λ k. ip_string k ++ bytes "/24") stats.top_subnets 1
            ++ (top_cells (λ k. ip_string k ++ bytes "/24") stats.top_subnets 2
                ++ (top_cells format_nat stats.top_ports 0
                    ++ (top_cells format_nat stats.top_ports 1
                        ++ (top_cells format_nat stats.top_ports 2
                            ++ (top_cells ip_string stats.top_ips 0
                                ++ (top_cells ip_string stats.top_ips 1
                                    ++ top_cells ip_string stats.top_ips 2))))))))

module _ {F : Type 0} (fl : Float64 F) where
  -- `exportRecord`'s row.
  unfoldable pub record_row : UeTrafficRecord F → List Bytes
  record_row r =
      let two = fl.format 2 in
      format_int r.timestamp
      ∷ r.supi
      ∷ r.ue_ip
      ∷ two r.features.ul_log_pps
      ∷ two r.global_ul_log_pps
      ∷ two r.features.dl_log_pps
      ∷ two r.global_dl_log_pps
      ∷ two r.features.avg_len
      ∷ two r.global_ul_avg_len
      ∷ two r.features.dl_avg_len
      ∷ two r.global_dl_avg_len
      ∷ two r.features.pps_ratio
      ∷ two r.global_pps_ratio
      ∷ two r.features.byte_ratio
      ∷ two r.global_byte_ratio
      ∷ two r.features.tcp_ratio
      ∷ two r.features.udp_ratio
      ∷ two r.features.icmp_ratio
      ∷ two r.features.syn_ratio
      ∷ two r.features.rst_ratio
      ∷ two r.features.new_flow_rate
      ∷ two r.global_new_flow_rate
      ∷ two r.features.fan_out
      ∷ two r.global_fan_out
      ∷ two r.features.ack_ratio
      ∷ format_bool r.has_tls_sample
      ∷ r.tls_hello_hex
      ∷ []

  -- The two rows of `InferenceResultExporter.Export`.
  unfoldable pub enhanced_row : EnhancedInferenceResult F → List Bytes
  enhanced_row e =
      format_int e.result.timestamp
      ∷ e.result.supi
      ∷ fl.format 3 e.result.anomaly_score
      ∷ fl.format 2 e.risk_score
      ∷ e.status
      ∷ format_bool e.is_blocked
      ∷ format_bool e.attack_detected
      ∷ []

  unfoldable pub legacy_row : InferenceResult F → List Bytes
  legacy_row r =
      format_int r.timestamp
      ∷ r.supi
      ∷ fl.format 3 r.anomaly_score
      ∷ bytes "0.00"
      ∷ bytes "NORMAL"
      ∷ bytes "false"
      ∷ bytes "false"
      ∷ []
