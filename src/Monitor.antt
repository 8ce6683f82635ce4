-- ===== src/Monitor.antt =====
-- internal/monitor: every interval `TrafficMonitor` reads the counters of all UEs, makes a record
-- for each UE that the table of the SMF knows, and sends the batch to the analyzer. The TLS events
-- of the kernel program go to a cache beside it. What the eBPF maps return is a parameter of a
-- poll.
pub mod Addresses
pub mod Polls
use an_lf.Base.{
  ℕ, zero, suc, ◌+◌, ◌*◌, ◌-◌, ◌/◌, ◌%◌, ◌^◌, Bool, true, false, ◌&&◌, ◌||◌, not, Option, none,
  some, List, [], ◌∷◌, ◌++◌, map, Bytes, Dict, lookup, insert, ltb, leb, ◌==◌, if◌then◌else◌,
  length, take, drop,
}
use an_lf.Base.Int.{ℤ}
use an_lf.Float.{Float64}
use an_lf.Models.{UeFeatureVector, UeTrafficRecord, BatchUeTrafficRecords}
use an_lf.Address.{parse_ip}
use an_lf.TopStats.{TopStats}
use an_lf.Message.{top_data}
use an_lf.Exporter.{Exporter}
use an_lf.Rows.{ip_string}
use an_lf.Features.{UeMetrics, convert_to_features, zero_features}

-- `TlsEventCache`: `Add`, `Get` and `Len`.
unfoldable pub cache_add : Dict Bytes → Bytes → Bytes → Dict Bytes
cache_add cache ip hex_payload = insert ip hex_payload cache

unfoldable pub cache_get : Dict Bytes → Bytes → Option Bytes
cache_get cache ip = lookup ip cache

pub cache_len : Dict Bytes → ℕ
cache_len cache = length cache

abbrev hex_digit : ℕ → ℕ
hex_digit n = if ltb n 10 then 48 + n else 87 + n

-- `hex.EncodeToString`.
unfoldable pub hex : Bytes → Bytes
hex [] = []
hex (c ∷ s) = hex_digit (c / 16) ∷ hex_digit (c % 16) ∷ hex s

-- Four bytes of the event as a 32-bit number, the lowest first.
abbrev pub little_endian : ℕ → ℕ → ℕ → ℕ → ℕ
little_endian a b c d = a + b * 2 ^ 8 + c * 2 ^ 16 + d * 2 ^ 24

abbrev pub byte_at : ℕ → Bytes → ℕ
byte_at i [] = 0
byte_at zero (c ∷ s) = c
byte_at (suc i) (c ∷ s) = byte_at i s

abbrev pub uint32_at : ℕ → Bytes → ℕ
uint32_at i raw =
    little_endian (byte_at i raw) (byte_at (1 + i) raw) (byte_at (2 + i) raw) (byte_at (3 + i) raw)

-- The part of the payload that `PayloadLen` says, which is stored at 12, and at most its ten bytes.
unfoldable pub event_payload : Bytes → Bytes
event_payload raw =
    let given = uint32_at 12 raw in
    take (if ltb 10 given then 10 else given) (take 10 (drop 16 raw))

-- `parseAndCache`: the layout of `TlsEventC` is the addresses, the ports, the length and ten bytes
-- of payload, 26 bytes in all. `none` is the error for a sample that is shorter.
unfoldable pub parse_and_cache : Dict Bytes → Bytes → Option (Dict Bytes)
parse_and_cache cache raw =
    if ltb (length raw) 26
    then none
    else some (cache_add cache (ip_string (uint32_at 0 raw)) (hex (event_payload raw)))

-- `ipToUint32`, where `parse_ip` is `net.ParseIP` with `To4`.
unfoldable pub ip_to_uint32 : Bytes → ℕ
ip_to_uint32 s = elim (parse_ip s) [
  | none ↦ 0
  | some ip ↦ little_endian ip.first ip.second ip.third ip.fourth
]

pub record TrafficMonitor (F S : Type 0) : Type 0 where
  pub tls_cache : Dict Bytes
  -- The channel to the analyzer, and its capacity.
  pub feature_chan : List (BatchUeTrafficRecords F)
  pub feature_capacity : ℕ
  -- The exporter for the top-N statistics, unless there is none, and its state.
  pub top_n_exporter : Option (Exporter F S)
  pub top_n_state : S

-- What a poll meets: the two reads of the eBPF maps, `none` where they fail, the table of UEs, and
-- the clock, once for the batch and once for each record that is converted.
pub record Poll : Type 0 where
  pub metrics : Option (List (ℕ × UeMetrics))
  pub top_stats : Option TopStats
  pub ue_ips : List Bytes
  pub supi_of : Bytes → Bytes
  pub now : ℤ
  pub convert_now : Bytes → ℤ

unfoldable pub find_metrics : ℕ → List (ℕ × UeMetrics) → Option UeMetrics
find_metrics k [] = none
find_metrics k ((j, m) ∷ rest) = if j == k then some m else find_metrics k rest

module _ {F : Type 0} (fl : Float64 F) where
  -- A record without a TLS sample and without the values that the analyzer fills in.
  unfoldable pub bare_record : Bytes → Bytes → ℤ → UeFeatureVector F → UeTrafficRecord F
  bare_record ip supi now features = record {
    features = features;
    timestamp = now;
    supi = supi;
    ue_ip = ip;
    poll_id = 0;
    has_tls_sample = false;
    tls_hello_hex = [];
    global_ul_log_pps = fl.lit 0 0;
    global_dl_log_pps = fl.lit 0 0;
    global_ul_avg_len = fl.lit 0 0;
    global_dl_avg_len = fl.lit 0 0;
    global_pps_ratio = fl.lit 0 0;
    global_byte_ratio = fl.lit 0 0;
    global_new_flow_rate = fl.lit 0 0;
    global_fan_out = fl.lit 0 0;
  }

  -- `ConvertToTrafficRecord`.
  unfoldable pub convert_to_traffic_record : Bytes → Bytes → UeMetrics → ℤ → UeTrafficRecord F
  unfolding bare_record
  convert_to_traffic_record ip supi m now =
      bare_record ip supi now (convert_to_features fl (some m))

  abbrev pub with_tls : Option Bytes → UeTrafficRecord F → UeTrafficRecord F
  with_tls none r = r
  with_tls (some h) r = record r { has_tls_sample = true; tls_hello_hex = h }

  abbrev pub record_or_empty : Poll → Bytes → Option UeMetrics → UeTrafficRecord F
  record_or_empty p ip none = bare_record ip (p.supi_of ip) p.now (zero_features fl)
  record_or_empty p ip (some m) = convert_to_traffic_record ip (p.supi_of ip) m (p.convert_now ip)

  -- The record for one UE.
  unfoldable pub ue_record : Dict Bytes → Poll → List (ℕ × UeMetrics) → Bytes → UeTrafficRecord F
  ue_record cache p metrics ip =
      with_tls (cache_get cache ip) (record_or_empty p ip (find_metrics (ip_to_uint32 ip) metrics))

  unfoldable pub poll_batch : Dict Bytes → Poll → List (ℕ × UeMetrics) → BatchUeTrafficRecords F
  poll_batch cache p metrics = record {
    records = map (ue_record cache p metrics) p.ue_ips;
    timestamp = p.now;
    batch_size = length p.ue_ips;
    poll_id = 0;
    global_stats = none;
  }

  module _ {S : Type 0} where
    abbrev pub export_top : Option (Exporter F S) → Option TopStats → S → S
    export_top none stats s = s
    export_top (some x) none s = s
    export_top (some x) (some stats) s = (x.export (top_data stats) s).0

    -- The non-blocking send: a batch is dropped where the channel is full.
    unfoldable pub send_batch : TrafficMonitor F S → BatchUeTrafficRecords F → TrafficMonitor F S
    send_batch m batch =
        if ltb (length m.feature_chan) m.feature_capacity
        then record m { feature_chan = m.feature_chan ++ batch ∷ [] }
        else m

    abbrev pub send_for :
        TrafficMonitor F S → Poll → List (ℕ × UeMetrics) → List Bytes → TrafficMonitor F S
    send_for m p metrics [] = m
    send_for m p metrics (ip ∷ ips) = send_batch m (poll_batch m.tls_cache p metrics)

    abbrev pub poll_read :
        TrafficMonitor F S → Poll → Option (List (ℕ × UeMetrics)) → TrafficMonitor F S
    poll_read m p none = m
    poll_read m p (some metrics) =
        send_for (record m { top_n_state = export_top m.top_n_exporter p.top_stats m.top_n_state })
          p metrics p.ue_ips

    -- `pollAndSend`. An error of the exporter is logged only.
    unfoldable pub poll_and_send : TrafficMonitor F S → Poll → TrafficMonitor F S
    poll_and_send m p = poll_read m p p.metrics
