-- ===== src/Tests/Exports.antt =====
-- Runs of the export path: the top-N statistics, the CSV exporter and the dispatcher.
use mathlib.Core.List.{Perm, Pairwise}
use an_lf.Base.{
  ℕ, zero, suc, ◌≡◌, ◌≤◌, ◌⊎◌, refl, true, false, some, none, List, [], ◌∷◌, ◌++◌, Bytes, bytes,
  length,
}
use an_lf.Base.Int.{ℤ, pos}
use an_lf.Float.Fixed.{fixed}
use an_lf.Models.{
  UeFeatureVector, UeTrafficRecord, BatchUeTrafficRecords, InferenceResult, EnhancedInferenceResult,
}
use an_lf.TopStats.{TopStat, get_top3, more_bytes}
use an_lf.TopStats.Laws.{get_top3_lem}
use an_lf.Sort.Laws.{Upto}
use an_lf.Message.{ExportMessage, result_data, traffic_record}
use an_lf.Exporter.{
  CsvWriter, write_failed, put_row, export_record, export_records, csv_exporter, stub_exporter,
}
use an_lf.Exporter.Laws.{IsLossless}
use an_lf.Dispatcher.{ExportDispatcher}

abbrev four : List TopStat
four =
    record { key = 1; traffic = 10 }
    ∷ record { key = 2; traffic = 40 }
    ∷ record { key = 3; traffic = 20 }
    ∷ record { key = 4; traffic = 40 }
    ∷ []

get_top3_lem_example :
    let (sorted, top) = get_top3 four in
    (rest : List TopStat) × Perm sorted four
    × Pairwise (Upto more_bytes) sorted
    × (sorted ≡ top ++ rest)
    × (((rest ≡ []) × (length top ≤ 3)) ⊎ (length top ≡ 3))
get_top3_lem_example = get_top3_lem four

abbrev features : UeFeatureVector ℤ
features = record {
  ul_log_pps = pos 2000;
  avg_len = pos 300;
  icmp_ratio = pos 0;
  tcp_ratio = pos 900;
  udp_ratio = pos 100;
  syn_ratio = pos 800;
  rst_ratio = pos 10;
  new_flow_rate = pos 5000;
  fan_out = pos 12000;
  dl_log_pps = pos 1000;
  dl_avg_len = pos 60;
  pps_ratio = pos 100;
  byte_ratio = pos 20;
  ack_ratio = pos 30;
}

abbrev pub traffic : Bytes → UeTrafficRecord ℤ
traffic supi = record {
  features = features;
  timestamp = pos 1700000000;
  supi = supi;
  ue_ip = bytes "10.60.0.1";
  poll_id = 3;
  has_tls_sample = true;
  tls_hello_hex = bytes "1603";
  global_ul_log_pps = pos 0;
  global_dl_log_pps = pos 0;
  global_ul_avg_len = pos 0;
  global_dl_avg_len = pos 0;
  global_pps_ratio = pos 0;
  global_byte_ratio = pos 0;
  global_new_flow_rate = pos 0;
  global_fan_out = pos 0;
}

abbrev pub batch : BatchUeTrafficRecords ℤ
batch = record {
  records = traffic (bytes "imsi-2") ∷ traffic (bytes "imsi-1") ∷ [];
  timestamp = pos 1700000000;
  batch_size = 2;
  poll_id = 3;
  global_stats = none;
}

abbrev pub inference : InferenceResult ℤ
inference = record { supi = bytes "imsi-1"; anomaly_score = pos 900; timestamp = pos 7 }

abbrev pub enhanced : EnhancedInferenceResult ℤ
enhanced = record {
  result = inference;
  risk_score = pos 50000;
  status = bytes "NORMAL";
  is_blocked = false;
  attack_detected = true;
}

-- A file that takes every row.
abbrev pub paper : CsvWriter (List (List Bytes))
paper = record {
  write = λ row w. (w ++ row ∷ [], none);
  flush = λ w. (w, none);
  close = λ w. (w, none);
}

pub paper-IsLossless : IsLossless paper (λ w. w)
paper-IsLossless = record {
  write_ok = λ _ _. refl;
  write_rows = λ _ _. refl;
  flush_ok = λ _. refl;
  flush_rows = λ _. refl;
}

-- A file with room for one row.
abbrev scrap : CsvWriter ℕ
scrap = record {
  write = λ row n. elim n [ zero ↦ (0, some (bytes "disk full")) | suc n ↦ (n, none) ];
  flush = λ n. (n, none);
  close = λ n. (n, none);
}

one_row : export_records fixed scrap (traffic (bytes "imsi-1") ∷ []) 1 ≡ (0, none)
unfolding export_records export_record put_row
one_row = refl

second_fails :
    (export_record fixed scrap (traffic (bytes "imsi-2")) 0).1
    ≡ some (write_failed (bytes "disk full"))
unfolding export_record put_row
second_fails = refl

abbrev dispatcher : ExportDispatcher ℤ (List (List Bytes)) (Unit {0})
dispatcher = record {
  traffic_exporter = csv_exporter fixed paper;
  inference_exporter = some stub_exporter;
  traffic = [];
  inference = tt;
}

-- A message whose payload is not of the type that it names.
abbrev confused : ExportMessage ℤ
confused = record { kind = traffic_record; payload = result_data inference }
