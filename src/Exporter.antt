-- ===== src/Exporter.antt =====
-- internal/analyzer/exporter: the `Exporter` interface, the CSV exporters for traffic records,
-- inference results and top-N statistics, and the stub. The CSV writer and its file are a
-- parameter: a state `W` with the calls that the exporters make.
pub mod Laws
use an_lf.Base.{
  ℕ, ◌/◌, ◌%◌, ◌^◌, Bool, Option, none, some, List, [], ◌∷◌, ◌++◌, Bytes, bytes, bytes_lt,
  get_elem?,
}
use an_lf.Base.Int.{ℤ}
use an_lf.Base.Decimal.{format_nat, format_int, format_bool, format_ip}
use an_lf.Float.{Float64}
use an_lf.Models.{UeTrafficRecord, BatchUeTrafficRecords, InferenceResult, EnhancedInferenceResult}
use an_lf.TopStats.{TopStat, TopStats}
use an_lf.Message.{Payload, record_data, batch_data, result_data, enhanced_data, top_data}
use an_lf.Sort.{exchange_sort}
use an_lf.Rows.{
  csv_header, inference_header, top_header, ip_string, top_cells, top_row, record_row, enhanced_row,
  legacy_row,
}

pub data ExportError : Type 0 where
  invalid_type : ExportError
  write_failed flush_failed close_failed : Bytes → ExportError

-- The interface. `export` and `shutdown` return the new state and the error, if there is one.
pub record Exporter (F S : Type 0) : Type 0 where
  pub export : Payload F → S → S × Option ExportError
  pub shutdown : S → S × Option ExportError

-- `csv.Writer`: `Write`, `Flush` with the error that `Error` then reports, and the file's `Close`.
pub record CsvWriter (W : Type 0) : Type 0 where
  pub write : List Bytes → W → W × Option Bytes
  pub flush : W → W × Option Bytes
  pub close : W → W × Option Bytes

flush_error : Option Bytes → Option ExportError
flush_error none = none
flush_error (some e) = some (flush_failed e)

close_error : Option Bytes → Option ExportError
close_error none = none
close_error (some e) = some (close_failed e)

module _ {W : Type 0} (cw : CsvWriter W) where
  -- One row, as all three exporters write it.
  unfoldable pub put_row : List Bytes → W → W × Option ExportError
  unfolding flush_error
  put_row row w =
      let (w1, failed) = cw.write row w in
      let (w2, flushed) = cw.flush w1 in
      elim failed [ some e ↦ (w1, some (write_failed e)) | none ↦ (w2, flush_error flushed) ]

  -- An error of the last flush is logged only.
  pub close_csv : W → W × Option ExportError
  unfolding close_error
  close_csv w =
      let (w1, flushed) = cw.flush w in let (w2, closed) = cw.close w1 in (w2, close_error closed)

-- `sortedRecords[i].Supi > sortedRecords[j].Supi`: record j belongs before record i.
abbrev pub record_before : {F : Type 0} → UeTrafficRecord F → UeTrafficRecord F → Bool
record_before rj ri = bytes_lt rj.supi ri.supi

module _ {F W : Type 0} (fl : Float64 F) (cw : CsvWriter W) where
  unfoldable pub export_record : UeTrafficRecord F → W → W × Option ExportError
  export_record r w = put_row cw (record_row fl r) w

  -- The loop of `exportBatch` over the sorted records: it ends at the first error.
  unfoldable pub export_records : List (UeTrafficRecord F) → W → W × Option ExportError
  unfolding export_record
  export_records [] w = (w, none)
  export_records (r ∷ rest) w =
      let (w1, failed) = export_record r w in
      elim failed [ some e ↦ (w1, some e) | none ↦ export_records rest w1 ]

  unfoldable pub export_batch : BatchUeTrafficRecords F → W → W × Option ExportError
  unfolding export_records
  export_batch b w = export_records (exchange_sort record_before b.records) w

  unfoldable pub csv_export : Payload F → W → W × Option ExportError
  unfolding export_batch
  csv_export (batch_data b) w = export_batch b w
  csv_export (record_data r) w = export_record r w
  csv_export _ w = (w, some invalid_type)

  unfoldable pub inference_export : Payload F → W → W × Option ExportError
  inference_export (enhanced_data e) w = put_row cw (enhanced_row fl e) w
  inference_export (result_data r) w = put_row cw (legacy_row fl r) w
  inference_export _ w = (w, some invalid_type)

  unfoldable pub csv_exporter : Exporter F W
  unfolding csv_export
  csv_exporter = record { export = csv_export; shutdown = close_csv cw }

  unfoldable pub inference_exporter : Exporter F W
  unfolding inference_export
  inference_exporter = record { export = inference_export; shutdown = close_csv cw }

-- `TopNExporter.Export`, at a time. Its `Shutdown` is that of the others.
pub top_export : {F W : Type 0} → CsvWriter W → ℤ → Payload F → W → W × Option ExportError
top_export cw now (top_data stats) w = put_row cw (top_row stats now) w
top_export cw now _ w = (w, some invalid_type)

unfoldable pub top_exporter : {F W : Type 0} → CsvWriter W → ℤ → Exporter F W
unfolding top_export
top_exporter cw now = record { export = top_export cw now; shutdown = close_csv cw }

-- `StubExporter` takes everything and keeps nothing.
unfoldable pub stub_exporter : {F : Type 0} → Exporter F (Unit {0})
stub_exporter = record { export = λ _ s. (s, none); shutdown = λ s. (s, none) }
