-- ===== src/Exporter/Laws.antt =====
-- What the exporters of internal/analyzer/exporter write.
use mathlib.Core.List.{Perm, Pairwise}
use an_lf.Base.{
  ◌≡◌, refl, sym, ap, subst, ◌∙◌, none, some, List, [], ◌∷◌, ◌++◌, map, append-nil, append_assoc,
  arith, Bytes, length, Option-cases, inl, inr,
}
use an_lf.Base.Int.{ℤ}
use an_lf.Float.{Float64}
use an_lf.Models.{UeTrafficRecord, BatchUeTrafficRecords, InferenceResult, EnhancedInferenceResult}
use an_lf.TopStats.{TopStats}
use an_lf.Message.{batch_data}
use an_lf.Sort.{exchange_sort}
use an_lf.Sort.Laws.{Upto, exchange_sort-perm, exchange_sort-sorted}
use an_lf.Sort.Keys.{by_key-IsWeakOrder}
use an_lf.Exporter.{
  ExportError, CsvWriter, put_row, record_before, export_record, export_records, export_batch,
  csv_export, csv_exporter,
}
use an_lf.Rows.{
  record_row, enhanced_row, legacy_row, top_row, csv_header, inference_header, top_header,
}

-- Every row has a cell for each column of its header.
pub row_widths :
    {F : Type 0} (fl : Float64 F) (r : UeTrafficRecord F) (e : EnhancedInferenceResult F)
    (i : InferenceResult F) (stats : TopStats) (now : ℤ)
    → (length (record_row fl r) ≡ length csv_header)
      × (length (enhanced_row fl e) ≡ length inference_header)
      × (length (legacy_row fl i) ≡ length inference_header)
      × (length (top_row stats now) ≡ length top_header)
unfolding record_row enhanced_row legacy_row top_row csv_header inference_header top_header
row_widths fl r e i stats now = (refl, refl, refl, ground arith)

-- A writer that never fails, seen through the rows that it holds.
pub record IsLossless {W : Type 0} (cw : CsvWriter W) (rows : W → List (List Bytes)) : Type 0 where
  pub write_ok : (row : List Bytes) (w : W) → (cw.write row w).1 ≡ none
  pub write_rows : (row : List Bytes) (w : W) → rows (cw.write row w).0 ≡ rows w ++ row ∷ []
  pub flush_ok : (w : W) → (cw.flush w).1 ≡ none
  pub flush_rows : (w : W) → rows (cw.flush w).0 ≡ rows w

module _ {W : Type 0} {cw : CsvWriter W} {rows : W → List (List Bytes)}
    (l : IsLossless cw rows) where
  pub put_row_lem :
      (row : List Bytes) (w : W)
      → ((put_row cw row w).1 ≡ none) × (rows (put_row cw row w).0 ≡ rows w ++ row ∷ [])
  unfolding put_row
  put_row_lem row w = ground (
    arith,
    l.write_ok row w,
    l.write_rows row w,
    l.flush_ok (cw.write row w).0,
    l.flush_rows (cw.write row w).0,
  )

  pub export_records_lem :
      {F : Type 0} (fl : Float64 F) (rs : List (UeTrafficRecord F)) (w : W)
      → ((export_records fl cw rs w).1 ≡ none)
        × (rows (export_records fl cw rs w).0 ≡ rows w ++ map (record_row fl) rs)
  unfolding export_records
  export_records_lem fl [] w = (refl, sym (append-nil (rows w)))
  export_records_lem fl (r ∷ rest) w =
      let (ok, written) = put_row_lem (record_row fl r) w in
      let (ok', others) = export_records_lem fl rest (put_row cw (record_row fl r) w).0 in
      rw (ok, export_records)
        (
          ok',
          others
              ∙ ap (λ (t : List (List Bytes)). t ++ map (record_row fl) rest) written
              ∙ append_assoc (rows w) (record_row fl r ∷ []) (map (record_row fl) rest),
        )

  -- Exporting a batch to a writer that does not fail succeeds and appends one row for each record
  -- of the batch, in the order of the SUPIs; no record is lost or repeated.
  pub csv_export_batch :
      {F : Type 0} (fl : Float64 F) (b : BatchUeTrafficRecords F) (w : W)
      → let (w', e) = (csv_exporter fl cw).export (batch_data b) w in
        (sorted : List (UeTrafficRecord F)) × (e ≡ none)
        × Perm sorted b.records
        × Pairwise (Upto record_before) sorted
        × (rows w' ≡ rows w ++ map (record_row fl) sorted)
  unfolding csv_exporter csv_export export_batch
  csv_export_batch fl b w =
      let (ok, written) = export_records_lem fl (exchange_sort record_before b.records) w in
      (
        exchange_sort record_before b.records,
        ok,
        exchange_sort-perm record_before b.records,
        exchange_sort-sorted (by_key-IsWeakOrder (λ r. r.supi)) b.records,
        written,
      )

module _ {F W : Type 0} (fl : Float64 F) (cw : CsvWriter W) where
  export_records_ok :
      (a : UeTrafficRecord F) (rest : List (UeTrafficRecord F)) (w : W)
      → (export_record fl cw a w).1 ≡ none
      → export_records fl cw (a ∷ rest) w ≡ export_records fl cw rest (export_record fl cw a w).0
  unfolding export_records
  export_records_ok a rest w h = rw (h, export_records)

  export_records_bad :
      (a : UeTrafficRecord F) (rest : List (UeTrafficRecord F)) (w : W) {e : ExportError}
      → (export_record fl cw a w).1 ≡ some e
      → export_records fl cw (a ∷ rest) w ≡ ((export_record fl cw a w).0, some e)
  unfolding export_records
  export_records_bad a rest w h = rw (h, export_records)

  -- The batch export ends at the first record whose row fails: it returns that error, and the
  -- writer as that record left it.
  export_records_fails :
      (front rest : List (UeTrafficRecord F)) (r : UeTrafficRecord F) (w v : W) {e : ExportError}
      → export_records fl cw front w ≡ (v, none)
      → (export_record fl cw r v).1 ≡ some e
      → export_records fl cw (front ++ r ∷ rest) w ≡ ((export_record fl cw r v).0, some e)
  export_records_fails [] rest r w v {e} h f =
      subst (λ t. export_records fl cw (r ∷ rest) t ≡ ((export_record fl cw r v).0, some e))
        (sym (same h)) (export_records_bad r rest v f)
    where
      same : export_records fl cw [] w ≡ (v, none) → w ≡ v
      same = unfold export_records in λ h. ap (λ p. p.0) h
  export_records_fails (a ∷ front) rest r w v h f =
      elim (Option-cases (export_record fl cw a w).1) [
        | inl ok ↦
            export_records_ok a (front ++ r ∷ rest) w ok
            ∙ export_records_fails front rest r (export_record fl cw a w).0 v
                (sym (export_records_ok a front w ok) ∙ h) f
        | inr (e', bad) ↦ absurd (cc (export_records_bad a front w bad))
      ]
