-- ===== src/Analyzer.antt =====
-- internal/analyzer/analyzer.go: `FlowAnalyzer` numbers the batches that come from the monitor,
-- fills in the averages over the active UEs, and passes each batch on to the export queue and to
-- the anomaly detector. Records are shared by pointer in the source: the batch that is passed on to
-- both holds the records as they are filled in here.
pub mod Averages
pub mod Batches
use an_lf.Base.{
  ◌++◌, ℕ, suc, ◌+◌, Bool, true, false, ◌&&◌, not, Option, none, some, List, [], ◌∷◌, ltb, map,
  if◌then◌else◌,
}
use an_lf.Base.Int.{ℤ, pos}
use an_lf.Float.{Float64}
use an_lf.Models.{UeFeatureVector, UeTrafficRecord, GlobalNetworkStats, BatchUeTrafficRecords}
use an_lf.Message.{ExportMessage, new_batch_traffic_records_message}

-- The sums of the loop over the records, and its two counts.
pub record Sums (F : Type 0) : Type 0 where
  pub ul_log_pps : F
  pub dl_log_pps : F
  pub ul_len : F
  pub dl_len : F
  pub pps_ratio : F
  pub byte_ratio : F
  pub new_flow_rate : F
  pub fan_out : F
  pub active_count : ℕ
  pub dl_active_count : ℕ

pub record FlowAnalyzer : Type 0 where
  pub poll_counter : ℕ
  pub detector_enabled : Bool

-- What `processBatch` calls: `EnqueueExport`, and `EnqueueBatch` of the detector.
pub data Sent (F : Type 0) : Type 0 where
  exported : ExportMessage F → Sent F
  enqueued : BatchUeTrafficRecords F → Sent F

module _ {F : Type 0} (fl : Float64 F) where
  abbrev pub is_zero : F → Bool
  is_zero x = fl.eq x (fl.lit 0 0)

  -- A UE counts as inactive if these three features are 0.
  pub is_inactive : UeTrafficRecord F → Bool
  is_inactive r =
      is_zero r.features.ul_log_pps
      && is_zero r.features.avg_len
      && is_zero r.features.new_flow_rate

  pub no_sums : Sums F
  no_sums = record {
    ul_log_pps = fl.lit 0 0;
    dl_log_pps = fl.lit 0 0;
    ul_len = fl.lit 0 0;
    dl_len = fl.lit 0 0;
    pps_ratio = fl.lit 0 0;
    byte_ratio = fl.lit 0 0;
    new_flow_rate = fl.lit 0 0;
    fan_out = fl.lit 0 0;
    active_count = 0;
    dl_active_count = 0;
  }

  pub add_uplink : Sums F → UeFeatureVector F → Sums F
  add_uplink s v = record s {
    ul_log_pps = fl.add s.ul_log_pps v.ul_log_pps;
    new_flow_rate = fl.add s.new_flow_rate v.new_flow_rate;
    ul_len = fl.add s.ul_len v.avg_len;
    fan_out = fl.add s.fan_out v.fan_out;
    active_count = suc s.active_count;
  }

  -- The downlink sums, for a UE with downlink traffic.
  pub add_downlink : Sums F → UeFeatureVector F → Sums F
  add_downlink s v =
      let more = record s {
        dl_log_pps = fl.add s.dl_log_pps v.dl_log_pps;
        dl_len = fl.add s.dl_len v.dl_avg_len;
        pps_ratio = fl.add s.pps_ratio v.pps_ratio;
        byte_ratio = fl.add s.byte_ratio v.byte_ratio;
        dl_active_count = suc s.dl_active_count;
      } in
      if fl.lt (fl.lit 0 0) v.dl_log_pps then more else s

  pub add_record : Sums F → UeTrafficRecord F → Sums F
  unfolding is_inactive add_uplink add_downlink
  add_record s r = if is_inactive r then s else add_downlink (add_uplink s r.features) r.features

  pub add_records : Sums F → List (UeTrafficRecord F) → Sums F
  unfolding add_record
  add_records s [] = s
  add_records s (r ∷ rs) = add_records (add_record s r) rs

  -- `math.Round((sum/float64(count))*100) / 100`.
  pub average : F → ℕ → F
  average sum count =
      fl.div (fl.round (fl.mul (fl.div sum (fl.of_int (pos count))) (fl.lit 100 0))) (fl.lit 100 0)

  pub averages : Sums F → GlobalNetworkStats F
  unfolding average
  averages s =
      let dl = λ (sum : F).
        if ltb 0 s.dl_active_count then average sum s.dl_active_count else fl.lit 0 0 in
      record {
        avg_ul_log_pps = average s.ul_log_pps s.active_count;
        avg_dl_log_pps = dl s.dl_log_pps;
        avg_ul_len = average s.ul_len s.active_count;
        avg_dl_len = dl s.dl_len;
        avg_pps_ratio = dl s.pps_ratio;
        avg_byte_ratio = dl s.byte_ratio;
        avg_new_flow_rate = average s.new_flow_rate s.active_count;
        avg_fan_out = average s.fan_out s.active_count;
      }

  -- The statistics of a batch; those that it came with where no UE is active.
  unfoldable pub global_stats : BatchUeTrafficRecords F → Option (GlobalNetworkStats F)
  unfolding no_sums add_records averages
  global_stats batch =
      let s = add_records no_sums batch.records in
      if ltb 0 batch.batch_size && ltb 0 s.active_count
      then some (averages s)
      else batch.global_stats

  -- The loop that fills in the records.
  pub fill : ℕ → Option (GlobalNetworkStats F) → UeTrafficRecord F → UeTrafficRecord F
  fill poll none r = record r { poll_id = poll }
  fill poll (some g) r = record r {
    poll_id = poll;
    global_ul_log_pps = g.avg_ul_log_pps;
    global_dl_log_pps = g.avg_dl_log_pps;
    global_ul_avg_len = g.avg_ul_len;
    global_dl_avg_len = g.avg_dl_len;
    global_pps_ratio = g.avg_pps_ratio;
    global_byte_ratio = g.avg_byte_ratio;
    global_new_flow_rate = g.avg_new_flow_rate;
    global_fan_out = g.avg_fan_out;
  }

  -- `processBatch`: the analyzer afterwards, and what it sends.
  unfoldable pub process_batch :
      FlowAnalyzer → BatchUeTrafficRecords F → FlowAnalyzer × List (Sent F)
  unfolding global_stats fill
  process_batch a batch =
      let poll = suc a.poll_counter in
      let stats = global_stats batch in
      let filled : BatchUeTrafficRecords F = record batch {
        poll_id = poll;
        global_stats = stats;
        records = map (fill poll stats) batch.records;
      } in
      let sent = exported (new_batch_traffic_records_message filled) in
      (
        record a { poll_counter = poll },
        if a.detector_enabled then sent ∷ enqueued filled ∷ [] else sent ∷ [],
      )

  -- The batches of `processLoop`, in the order in which they arrive.
  unfoldable pub process_batches :
      FlowAnalyzer → List (BatchUeTrafficRecords F) → FlowAnalyzer × List (Sent F)
  unfolding process_batch
  process_batches a [] = (a, [])
  process_batches a (b ∷ bs) =
      let (a', sent) = process_batch a b in
      let (a'', later) = process_batches a' bs in (a'', sent ++ later)
