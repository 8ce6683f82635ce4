-- ===== src/Monitor/Polls.antt =====
-- One poll of internal/monitor/monitor.go: the batch that it sends.
use an_lf.Base.{
  Dict, ℕ, ◌<◌, ◌≤◌, ◌≢◌, All, true, false, ◌≡◌, ◌⊎◌, Option, none, some, List, [], ◌∷◌, ◌++◌, map,
  Bytes, length, arith, ap, ◌∙◌,
}
use an_lf.Float.{Float64}
use an_lf.Models.{UeFeatureVector, UeTrafficRecord, BatchUeTrafficRecords}
use an_lf.Features.{UeMetrics, convert_to_features, zero_features}
use an_lf.Monitor.{
  export_top, send_for, poll_read, TrafficMonitor, Poll, cache_get, find_metrics, ip_to_uint32,
  poll_batch, send_batch, poll_and_send,
}

module _ {F : Type 0} (fl : Float64 F) where
  -- The features of the counters, or none at all where there are no counters.
  pub features_of : Option UeMetrics → UeFeatureVector F
  features_of none = zero_features fl
  features_of (some m) = convert_to_features fl (some m)

  -- The record shows the sample, or says that there is none.
  pub Shows : Option Bytes → UeTrafficRecord F → Type 0
  Shows none r = r.has_tls_sample ≡ false
  Shows (some h) r = (r.has_tls_sample ≡ true) × (r.tls_hello_hex ≡ h)

  -- What a record says of its UE: the features of the counters that were read for its address, and
  -- the sample that the cache holds for it.
  pub record Tells (cache : Dict Bytes) (ms : List (ℕ × UeMetrics)) (r : UeTrafficRecord F)
      : Type 0 where
    pub features : r.features ≡ features_of (find_metrics (ip_to_uint32 r.ue_ip) ms)
    pub sample : Shows (cache_get cache r.ue_ip) r

  -- One record for each UE of the table, in its order, each with its address and its SUPI, its
  -- features and its sample.
  pub record IsComplete (cache : Dict Bytes) (p : Poll) (ms : List (ℕ × UeMetrics))
      (batch : BatchUeTrafficRecords F) : Type 0 where
    pub ips : map (λ r. r.ue_ip) batch.records ≡ p.ue_ips
    pub supis : map (λ r. r.supi) batch.records ≡ map p.supi_of p.ue_ips
    pub tells : All (Tells cache ms) batch.records
    pub size : batch.batch_size ≡ length batch.records

  module _ {S : Type 0} where
    -- The counters cannot be read, the table of UEs is empty, or the channel is full.
    pub SendsNothing : TrafficMonitor F S → Poll → Type 0
    SendsNothing m p =
        (p.metrics ≡ none) ⊎ (p.ue_ips ≡ []) ⊎ (m.feature_capacity ≤ length m.feature_chan)

    -- A complete batch is added to a channel with room.
    pub record Sends (m : TrafficMonitor F S) (p : Poll) (m' : TrafficMonitor F S) : Type 0 where
      pub metrics : List (ℕ × UeMetrics)
      pub were_read : p.metrics ≡ some metrics
      pub has_ues : p.ue_ips ≢ []
      pub room : length m.feature_chan < m.feature_capacity
      pub batch : BatchUeTrafficRecords F
      pub is_sent : m'.feature_chan ≡ m.feature_chan ++ batch ∷ []
      pub complete : IsComplete m.tls_cache p metrics batch

    pub record Polled (m : TrafficMonitor F S) (p : Poll) (m' : TrafficMonitor F S) : Type 0 where
      pub same_capacity : m'.feature_capacity ≡ m.feature_capacity
      pub same_cache : m'.tls_cache ≡ m.tls_cache
      pub outcome : (SendsNothing m p × (m'.feature_chan ≡ m.feature_chan)) ⊎ Sends m p m'

    -- A poll whose reads succeed, with a UE in the table and room in the channel, sends its batch.
    pub poll_and_send_sends :
        (m : TrafficMonitor F S) (p : Poll) (ms : List (ℕ × UeMetrics)) (ip : Bytes)
        (ips : List Bytes)
        → p.metrics ≡ some ms
        → p.ue_ips ≡ ip ∷ ips
        → length m.feature_chan < m.feature_capacity
        → (poll_and_send fl m p).feature_chan
          ≡ m.feature_chan ++ poll_batch fl m.tls_cache p ms ∷ []
    unfolding poll_and_send
    poll_and_send_sends m p ms ip ips e f room =
        let m' : TrafficMonitor F S = record m {
          top_n_state = export_top fl m.top_n_exporter p.top_stats m.top_n_state;
        } in
        ap (λ o. (poll_read fl m p o).feature_chan) e
        ∙ ap (λ l. (send_for fl m' p ms l).feature_chan) f
        ∙ sent m' (poll_batch fl m.tls_cache p ms) room
      where
        sent :
            (m : TrafficMonitor F S) (batch : BatchUeTrafficRecords F)
            → length m.feature_chan < m.feature_capacity
            → (send_batch fl m batch).feature_chan ≡ m.feature_chan ++ batch ∷ []
        sent m batch room = unfold send_batch in ground arith
