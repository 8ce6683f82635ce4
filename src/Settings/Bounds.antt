-- ===== src/Settings/Bounds.antt =====
-- The numbers that the getters of pkg/factory/config.go return.
use an_lf.Base.{◌<◌, arith}
use an_lf.Base.Int.{pos_part}
use an_lf.Settings.{Config}
use an_lf.Settings.Getters.{
  get_monitoring_poll_interval, get_smf_poll_interval, get_anomaly_detection_timeout,
  get_anomaly_detection_batch_size, get_anomaly_detection_max_tokens,
  get_anomaly_detection_max_concurrent,
}

module _ {F : Type 0} where
  -- Whatever the configuration says, also nothing or negative numbers, the intervals of the two
  -- tickers, the timeout, the size of a batch, the number of tokens and that of requests at a time
  -- are positive.
  pub getters_positive :
      (c : Config F)
      → (0 < pos_part (get_monitoring_poll_interval c))
        × (0 < pos_part (get_smf_poll_interval c))
        × (0 < pos_part (get_anomaly_detection_timeout c))
        × (0 < pos_part (get_anomaly_detection_batch_size c))
        × (0 < pos_part (get_anomaly_detection_max_tokens c))
        × (0 < pos_part (get_anomaly_detection_max_concurrent c))
  unfolding get_monitoring_poll_interval get_smf_poll_interval get_anomaly_detection_timeout
      get_anomaly_detection_batch_size get_anomaly_detection_max_tokens
      get_anomaly_detection_max_concurrent
  getters_positive c = ground arith
