-- ===== src/AnalyzerRun.antt =====
-- The goroutine of internal/analyzer/analyzer.go with the channel that it reads, and `Stop`, which
-- waits for it. An event is one choice of a `select` or one call; the handling of a batch is one
-- event (`Analyzer`).
pub mod Laws
use an_lf.Base.{
  ℕ, Bool, true, false, ◌&&◌, Option, none, some, List, [], ◌∷◌, ◌++◌, ltb, length, if◌then◌else◌,
}
use an_lf.Base.Runs.{run_events}
use an_lf.Float.{Float64}
use an_lf.Models.{BatchUeTrafficRecords}
use an_lf.Analyzer.{FlowAnalyzer, Sent, process_batch}

-- The loop is not started, runs, or has returned and closed `doneChan`.
pub data Loop : Type 0 where
  unstarted looping returned : Loop

-- `Stop` is not called, waits for `doneChan`, or has returned nil or the error for its timeout.
pub data Stopping : Type 0 where
  uncalled waiting stopped timed_out : Stopping

pub record AnalyzerRun (F : Type 0) : Type 0 where
  pub analyzer : FlowAnalyzer
  -- The channel of the batches, oldest first, its capacity, and whether it is closed.
  pub channel : List (BatchUeTrafficRecords F)
  pub capacity : ℕ
  pub closed : Bool
  -- Whether `stopChan` is closed and the context is done.
  pub told : Bool
  pub cancelled : Bool
  pub loop : Loop
  pub stop : Stopping
  -- A history: the batches that got into the channel, those that were processed, and what was sent.
  pub offered : List (BatchUeTrafficRecords F)
  pub processed : List (BatchUeTrafficRecords F)
  pub sent : List (Sent F)

-- `NewFlowAnalyzer`, with a channel and a detector that is enabled or not.
unfoldable pub new_flow_analyzer : {F : Type 0} → ℕ → Bool → AnalyzerRun F
new_flow_analyzer capacity enabled = record {
  analyzer = record { poll_counter = 0; detector_enabled = enabled };
  channel = [];
  capacity = capacity;
  closed = false;
  told = false;
  cancelled = false;
  loop = unstarted;
  stop = uncalled;
  offered = [];
  processed = [];
  sent = [];
}

-- `Start`.
unfoldable pub start_analyzer : {F : Type 0} → AnalyzerRun F → AnalyzerRun F
start_analyzer q = record q { loop = looping }

pub data Event (F : Type 0) : Type 0 where
  -- The monitor puts a batch into the channel if it has room; the channel is closed; the context
  -- ends.
  offers : BatchUeTrafficRecords F → Event F
  closes cancels : Event F
  -- The cases of the `select` in `processLoop`, the last one with a batch or with the end of the
  -- channel.
  loop_cancelled loop_stopped loop_receives loop_closed : Event F
  -- A call of `Stop`, and the two cases of its `select`.
  stop_called stop_returns stop_times_out : Event F

abbrev pub is_looping : Loop → Bool
is_looping looping = true
is_looping _ = false

abbrev pub has_returned : Loop → Bool
has_returned returned = true
has_returned _ = false

abbrev pub is_waiting : Stopping → Bool
is_waiting waiting = true
is_waiting _ = false

module _ {F : Type 0} where
  abbrev offer : AnalyzerRun F → BatchUeTrafficRecords F → AnalyzerRun F
  offer q b =
      if ltb (length q.channel) q.capacity
      then record q { channel = q.channel ++ b ∷ []; offered = q.offered ++ b ∷ [] }
      else q

  abbrev call_stop : AnalyzerRun F → Stopping → Option (AnalyzerRun F)
  call_stop q uncalled = some (record q { stop = waiting; told = true })
  call_stop q _ = none

  abbrev is_drained : List (BatchUeTrafficRecords F) → Bool
  is_drained [] = true
  is_drained (b ∷ bs) = false

module _ {F : Type 0} (fl : Float64 F) where
  unfoldable pub take_batch :
      AnalyzerRun F → List (BatchUeTrafficRecords F) → Option (AnalyzerRun F)
  unfolding process_batch
  take_batch q [] = none
  take_batch q (b ∷ rest) =
      let (analyzer, sent) = process_batch fl q.analyzer b in
      some (record q {
        analyzer = analyzer;
        channel = rest;
        processed = q.processed ++ b ∷ [];
        sent = q.sent ++ sent;
      })

  -- The state after an event, or `none` where it cannot happen. To send on a closed channel, to
  -- close it twice, and to call `Stop` twice are panics.
  unfoldable pub fire : AnalyzerRun F → Event F → Option (AnalyzerRun F)
  unfolding take_batch
  fire q (offers b) = if q.closed then none else some (offer q b)
  fire q closes = if q.closed then none else some (record q { closed = true })
  fire q cancels = some (record q { cancelled = true })
  fire q loop_cancelled =
      if q.cancelled && is_looping q.loop then some (record q { loop = returned }) else none
  fire q loop_stopped =
      if q.told && is_looping q.loop then some (record q { loop = returned }) else none
  fire q loop_receives = if is_looping q.loop then take_batch q q.channel else none
  fire q loop_closed =
      if q.closed && is_drained q.channel && is_looping q.loop
      then some (record q { loop = returned })
      else none
  fire q stop_called = call_stop q q.stop
  fire q stop_returns =
      if is_waiting q.stop && has_returned q.loop then some (record q { stop = stopped }) else none
  fire q stop_times_out = if is_waiting q.stop then some (record q { stop = timed_out }) else none

  abbrev pub run : AnalyzerRun F → List (Event F) → Option (AnalyzerRun F)
  run q es = run_events fire q es
