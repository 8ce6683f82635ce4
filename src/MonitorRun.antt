-- ===== src/MonitorRun.antt =====
-- The goroutines of internal/monitor/monitor.go and tls_capture.go: the loop that polls, the loop
-- that reads TLS events, and `Stop`, which waits for both. An event is one step of one of them; a
-- poll and the handling of an event are one step each (`Monitor`).
pub mod Laws
use an_lf.Base.{Bool, true, false, ◌&&◌, not, Option, none, some, List, [], ◌∷◌, if◌then◌else◌}
use an_lf.Base.Runs.{run_events}

-- The reader is not started, is made, looks at `stopChan`, waits in `Read` for an event, or has
-- returned and closed its `doneChan`.
pub data Reader : Type 0 where
  unstarted opening checking reading returned : Reader

-- The loop of the polls is not started, runs, or has returned and closed its `doneChan`.
pub data Polling : Type 0 where
  unstarted polling returned : Polling

-- `Stop` is not called, waits for the reader, waits for the loop of the polls, or has returned nil
-- or the error for its timeout.
pub data Stopping : Type 0 where
  uncalled waiting_reader waiting_polls stopped timed_out : Stopping

pub record MonitorRun : Type 0 where
  pub reader : Reader
  pub polls : Polling
  pub stop : Stopping
  -- The `stopChan` of the reader and that of the monitor, and the context.
  pub reader_told : Bool
  pub polls_told : Bool
  pub cancelled : Bool
  -- Whether the Top-N exporter has been shut down.
  pub exporter_shut : Bool

-- `NewTrafficMonitor`.
unfoldable pub new_monitor_run : MonitorRun
new_monitor_run = record {
  reader = Reader.unstarted;
  polls = Polling.unstarted;
  stop = uncalled;
  reader_told = false;
  polls_told = false;
  cancelled = false;
  exporter_shut = false;
}

-- `Start`, with a map of TLS events or without.
unfoldable pub start_monitor : Bool → MonitorRun → MonitorRun
start_monitor has_map m = record m {
  reader = if has_map then opening else m.reader;
  polls = polling;
}

pub data Event : Type 0 where
  -- The reader cannot be made, or can; it looks at `stopChan`; `Read` returns an event, or an error
  -- that is not the end of the buffer. Nothing closes the buffer while the loop runs.
  reader_fails reader_opens reader_checks reader_reads : Event
  -- The context ends.
  cancels : Event
  -- The three cases of the `select` in `pollLoop`.
  polls_cancelled polls_stopped polls_tick : Event
  -- `Stop` is called; the reader has returned; the loop of the polls has returned; the time is
  -- over.
  stop_called reader_done polls_done stop_times_out : Event

abbrev pub is_polling : Polling → Bool
is_polling polling = true
is_polling _ = false

abbrev pub is_waiting_polls : Stopping → Bool
is_waiting_polls waiting_polls = true
is_waiting_polls _ = false

abbrev reader_next : MonitorRun → Reader → Option MonitorRun
reader_next m checking =
    some (record m { reader = if m.reader_told then Reader.returned else reading })
reader_next m _ = none

abbrev reader_got : MonitorRun → Reader → Option MonitorRun
reader_got m reading = some (record m { reader = checking })
reader_got m _ = none

abbrev reader_opened : MonitorRun → Reader → Option MonitorRun
reader_opened m opening = some (record m { reader = checking })
reader_opened m _ = none

abbrev reader_gives_up : MonitorRun → Reader → Option MonitorRun
reader_gives_up m opening = some (record m { reader = Reader.returned })
reader_gives_up m _ = none

abbrev call_stop : MonitorRun → Stopping → Option MonitorRun
call_stop m uncalled = some (record m { stop = waiting_reader; reader_told = true })
call_stop m _ = none

abbrev after_reader : MonitorRun → Stopping → Reader → Option MonitorRun
after_reader m waiting_reader Reader.returned =
    some (record m { stop = waiting_polls; polls_told = true })
after_reader m _ _ = none

abbrev after_polls : MonitorRun → Stopping → Polling → Option MonitorRun
after_polls m waiting_polls Polling.returned =
    some (record m { stop = stopped; exporter_shut = true })
after_polls m _ _ = none

-- The state after an event, or `none` where it cannot happen.
unfoldable pub fire : MonitorRun → Event → Option MonitorRun
fire m reader_fails = reader_gives_up m m.reader
fire m reader_opens = reader_opened m m.reader
fire m reader_checks = reader_next m m.reader
fire m reader_reads = reader_got m m.reader
fire m cancels = some (record m { cancelled = true })
fire m polls_cancelled =
    if m.cancelled && is_polling m.polls then some (record m { polls = Polling.returned }) else none
fire m polls_stopped =
    if m.polls_told && is_polling m.polls
    then some (record m { polls = Polling.returned })
    else none
fire m polls_tick = if is_polling m.polls then some m else none
fire m stop_called = call_stop m m.stop
fire m reader_done = after_reader m m.stop m.reader
fire m polls_done = after_polls m m.stop m.polls
fire m stop_times_out =
    if is_waiting_polls m.stop then some (record m { stop = timed_out }) else none

abbrev pub run : MonitorRun → List Event → Option MonitorRun
run m es = run_events fire m es
