-- ===== src/MonitorRun/Laws.antt =====
-- What the stop of the monitor promises, and what it waits for (internal/monitor).
use an_lf.Base.{◌≡◌, refl, ◌≢◌, ◌⊎◌, Bool, true, false, some, List, [], ◌∷◌, All, arith}
use an_lf.Base.Runs.{run_events, run_events-cons, run_events-keeps}
use an_lf.MonitorRun.{
  MonitorRun, Reader, Polling, Event, reading, polling, waiting_reader, waiting_polls, stopped,
  reader_fails, reader_opens, reader_checks, reader_reads, cancels, polls_cancelled, polls_stopped,
  polls_tick, stop_called, reader_done, polls_done, stop_times_out, new_monitor_run, start_monitor,
  fire, run,
}

-- The loops have ended before the exporter is shut down, and `Stop` returned nil if it is.
pub record IsOrderly (m : MonitorRun) : Type 0 where
  pub reader_ended : m.polls_told ≡ true → m.reader ≡ Reader.returned
  pub polls_waited : m.stop ≡ waiting_polls → m.polls_told ≡ true
  pub polls_ended : m.exporter_shut ≡ true → m.polls ≡ Polling.returned
  pub ended : m.exporter_shut ≡ true → m.stop ≡ stopped
  pub told : m.exporter_shut ≡ true → m.polls_told ≡ true

fire-IsOrderly :
    (m : MonitorRun) (e : Event) (u : MonitorRun) → IsOrderly m → fire m e ≡ some u → IsOrderly u
unfolding fire
fire-IsOrderly m reader_fails u v h = ground arith
fire-IsOrderly m reader_opens u v h = ground arith
fire-IsOrderly m reader_checks u v h = ground arith
fire-IsOrderly m reader_reads u v h = ground arith
fire-IsOrderly m cancels u v h = ground arith
fire-IsOrderly m polls_cancelled u v h = ground arith
fire-IsOrderly m polls_stopped u v h = ground arith
fire-IsOrderly m polls_tick u v h = ground arith
fire-IsOrderly m stop_called u v h = ground arith
fire-IsOrderly m reader_done u v h = ground arith
fire-IsOrderly m polls_done u v h = ground arith
fire-IsOrderly m stop_times_out u v h = ground arith

start-IsOrderly : (has_map : Bool) → IsOrderly (start_monitor has_map new_monitor_run)
unfolding start_monitor new_monitor_run
start-IsOrderly has_map = ground arith

run-IsOrderly :
    (m : MonitorRun) (es : List Event) (u : MonitorRun)
    → IsOrderly m
    → run m es ≡ some u
    → IsOrderly u
run-IsOrderly m es u v h = run_events-keeps fire IsOrderly fire-IsOrderly m es u v h

-- After the start of a monitor and any events, the exporter is shut down only when both loops have
-- returned and `Stop` is about to return nil: no poll uses it any more.
pub shut_after_loops :
    (has_map : Bool) (es : List Event) (u : MonitorRun)
    → run (start_monitor has_map new_monitor_run) es ≡ some u
    → u.exporter_shut ≡ true
    → (u.reader ≡ Reader.returned) × (u.polls ≡ Polling.returned) × (u.stop ≡ stopped)
shut_after_loops has_map es u h shut =
    let v = run-IsOrderly _ es u (start-IsOrderly has_map) h in
    (v.reader_ended (v.told shut), v.polls_ended shut, v.ended shut)

-- A reader that waits in `Read`, or was never started, and a stop that waits for it.
abbrev IsStuck : MonitorRun → Type 0
IsStuck m =
    ((m.reader ≡ reading) ⊎ (m.reader ≡ Reader.unstarted))
    × (m.stop ≡ waiting_reader)
    × (m.exporter_shut ≡ false)

fire-IsStuck :
    (m : MonitorRun) (e : Event) (u : MonitorRun)
    → e ≢ reader_reads
    → IsStuck m
    → fire m e ≡ some u
    → IsStuck u
unfolding fire
fire-IsStuck m reader_fails u n s h = ground arith
fire-IsStuck m reader_opens u n s h = ground arith
fire-IsStuck m reader_checks u n s h = ground arith
fire-IsStuck m reader_reads u n s h = absurd (n refl)
fire-IsStuck m cancels u n s h = ground arith
fire-IsStuck m polls_cancelled u n s h = ground arith
fire-IsStuck m polls_stopped u n s h = ground arith
fire-IsStuck m polls_tick u n s h = ground arith
fire-IsStuck m stop_called u n s h = ground arith
fire-IsStuck m reader_done u n s h = ground arith
fire-IsStuck m polls_done u n s h = ground arith
fire-IsStuck m stop_times_out u n s h = ground arith

-- `Stop` has no timeout of its own for the reader: while the reader waits in `Read`, or was never
-- started, then until the kernel sends another TLS event, and whatever else happens, `Stop` does
-- not return and the exporter is not shut down.
pub stop_waits_for_event :
    (m : MonitorRun) (es : List Event) (u : MonitorRun)
    → (m.reader ≡ reading) ⊎ (m.reader ≡ Reader.unstarted)
    → m.stop ≡ waiting_reader
    → m.exporter_shut ≡ false
    → All (λ e. e ≢ reader_reads) es
    → run m es ≡ some u
    → (u.stop ≡ waiting_reader) × (u.exporter_shut ≡ false)
stop_waits_for_event m [] u r w x n h = unfold run_events in ground arith
stop_waits_for_event m (e ∷ es) u r w x n h =
    let (m', step, rest) = run_events-cons fire m e es u h in
    let (r', w', x') = fire-IsStuck m e m' n.0 (r, w, x) step in
    stop_waits_for_event m' es u r' w' x' n.1 rest

-- One more event is enough: from a stop that waits for a reader in `Read`, with the loop of the
-- polls still running, there is a run in which `Stop` returns nil and the exporter is shut down.
pub stop_after_event :
    (m : MonitorRun)
    → m.reader ≡ reading
    → m.stop ≡ waiting_reader
    → m.reader_told ≡ true
    → m.polls ≡ polling
    → (u : MonitorRun) × (run m
          (reader_reads ∷ reader_checks ∷ reader_done ∷ polls_stopped ∷ polls_done ∷ [])
        ≡ some u)
      × (u.stop ≡ stopped)
      × (u.exporter_shut ≡ true)
unfolding run_events fire
stop_after_event m r w t p = (
  record m {
    reader = Reader.returned;
    stop = stopped;
    polls = Polling.returned;
    polls_told = true;
    exporter_shut = true;
  },
  ground (arith),
  refl,
  refl,
)
