-- ===== src/Tests/Running.antt =====
-- Runs of the monitor's goroutines, the eBPF component, the scorer's table and the way to the
-- files.
use an_lf.Base.{◌≡◌, ◌≢◌, ◌⊎◌, inl, refl, true, false, none, some, [], ◌∷◌, bytes}
use an_lf.Base.Int.{pos}
use an_lf.Float.Fixed.{fixed}
use an_lf.Base.Runs.{run_events}
use an_lf.MonitorRun.{
  MonitorRun, Reader, Polling, reading, polling, waiting_reader, stopped, reader_opens,
  reader_checks, reader_reads, cancels, polls_cancelled, polls_stopped, stop_called, reader_done,
  polls_done, new_monitor_run, start_monitor, run, fire,
}
use an_lf.MonitorRun.Laws.{shut_after_loops, stop_waits_for_event}
use an_lf.EbpfComponent.{Kernel, new_component, start, stop}
use an_lf.EbpfComponent.Laws.{HoldsAll, HoldsNothing, gets_qdisc, start-stop}
use an_lf.Scorer.{get_ue_state}
use an_lf.Scorer.Refinement.{batch, reset, run_requests, ue_replay, run_requests_refines}
use an_lf.Tests.Scoring.{scorer, attack, calm}

-- The reader waits, the stop waits for it, and the loop of the polls runs.
abbrev waiting : MonitorRun
waiting = record {
  reader = reading;
  polls = polling;
  stop = waiting_reader;
  reader_told = true;
  polls_told = false;
  cancelled = false;
  exporter_shut = false;
}

-- The end of the context ends the loop of the polls, but not the reader.
abbrev cut : MonitorRun
cut = record waiting { cancelled = true; polls = Polling.returned }

cut_is_reached : run waiting (cancels ∷ polls_cancelled ∷ []) ≡ some cut
unfolding run_events fire
cut_is_reached = refl

stop_waits_for_event_example : (cut.stop ≡ waiting_reader) × (cut.exporter_shut ≡ false)
stop_waits_for_event_example =
    stop_waits_for_event waiting (cancels ∷ polls_cancelled ∷ []) cut (inl refl) refl refl
      ((λ e. cc), ((λ e. cc), tt)) cut_is_reached

abbrev ended : MonitorRun
ended = record {
  reader = Reader.returned;
  polls = Polling.returned;
  stop = stopped;
  reader_told = true;
  polls_told = true;
  cancelled = false;
  exporter_shut = true;
}

ended_is_reached :
    run (start_monitor true new_monitor_run) (
      reader_opens ∷ reader_checks ∷ stop_called ∷ reader_reads ∷ reader_checks ∷ reader_done
      ∷ polls_stopped ∷ polls_done ∷ [])
    ≡ some ended
unfolding run_events fire start_monitor new_monitor_run
ended_is_reached = refl

shut_after_loops_example :
    (ended.reader ≡ Reader.returned) × (ended.polls ≡ Polling.returned) × (ended.stop ≡ stopped)
shut_after_loops_example =
    shut_after_loops true
      (reader_opens ∷ reader_checks ∷ stop_called ∷ reader_reads ∷ reader_checks ∷ reader_done
        ∷ polls_stopped ∷ polls_done ∷ [])
      ended ended_is_reached refl

-- The filter cannot be added.
abbrev kernel : Kernel
kernel = record {
  loads = true;
  finds_interface = true;
  attaches_xdp = true;
  adds_qdisc = true;
  adds_filter = false;
  closes_link = true;
  deletes_filter = true;
  closes_objects = true;
}

start-stop_example :
    let (c, e) = start kernel new_component in
    let (d, f) = stop kernel true c in
    (((e ≡ none) × (c.is_started ≡ true) × HoldsAll c)
      ⊎ ((e ≢ none) × (c.is_started ≡ false) × HoldsNothing c))
    × (f ≡ none)
    × (d.is_started ≡ false)
    × HoldsNothing d
    × (c.manager.added_qdisc ≡ gets_qdisc kernel)
    × (d.manager.added_qdisc ≡ gets_qdisc kernel)
start-stop_example = start-stop kernel (refl, refl, refl)

run_requests_refines_example :
    (get_ue_state
        (run_requests fixed
          (batch (attack ∷ calm ∷ []) (pos 7) ∷ reset (bytes "imsi-2") (pos 8) ∷ [])
          scorer)
        (bytes "imsi-1")
      ≡ ue_replay fixed scorer
          (bytes "imsi-1")
          (batch (attack ∷ calm ∷ []) (pos 7) ∷ reset (bytes "imsi-2") (pos 8) ∷ [])
          (get_ue_state scorer (bytes "imsi-1")))
    × ((run_requests fixed
          (batch (attack ∷ calm ∷ []) (pos 7) ∷ reset (bytes "imsi-2") (pos 8) ∷ [])
          scorer).config
        ≡ scorer.config)
run_requests_refines_example =
    run_requests_refines fixed
      (batch (attack ∷ calm ∷ []) (pos 7) ∷ reset (bytes "imsi-2") (pos 8) ∷ []) scorer
      (bytes "imsi-1")
