-- ===== src/Tests/Failing.antt =====
-- The end of an application whose server cannot serve (pkg/service/init.go).
use an_lf.Base.{◌≡◌, ◌≢◌, ◌⊎◌, refl, true, some, List, [], ◌∷◌}
use an_lf.Base.Runs.{run_events}
use an_lf.Service.Waiting.{
  AppRun, serving, ended, finished, blocked, stopped, started, Event, server_done,
  server_terminates, listener_wakes, terminated, main_wakes, all_done, fire, run,
}
use an_lf.Service.Waiting.Laws.{run_waits}

abbrev events : List Event
events = server_done ∷ server_terminates ∷ main_wakes ∷ listener_wakes ∷ terminated ∷ all_done ∷ []

abbrev over : AppRun
over = record { server = ended; listener = finished; main = stopped; cancelled = true; tasks = 0 }

events_end : run started events ≡ some over
unfolding run_events fire started
events_end = refl

run_waits_example :
    ((over.main ≢ stopped) ⊎ ((over.server ≢ serving) × (over.listener ≡ finished)))
    × ((over.main ≡ blocked) ⊎ (over.cancelled ≡ true))
    × ((over.server ≢ ended) ⊎ (over.cancelled ≡ true))
run_waits_example = run_waits events over events_end
