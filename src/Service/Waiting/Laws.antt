-- ===== src/Service/Waiting/Laws.antt =====
-- What the end of `Start` in pkg/service/init.go means.
use an_lf.Base.{ℕ, ◌+◌, ◌≡◌, ◌≢◌, ◌⊎◌, true, some, List, arith}
use an_lf.Base.Runs.{run_events-keeps}
use an_lf.Service.Waiting.{
  Serving, serving, ended, Listening, listening, finished, Waiting, blocked, stopped, AppRun,
  started, Event, terminates, server_done, server_terminates, listener_wakes, terminated,
  main_wakes, all_done, time_is_over, fire, run,
}

-- One for a goroutine that has not told the wait group yet.
abbrev of_server : Serving → ℕ
of_server serving = 1
of_server _ = 0

abbrev of_listener : Listening → ℕ
of_listener finished = 0
of_listener _ = 1

record IsCounted (a : AppRun) : Type 0 where
  pub counted : a.tasks ≡ of_server a.server + of_listener a.listener
  pub awake : a.main ≢ blocked → a.cancelled ≡ true
  pub listener_awake : a.listener ≢ listening → a.cancelled ≡ true
  pub server_ends_all : a.server ≡ ended → a.cancelled ≡ true
  pub stopped_after : a.main ≡ stopped → a.tasks ≡ 0

fire-IsCounted :
    (a : AppRun) (e : Event) (u : AppRun) → IsCounted a → fire a e ≡ some u → IsCounted u
unfolding fire
fire-IsCounted a terminates u v h = ground arith
fire-IsCounted a server_done u v h = ground arith
fire-IsCounted a server_terminates u v h = ground arith
fire-IsCounted a listener_wakes u v h = ground arith
fire-IsCounted a terminated u v h = ground arith
fire-IsCounted a main_wakes u v h = ground arith
fire-IsCounted a all_done u v h = ground arith
fire-IsCounted a time_is_over u v h = ground arith

begun : IsCounted started
begun = unfold started in ground arith

-- After the start and any events: `Start` has returned other than for its timeout only when the
-- server does not serve any more and the termination is over; it does not wait for them before the
-- context has ended; and a server that ends, for whatever reason, ends the context of the whole
-- application.
pub run_waits :
    (es : List Event) (u : AppRun)
    → run started es ≡ some u
    → ((u.main ≢ stopped) ⊎ ((u.server ≢ serving) × (u.listener ≡ finished)))
      × ((u.main ≡ blocked) ⊎ (u.cancelled ≡ true))
      × ((u.server ≢ ended) ⊎ (u.cancelled ≡ true))
run_waits es u h =
    let v = run_events-keeps fire IsCounted fire-IsCounted started es u begun h in
    (
      over u.main u.server u.listener u.tasks v.counted v.stopped_after,
      woken u.main v.awake,
      ends u.server v.server_ends_all,
    )
  where
    over :
        (m : Waiting) (s : Serving) (l : Listening) (n : ℕ)
        → n ≡ of_server s + of_listener l
        → (m ≡ stopped → n ≡ 0)
        → (m ≢ stopped) ⊎ ((s ≢ serving) × (l ≡ finished))
    over m s l n c h = ground arith

    woken :
        (m : Waiting) → (m ≢ blocked → u.cancelled ≡ true) → (m ≡ blocked) ⊎ (u.cancelled ≡ true)
    woken m h = ground arith

    ends : (s : Serving) → (s ≡ ended → u.cancelled ≡ true) → (s ≢ ended) ⊎ (u.cancelled ≡ true)
    ends s h = ground arith
