-- ===== src/Proxy/Examples.antt =====
-- A process of two sessions that is told to stop, and one that is told to while a client starts.
use transisi_db.Prelude.{ℕ, ◌≡◌, ◌≢◌, ◌⊎◌, refl, arith, Option, none, some, true, List, [], ◌∷◌}
use transisi_db.Breaker.{call, new_circuit_breaker}
use transisi_db.Pool.{new_backend_pool, close, acquire, create_connection}
use transisi_db.Pool.Cleanup.{after, worker, next_tick}
use transisi_db.Listener.{
  accepts, spawns, takes_slot, opens, ends, clears_running, closes_listener, closes_pool, advance,
  new_server, has_stopped, end_session,
}
use transisi_db.Proxy.{
  Process, listening_process, Step, serves, worker_wakes, stop_returns, start_returns, run,
}
use transisi_db.Proxy.Laws.{Leads, no_orderly_exit}
use transisi_db.Proxy.Crashes.{stop_meanwhile, stop_crashes}

-- One client is served; then a signal comes.
abbrev told_to_stop : List (Step ℕ)
told_to_stop =
    serves accepts
    ∷ serves spawns
    ∷ serves takes_slot
    ∷ serves (opens (λ bc. true) 4 5 none)
    ∷ serves clears_running
    ∷ serves closes_listener
    ∷ serves closes_pool
    ∷ serves (ends 9 0)
    ∷ worker_wakes
    ∷ []

abbrev ending : List (Step ℕ)
ending =
    serves clears_running
    ∷ serves closes_listener
    ∷ serves closes_pool
    ∷ worker_wakes
    ∷ stop_returns
    ∷ start_returns
    ∷ []

no_orderly_exit_example :
    Leads
      (λ p. (p.exit ≡ none) ⊎ (p.exit ≡ some 2))
      (run told_to_stop (listening_process 0 2 1 (worker 3 (next_tick 3) (7 ∷ 8 ∷ []))))
no_orderly_exit_example = no_orderly_exit 0 3 2 1 (7 ∷ 8 ∷ []) told_to_stop

-- With a worker that returned it would end.
would_end : Leads (λ p. p.exit ≡ some 0) (run ending (listening_process 0 2 1 (after ∷ [])))
unfolding run advance new_server new_backend_pool has_stopped close
would_end = refl

told_to_stop_runs :
    run told_to_stop (listening_process 0 2 1 (worker 3 (next_tick 3) (7 ∷ 8 ∷ []))) ≢ none
unfolding run advance new_server new_backend_pool close worker acquire create_connection call
    new_circuit_breaker end_session
told_to_stop_runs h = cc

-- A client has its slot, and has not begun to acquire its connection.
abbrev starting_process : Process
starting_process = record (listening_process 0 2 1 []) {
  server = record (new_server 0 2 1) { wg = 1; slots = 1; starting = 1 };
}

abbrev dialed : Option ℕ
dialed = none

stop_crashes_example :
    (q : Process) × (run (stop_meanwhile (λ bc. true) 4 5 dialed) starting_process ≡ some q)
    × (q.exit ≡ some 2)
    × (q.server.sessions ≡ starting_process.server.sessions)
    × (q.server.closed ≡ starting_process.server.closed)
unfolding new_server new_backend_pool
stop_crashes_example =
    stop_crashes (λ bc. true) 4 5 dialed starting_process refl refl refl refl (omega arith)
