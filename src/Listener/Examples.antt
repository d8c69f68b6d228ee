-- ===== src/Listener/Examples.antt =====
-- A server with one slot, two clients and `Stop`.
use transisi_db.Prelude.{ℕ, ◌≡◌, refl, Bool, true, Option, none, some, List, [], ◌∷◌, ◌++◌, arith}
use transisi_db.Breaker.{new_circuit_breaker, call}
use transisi_db.Pool.{
  BackendConn, new_backend_pool, new_backend_conn, acquire, create_connection, close,
}
use transisi_db.Listener.{
  Server, new_server, Move, accepts, spawns, takes_slot, clears_running, closes_listener,
  closes_pool, opens, ends, advance, play, accept, spawn, take_slot, open_session, end_session,
  clear_running, close_listener, close_pool, has_stopped, pick,
}
use transisi_db.Listener.Laws.{IsValid, Leads, history-IsValid}
use transisi_db.Listener.Stops.{ServesNone, zero_capacity-ServesNone}
use transisi_db.Listener.Drains.{Drained, drains}

abbrev alive : BackendConn → Bool
alive bc = true

-- The second client waits until the first one leaves.
abbrev schedule : List (Move ℕ)
schedule =
    accepts
    ∷ spawns
    ∷ accepts
    ∷ spawns
    ∷ takes_slot
    ∷ opens alive 4 5 none
    ∷ ends 9 0
    ∷ takes_slot
    ∷ opens alive 10 11 none
    ∷ []

abbrev shutdown : List (Move ℕ)
shutdown = clears_running ∷ closes_listener ∷ closes_pool ∷ []

abbrev rest : Option Server → Server
rest none = new_server 0 0 0
rest (some s) = s

busy_sessions : (rest (play schedule (new_server 0 2 1))).sessions ≡ new_backend_conn 11 2 ∷ []
unfolding new_server play advance accept spawn take_slot open_session end_session pick acquire
    create_connection new_backend_pool call new_circuit_breaker
busy_sessions = refl

history-IsValid_example : Leads IsValid (play schedule (new_server 0 2 1))
history-IsValid_example = history-IsValid 0 2 1 schedule

-- `Stop` returns while the accept loop still holds a client, which is then turned away.
abbrev stopping : List (Move ℕ)
stopping = schedule ++ accepts ∷ ends 12 0 ∷ shutdown

abbrev late : List (Move ℕ)
late = spawns ∷ takes_slot ∷ opens alive 20 21 none ∷ []

abbrev after_stop : Server
after_stop = rest (play stopping (new_server 0 2 1))

late_turned_away : (rest (play late after_stop)).turned_away ≡ 1
unfolding new_server play advance accept spawn take_slot open_session end_session pick acquire
    create_connection new_backend_pool call new_circuit_breaker clear_running close_listener
    close_pool close
late_turned_away = refl

reaches_stop : play stopping (new_server 0 2 1) ≡ some after_stop
unfolding new_server play advance accept spawn take_slot open_session end_session pick acquire
    create_connection new_backend_pool call new_circuit_breaker clear_running close_listener
    close_pool close
reaches_stop = refl

after_stop-has_stopped : has_stopped after_stop ≡ true
unfolding new_server play advance accept spawn take_slot open_session end_session pick acquire
    create_connection new_backend_pool call new_circuit_breaker clear_running close_listener
    close_pool close has_stopped
after_stop-has_stopped = refl

drains_example : Drained (rest (play schedule (new_server 0 2 1)))
unfolding new_server play advance accept spawn take_slot open_session end_session pick acquire
    create_connection new_backend_pool call new_circuit_breaker
drains_example =
    drains (rest (play schedule (new_server 0 2 1))) (history-IsValid 0 2 1 schedule) (omega arith)

abbrev rushing : List (Move ℕ)
rushing = accepts ∷ spawns ∷ accepts ∷ spawns ∷ []

zero_capacity-ServesNone_example : Leads ServesNone (play rushing (new_server 0 2 0))
zero_capacity-ServesNone_example = zero_capacity-ServesNone 0 2 rushing
