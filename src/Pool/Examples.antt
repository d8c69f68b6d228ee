-- ===== src/Pool/Examples.antt =====
-- Runs of the pool, and its theorems at concrete inputs.
use Prim.Native.Nat.{ℕ}
use transisi_db.Prelude.{◌≡◌, ◌↔◌, refl, none, some, [], ◌∷◌, false, true, Bool}
use transisi_db.Breaker.{new_circuit_breaker, call}
use transisi_db.Pool.{
  BackendConn, BackendPool, new_backend_conn, new_backend_pool, acquire, release, conn, close,
  set_in_transaction, reset,
}
use transisi_db.Pool.Ledger.{
  World, Reach, Balanced, here, next, acquires, releases, uses, cleans, closes, start,
  history-Balanced,
}
use transisi_db.Pool.Races.{
  Shared, run, release_test, acquire_test, close_test, panics, close_race_panics,
}
use transisi_db.Pool.Cleanup.{Chan, Limits, cleanup_stale_connections, is_stale, cleanup}
use transisi_db.Pool.Cleanup.Laws.{cleanup_closed}

abbrev alive : BackendConn → Bool
alive bc = true

abbrev small : BackendPool
small = new_backend_pool 0 2

abbrev first : BackendConn
first = new_backend_conn 5 1

abbrev acquired : World
acquired = record { pool = (acquire {E = ℕ} alive 4 5 none small).0; lent = first ∷ [] }

first_acquired : (acquire {E = ℕ} alive 4 5 none small).1 ≡ conn first
unfolding acquire new_backend_pool call new_circuit_breaker
first_acquired = refl

abbrev busy : BackendConn
busy = set_in_transaction true first

abbrev limits : Limits
limits = record { max_idle_time = 300_000_000_000; max_age = 1_800_000_000_000 }

abbrev now : ℕ
now = 301_000_000_000

-- The same connection is used and returned, evicted by a cleanup, and the pool is closed.
abbrev returned : BackendPool
returned = release 9 (some first) acquired.pool

abbrev cleaned : BackendPool
cleaned = record returned { connections = []; discarded = reset 9 first ∷ []; total_evicted = 1 }

cleanup_evicts : cleanup alive limits now 2 returned ≡ some cleaned
unfolding cleanup cleanup_stale_connections is_stale release acquire new_backend_pool call
    new_circuit_breaker
cleanup_evicts = refl

history : Reach ℕ (start 0 2) (record { pool = close cleaned; lent = [] })
unfolding acquire new_backend_pool call new_circuit_breaker
history =
    let used =
      next (next (next here (acquires alive 4 5 none)) (uses [] first busy [] refl))
        (uses [] busy first [] refl) in
    let back = next used (releases 9 [] first [] refl) in
    next (next back (cleans alive limits now 2 cleaned cleanup_evicts)) closes

history-Balanced_example : Balanced (record { pool = close cleaned; lent = [] })
history-Balanced_example = history-Balanced 0 2 history

-- One connection that was idle for too long, and one that was not.
abbrev two : Chan
two = record {
  buffer = first ∷ new_backend_conn 200_000_000_000 2 ∷ [];
  capacity = 2;
  is_closed = false;
}

cleanup_closed_example :
    cleanup_stale_connections alive limits now 1000 (record two { is_closed = true }) 0 ≡ none
cleanup_closed_example =
    cleanup_closed alive limits now 1000 (record two { is_closed = true }) 0 refl

abbrev shared : Shared
shared = record { closed = false; chan = two }

close_race_panics_example :
    ((run (true ∷ false ∷ false ∷ true ∷ []) (release_test 9 first) close_test shared ≡ panics)
      ↔ (first.in_transaction ≡ false))
    × (run (true ∷ false ∷ false ∷ true ∷ []) acquire_test close_test shared ≡ panics)
close_race_panics_example = close_race_panics shared 9 first refl
