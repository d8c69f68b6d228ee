-- ===== src/Listener.antt =====
-- The listener of internal/proxy/listener.go: the accept loop, the goroutine of each client, and
-- `Stop`. A goroutine that was accepted waits for a slot of the semaphore, then acquires its backend
-- connection, and at last closes it and gives the slot back. The bytes of a session are in
-- Session/Serve; here it is only the connection that it holds, with its flags as they were acquired.
-- `Acquire` is one move here, as if nothing closed the pool between its test and its receive; what
-- happens otherwise is in Proxy.
pub mod Laws
pub mod Stops
pub mod Drains
mod Examples
use transisi_db.Prelude.{
  ℕ, zero, suc, ◌+◌, ◌-◌, Bool, true, false, ◌&&◌, ◌||◌, not, Option, none, some, List, [], ◌∷◌,
  length, ltb, if◌then◌else◌, ◌==◌,
}
use transisi_db.Pool.{
  BackendConn, BackendPool, Acquired, conn, err, new_backend_pool, acquire, close,
}
use transisi_db.Session.Serve.{Held, held, release_backend_connection}

-- `listening` is whether the socket is open; `accepted` says that the accept loop holds a client that
-- it has not added to the wait group yet. `slots` is how much of the semaphore is taken; `waiting` counts the goroutines before it,
-- `starting` those behind it that have not acquired yet, and `sessions` holds the connections of the
-- others. `closed` are the connections that sessions closed, `turned_away` counts the sessions whose
-- `Acquire` failed.
pub record Server : Type 0 where
  pub running : Bool
  pub listening : Bool
  pub accepted : Bool
  pub backend_pool : BackendPool
  pub capacity : ℕ
  pub slots : ℕ
  pub wg : ℕ
  pub waiting : ℕ
  pub starting : ℕ
  pub sessions : List BackendConn
  pub closed : List BackendConn
  pub turned_away : ℕ

-- `NewServer` and the start of `Start`: `NewBackendPool` returns no error.
unfoldable pub new_server : ℕ → ℕ → ℕ → Server
new_server now pool_size max_connections_per_host = record {
  running = true;
  listening = true;
  accepted = false;
  backend_pool = new_backend_pool now pool_size;
  capacity = max_connections_per_host;
  slots = 0;
  wg = 0;
  waiting = 0;
  starting = 0;
  sessions = [];
  closed = [];
  turned_away = 0;
}

-- `none` below: the goroutine cannot take the step now.

-- `Accept` returns a client as long as the socket is open.
unfoldable pub accept : Server → Option Server
accept s = if s.listening && not s.accepted then some (record s { accepted = true }) else none

-- `wg.Add(1)` and the `go`.
unfoldable pub spawn : Server → Option Server
spawn s =
    if s.accepted
    then some (record s { accepted = false; wg = s.wg + 1; waiting = s.waiting + 1 })
    else none

-- A goroutine of those that wait, if there is one, goes on.
entered : ℕ → Server → Option Server
entered zero s = none
entered (suc n) s = some (record s { slots = s.slots + 1; waiting = n; starting = s.starting + 1 })

-- The send on `connSem`.
unfoldable pub take_slot : Server → Option Server
unfolding entered
take_slot s = if ltb s.slots s.capacity then entered s.waiting s else none

-- The deferred calls: the slot and the count of the wait group.
abbrev pub leave : Server → Server
leave s = record s { slots = s.slots - 1; wg = s.wg - 1 }

opened : {E : Type 0} → ℕ → Server → BackendPool × Acquired E → Server
opened n s (p, conn bc) = record s { backend_pool = p; starting = n; sessions = bc ∷ s.sessions }
opened n s (p, err e) =
    leave (record s { backend_pool = p; starting = n; turned_away = s.turned_away + 1 })

open_one : {E : Type 0} → (BackendConn → Bool) → ℕ → ℕ → Option E → ℕ → Server → Option Server
unfolding opened
open_one healthy now later dial zero s = none
open_one healthy now later dial (suc n) s =
    some (opened n s (acquire healthy now later dial s.backend_pool))

-- `Handle` acquires, in one step; on an error it returns at once. `receive_step` of Proxy is what the
-- second half of it does on a pool that was closed after the first.
unfoldable pub open_session :
    {E : Type 0} → (BackendConn → Bool) → ℕ → ℕ → Option E → Server → Option Server
unfolding open_one
open_session healthy now later dial s = open_one healthy now later dial s.starting s

behind :
    BackendConn → Option (BackendConn × List BackendConn) → Option (BackendConn × List BackendConn)
behind bc none = none
behind bc (some (x, rest)) = some (x, bc ∷ rest)

-- The i-th element, and the others.
unfoldable pub pick : List BackendConn → ℕ → Option (BackendConn × List BackendConn)
unfolding behind
pick [] i = none
pick (bc ∷ bcs) zero = some (bc, bcs)
pick (bc ∷ bcs) (suc i) = behind bc (pick bcs i)

-- The connections that are closed, with one more if it is.
abbrev if_closed : Held → List BackendConn → List BackendConn
if_closed h bcs = if h.is_open then bcs else h.conn ∷ bcs

ended : ℕ → Server → Option (BackendConn × List BackendConn) → Option Server
unfolding release_backend_connection
ended now s none = none
ended now s (some (bc, others)) = some (
    leave (record s {
      sessions = others;
      closed = if_closed (release_backend_connection now (held bc)) s.closed;
    }))

-- The end of the i-th session, whatever `Handle` returns.
unfoldable pub end_session : ℕ → ℕ → Server → Option Server
unfolding pick ended
end_session now i s = ended now s (pick s.sessions i)

-- `Stop` up to `wg.Wait`: the flag, the socket and the pool; a second call returns at once.
unfoldable pub clear_running : Server → Option Server
clear_running s = if s.running then some (record s { running = false }) else none

unfoldable pub close_listener : Server → Option Server
close_listener s =
    if not s.running && s.listening then some (record s { listening = false }) else none

unfoldable pub close_pool : Server → Option Server
close_pool s =
    if s.listening || s.backend_pool.closed
    then none
    else some (record s { backend_pool = close s.backend_pool })

-- `wg.Wait` returns; that `Close` of the pool waits for its cleanup worker is left out, for which see
-- Pool/Cleanup.
unfoldable pub has_stopped : Server → Bool
has_stopped s = s.backend_pool.closed && s.wg == 0

-- A step of one goroutine.
pub data Move (E : Type 0) : Type 0 where
  accepts spawns takes_slot : Move E
  clears_running closes_listener closes_pool : Move E
  opens : (BackendConn → Bool) → ℕ → ℕ → Option E → Move E
  ends : ℕ → ℕ → Move E

unfoldable pub advance : {E : Type 0} → Move E → Server → Option Server
unfolding accept spawn take_slot clear_running close_listener close_pool open_session end_session
advance accepts s = accept s
advance spawns s = spawn s
advance takes_slot s = take_slot s
advance clears_running s = clear_running s
advance closes_listener s = close_listener s
advance closes_pool s = close_pool s
advance (opens healthy now later dial) s = open_session healthy now later dial s
advance (ends now i) s = end_session now i s

played : (Server → Option Server) → Option Server → Option Server
played rest none = none
played rest (some s) = rest s

-- The goroutines by a schedule; `none` if it lets one step that cannot.
unfoldable pub play : {E : Type 0} → List (Move E) → Server → Option Server
unfolding advance played
play [] s = some s
play (m ∷ ms) s = played (play ms) (advance m s)
