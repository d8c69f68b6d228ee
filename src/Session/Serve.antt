-- ===== src/Session/Serve.antt =====
-- The ends of `Handle` in internal/proxy/session.go: where the backend connection comes from, and
-- what becomes of it. The two byte streams are arguments.
pub mod Laws
use transisi_db.Prelude.{ℕ, Bool, Option, none, some, List, [], true, false}
use transisi_db.Pool.{
  BackendConn, BackendPool, Acquired, Error, conn, failed_to_connect, new_backend_conn,
  update_last_used, acquire,
}
use transisi_db.Pool
use transisi_db.Protocol.Packet.{Conn}
use transisi_db.Session.Io.{Session, Io, ok, err, stuck}
use transisi_db.Session.Auth.{handle}

-- `NewSession`; `connID` is 1 in every session.
abbrev pub conn_id : ℕ
conn_id = 1

abbrev pub new_session : Conn → Conn → BackendConn → Session
new_session client backend bc = record {
  client = client;
  backend = backend;
  in_tx = false;
  database = [];
  conn_in_tx = bc.in_transaction;
  conn_database = bc.database;
}

unfoldable pub create_direct_backend_connection : {E : Type 0} → ℕ → Option E → Acquired E
create_direct_backend_connection later none = conn (new_backend_conn later conn_id)
create_direct_backend_connection later (some e) = Pool.err (failed_to_connect e)

pooled : {E : Type 0} → BackendPool × Acquired E → Option BackendPool × Acquired E
pooled (p, r) = (some p, r)

-- `none` is a server without a pool.
unfoldable pub acquire_backend :
    {E : Type 0}
    → (BackendConn → Bool)
    → ℕ
    → ℕ
    → Option E
    → Option BackendPool
    → Option BackendPool × Acquired E
unfolding create_direct_backend_connection pooled
acquire_backend healthy now later dial (some p) = pooled (acquire healthy now later dial p)
acquire_backend healthy now later dial none = (none, create_direct_backend_connection later dial)

-- The connection as the session leaves it.
used : BackendConn → Io (Unit {0}) → BackendConn
used bc (ok u s) = record bc { in_transaction = s.conn_in_tx; database = s.conn_database }
used bc (err e s) = record bc { in_transaction = s.conn_in_tx; database = s.conn_database }
used bc stuck = bc

-- The connection with its socket, which `NewBackendConn` gets open.
pub record Held : Type 0 where
  pub conn : BackendConn
  pub is_open : Bool

abbrev pub held : BackendConn → Held
held bc = record { conn = bc; is_open = true }

-- `UpdateLastUsed` and `Close` of the connection.
abbrev pub touch : ℕ → Held → Held
touch now h = record h { conn = update_last_used now h.conn }

abbrev pub close_conn : Held → Held
close_conn h = record h { is_open = false }

-- The call of the pool's `Release` is commented out in the source.
unfoldable pub release_backend_connection : ℕ → Held → Held
release_backend_connection now h = close_conn (touch now h)

-- How a session ends: with an error of `Acquire`, or with what became of its connection.
pub data Ending (E : Type 0) : Type 0 where
  not_acquired : Error E → Ending E
  served : Io (Unit {0}) → Held → Ending E

ended : {E : Type 0} → ℕ → BackendConn → Io (Unit {0}) → Ending E
unfolding used release_backend_connection
ended finish bc result = served result (release_backend_connection finish (held (used bc result)))

with_backend :
    {E : Type 0}
    → (List ℕ → Option (List ℕ))
    → Conn
    → (BackendConn → Conn)
    → ℕ
    → Option BackendPool × Acquired E
    → Option BackendPool × Ending E
unfolding ended
with_backend rewritten client stream finish (p, Pool.err e) = (p, not_acquired e)
with_backend rewritten client stream finish (p, conn bc) =
    (p, ended finish bc (handle rewritten (new_session client (stream bc) bc)))

-- `stream` is the byte stream behind a connection; `finish` is when the session ends.
unfoldable pub serve :
    {E : Type 0}
    → (List ℕ → Option (List ℕ))
    → Conn
    → (BackendConn → Conn)
    → (BackendConn → Bool)
    → ℕ
    → ℕ
    → Option E
    → ℕ
    → Option BackendPool
    → Option BackendPool × Ending E
unfolding acquire_backend with_backend
serve rewritten client stream healthy now later dial finish p =
    with_backend rewritten client stream finish (acquire_backend healthy now later dial p)
