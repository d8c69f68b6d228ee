-- ===== src/Session/Serve/Laws.antt =====
-- A session always ends, and leaves nothing in the pool.
use transisi_db.Prelude.{ℕ, ◌≡◌, ◌≢◌, refl, sym, Bool, false, Option, none, some, List, []}
use transisi_db.Pool
use transisi_db.Pool.{BackendConn, BackendPool, Acquired, conn, acquire}
use transisi_db.Pool.Laws.{IsClean}
use transisi_db.Pool.Dials.{Dialed, acquire-Dialed}
use transisi_db.Protocol.Bytes.{IsBytes}
use transisi_db.Protocol.Packet.{Conn}
use transisi_db.Session.Io.{stuck}
use transisi_db.Session.Auth.Laws.{handle-ne-stuck}
use transisi_db.Session.Commands.Run.{Ready}
use transisi_db.Session.Serve.{
  Ending, not_acquired, served, new_session, acquire_backend, create_direct_backend_connection,
  pooled, with_backend, ended, release_backend_connection, serve,
}

-- No pool, or one in which no connection waits.
abbrev pub HasNoIdle : Option BackendPool → Type 0
HasNoIdle none = Unit
HasNoIdle (some p) = p.connections ≡ []

-- `Handle` has returned, and the connection was then used last and is closed.
abbrev pub IsClosedAt : {E : Type 0} → ℕ → Ending E → Type 0
IsClosedAt finish (not_acquired e) = Unit
IsClosedAt finish (served result h) =
    (result ≢ stuck) × (h.is_open ≡ false) × (h.conn.last_used_at ≡ finish)

-- A connection that was acquired is in no transaction and on no database.
GivesClean : {E : Type 0} → Acquired E → Type 0
GivesClean (conn bc) = IsClean bc
GivesClean (transisi_db.Pool.err e) = Unit

pooled-HasNoIdle :
    {E : Type 0} (p : BackendPool) (r : BackendPool × Acquired E)
    → Dialed p r
    → HasNoIdle (pooled r).0 × GivesClean (pooled r).1
unfolding pooled GivesClean
pooled-HasNoIdle p (q, conn bc) d = (d.none_idle, d.counted.2)
pooled-HasNoIdle p (q, transisi_db.Pool.err e) d = (d.none_idle, tt)

direct-GivesClean :
    {E : Type 0} (later : ℕ) (dial : Option E)
    → GivesClean (create_direct_backend_connection later dial)
unfolding create_direct_backend_connection GivesClean
direct-GivesClean later none = record { no_transaction = refl; no_database = refl }
direct-GivesClean later (some e) = tt

acquire_backend-HasNoIdle :
    {E : Type 0} (healthy : BackendConn → Bool) (now later : ℕ) (dial : Option E)
    (o : Option BackendPool)
    → HasNoIdle o
    → let r = acquire_backend healthy now later dial o in HasNoIdle r.0 × GivesClean r.1
unfolding acquire_backend
acquire_backend-HasNoIdle healthy now later dial none i = (tt, direct-GivesClean later dial)
acquire_backend-HasNoIdle healthy now later dial (some p) i =
    pooled-HasNoIdle p (acquire healthy now later dial p)
      (acquire-Dialed healthy now later dial p i)

new_session-Ready :
    (client backend : Conn) (bc : BackendConn)
    → IsBytes client.incoming
    → IsBytes backend.incoming
    → IsClean bc
    → Ready (new_session client backend bc)
new_session-Ready client backend bc c b k = record {
  agrees = record { tx = sym k.no_transaction; db = sym k.no_database };
  client_bytes = c;
  backend_bytes = b;
}

with_backend-IsClosedAt :
    {E : Type 0} (rewritten : List ℕ → Option (List ℕ)) (client : Conn)
    (stream : BackendConn → Conn) (finish : ℕ) (r : Option BackendPool × Acquired E)
    → HasNoIdle r.0 × GivesClean r.1
    → IsBytes client.incoming
    → ((bc : BackendConn) → IsBytes (stream bc).incoming)
    → let s = with_backend rewritten client stream finish r in HasNoIdle s.0 × IsClosedAt finish s.1
unfolding with_backend ended release_backend_connection GivesClean
with_backend-IsClosedAt rewritten client stream finish (p, transisi_db.Pool.err e) (i, k) c b =
    (i, tt)
with_backend-IsClosedAt rewritten client stream finish (p, conn bc) (i, k) c b =
    let s = new_session client (stream bc) bc in
    (
      i,
      (
        handle-ne-stuck rewritten s (new_session-Ready client (stream bc) bc c (b bc) k),
        refl,
        refl,
      ),
    )

-- When no connection waits in the pool, or there is no pool: a session ends, with the error of its
-- acquisition or with a result of `Handle`, for every two streams of bytes; then its connection is
-- closed, its last use is the time at which it ends, and still none waits in the pool.
pub serve-IsClosedAt :
    {E : Type 0} (rewritten : List ℕ → Option (List ℕ)) (client : Conn)
    (stream : BackendConn → Conn) (healthy : BackendConn → Bool) (now later : ℕ) (dial : Option E)
    (finish : ℕ) (o : Option BackendPool)
    → HasNoIdle o
    → IsBytes client.incoming
    → ((bc : BackendConn) → IsBytes (stream bc).incoming)
    → let s = serve rewritten client stream healthy now later dial finish o in
      HasNoIdle s.0 × IsClosedAt finish s.1
unfolding serve
serve-IsClosedAt rewritten client stream healthy now later dial finish o i c b =
    with_backend-IsClosedAt rewritten client stream finish
      (acquire_backend healthy now later dial o)
      (acquire_backend-HasNoIdle healthy now later dial o i) c b
