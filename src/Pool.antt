-- ===== src/Pool.antt =====
-- The backend connection pool of internal/proxy/backend_pool.go. Times are nanoseconds of the
-- monotonic clock. `healthy` is what `IsHealthy` finds on the network when it asks, `dial` what the
-- dialer returns. The channel is the list of its connections, oldest first; `discarded` are the
-- connections that were closed, newest first. Here each method runs alone; Pool/Races has the steps.
pub mod Laws
pub mod Ledger
pub mod Races
pub mod Cleanup
pub mod Dials
mod Examples
use transisi_db.Prelude.{
  ℕ, zero, suc, ◌+◌, ◌-◌, ◌%◌, ◌^◌, Bool, true, false, ◌||◌, not, Option, none, some, List, [], ◌∷◌,
  ◌++◌, ltb, if◌then◌else◌, length,
}
use transisi_db.Breaker.{
  CircuitBreaker, CallError, breaker_open, inner, new_circuit_breaker,
  default_circuit_breaker_config, call, u64,
}
use transisi_db.Breaker

pub record BackendConn : Type 0 where
  pub connection_id : ℕ
  pub created_at : ℕ
  pub last_used_at : ℕ
  pub in_transaction : Bool
  pub database : List ℕ

abbrev pub new_backend_conn : ℕ → ℕ → BackendConn
new_backend_conn now id = record {
  connection_id = id;
  created_at = now;
  last_used_at = now;
  in_transaction = false;
  database = [];
}

abbrev pub set_in_transaction : Bool → BackendConn → BackendConn
set_in_transaction b bc = record bc { in_transaction = b }

abbrev pub set_database : List ℕ → BackendConn → BackendConn
set_database name bc = record bc { database = name }

abbrev pub update_last_used : ℕ → BackendConn → BackendConn
update_last_used now bc = record bc { last_used_at = now }

abbrev pub reset : ℕ → BackendConn → BackendConn
reset now bc = record bc { in_transaction = false; database = []; last_used_at = now }

abbrev pub age : ℕ → BackendConn → ℕ
age now bc = now - bc.created_at

abbrev pub idle_time : ℕ → BackendConn → ℕ
idle_time now bc = now - bc.last_used_at

pub record BackendPool : Type 0 where
  pub connections : List BackendConn
  pub capacity : ℕ
  pub conn_counter : ℕ
  pub closed : Bool
  pub circuit_breaker : CircuitBreaker
  pub total_created : ℕ
  pub total_acquired : ℕ
  pub total_released : ℕ
  pub total_evicted : ℕ
  pub discarded : List BackendConn

abbrev pub u32 : ℕ → ℕ
u32 n = n % 2 ^ 32

unfoldable pub new_backend_pool : ℕ → ℕ → BackendPool
new_backend_pool now size = record {
  connections = [];
  capacity = size;
  conn_counter = 0;
  closed = false;
  circuit_breaker = new_circuit_breaker now default_circuit_breaker_config;
  total_created = 0;
  total_acquired = 0;
  total_released = 0;
  total_evicted = 0;
  discarded = [];
}

pub data Error (E : Type 0) : Type 0 where
  pool_is_closed backend_unavailable : Error E
  failed_to_connect : E → Error E

pub data Acquired (E : Type 0) : Type 0 where
  conn : BackendConn → Acquired E
  err : Error E → Acquired E

-- Behind the breaker's answer.
created : {E : Type 0} → ℕ → BackendPool → Option (CallError E) → BackendPool × Acquired E
created now p none =
    let id = u32 (p.conn_counter + 1) in
    (
      record p { conn_counter = id; total_created = u64 (p.total_created + 1) },
      conn (new_backend_conn now id),
    )
created now p (some breaker_open) = (p, err backend_unavailable)
created now p (some (inner e)) = (p, err (failed_to_connect e))

-- `now` before dialing, `later` after it; `dial` is the dialer's error, if any.
unfoldable pub create_connection :
    {E : Type 0} → ℕ → ℕ → Option E → BackendPool → BackendPool × Acquired E
unfolding created
create_connection now later dial p =
    let r = call now later dial p.circuit_breaker in
    created later (record p { circuit_breaker = r.0 }) r.1

abbrev pub discard : BackendConn → BackendPool → BackendPool
discard bc p = record p { discarded = bc ∷ p.discarded }

-- The `select` over the channel: a connection that waits there, or a new one.
take_or_create :
    {E : Type 0}
    → (BackendConn → Bool)
    → ℕ
    → ℕ
    → Option E
    → List BackendConn
    → BackendPool
    → BackendPool × Acquired E
unfolding create_connection
take_or_create healthy now later dial [] p = create_connection now later dial p
take_or_create healthy now later dial (bc ∷ rest) p =
    if healthy bc
    then (
      record p { connections = rest; total_acquired = u64 (p.total_acquired + 1) },
      conn (update_last_used now bc),
    )
    else create_connection now later dial (record p {
      connections = rest;
      discarded = bc ∷ p.discarded;
      total_evicted = u64 (p.total_evicted + 1);
    })

unfoldable pub acquire :
    {E : Type 0} → (BackendConn → Bool) → ℕ → ℕ → Option E → BackendPool → BackendPool × Acquired E
unfolding take_or_create
acquire healthy now later dial p =
    if p.closed
    then (p, err pool_is_closed)
    else take_or_create healthy now later dial p.connections p

-- `Reset` returns no error. `none` is a nil connection.
unfoldable pub release : ℕ → Option BackendConn → BackendPool → BackendPool
release now none p = p
release now (some bc) p =
    if p.closed
    then discard bc p
    else if bc.in_transaction
    then discard bc p
    else if ltb (length p.connections) p.capacity
    then record p {
      connections = p.connections ++ reset now bc ∷ [];
      total_released = u64 (p.total_released + 1);
    }
    else discard (reset now bc) p

abbrev pub discard_all : List BackendConn → List BackendConn → List BackendConn
discard_all [] ds = ds
discard_all (bc ∷ bs) ds = discard_all bs (bc ∷ ds)

-- Without the wait for the cleanup worker, for which see Pool/Cleanup.
unfoldable pub close : BackendPool → BackendPool
close p = if p.closed then p else (record p {
  closed = true;
  connections = [];
  discarded = discard_all p.connections p.discarded;
})

pub record Stats : Type 0 where
  pub total_created : ℕ
  pub total_acquired : ℕ
  pub total_released : ℕ
  pub total_evicted : ℕ
  pub current_idle : ℕ
  pub pool_capacity : ℕ
  pub circuit_breaker : Breaker.Stats

unfoldable pub stats : BackendPool → Stats
stats p = record {
  total_created = p.total_created;
  total_acquired = p.total_acquired;
  total_released = p.total_released;
  total_evicted = p.total_evicted;
  current_idle = length p.connections;
  pool_capacity = p.capacity;
  circuit_breaker = Breaker.get_stats p.circuit_breaker;
}
