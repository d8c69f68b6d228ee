-- ===== src/Breaker.antt =====
-- The circuit breaker of internal/proxy/circuit_breaker.go. A method that mutates the breaker
-- returns the new record; each method holds the mutex from its first line to its last, so a method
-- is one step. Times are nanoseconds of the monotonic clock, and `now` is what `time.Now()` reads;
-- `time.Since(t)` is `now - t`, and readings do not decrease. The `uint64` counters wrap. The `int`
-- fields hold counts; a negative configured limit acts as 0 in every comparison that reads it. Log
-- lines are left out.
pub mod Laws
pub mod Trips
pub mod HalfOpen
pub mod Traces
mod Examples
use Prim.Native.String.{String}
use transisi_db.Prelude.{
  ℕ, ◌+◌, ◌-◌, ◌%◌, ◌^◌, Bool, true, false, Option, none, some, ltb, leb, if◌then◌else◌,
}

pub data CircuitBreakerState : Type 0 where
  state_closed state_open state_half_open : CircuitBreakerState

unfoldable pub state_string : CircuitBreakerState → String
state_string state_closed = "CLOSED"
state_string state_open = "OPEN"
state_string state_half_open = "HALF_OPEN"

pub record CircuitBreakerConfig : Type 0 where
  pub max_failures : ℕ
  pub timeout : ℕ
  pub max_requests : ℕ

-- 5 failures, 30 seconds, 3 requests.
abbrev pub default_circuit_breaker_config : CircuitBreakerConfig
default_circuit_breaker_config = record {
  max_failures = 5;
  timeout = 30_000_000_000;
  max_requests = 3;
}

pub record CircuitBreaker : Type 0 where
  pub config : CircuitBreakerConfig
  pub state : CircuitBreakerState
  pub failures : ℕ
  pub last_failure_time : ℕ
  pub last_state_change : ℕ
  pub half_open_requests : ℕ
  pub total_requests : ℕ
  pub total_successes : ℕ
  pub total_failures : ℕ
  pub total_rejections : ℕ

-- `uint64` arithmetic.
abbrev pub u64 : ℕ → ℕ
u64 n = n % 2 ^ 64

-- What `Call` returns: the breaker's own refusal, or the error of the guarded function.
pub data CallError (E : Type 0) : Type 0 where
  breaker_open : CallError E
  inner : E → CallError E

unfoldable pub new_circuit_breaker : ℕ → CircuitBreakerConfig → CircuitBreaker
new_circuit_breaker now config = record {
  config = config;
  state = state_closed;
  failures = 0;
  last_failure_time = 0;
  last_state_change = now;
  half_open_requests = 0;
  total_requests = 0;
  total_successes = 0;
  total_failures = 0;
  total_rejections = 0;
}

abbrev pub same_state : CircuitBreakerState → CircuitBreakerState → Bool
same_state state_closed state_closed = true
same_state state_open state_open = true
same_state state_half_open state_half_open = true
same_state _ _ = false

unfoldable pub set_state : ℕ → CircuitBreakerState → CircuitBreaker → CircuitBreaker
set_state now s cb =
    if same_state cb.state s then cb else (record cb { state = s; last_state_change = now })

reject : CircuitBreaker → CircuitBreaker × Bool
reject cb = (record cb { total_rejections = u64 (cb.total_rejections + 1) }, false)

-- The `switch` of `beforeRequest`; `true` is the nil error, `false` is `ErrCircuitBreakerOpen`.
admit : CircuitBreakerState → ℕ → CircuitBreaker → CircuitBreaker × Bool
unfolding set_state reject
admit state_closed now cb = (cb, true)
admit state_open now cb =
    if ltb cb.config.timeout (now - cb.last_failure_time)
    then (record (set_state now state_half_open cb) { half_open_requests = 0 }, true)
    else reject cb
admit state_half_open now cb =
    if leb cb.config.max_requests cb.half_open_requests
    then reject cb
    else (record cb { half_open_requests = cb.half_open_requests + 1 }, true)

unfoldable pub before_request : ℕ → CircuitBreaker → CircuitBreaker × Bool
unfolding admit
before_request now cb =
    admit cb.state now (record cb { total_requests = u64 (cb.total_requests + 1) })

-- The `switch` of `onSuccess`; the state is read as it was on entry.
success_by : CircuitBreakerState → ℕ → CircuitBreaker → CircuitBreaker
unfolding set_state
success_by state_closed now cb = if ltb 0 cb.failures then (record cb { failures = 0 }) else cb
success_by state_open now cb = cb
success_by state_half_open now cb =
    if leb cb.config.max_requests cb.half_open_requests
    then (record (set_state now state_closed cb) { failures = 0; half_open_requests = 0 })
    else cb

unfoldable pub on_success : ℕ → CircuitBreaker → CircuitBreaker
unfolding success_by
on_success now cb =
    success_by cb.state now (record cb { total_successes = u64 (cb.total_successes + 1) })

failure_by : CircuitBreakerState → ℕ → CircuitBreaker → CircuitBreaker
unfolding set_state
failure_by state_closed now cb =
    if leb cb.config.max_failures cb.failures then set_state now state_open cb else cb
failure_by state_open now cb = cb
failure_by state_half_open now cb = set_state now state_open cb

unfoldable pub on_failure : ℕ → CircuitBreaker → CircuitBreaker
unfolding failure_by
on_failure now cb = failure_by cb.state now (record cb {
  total_failures = u64 (cb.total_failures + 1);
  failures = cb.failures + 1;
  last_failure_time = now;
})

unfoldable pub after_request : {E : Type 0} → ℕ → Option E → CircuitBreaker → CircuitBreaker
unfolding on_success on_failure
after_request now none cb = on_success now cb
after_request now (some e) cb = on_failure now cb

finish_call :
    {E : Type 0} → ℕ → Option E → CircuitBreaker × Bool → CircuitBreaker × Option (CallError E)
unfolding after_request
finish_call {E} later none (cb, true) = (after_request {E = E} later none cb, none)
finish_call later (some e) (cb, true) = (after_request later (some e) cb, some (inner e))
finish_call later result (cb, false) = (cb, some breaker_open)

-- `Call` by one goroutine alone: `result` is what `fn` returns if it is called, `later` the clock
-- when it has returned.
unfoldable pub call :
    {E : Type 0} → ℕ → ℕ → Option E → CircuitBreaker → CircuitBreaker × Option (CallError E)
unfolding before_request finish_call
call now later result cb = finish_call later result (before_request now cb)

unfoldable pub reset : ℕ → CircuitBreaker → CircuitBreaker
reset now cb = record cb {
  state = state_closed;
  failures = 0;
  half_open_requests = 0;
  last_state_change = now;
}

unfoldable pub is_open : CircuitBreaker → Bool
is_open cb = same_state cb.state state_open

-- The map that `GetStats` returns, with its instant unformatted.
pub record Stats : Type 0 where
  pub state : String
  pub failures : ℕ
  pub total_requests : ℕ
  pub total_successes : ℕ
  pub total_failures : ℕ
  pub total_rejections : ℕ
  pub last_state_change : ℕ

unfoldable pub get_stats : CircuitBreaker → Stats
unfolding state_string
get_stats cb = record {
  state = state_string cb.state;
  failures = cb.failures;
  total_requests = cb.total_requests;
  total_successes = cb.total_successes;
  total_failures = cb.total_failures;
  total_rejections = cb.total_rejections;
  last_state_change = cb.last_state_change;
}
