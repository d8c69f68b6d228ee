-- ===== src/Pool/Cleanup.antt =====
-- `cleanupStaleConnections` and the loop of `cleanupWorker`, on the channel itself: a receive from a
-- closed channel that is empty does not wait, and gives nil.
pub mod Laws
pub mod Keeps
use transisi_db.Prelude.{
  ℕ, zero, suc, ◌+◌, ◌-◌, ◌*◌, ◌/◌, ◌%◌, ◌≤◌, ◌<◌, ◌≡◌, refl, Bool, true, false, ◌||◌, not, Option,
  none, some, List, [], ◌∷◌, ◌++◌, length, All, arith, ltb, if◌then◌else◌, Bool-cases,
  length-append, ap, inl, inr,
}
use transisi_db.Breaker.{u64}
use transisi_db.Pool.{BackendConn, BackendPool, idle_time, age}

pub record Chan : Type 0 where
  pub buffer : List BackendConn
  pub capacity : ℕ
  pub is_closed : Bool

-- What `select { case conn := <-ch: default: }` does: a connection, nil, or the default branch.
pub data Received : Type 0 where
  got : BackendConn → Chan → Received
  got_nil : Received
  nothing : Received

receive_from : List BackendConn → Chan → Received
receive_from [] ch = if ch.is_closed then got_nil else nothing
receive_from (bc ∷ rest) ch = got bc (record ch { buffer = rest })

unfoldable pub receive : Chan → Received
unfolding receive_from
receive ch = receive_from ch.buffer ch

pub record Limits : Type 0 where
  pub max_idle_time : ℕ
  pub max_age : ℕ

unfoldable pub is_stale : (BackendConn → Bool) → Limits → ℕ → BackendConn → Bool
is_stale healthy limits now bc =
    ltb limits.max_idle_time (idle_time now bc)
    || ltb limits.max_age (age now bc)
    || not (healthy bc)

-- What the drain has done so far: the connections to keep, in order, and those closed, newest first.
pub record Drained : Type 0 where
  pub chan : Chan
  pub healthy_conns : List BackendConn
  pub evicted : List BackendConn
  pub total_evicted : ℕ

sort_out : (BackendConn → Bool) → Limits → ℕ → BackendConn → Chan → Drained → Drained
unfolding is_stale
sort_out healthy limits now bc ch d =
    if is_stale healthy limits now bc
    then record d { chan = ch; evicted = bc ∷ d.evicted; total_evicted = u64 (d.total_evicted + 1) }
    else record d { chan = ch; healthy_conns = d.healthy_conns ++ bc ∷ [] }

-- The first loop; `none` means that it is still running when the fuel is used up.
drain : (BackendConn → Bool) → Limits → ℕ → ℕ → Drained → Option Drained
drain healthy limits now zero d = none
drain healthy limits now (suc fuel) d = elim (receive d.chan) [
  | got bc ch ↦ drain healthy limits now fuel (sort_out healthy limits now bc ch d)
  | got_nil ↦ drain healthy limits now fuel d
  | nothing ↦ some d
]

-- The second loop, into the drained channel.
put_back : List BackendConn → Drained → Drained
put_back [] d = d
put_back (bc ∷ bcs) d = put_back bcs (
    if ltb (length d.chan.buffer) d.chan.capacity
    then record d { chan = record (d.chan) { buffer = d.chan.buffer ++ bc ∷ [] } }
    else record d { evicted = bc ∷ d.evicted })

unfoldable pub cleanup_stale_connections :
    (BackendConn → Bool) → Limits → ℕ → ℕ → Chan → ℕ → Option Drained
unfolding drain put_back sort_out receive
cleanup_stale_connections healthy limits now fuel ch total =
    elim (drain healthy limits now fuel
      (record { chan = ch; healthy_conns = []; evicted = []; total_evicted = total })) [
        | none ↦ none
        | some d ↦ some (put_back d.healthy_conns d)
      ]

-- The worker's ticker fires at the multiples of its period, and holds one tick that was not yet
-- received. What is received at `t` is followed by the tick at the next multiple.
abbrev pub period : ℕ
period = 30_000_000_000

abbrev pub minute : ℕ
minute = 60_000_000_000

abbrev pub next_tick : ℕ → ℕ
next_tick t = (t / period + 1) * period

pub data Wake : Type 0 where
  tick after : Wake

-- The `select` of `cleanupWorker`, entered at `now` with the next tick due at `due`: the branch taken,
-- and the time. The timer of `time.After(1 * time.Minute)` is made anew on each entry.
unfoldable pub wakes : ℕ → ℕ → Wake × ℕ
wakes now due =
    if ltb (now + minute) due
    then (after, now + minute)
    else (tick, if ltb now due then due else now)

-- The branches that are taken, for given durations of the work done in each round.
unfoldable pub worker : ℕ → ℕ → List ℕ → List Wake
unfolding wakes
worker now due [] = []
worker now due (work ∷ works) =
    let (w, t) = wakes now due in w ∷ worker (t + work) (next_tick t) works

-- A whole cleanup of a pool.
after_cleanup : BackendPool → Option Drained → Option BackendPool
after_cleanup p none = none
after_cleanup p (some d) = some (record p {
  connections = d.chan.buffer;
  discarded = d.evicted ++ p.discarded;
  total_evicted = d.total_evicted;
})

abbrev chan_of : BackendPool → Chan
chan_of p = record { buffer = p.connections; capacity = p.capacity; is_closed = p.closed }

unfoldable pub cleanup : (BackendConn → Bool) → Limits → ℕ → ℕ → BackendPool → Option BackendPool
unfolding after_cleanup
cleanup healthy limits now fuel p =
    after_cleanup p (cleanup_stale_connections healthy limits now fuel (chan_of p) p.total_evicted)
