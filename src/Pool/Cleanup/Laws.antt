-- ===== src/Pool/Cleanup/Laws.antt =====
-- What a cleanup keeps and evicts on an open channel, and that it never ends on a closed one.
use transisi_db.Prelude.{
  ℕ, zero, suc, ◌+◌, ◌≤◌, ◌<◌, ◌≡◌, refl, Bool, true, false, none, some, List, [], ◌∷◌, ◌++◌,
  length, All, arith, if◌then◌else◌, length-append, append-nil, append_assoc, ◌^◌, ◌&&◌, not, leb,
}
use transisi_db.Breaker.{u64}
use transisi_db.Pool.{BackendConn, idle_time, age}
use transisi_db.Pool.Cleanup.{
  Chan, receive, Limits, is_stale, Drained, sort_out, drain, put_back, cleanup_stale_connections,
  period, next_tick, tick, wakes, worker,
}

module _ (healthy : BackendConn → Bool) (limits : Limits) (now : ℕ) where
  sort_out-chan :
      (bc : BackendConn) (ch : Chan) (d : Drained) → (sort_out healthy limits now bc ch d).chan ≡ ch
  unfolding sort_out
  sort_out-chan bc ch d = ground arith

  drain_closed :
      (fuel : ℕ) (bcs : List BackendConn) (d : Drained)
      → d.chan.buffer ≡ bcs
      → d.chan.is_closed ≡ true
      → drain healthy limits now fuel d ≡ none
  unfolding drain receive
  drain_closed zero bcs d e c = refl
  drain_closed (suc fuel) [] d e c = ground (arith, drain_closed fuel [] d)
  drain_closed (suc fuel) (bc ∷ rest) d e c =
      let ch : Chan = record (d.chan) { buffer = rest } in
      ground
        (arith, sort_out-chan bc ch d, drain_closed fuel rest (sort_out healthy limits now bc ch d))

  -- On a closed channel a cleanup never returns, whatever the channel still holds: once it is empty
  -- every receive gives nil, which the loop skips.
  pub cleanup_closed :
      (fuel : ℕ) (ch : Chan) (total : ℕ)
      → ch.is_closed ≡ true
      → cleanup_stale_connections healthy limits now fuel ch total ≡ none
  unfolding cleanup_stale_connections
  cleanup_closed fuel ch total c = ground (
    arith,
    drain_closed fuel ch.buffer
        (record { chan = ch; healthy_conns = []; evicted = []; total_evicted = total }) refl c,
  )

  -- Healthy, not idle for too long, and not too old.
  abbrev pub stays : BackendConn → Bool
  stays bc =
      healthy bc && (leb (idle_time now bc) limits.max_idle_time && leb (age now bc) limits.max_age)

  is_stale-stays : (bc : BackendConn) → is_stale healthy limits now bc ≡ not (stays bc)
  unfolding is_stale
  is_stale-stays bc = ground arith

  -- The connections that stay, and the others.
  abbrev pub fresh_of : List BackendConn → List BackendConn
  fresh_of [] = []
  fresh_of (bc ∷ bcs) = if stays bc then bc ∷ fresh_of bcs else fresh_of bcs

  abbrev pub stale_of : List BackendConn → List BackendConn
  stale_of [] = []
  stale_of (bc ∷ bcs) = if stays bc then stale_of bcs else bc ∷ stale_of bcs

  abbrev push_all : List BackendConn → List BackendConn → List BackendConn
  push_all [] out = out
  push_all (bc ∷ bcs) out = push_all bcs (bc ∷ out)

  length-fresh_of-le : (bcs : List BackendConn) → length (fresh_of bcs) ≤ length bcs
  length-fresh_of-le [] = omega arith
  length-fresh_of-le (bc ∷ bcs) = ground (arith, length-fresh_of-le bcs)

  drain_open :
      (fuel : ℕ) (bcs : List BackendConn) (d : Drained)
      → d.chan.buffer ≡ bcs
      → d.chan.is_closed ≡ false
      → length bcs < fuel
      → d.total_evicted < 2 ^ 64
      → drain healthy limits now fuel d
        ≡ some (record {
          chan = record (d.chan) { buffer = [] };
          healthy_conns = d.healthy_conns ++ fresh_of bcs;
          evicted = push_all (stale_of bcs) d.evicted;
          total_evicted = u64 (d.total_evicted + length (stale_of bcs));
        })
  unfolding drain receive sort_out
  drain_open zero bcs d e c f b = absurd (omega arith)
  drain_open (suc fuel) [] d e c f b = ground (arith, append-nil d.healthy_conns)
  drain_open (suc fuel) (bc ∷ rest) d e c f b =
      let ch : Chan = record (d.chan) { buffer = rest } in
      ground (
        arith,
        is_stale-stays bc,
        append_assoc d.healthy_conns (bc ∷ []) (fresh_of rest),
        drain_open fuel rest (sort_out healthy limits now bc ch d),
      )

  put_back_fits :
      (bcs : List BackendConn) (d : Drained)
      → length d.chan.buffer + length bcs ≤ d.chan.capacity
      → put_back bcs d ≡ record d { chan = record (d.chan) { buffer = d.chan.buffer ++ bcs } }
  unfolding put_back
  put_back_fits [] d h = ground (arith, append-nil d.chan.buffer)
  put_back_fits (bc ∷ bcs) d h =
      let next = record d { chan = record (d.chan) { buffer = d.chan.buffer ++ bc ∷ [] } } in
      ground (
        arith,
        length-append d.chan.buffer (bc ∷ []),
        append_assoc d.chan.buffer (bc ∷ []) bcs,
        put_back_fits bcs next,
      )

  -- On an open channel that is not overfull a cleanup with one round more than there are connections
  -- ends: the connections that are healthy, and neither too old nor idle for too long, are back in
  -- the channel in their order, all others are closed and counted, and none is dropped.
  pub cleanup_open :
      (fuel : ℕ) (ch : Chan) (total : ℕ)
      → ch.is_closed ≡ false
      → length ch.buffer < fuel
      → length ch.buffer ≤ ch.capacity
      → total < 2 ^ 64
      → cleanup_stale_connections healthy limits now fuel ch total
        ≡ some (record {
          chan = record ch { buffer = fresh_of ch.buffer };
          healthy_conns = fresh_of ch.buffer;
          evicted = push_all (stale_of ch.buffer) [];
          total_evicted = u64 (total + length (stale_of ch.buffer));
        })
  unfolding cleanup_stale_connections
  cleanup_open fuel ch total c f fits b =
      let d : Drained = record {
        chan = ch;
        healthy_conns = [];
        evicted = [];
        total_evicted = total;
      } in
      let drained : Drained = record {
        chan = record ch { buffer = [] };
        healthy_conns = fresh_of ch.buffer;
        evicted = push_all (stale_of ch.buffer) [];
        total_evicted = u64 (total + length (stale_of ch.buffer));
      } in
      ground (
        arith,
        drain_open fuel ch.buffer d refl,
        length-fresh_of-le ch.buffer,
        put_back_fits (fresh_of ch.buffer) drained,
      )

woken : (now due : ℕ) → due ≤ now + period → (wakes now due).0 ≡ tick
unfolding wakes
woken now due h = ground arith

tick_due : (t work : ℕ) → next_tick t ≤ t + work + period
tick_due t work = omega arith

-- The worker's timer never fires: whenever it waits, a tick is due within half a minute.
worker_from :
    (now due : ℕ) (works : List ℕ) → due ≤ now + period → All (λ w. w ≡ tick) (worker now due works)
unfolding worker
worker_from now due [] h = tt
worker_from now due (work ∷ works) h =
    let t : ℕ = (wakes now due).1 in
    (woken now due h, worker_from (t + work) (next_tick t) works (tick_due t work))

-- `cleanupWorker` always wakes for its ticker and never for its timer, behind which it tests `closed`
-- and returns, however long each cleanup takes.
pub worker_never_stops :
    (start : ℕ) (works : List ℕ) → All (λ w. w ≡ tick) (worker start (next_tick start) works)
worker_never_stops start works = worker_from start (next_tick start) works (omega arith)
