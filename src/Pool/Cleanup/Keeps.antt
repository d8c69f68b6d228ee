-- ===== src/Pool/Cleanup/Keeps.antt =====
-- A cleanup as one step of a pool: no connection is lost, and the pool's invariant is kept.
use transisi_db.Prelude.{
  ℕ, zero, suc, ◌+◌, ◌≤◌, ◌≡◌, refl, ap, sym, subst, ◌∙◌, Bool, false, Option, none, some, List, [],
  ◌∷◌, ◌++◌, length, All, arith, length-append, if-cases, Bool-cases, inl, inr, ltb, ltb→lt,
  if◌then◌else◌,
}
use transisi_db.Pool.{BackendConn, BackendPool}
use transisi_db.Pool.Laws.{Inv, IsClean, All-append}
use transisi_db.Pool.Cleanup.{
  Chan, receive, Limits, is_stale, Drained, sort_out, drain, put_back, cleanup_stale_connections,
  after_cleanup, chan_of, cleanup,
}
use transisi_db.Pool.Cleanup.Laws.{cleanup_closed}

-- How many connections a drain has in its hands, and that all are clean.
abbrev size : Drained → ℕ
size d = length d.chan.buffer + length d.healthy_conns + length d.evicted

record AllClean (d : Drained) : Type 0 where
  pub kept : All IsClean d.healthy_conns
  pub waiting : All IsClean d.chan.buffer

module _ (healthy : BackendConn → Bool) (limits : Limits) (now : ℕ) where
  sort_out-size :
      (bc : BackendConn) (rest : List BackendConn) (d : Drained)
      → d.chan.buffer ≡ bc ∷ rest
      → let ch : Chan = record (d.chan) { buffer = rest } in
        (size (sort_out healthy limits now bc ch d) ≡ size d)
        × ((sort_out healthy limits now bc ch d).chan ≡ ch)
  unfolding sort_out
  sort_out-size bc rest d e = ground (arith, ap length e, length-append d.healthy_conns (bc ∷ []))

  sort_out-AllClean :
      (bc : BackendConn) (rest : List BackendConn) (d : Drained)
      → d.chan.buffer ≡ bc ∷ rest
      → AllClean d
      → AllClean (sort_out healthy limits now bc (record (d.chan) { buffer = rest }) d)
  unfolding sort_out
  sort_out-AllClean bc rest d e v =
      let (clean, others) = subst (All IsClean) e v.waiting in
      if-cases AllClean (is_stale healthy limits now bc) _ _
        (λ _. record { kept = v.kept; waiting = others })
        (λ _. record {
          kept = All-append IsClean d.healthy_conns (bc ∷ []) v.kept (clean, tt);
          waiting = others;
        })

  -- What a drain that ends has made of its start.
  record Keeps (d d' : Drained) : Type 0 where
    pub same_size : size d' ≡ size d
    pub emptied : d'.chan.buffer ≡ []
    pub same_capacity : d'.chan.capacity ≡ d.chan.capacity
    pub all_clean : AllClean d → AllClean d'

  drain_got :
      (fuel : ℕ) (bc : BackendConn) (rest : List BackendConn) (d : Drained)
      → d.chan.buffer ≡ bc ∷ rest
      → drain healthy limits now (suc fuel) d
        ≡ drain healthy limits now fuel
            (sort_out healthy limits now bc (record (d.chan) { buffer = rest }) d)
  unfolding drain receive
  drain_got fuel bc rest d e = ground arith

  drain_empty :
      (fuel : ℕ) (d : Drained)
      → d.chan.buffer ≡ []
      → drain healthy limits now (suc fuel) d
        ≡ (if d.chan.is_closed then drain healthy limits now fuel d else some d)
  unfolding drain receive
  drain_empty fuel d e = ground arith

  drain-Keeps :
      (fuel : ℕ) (bcs : List BackendConn) (d : Drained)
      → d.chan.buffer ≡ bcs
      → {d' : Drained} → drain healthy limits now fuel d ≡ some d'
      → Keeps d d'
  drain-Keeps zero bcs d e h = unfold drain in cc
  drain-Keeps (suc fuel) [] d e {d'} h = elim (Bool-cases d.chan.is_closed) [
    | inl c ↦ drain-Keeps fuel [] d e (ground (arith, drain_empty fuel d e))
    | inr o ↦
        let same : d ≡ d' = ground (arith, drain_empty fuel d e) in
        subst (Keeps d) same
          (record { same_size = refl; emptied = e; same_capacity = refl; all_clean = λ v. v })
  ]
  drain-Keeps (suc fuel) (bc ∷ rest) d e h =
      let next = sort_out healthy limits now bc (record (d.chan) { buffer = rest }) d in
      let sorted = sort_out-size bc rest d e in
      let k =
        drain-Keeps fuel rest next (ap (λ c. c.buffer) sorted.1)
          (sym (drain_got fuel bc rest d e) ∙ h) in
      record {
        same_size = k.same_size ∙ sorted.0;
        emptied = k.emptied;
        same_capacity = k.same_capacity ∙ ap (λ c. c.capacity) sorted.1;
        all_clean = λ v. k.all_clean (sort_out-AllClean bc rest d e v);
      }

-- Putting back, into a channel with room or without.
put_back-size :
    (bcs : List BackendConn) (d : Drained)
    → length (put_back bcs d).chan.buffer + length (put_back bcs d).evicted
      ≡ length d.chan.buffer + length d.evicted + length bcs
unfolding put_back
put_back-size [] d = omega arith
put_back-size (bc ∷ bcs) d =
    let next : Drained =
      if ltb (length d.chan.buffer) d.chan.capacity
      then record d { chan = record (d.chan) { buffer = d.chan.buffer ++ bc ∷ [] } }
      else record d { evicted = bc ∷ d.evicted } in
    ground (arith, put_back-size bcs next, length-append d.chan.buffer (bc ∷ []))

-- The channel stays within its capacity, and what is in it stays clean.
record Fits (capacity : ℕ) (d : Drained) : Type 0 where
  pub bound : d.chan.capacity ≡ capacity
  pub within : length d.chan.buffer ≤ capacity
  pub clean : All IsClean d.chan.buffer

put_back-Fits :
    {capacity : ℕ} (bcs : List BackendConn) (d : Drained)
    → All IsClean bcs
    → Fits capacity d
    → Fits capacity (put_back bcs d)
unfolding put_back
put_back-Fits [] d c f = f
put_back-Fits {capacity} (bc ∷ bcs) d c f = put_back-Fits bcs _ c.1 (
    if-cases (Fits capacity) (ltb (length d.chan.buffer) d.chan.capacity) _ _
      (λ room. record {
        bound = f.bound;
        within = omega (
          arith,
          length-append d.chan.buffer (bc ∷ []),
          ltb→lt (length d.chan.buffer) d.chan.capacity room,
          f.bound,
        );
        clean = All-append IsClean d.chan.buffer (bc ∷ []) f.clean (c.0, tt);
      })
      (λ _. record { bound = f.bound; within = f.within; clean = f.clean }))

-- What a cleanup that returns has made of the pool.
pub record Cleaned (p q : BackendPool) : Type 0 where
  pub same_held :
      length q.connections + length q.discarded ≡ length p.connections + length p.discarded
  pub same_created : q.total_created ≡ p.total_created
  pub keeps_Inv : Inv p → Inv q

abbrev begun : BackendPool → Drained
begun p = record {
  chan = chan_of p;
  healthy_conns = [];
  evicted = [];
  total_evicted = p.total_evicted;
}

abbrev emptied_into : BackendPool → Drained → BackendPool
emptied_into p d = record p {
  connections = d.chan.buffer;
  discarded = d.evicted ++ p.discarded;
  total_evicted = d.total_evicted;
}

module _ (healthy : BackendConn → Bool) (limits : Limits) (now : ℕ) where
  emptied-Cleaned :
      (p : BackendPool) (d : Drained)
      → p.closed ≡ false
      → Keeps healthy limits now (begun p) d
      → Cleaned p (emptied_into p (put_back d.healthy_conns d))
  emptied-Cleaned p d o k = record {
    same_held = omega (
      arith,
      k.same_size,
      ap length k.emptied,
      put_back-size d.healthy_conns d,
      length-append (put_back d.healthy_conns d).evicted p.discarded,
    );
    same_created = refl;
    keeps_Inv = λ v.
        let c = k.all_clean (record { kept = tt; waiting = v.clean }) in
        let f = put_back-Fits d.healthy_conns d c.kept (record {
          bound = k.same_capacity;
          within = omega (arith, ap length k.emptied);
          clean = c.waiting;
        }) in
        record { fits = f.within; clean = f.clean; drained = λ cl. absurd (ground arith) };
  }

  cleanup-drained :
      (fuel : ℕ) (p : BackendPool) (r : Option Drained)
      → drain healthy limits now fuel (begun p) ≡ r
      → p.closed ≡ false
      → {q : BackendPool} → cleanup healthy limits now fuel p ≡ some q
      → Cleaned p q
  unfolding cleanup after_cleanup cleanup_stale_connections
  cleanup-drained fuel p none e o h = absurd (ground (arith, e, h))
  cleanup-drained fuel p (some d) e o h =
      subst (Cleaned p) (ground (arith, e, h))
        (emptied-Cleaned p d o (drain-Keeps healthy limits now fuel p.connections (begun p) refl e))

  -- A cleanup that returns loses no connection and keeps the pool's invariant.
  pub cleanup-Cleaned :
      (fuel : ℕ) (p : BackendPool) {q : BackendPool}
      → cleanup healthy limits now fuel p ≡ some q
      → Cleaned p q
  cleanup-Cleaned fuel p {q} h = elim (Bool-cases p.closed) [
    | inl c ↦
        let never = cleanup_closed healthy limits now fuel (chan_of p) p.total_evicted c in
        absurd (unfold cleanup after_cleanup in cc (h, never))
    | inr o ↦ cleanup-drained fuel p (drain healthy limits now fuel (begun p)) refl o h
  ]
