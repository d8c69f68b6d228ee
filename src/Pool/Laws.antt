-- ===== src/Pool/Laws.antt =====
-- What holds of the pool between two methods, and what a connection is like that it hands out.
use transisi_db.Prelude.{
  ℕ, ◌+◌, ◌≤◌, ◌<◌, ◌≡◌, inl, inr, refl, sym, ap, subst, ◌∙◌, Bool, true, false, Option, none, some,
  List, [], ◌∷◌, ◌++◌, length, length-append, All, arith, Bool-cases, ltb, ltb→lt, if-cases,
  if◌then◌else◌, not, ◌&&◌,
}
use transisi_db.Breaker.{CallError, breaker_open, inner, call, u64}
use transisi_db.Pool.{
  BackendConn, BackendPool, Acquired, conn, new_backend_conn, reset, update_last_used, created,
  create_connection, take_or_create, acquire, release, close, new_backend_pool, discard,
}

-- In no transaction, on no database.
pub record IsClean (bc : BackendConn) : Type 0 where
  pub no_transaction : bc.in_transaction ≡ false
  pub no_database : bc.database ≡ []

-- The idle connections fit the channel and are clean, and a closed pool has none.
pub record Inv (p : BackendPool) : Type 0 where
  pub fits : length p.connections ≤ p.capacity
  pub clean : All IsClean p.connections
  pub drained : p.closed ≡ true → p.connections ≡ []

pub All-append {ℓ κ} :
    {A : Type ℓ} (P : A → Type κ) (xs ys : List A) → All P xs → All P ys → All P (xs ++ ys)
All-append P [] ys h k = k
All-append P (x ∷ xs) ys h k = (h.0, All-append P xs ys h.1 k)

pub new_backend_pool-Inv : (now size : ℕ) → Inv (new_backend_pool now size)
unfolding new_backend_pool
new_backend_pool-Inv now size = record { fits = omega arith; clean = tt; drained = λ _. refl }

-- Creating a connection leaves the channel alone.
created-same :
    {E : Type 0} (now : ℕ) (p : BackendPool) (r : Option (CallError E))
    → let q = (created now p r).0 in
      (q.connections ≡ p.connections) × (q.capacity ≡ p.capacity) × (q.closed ≡ p.closed)
unfolding created
created-same now p none = ground arith
created-same now p (some breaker_open) = ground arith
created-same now p (some (inner e)) = ground arith

create_connection-Inv :
    {E : Type 0} (now later : ℕ) (dial : Option E) (p : BackendPool)
    → Inv p
    → Inv (create_connection now later dial p).0
unfolding create_connection
create_connection-Inv now later dial p v =
    let r = call now later dial p.circuit_breaker in
    let (same, cap, open_still) = created-same later (record p { circuit_breaker = r.0 }) r.1 in
    record {
      fits = omega (arith, ap length same, cap, v.fits);
      clean = subst (All IsClean) (sym same) v.clean;
      drained = λ e. same ∙ v.drained (sym open_still ∙ e);
    }

take_or_create-Inv :
    {E : Type 0} (healthy : BackendConn → Bool) (now later : ℕ) (dial : Option E)
    (bcs : List BackendConn) (p : BackendPool)
    → p.connections ≡ bcs
    → p.closed ≡ false
    → Inv p
    → Inv (take_or_create healthy now later dial bcs p).0
unfolding take_or_create
take_or_create-Inv healthy now later dial [] p e o v = create_connection-Inv now later dial p v
take_or_create-Inv healthy now later dial (bc ∷ rest) p e o v = elim (Bool-cases (healthy bc)) [
  | inl h ↦ rw h (record {
    fits = omega (arith, ap length e, v.fits);
    clean = (subst (All IsClean) e v.clean).1;
    drained = λ c. absurd (ground arith);
  })
  | inr h ↦ rw h (
      create_connection-Inv now later dial _ (record {
        fits = omega (arith, ap length e, v.fits);
        clean = (subst (All IsClean) e v.clean).1;
        drained = λ c. absurd (ground arith);
      }))
]

pub acquire-Inv :
    {E : Type 0} (healthy : BackendConn → Bool) (now later : ℕ) (dial : Option E) (p : BackendPool)
    → Inv p
    → Inv (acquire healthy now later dial p).0
unfolding acquire
acquire-Inv {E} healthy now later dial p v =
    if-cases (λ (r : BackendPool × Acquired E). Inv r.0) p.closed _ _ (λ _. v)
      (λ o. take_or_create-Inv healthy now later dial p.connections p refl o v)

-- Closing one more connection leaves the channel alone.
discard-Inv : (bc : BackendConn) (p : BackendPool) → Inv p → Inv (discard bc p)
discard-Inv bc p v = record { fits = v.fits; clean = v.clean; drained = v.drained }

return-Inv :
    (now : ℕ) (bc : BackendConn) (p : BackendPool)
    → p.closed ≡ false
    → length p.connections < p.capacity
    → Inv p
    → Inv (record p {
      connections = p.connections ++ reset now bc ∷ [];
      total_released = u64 (p.total_released + 1);
    })
return-Inv now bc p o room v = record {
  fits = omega (arith, length-append p.connections (reset now bc ∷ []), room);
  clean =
      All-append IsClean p.connections (reset now bc ∷ []) v.clean
        (record { no_transaction = refl; no_database = refl }, tt);
  drained = λ c. absurd (ground arith);
}

pub release-Inv :
    (now : ℕ) (bc : Option BackendConn) (p : BackendPool) → Inv p → Inv (release now bc p)
unfolding release
release-Inv now none p v = v
release-Inv now (some bc) p v =
    if-cases Inv p.closed _ _ (λ _. discard-Inv bc p v)
      λ o.
        if-cases Inv bc.in_transaction _ _ (λ _. discard-Inv bc p v)
          λ _.
            if-cases Inv (ltb (length p.connections) p.capacity) _ _
              (λ r. return-Inv now bc p o (ltb→lt (length p.connections) p.capacity r) v)
              (λ _. discard-Inv (reset now bc) p v)

pub close-Inv : (p : BackendPool) → Inv p → Inv (close p)
unfolding close
close-Inv p v =
    if-cases Inv p.closed _ _ (λ _. v)
      (λ _. record { fits = omega arith; clean = tt; drained = λ _. refl })

-- A connection goes back to the pool on exactly one path: the pool is open, the connection is in no
-- transaction and there is room; on all others it is closed. Either way no connection is lost.
pub release_outcome :
    (now : ℕ) (bc : BackendConn) (p : BackendPool)
    → let back = not p.closed && (not bc.in_transaction && ltb (length p.connections) p.capacity) in
      ((release now (some bc) p).connections
        ≡ (if back then p.connections ++ reset now bc ∷ [] else p.connections))
      × (length (release now (some bc) p).discarded
          ≡ (if back then length p.discarded else length p.discarded + 1))
unfolding release
release_outcome now bc p = ground arith

release_into_empty :
    (now : ℕ) (bc : BackendConn) (p : BackendPool)
    → p.closed ≡ false
    → p.connections ≡ []
    → 0 < p.capacity
    → bc.in_transaction ≡ false
    → release now (some bc) p
      ≡ record p { connections = reset now bc ∷ []; total_released = u64 (p.total_released + 1) }
unfolding release
release_into_empty now bc p o e room t = ground arith

acquire_first :
    {E : Type 0} (healthy : BackendConn → Bool) (now later : ℕ) (dial : Option E) (bc : BackendConn)
    (rest : List BackendConn) (p : BackendPool)
    → p.closed ≡ false
    → p.connections ≡ bc ∷ rest
    → healthy bc ≡ true
    → (acquire healthy now later dial p).1 ≡ conn (update_last_used now bc)
unfolding acquire
acquire_first healthy now later dial bc rest p o e h = ground arith

-- A connection that is returned to an open, empty pool is the next one to be acquired while it is
-- healthy: with its identity and age, in no transaction and on no database.
pub release-acquire :
    {E : Type 0} (healthy : BackendConn → Bool) (now now' later : ℕ) (dial : Option E)
    (bc : BackendConn) (p : BackendPool)
    → p.closed ≡ false
    → p.connections ≡ []
    → 0 < p.capacity
    → bc.in_transaction ≡ false
    → healthy (reset now bc) ≡ true
    → (acquire healthy now' later dial (release now (some bc) p)).1
      ≡ conn (record (new_backend_conn bc.created_at bc.connection_id) { last_used_at = now' })
release-acquire healthy now now' later dial bc p o e room t h =
    rw (release_into_empty now bc p o e room t)
      (acquire_first healthy now' later dial (reset now bc) [] _ o refl h)
