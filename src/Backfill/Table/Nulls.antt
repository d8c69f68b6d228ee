-- ===== src/Backfill/Table/Nulls.antt =====
-- One pending row whose amount is NULL.
use transisi_db.Prelude.{
  ℕ, zero, suc, ◌+◌, ◌-◌, ◌^◌, ◌<◌, ◌≤◌, ◌≡◌, ◌≢◌, inl, inr, refl, sym, ap, ◌∙◌, true, false, List,
  [], ◌∷◌, length, min, ℤ, arith, if-cases,
}
use transisi_db.Backfill.{Batch, processed, failed_after, Ending, batch_error, should_retry, Worker}
use transisi_db.Backfill.Tracker.{
  Progress, increment_completed, increment_errors, start_progress, set_total,
}
use transisi_db.Backfill.Table.{
  Row, pending, IsKeyed, Database, migrate_batch, after_batch, migrate, after_count,
  start_migration,
}
use transisi_db.Backfill.Table.Rows.{pending_one}
use transisi_db.Backfill.Table.Batches.{IsNull, IsDone, migrate_batch-IsDone}

pending-IsNull : {F : Type 0} (q : Row F) (rs : List (Row F)) → IsNull q rs → 0 < pending rs
pending-IsNull q [] (m, n, e) = absurd m
pending-IsNull q (r ∷ rs) (inl m, n, e) =
    omega (arith, pending_one r rs (sym (ap (λ (x : Row _). x.shadow) m) ∙ n))
pending-IsNull q (r ∷ rs) (inr m, n, e) = let h = pending-IsNull q rs (m, n, e) in ground arith

retried :
    (attempts : ℕ) (p : Progress)
    → p.errors < attempts
    → attempts < 2 ^ 63
    → should_retry attempts (increment_errors p) ≡ true
    → ((increment_errors p).errors < attempts) × ((increment_errors p).errors ≡ p.errors + 1)
unfolding should_retry increment_errors
retried attempts p a b y = ground arith

module _ {S F : Type 0} (db : Database S F) (convert : ℤ → F) where
  -- A bound on the rounds that a migration can still take: each one migrates rows or fails.
  after_batch-batch_error :
      (l attempts now : ℕ) (s : S) (p : Progress) (q : Row F)
      (again : S × Progress → S × Progress × Ending) (r : S × Batch) (rs : List (Row F))
      → IsNull q (db.rows s)
      → p.errors < attempts
      → attempts < 2 ^ 63
      → length rs ≡ min (suc l) (pending (db.rows s))
      → IsDone db convert 0 rs s r.0 r.1
      → ((o : Progress)
          → o.errors < attempts
          → pending (db.rows r.0) + (attempts - o.errors)
            < pending (db.rows s) + (attempts - p.errors)
          → (again (r.0, o)).2 ≡ batch_error)
      → (after_batch db convert attempts now again r p).2 ≡ batch_error
  unfolding after_batch increment_errors increment_completed should_retry
  after_batch-batch_error l attempts now s p q again (t, processed zero) rs h a b e (d, f) ih =
      absurd (omega (arith, pending-IsNull q (db.rows s) h, d, e))
  after_batch-batch_error l attempts now s p q again (t, processed (suc m)) rs h a b e (d, f) ih =
      ih (increment_completed (suc m) p) a (omega (arith, d, f))
  after_batch-batch_error l attempts now s p q again (t, failed_after m) rs h a b e (d, f, g) ih =
      if-cases (λ (z : S × Progress × Ending). z.2 ≡ batch_error)
        (should_retry attempts (increment_errors p)) _ _
        (λ y.
          let (below, same) = retried attempts p a b y in
          ih (increment_errors p) below (omega (arith, d, same, a)))
        (λ _. refl)

  migrate-batch_error :
      (l attempts now fuel : ℕ) (s : S) (p : Progress) (q : Row F)
      → IsKeyed (db.rows s)
      → IsNull q (db.rows s)
      → p.errors < attempts
      → attempts < 2 ^ 63
      → pending (db.rows s) + (attempts - p.errors) ≤ fuel
      → (migrate db convert (suc l) attempts now fuel (s, p)).2 ≡ batch_error
  unfolding migrate
  migrate-batch_error l attempts now zero s p q u h a b f =
      absurd (omega (arith, pending-IsNull q (db.rows s) h, f))
  migrate-batch_error l attempts now (suc fuel) s p q u h a b f =
      let r = migrate_batch db convert (suc l) s in
      let (k, (rs, e, d)) = migrate_batch-IsDone db convert (suc l) s u in
      after_batch-batch_error l attempts now s p q (migrate db convert (suc l) attempts now fuel) r
        rs h a b e d
        λ o c less.
          migrate-batch_error l attempts now fuel r.0 o q k.keyed (k.still_null q h) c b
            (omega (arith, less, f))

  counted-batch_error :
      (l attempts now fuel n : ℕ) (s : S) (p : Progress) (q : Row F)
      → pending (db.rows s) ≡ n
      → IsKeyed (db.rows s)
      → IsNull q (db.rows s)
      → p.errors < attempts
      → attempts < 2 ^ 63
      → n + attempts ≤ fuel
      → (after_count db convert (suc l) attempts now fuel s p n).2 ≡ batch_error
  unfolding after_count set_total
  counted-batch_error l attempts now fuel zero s p q e u h a b f =
      absurd (omega (arith, pending-IsNull q (db.rows s) h, e))
  counted-batch_error l attempts now fuel (suc n) s p q e u h a b f =
      migrate-batch_error l attempts now fuel s (set_total (suc n) p) q u h a b
        (omega (arith, e, f))

  -- On a table whose keys are unique and in which some pending row has no amount, for any batch size
  -- but 0: a worker that does not run, with an attempt left of fewer than 2 ^ 63, ends with an error in
  -- as many rounds as there are pending rows and attempts together.
  pub null_amount_fails :
      (batch_size now fuel : ℕ) (name : List ℕ) (s : S) (w : Worker) (q : Row F)
      → batch_size ≢ 0
      → w.running ≡ false
      → IsKeyed (db.rows s)
      → IsNull q (db.rows s)
      → w.progress.errors < w.retry_attempts
      → w.retry_attempts < 2 ^ 63
      → pending (db.rows s) + w.retry_attempts ≤ fuel
      → (start_migration db convert batch_size now fuel name s w).2 ≡ batch_error
  unfolding start_migration start_progress
  null_amount_fails zero now fuel name s w q ne i u h a b f = absurd (ne refl)
  null_amount_fails (suc l) now fuel name s w q ne i u h a b f = rw i (
      counted-batch_error l w.retry_attempts now fuel (db.count s) s _ q (sym (db.count_pending s))
        u h a b (omega (arith, db.count_pending s, f)))
