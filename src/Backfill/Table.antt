-- ===== src/Backfill/Table.antt =====
-- `processBatch`, `countPendingRows` and the loop of `Start` of internal/backfill/worker.go on the
-- table that is migrated, for one currency column. The database is a parameter: what a SELECT and an
-- UPDATE by primary key do to the rows is its documented behaviour. Its errors are in Backfill itself.
pub mod Rows
pub mod Batches
pub mod Converts
pub mod Nulls
pub mod Memory
pub mod Rounds
use transisi_db.Prelude.{
  ℕ, zero, suc, ◌+◌, ◌≡◌, ◌≢◌, ◌⊎◌, Bool, true, false, Option, none, some, List, [], ◌∷◌, map,
  length, min, All, ℤ, ◌==◌, if◌then◌else◌,
}
use transisi_db.Backfill.{
  Batch, processed, failed_after, Ending, already_running, finished, batch_error, still_running,
  should_retry, Worker,
}
use transisi_db.Backfill.Tracker.{
  Progress, start_progress, set_total, increment_completed, increment_errors, complete,
}

-- The primary key, the currency column and its shadow column; `none` is NULL.
pub record Row (F : Type 0) : Type 0 where
  pub id : ℕ
  pub amount : Option ℤ
  pub shadow : Option F

module _ {F : Type 0} where
  abbrev pub is_pending : Row F → Bool
  is_pending r = elim r.shadow [ none ↦ true | some f ↦ false ]

  -- The rows of `WHERE shadow IS NULL`, counted.
  abbrev pub pending : List (Row F) → ℕ
  pending [] = 0
  pending (r ∷ rs) = if is_pending r then suc (pending rs) else pending rs

  abbrev pub set_shadow : ℕ → F → Row F → Row F
  set_shadow id f r = if r.id == id then record r { shadow = some f } else r

  abbrev pub Among : Row F → List (Row F) → Type 0
  Among r [] = ⊥
  Among r (q ∷ qs) = (r ≡ q) ⊎ Among r qs

  -- No two rows have the same key.
  abbrev pub IsKeyed : List (Row F) → Type 0
  IsKeyed [] = Unit
  IsKeyed (r ∷ rs) = All (λ q. q.id ≢ r.id) rs × IsKeyed rs

-- The table `rows s` behind the statements: `SELECT id, amount WHERE shadow IS NULL LIMIT n`, the
-- count with the same condition, and `UPDATE SET shadow = f WHERE id = k`. A selection is some of the
-- pending rows, each once, and as many as there are up to the limit.
pub record Database (S F : Type 0) : Type 0 where
  pub rows : S → List (Row F)
  pub select : S → ℕ → List (Row F)
  pub count : S → ℕ
  pub update : ℕ → F → S → S
  pub select_among : (s : S) (n : ℕ) → All (λ r. Among r (rows s) × (r.shadow ≡ none)) (select s n)
  pub select_keyed : (s : S) (n : ℕ) → IsKeyed (rows s) → IsKeyed (select s n)
  pub select_length : (s : S) (n : ℕ) → length (select s n) ≡ min n (pending (rows s))
  pub count_pending : (s : S) → count s ≡ pending (rows s)
  pub rows_update : (k : ℕ) (f : F) (s : S) → rows (update k f s) ≡ map (set_shadow k f) (rows s)

module _ {S F : Type 0} (db : Database S F) (convert : ℤ → F) where
  -- `Scan` and the UPDATE of a row; a NULL amount cannot be scanned into an int64.
  scanned : ℕ → ℕ → S → Option ℤ → (S → S × Batch) → S × Batch
  scanned n id s none rest = (s, failed_after n)
  scanned n id s (some v) rest = rest (db.update id (convert v) s)

  -- The loop over the selected rows.
  unfoldable pub migrate_rows : ℕ → List (Row F) → S → S × Batch
  unfolding scanned
  migrate_rows n [] s = (s, processed n)
  migrate_rows n (r ∷ rs) s = scanned n r.id s r.amount (migrate_rows (n + 1) rs)

  unfoldable pub migrate_batch : ℕ → S → S × Batch
  unfolding migrate_rows
  migrate_batch batch_size s = migrate_rows 0 (db.select s batch_size) s

  -- What follows a batch: the end, or another round.
  after_batch :
      ℕ → ℕ → (S × Progress → S × Progress × Ending) → S × Batch → Progress → S × Progress × Ending
  after_batch attempts now again (s, processed zero) p = (s, complete now p, finished)
  after_batch attempts now again (s, processed (suc n)) p = again (s, increment_completed (suc n) p)
  after_batch attempts now again (s, failed_after n) p =
      let rest = again (s, increment_errors p) in
      if should_retry attempts (increment_errors p)
      then rest
      else (s, increment_errors p, batch_error)

  -- The loop of `Start`, where neither the context nor a channel is ready.
  unfoldable pub migrate : ℕ → ℕ → ℕ → ℕ → S × Progress → S × Progress × Ending
  unfolding after_batch migrate_batch
  migrate batch_size attempts now zero (s, p) = (s, p, still_running)
  migrate batch_size attempts now (suc fuel) (s, p) =
      after_batch attempts now (migrate batch_size attempts now fuel) (migrate_batch batch_size s) p

  after_count : ℕ → ℕ → ℕ → ℕ → S → Progress → ℕ → S × Progress × Ending
  unfolding migrate
  after_count batch_size attempts now fuel s p zero = (s, complete now (set_total 0 p), finished)
  after_count batch_size attempts now fuel s p (suc n) =
      migrate batch_size attempts now fuel (s, set_total (suc n) p)

  -- `Start`: the count, and the loop for at most `fuel` rounds.
  unfoldable pub start_migration : ℕ → ℕ → ℕ → List ℕ → S → Worker → S × Progress × Ending
  unfolding after_count
  start_migration batch_size now fuel name s w =
      if w.running
      then (s, w.progress, already_running)
      else after_count batch_size w.retry_attempts now fuel s (start_progress now name w.progress)
          (db.count s)
