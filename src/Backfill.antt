-- ===== src/Backfill.antt =====
-- internal/backfill/worker.go: the loop of `Start`. What the database answers, and which branch of
-- the `select` is ready, are arguments. The blocking of `Pause`, `Resume` and `Stop` on their channels
-- is in Backfill/Control; metrics and sleeps are left out.
pub mod Tracker
pub mod Loop
pub mod Control
pub mod Table
pub mod Report
mod Examples
use transisi_db.Prelude.{
  ℕ, zero, suc, ◌+◌, ◌^◌, ◌<◌, Bool, true, false, Option, none, some, List, [], ◌∷◌, ltb,
  if◌then◌else◌,
}
use transisi_db.Backfill.Tracker.{
  Progress, start_progress, set_total, increment_completed, increment_errors, complete,
}

-- What becomes of a row of the query's result.
pub data RowResult : Type 0 where
  updated scan_error update_error : RowResult

-- The rows processed, with or without an error.
pub data Batch : Type 0 where
  processed failed_after : ℕ → Batch

-- The loop over the rows; the flag says whether `rows.Err` is nil.
process_rows : ℕ → List RowResult → Bool → Batch
process_rows n [] sound = if sound then processed n else failed_after n
process_rows n (updated ∷ rs) sound = process_rows (n + 1) rs sound
process_rows n (scan_error ∷ rs) sound = failed_after n
process_rows n (update_error ∷ rs) sound = failed_after n

-- `has_column` says whether a currency column is configured; `none` is a query that fails.
unfoldable pub process_batch : Bool → Option (List RowResult) → Bool → Batch
unfolding process_rows
process_batch has_column query sound =
    if has_column
    then elim query [ none ↦ failed_after 0 | some rs ↦ process_rows 0 rs sound ]
    else failed_after 0

-- One round of the loop: `ctx.Done`, `stopCh`, `pauseCh` and then `resumeCh`, or a batch.
pub data Event : Type 0 where
  cancel stop pause : Event
  batch : Batch → Event

-- How `Start` ends, if it does.
pub data Ending : Type 0 where
  already_running count_failed cancelled stopped finished batch_error : Ending
  still_running : Ending

-- `errors < retryAttempts` on int64, for attempts that are not negative.
unfoldable pub should_retry : ℕ → Progress → Bool
should_retry attempts p = if ltb p.errors (2 ^ 63) then ltb p.errors attempts else true

unfoldable pub rounds : ℕ → List (ℕ × Event) → Progress → Progress × Ending
unfolding increment_errors increment_completed complete should_retry
rounds attempts [] p = (p, still_running)
rounds attempts ((now, cancel) ∷ es) p = (p, cancelled)
rounds attempts ((now, stop) ∷ es) p = (p, stopped)
rounds attempts ((now, pause) ∷ es) p = rounds attempts es p
rounds attempts ((now, batch (processed zero)) ∷ es) p = (complete now p, finished)
rounds attempts ((now, batch (processed (suc n))) ∷ es) p =
    rounds attempts es (increment_completed (suc n) p)
rounds attempts ((now, batch (failed_after n)) ∷ es) p =
    let rest = rounds attempts es (increment_errors p) in
    if should_retry attempts (increment_errors p) then rest else (increment_errors p, batch_error)

pub record Worker : Type 0 where
  pub running : Bool
  pub progress : Progress
  pub retry_attempts : ℕ

-- After `countPendingRows`; `none` is its error.
after_count : ℕ → ℕ → List (ℕ × Event) → Option ℕ → Progress → Progress × Ending
unfolding set_total complete rounds
after_count attempts now es none p = (p, count_failed)
after_count attempts now es (some zero) p = (complete now (set_total 0 p), finished)
after_count attempts now es (some (suc n)) p = rounds attempts es (set_total (suc n) p)

unfoldable pub start : ℕ → List ℕ → Option ℕ → List (ℕ × Event) → Worker → Worker × Ending
unfolding start_progress after_count
start now name count es w =
    if w.running
    then (w, already_running)
    else (let (p, ending) =
          after_count w.retry_attempts now es count (start_progress now name w.progress) in
        (record w { running = false; progress = p }, ending))
