-- ===== src/Backfill/Loop.antt =====
-- What a backfill counts, when it gives up, and in which status it leaves its progress.
use transisi_db.Prelude.{
  ℕ, zero, suc, ◌+◌, ◌^◌, ◌<◌, ◌≤◌, ◌≡◌, false, some, List, [], ◌∷◌, ◌++◌, ap, ◌∙◌, arith,
  if◌then◌else◌,
}
use transisi_db.Breaker.{u64}
use transisi_db.Backfill.Tracker.{
  Progress, complete, completed, running, start_progress, set_total, increment_errors,
  increment_completed,
}
use transisi_db.Backfill.{
  Event, cancel, stop, pause, batch, processed, failed_after, Worker, Ending, batch_error, finished,
  rounds, start, should_retry, after_count,
}

-- No round that ends the loop: pauses, batches with rows, and failing batches.
abbrev pub Live : List (ℕ × Event) → Type 0
Live [] = Unit
Live ((now, cancel) ∷ es) = ⊥
Live ((now, stop) ∷ es) = ⊥
Live ((now, pause) ∷ es) = Live es
Live ((now, batch (processed zero)) ∷ es) = ⊥
Live ((now, batch (processed (suc n))) ∷ es) = Live es
Live ((now, batch (failed_after n)) ∷ es) = Live es

-- The rows of the batches that succeed.
abbrev pub rows_of : List (ℕ × Event) → ℕ
rows_of [] = 0
rows_of ((now, batch (processed n)) ∷ es) = n + rows_of es
rows_of (_ ∷ es) = rows_of es

abbrev pub failures : List (ℕ × Event) → ℕ
failures [] = 0
failures ((now, batch (failed_after n)) ∷ es) = suc (failures es)
failures (_ ∷ es) = failures es

-- The progress after such rounds.
abbrev pub advanced : List (ℕ × Event) → Progress → Progress
advanced es p = record p {
  completed_rows = u64 (p.completed_rows + rows_of es);
  errors = p.errors + failures es;
}

advanced-nil : (p : Progress) → p.completed_rows < 2 ^ 64 → p ≡ advanced [] p
advanced-nil p c = ground arith

advanced-processed :
    (n : ℕ) (es : List (ℕ × Event)) (p : Progress) (now : ℕ)
    → advanced es (increment_completed (suc n) p)
      ≡ advanced ((now, batch (processed (suc n))) ∷ es) p
unfolding increment_completed
advanced-processed n es p now = ground arith

advanced-failed :
    (n : ℕ) (es : List (ℕ × Event)) (p : Progress) (now : ℕ)
    → p.errors + 1 < 2 ^ 63
    → advanced es (increment_errors p) ≡ advanced ((now, batch (failed_after n)) ∷ es) p
unfolding increment_errors
advanced-failed n es p now h = ground arith

-- A failure below the limit is retried.
retried :
    (attempts : ℕ) (rest : Progress × Ending) (p : Progress)
    → p.errors + 1 < attempts
    → attempts ≤ 2 ^ 63
    → (if should_retry attempts (increment_errors p)
        then rest
        else (increment_errors p, batch_error))
      ≡ rest
unfolding should_retry increment_errors
retried attempts rest p e a = ground arith

rounds-Live :
    (attempts : ℕ) (es rest : List (ℕ × Event)) (p : Progress)
    → Live es
    → p.completed_rows < 2 ^ 64
    → p.errors + failures es < attempts
    → attempts ≤ 2 ^ 63
    → rounds attempts (es ++ rest) p ≡ rounds attempts rest (advanced es p)
unfolding rounds increment_completed increment_errors
rounds-Live attempts [] rest p l c e a = ap (rounds attempts rest) (advanced-nil p c)
rounds-Live attempts ((now, cancel) ∷ es) rest p l c e a = absurd l
rounds-Live attempts ((now, stop) ∷ es) rest p l c e a = absurd l
rounds-Live attempts ((now, pause) ∷ es) rest p l c e a = rounds-Live attempts es rest p l c e a
rounds-Live attempts ((now, batch (processed zero)) ∷ es) rest p l c e a = absurd l
rounds-Live attempts ((now, batch (processed (suc n))) ∷ es) rest p l c e a =
    rounds-Live attempts es rest (increment_completed (suc n) p) l (ground arith) (ground arith) a
    ∙ ap (rounds attempts rest) (advanced-processed n es p now)
rounds-Live attempts ((now, batch (failed_after n)) ∷ es) rest p l c e a =
    retried attempts _ p (omega arith) (omega arith)
    ∙ rounds-Live attempts es rest (increment_errors p) l (ground arith) (ground arith) a
    ∙ ap (rounds attempts rest) (advanced-failed n es p now (omega arith))

-- The progress of a run of `start` that found `total` rows.
abbrev pub begun : ℕ → List ℕ → ℕ → Progress → Progress
begun now name total p = record p {
  table_name = name;
  start_time = now;
  status = running;
  total_rows = total;
}

-- A backfill that finds rows, whose batches fail less often than `retry_attempts` in all and whose
-- last batch is empty, ends as completed, with the rows of the batches that succeeded after_count on top
-- of those of earlier backfills, and no rows of the failing ones.
pub start_finishes :
    (now later : ℕ) (name : List ℕ) (total : ℕ) (es rest : List (ℕ × Event)) (w : Worker)
    → w.running ≡ false
    → Live es
    → w.progress.completed_rows < 2 ^ 64
    → w.progress.errors + failures es < w.retry_attempts
    → w.retry_attempts ≤ 2 ^ 63
    → start now name (some (suc total)) (es ++ (later, batch (processed 0)) ∷ rest) w ≡ (
      record w {
        progress = record (advanced es (begun now name (suc total) w.progress)) {
          end_time = some later;
          status = completed;
        };
      },
      finished,
    )
unfolding start rounds complete after_count start_progress set_total
start_finishes now later name total es rest w i l c e a =
    let r =
      rounds-Live w.retry_attempts es ((later, batch (processed 0)) ∷ rest)
        (begun now name (suc total) w.progress) l c e a in
    ground arith

-- The failure that brings the errors, those of earlier backfills included, to `retry_attempts` ends a
-- backfill with an error, however many batches succeeded in between; its progress stays as running,
-- with no end time of its own.
pub start_gives_up :
    (now later : ℕ) (name : List ℕ) (total n : ℕ) (es rest : List (ℕ × Event)) (w : Worker)
    → w.running ≡ false
    → Live es
    → w.progress.completed_rows < 2 ^ 64
    → w.progress.errors + failures es + 1 ≡ w.retry_attempts
    → w.retry_attempts < 2 ^ 63
    → start now name (some (suc total)) (es ++ (later, batch (failed_after n)) ∷ rest) w ≡ (
      record w {
        progress = record (advanced es (begun now name (suc total) w.progress)) {
          errors = w.retry_attempts;
        };
      },
      batch_error,
    )
unfolding start rounds increment_errors should_retry after_count start_progress set_total
start_gives_up now later name total n es rest w i l c e a =
    let r =
      rounds-Live w.retry_attempts es ((later, batch (failed_after n)) ∷ rest)
        (begun now name (suc total) w.progress) l c (omega arith) (omega arith) in
    ground arith
