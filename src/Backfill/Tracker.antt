-- ===== src/Backfill/Tracker.antt =====
-- internal/backfill/progress.go. The two's complement of an int64 counter is its number mod 2 ^ 64;
-- the clock is an argument.
use transisi_db.Prelude.{ℕ, ◌+◌, Option, none, some, List, []}
use transisi_db.Breaker.{u64}

pub data Status : Type 0 where
  pending running paused completed failed : Status

pub record Progress : Type 0 where
  pub table_name : List ℕ
  pub total_rows : ℕ
  pub completed_rows : ℕ
  pub errors : ℕ
  pub start_time : ℕ
  pub end_time : Option ℕ
  pub status : Status

abbrev pub new_progress : Progress
new_progress = record {
  table_name = [];
  total_rows = 0;
  completed_rows = 0;
  errors = 0;
  start_time = 0;
  end_time = none;
  status = pending;
}

unfoldable pub start_progress : ℕ → List ℕ → Progress → Progress
start_progress now name p = record p { table_name = name; start_time = now; status = running }

unfoldable pub set_total : ℕ → Progress → Progress
set_total total p = record p { total_rows = total }

unfoldable pub increment_completed : ℕ → Progress → Progress
increment_completed count p = record p { completed_rows = u64 (p.completed_rows + count) }

unfoldable pub increment_errors : Progress → Progress
increment_errors p = record p { errors = u64 (p.errors + 1) }

unfoldable pub complete : ℕ → Progress → Progress
complete now p = record p { end_time = some now; status = completed }

unfoldable pub fail : ℕ → Progress → Progress
fail now p = record p { end_time = some now; status = failed }

unfoldable pub pause_progress : Progress → Progress
pause_progress p = record p { status = paused }

unfoldable pub resume_progress : Progress → Progress
resume_progress p = record p { status = running }
