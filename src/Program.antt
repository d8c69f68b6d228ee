-- ===== src/Program.antt =====
-- cmd/backfill/main.go: what the program does with its two flags, the configuration file and the
-- database, and what it reports at the end. The progress reports and the log lines are left out.
pub mod Laws
mod Examples
use transisi_db.Prelude.{
  ℕ, Bool, true, false, not, Option, none, some, List, Name, ℤ, pos, negsuc, if◌then◌else◌,
}
use transisi_db.Config.{
  Config, TableConfig, Source, Loaded, LoadError, loaded, not_loaded, load, lookup, is_empty,
}
use transisi_db.Backfill.{
  Worker, Event, Ending, already_running, count_failed, cancelled, stopped, finished, batch_error,
  still_running, start,
}
use transisi_db.Backfill.Tracker.{new_progress}

pub record Flags : Type 0 where
  pub table : Name
  pub dry_run : Bool

-- What the outside does: the file, the connection, the answer to the count, the rounds of the worker.
pub record World : Type 0 where
  pub file : Source
  pub connects : Bool
  pub now : ℕ
  pub count : Option ℕ
  pub rounds : List (ℕ × Event)

-- `log.Fatal` at one of the tests, or what is reported of `Start`; `running` is no end.
pub data Report : Type 0 where
  no_table_flag disabled unknown_table table_disabled no_connection : Report
  bad_config : LoadError → Report
  completed cancelled_by_user failed running : Report

-- An error other than the canceled context is fatal; a nil error is a success.
unfoldable pub report : Ending → Report
report finished = completed
report stopped = completed
report cancelled = cancelled_by_user
report already_running = failed
report count_failed = failed
report batch_error = failed
report still_running = running

-- A negative number of attempts is as good as none.
abbrev pub attempts : ℤ → ℕ
attempts (pos n) = n
attempts (negsuc n) = 0

-- `NewWorker`.
abbrev pub new_worker : Config → Worker
new_worker c = record {
  running = false;
  progress = new_progress;
  retry_attempts = attempts c.backfill.retry_attempts;
}

-- `Start` of the new worker.
unfoldable pub job : Flags → World → Config → Ending
job flags w c = (start w.now flags.table w.count w.rounds (new_worker c)).1

-- `cfg.Tables[*tableName]` and what follows; the dry run is only announced.
with_table : Flags → World → Config → Option TableConfig → Report
with_table flags w c none = unknown_table
with_table flags w c (some t) =
    if not t.enabled
    then table_disabled
    else if not w.connects
    then no_connection
    else if flags.dry_run
    then report (job flags w c)
    else report (job flags w c)

with_config : Flags → World → Loaded → Report
unfolding with_table
with_config flags w (not_loaded e) = bad_config e
with_config flags w (loaded c) =
    if not c.backfill.enabled then disabled else with_table flags w c (lookup flags.table c.tables)

unfoldable pub main : Flags → World → Report
unfolding with_config
main flags w = if is_empty flags.table then no_table_flag else with_config flags w (load w.file)
