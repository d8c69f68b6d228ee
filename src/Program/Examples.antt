-- ===== src/Program/Examples.antt =====
-- Runs of the backfill program on the configuration of Config/Examples.
use transisi_db.Prelude.{◌≡◌, ◌↔◌, refl, true, false, some, [], ◌∷◌, codes}
use transisi_db.Config.{Config, yaml, load, loaded, is_empty, validate}
use transisi_db.Config.Examples.{file_config}
use transisi_db.Backfill.{batch, processed, stop, start}
use transisi_db.Program.{Flags, World, completed, main, unknown_table, job, report}
use transisi_db.Program.Laws.{completed_iff, IsSuccess}

abbrev dry : Flags
dry = record { table = codes "orders"; dry_run = true }

abbrev other_table : Flags
other_table = record { table = codes "users"; dry_run = false }

-- Two rows are migrated, then the job is interrupted.
abbrev interrupted : World
interrupted = record {
  file = yaml file_config;
  connects = true;
  now = 5;
  count = some 9;
  rounds = (6, batch (processed 2)) ∷ (7, stop) ∷ [];
}

dry_run_migrates : main dry interrupted ≡ completed
unfolding main load validate job start report
dry_run_migrates = refl

not_configured : main other_table interrupted ≡ unknown_table
unfolding main load validate
not_configured = refl

completed_iff_example : (main dry interrupted ≡ completed) ↔ (
    (is_empty dry.table ≡ false)
    × ((c : Config) × (load interrupted.file ≡ loaded c) × IsSuccess dry interrupted c))
completed_iff_example = completed_iff dry interrupted
