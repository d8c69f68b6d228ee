-- ===== src/Startup/Examples.antt =====
-- The start on a store in memory that holds an older table.
use transisi_db.Prelude.{ℕ, ◌≡◌, refl, false, none, some, [], ◌∷◌, Name, codes}
use transisi_db.Config.{TableConfig, yaml, no_file, unreadable, load, validate, lookup}
use transisi_db.Config.Examples.{file_config}
use transisi_db.Config.Memory.{Memory, memory, plain, of_table}
use transisi_db.Config.Store.{table_key, save_config, sync_tables_from_config}
use transisi_db.Config.Store.History.{view}
use transisi_db.Api.{config, table, get_config, get_table, dispatch}
use transisi_db.Startup.{serving, fatal, boot}
use transisi_db.Startup.Laws.{Answers, boot_serves}

abbrev users : TableConfig
users = record { enabled = false; columns = [] }

abbrev older : Memory
older = (table_key (codes "users"), of_table users) ∷ []

no_file_fatal : boot memory plain 1 no_file older ≡ fatal unreadable
unfolding boot load
no_file_fatal = refl

boot_serves_example :
    (s : Memory) × (boot memory plain 1 (yaml file_config) older ≡ serving file_config.api (some s))
    × ((later : ℕ)
        → Answers memory plain 500
            (config file_config)
            (dispatch memory plain later none get_config (some s)).1)
    × ((later : ℕ) (name : Name) (t : TableConfig)
        → lookup name file_config.tables ≡ some t
        → Answers memory plain 404
            (table t)
            (dispatch memory plain later none (get_table name) (some s)).1)
    × ((name : Name)
        → lookup name file_config.tables ≡ none
        → (view memory plain s).tables name ≡ (view memory plain older).tables name)
unfolding load validate save_config sync_tables_from_config
boot_serves_example =
    boot_serves memory plain 1 (yaml file_config) older refl refl (refl, tt) (refl, refl)
