-- ===== src/Config/Examples.antt =====
-- Tests and witnesses: the configuration of config.yaml, and a few saves.
use transisi_db.Prelude.{◌≡◌, refl, true, none, List, [], ◌∷◌, ◌++◌, codes, pos, take, arith}
use transisi_db.Config.{Config, TableConfig, validate, bad_ratio, load, yaml, not_loaded, invalid}
use transisi_db.Config.Valid.{IsValid, validate_iff}
use transisi_db.Config.Memory.{Memory, memory, plain, of_table, of_config}
use transisi_db.Config.Store.{
  ok, table_key, list_tables, save_config, save_table_config, delete_table_config,
}
use transisi_db.Config.Store.History.{
  Op, saves_config, saves_table, deletes_table, run, view, replay, run_refines,
}
use transisi_db.Config.Store.Watch.{Watcher, watch_loop, messages, loads, reload_capacity}
use transisi_db.Config.Store.Reload.{keeps_oldest}

abbrev pub orders_table : TableConfig
orders_table = record {
  enabled = true;
  columns =
      (
        codes "total_amount",
        record {
          source_column = codes "total_amount";
          target_column = codes "total_amount_idn";
          source_type = codes "BIGINT";
          target_type = codes "DECIMAL(19,4)";
          rounding_strategy = codes "BANKERS_ROUND";
          precision = pos 4;
        },
      )
      ∷ [];
}

abbrev pub file_config : Config
file_config = record {
  database = record {
    host = codes "localhost";
    port = pos 3306;
    db_type = codes "mysql";
    user = codes "root";
    password = [];
    database = codes "ecommerce_db";
    max_connections = pos 100;
    idle_connections = pos 10;
    connection_timeout = pos 30;
  };
  proxy = record {
    host = codes "0.0.0.0";
    port = pos 3307;
    pool_size = pos 100;
    max_connections_per_host = pos 50;
    read_timeout = pos 30;
    write_timeout = pos 30;
  };
  redis = record {
    host = codes "localhost";
    port = pos 6379;
    password = [];
    database = pos 0;
    pool_size = pos 10;
  };
  api = record { host = codes "0.0.0.0"; port = pos 8080; api_key = codes "sk_dev" };
  conversion = record {
    ratio = pos 1000;
    precision = pos 4;
    rounding_strategy = codes "BANKERS_ROUND";
  };
  backfill = record {
    enabled = true;
    batch_size = pos 1000;
    sleep_interval_ms = pos 100;
    max_cpu_percent = pos 20;
    retry_attempts = pos 3;
    retry_backoff_ms = pos 1000;
  };
  simulation = record { enabled = true; allowed_ips = codes "127.0.0.1" ∷ [] };
  monitoring = record {
    prometheus_enabled = true;
    prometheus_port = pos 9090;
    metrics_path = codes "/metrics";
  };
  logging = record { level = codes "INFO"; format = codes "json"; output = codes "stdout" };
  tables = (codes "orders", orders_table) ∷ [];
}

no_ratio :
    load (
      yaml (record file_config {
        conversion = record {
          ratio = pos 0;
          precision = pos 4;
          rounding_strategy = codes "BANKERS_ROUND";
        };
      }))
    ≡ not_loaded (invalid bad_ratio)
unfolding load
no_ratio = refl

file_config-IsValid : IsValid file_config
unfolding validate
file_config-IsValid = (validate_iff file_config).0 refl

abbrev ops : List Op
ops =
    saves_config 7 file_config
    ∷ saves_table (codes "orders") orders_table
    ∷ saves_table (codes "fees") orders_table
    ∷ deletes_table (codes "fees")
    ∷ []

ops_done : (run memory plain ops []).1 ≡ none
unfolding run save_config save_table_config delete_table_config
ops_done = refl

run_refines_example :
    view memory plain (run memory plain ops []).0 ≡ replay ops (view memory plain [])
run_refines_example = run_refines memory plain ops [] ops_done

abbrev synced : Memory
synced = (table_key (codes "orders"), of_table orders_table) ∷ []

synced_listed : list_tables memory plain synced ≡ ok (codes "orders" ∷ [])
unfolding list_tables
synced_listed = refl

abbrev saved : Memory
saved = (codes "transisidb:config:main", of_config file_config) ∷ []

abbrev waiting : Watcher
waiting = record { reload_ch = file_config ∷ []; received = [] }

keeps_oldest_example :
    watch_loop memory plain (messages memory plain (saved ∷ [] ∷ saved ∷ [])) waiting
    ≡ record waiting {
      reload_ch =
          take reload_capacity (waiting.reload_ch ++ loads memory plain (saved ∷ [] ∷ saved ∷ []));
    }
keeps_oldest_example = keeps_oldest memory plain (saved ∷ [] ∷ saved ∷ []) waiting (omega arith)
