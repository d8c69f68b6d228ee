-- ===== src/Config.antt =====
-- internal/config/config.go: the configuration and its validation. An `int` and a `time.Duration`
-- are integers, a map is the list of its entries in the order of one iteration.
pub mod Valid
pub mod Redis
pub mod Memory
pub mod Store
pub mod Examples
use transisi_db.Prelude.{
  ℕ, zero, suc, ◌+◌, ◌/◌, ◌%◌, Bool, true, false, ◌||◌, Option, none, some, List, [], ◌∷◌, ◌++◌,
  Name, codes, bytes_eq, ℤ, pos, negsuc, ltb, ◌==◌, if◌then◌else◌,
}
use mathlib.Core.Option
use transisi_db.Parser

pub record DatabaseConfig : Type 0 where
  pub host : Name
  pub port : ℤ
  pub db_type : Name
  pub user : Name
  pub password : Name
  pub database : Name
  pub max_connections : ℤ
  pub idle_connections : ℤ
  pub connection_timeout : ℤ

pub record ProxyConfig : Type 0 where
  pub host : Name
  pub port : ℤ
  pub pool_size : ℤ
  pub max_connections_per_host : ℤ
  pub read_timeout : ℤ
  pub write_timeout : ℤ

pub record RedisConfig : Type 0 where
  pub host : Name
  pub port : ℤ
  pub password : Name
  pub database : ℤ
  pub pool_size : ℤ

pub record ApiConfig : Type 0 where
  pub host : Name
  pub port : ℤ
  pub api_key : Name

pub record ConversionConfig : Type 0 where
  pub ratio : ℤ
  pub precision : ℤ
  pub rounding_strategy : Name

pub record BackfillConfig : Type 0 where
  pub enabled : Bool
  pub batch_size : ℤ
  pub sleep_interval_ms : ℤ
  pub max_cpu_percent : ℤ
  pub retry_attempts : ℤ
  pub retry_backoff_ms : ℤ

pub record SimulationConfig : Type 0 where
  pub enabled : Bool
  pub allowed_ips : List Name

pub record MonitoringConfig : Type 0 where
  pub prometheus_enabled : Bool
  pub prometheus_port : ℤ
  pub metrics_path : Name

pub record LoggingConfig : Type 0 where
  pub level : Name
  pub format : Name
  pub output : Name

pub record ColumnConfig : Type 0 where
  pub source_column : Name
  pub target_column : Name
  pub source_type : Name
  pub target_type : Name
  pub rounding_strategy : Name
  pub precision : ℤ

pub record TableConfig : Type 0 where
  pub enabled : Bool
  pub columns : List (Name × ColumnConfig)

abbrev pub TablesConfig : Type 0
TablesConfig = List (Name × TableConfig)

pub record Config : Type 0 where
  pub database : DatabaseConfig
  pub proxy : ProxyConfig
  pub redis : RedisConfig
  pub api : ApiConfig
  pub conversion : ConversionConfig
  pub backfill : BackfillConfig
  pub simulation : SimulationConfig
  pub monitoring : MonitoringConfig
  pub logging : LoggingConfig
  pub tables : TablesConfig

-- `m[k]` on the entries of a map.
abbrev pub lookup {ℓ} : {A : Type ℓ} → Name → List (Name × A) → Option A
lookup k [] = none
lookup k ((j, a) ∷ m) = if bytes_eq k j then some a else lookup k m

-- The part of the tables that the parser reads.
abbrev pub parser_table : TableConfig → Parser.TableConfig
parser_table t = record {
  enabled = t.enabled;
  columns = λ c. Option.map (λ (x : ColumnConfig). x.target_column) (lookup c t.columns);
}

abbrev pub parser_tables : TablesConfig → Parser.TablesConfig
parser_tables tables name = Option.map parser_table (lookup name tables)

-- The errors of `Validate`, in the order of its tests.
pub data Invalid : Type 0 where
  no_database_host no_database_port no_proxy_port bad_ratio bad_precision : Invalid
  bad_strategy : Name → Invalid

abbrev pub is_empty : Name → Bool
is_empty [] = true
is_empty (c ∷ cs) = false

abbrev pub is_zero : ℤ → Bool
is_zero (pos zero) = true
is_zero _ = false

-- `n <= 0`
abbrev pub not_positive : ℤ → Bool
not_positive (pos (suc n)) = false
not_positive _ = true

-- `n < 0 || n > most`
abbrev pub outside : ℕ → ℤ → Bool
outside most (pos n) = ltb most n
outside most (negsuc n) = true

abbrev pub bankers_round : Name
bankers_round = codes "BANKERS_ROUND"

abbrev pub arithmetic_round : Name
arithmetic_round = codes "ARITHMETIC_ROUND"

abbrev pub valid_strategy : Name → Bool
valid_strategy s = bytes_eq s bankers_round || bytes_eq s arithmetic_round

-- `none` is the nil error.
unfoldable pub validate : Config → Option Invalid
validate c =
    if is_empty c.database.host
    then some no_database_host
    else if is_zero c.database.port
    then some no_database_port
    else if is_zero c.proxy.port
    then some no_proxy_port
    else if not_positive c.conversion.ratio
    then some bad_ratio
    else if outside 10 c.conversion.precision
    then some bad_precision
    else if valid_strategy c.conversion.rounding_strategy
    then none
    else some (bad_strategy c.conversion.rounding_strategy)

-- Where `Load` fails. Reading the file and its YAML are what `source` gives.
pub data LoadError : Type 0 where
  unreadable unparsable : LoadError
  invalid : Invalid → LoadError

pub data Loaded : Type 0 where
  loaded : Config → Loaded
  not_loaded : LoadError → Loaded

pub data Source : Type 0 where
  no_file no_yaml : Source
  yaml : Config → Source

unfoldable pub load : Source → Loaded
unfolding validate
load no_file = not_loaded unreadable
load no_yaml = not_loaded unparsable
load (yaml c) = elim (validate c) [ none ↦ loaded c | some e ↦ not_loaded (invalid e) ]
