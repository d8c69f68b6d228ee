-- ===== src/Database.antt =====
-- internal/database/pool.go, with `GetDatabaseDSN` of internal/config/config.go: the connection
-- string, the pool's start and its health check. What `sql.Open` and PING answer are arguments; the
-- calls that pass a query on are left out.
mod Examples
use transisi_db.Prelude.{
  ℕ, zero, suc, ◌+◌, ◌/◌, ◌%◌, Bool, true, false, Option, none, some, List, [], ◌∷◌, ◌++◌, Name, ℤ,
  pos, negsuc, codes, bytes_eq, ltb, ◌==◌, if◌then◌else◌,
}
use transisi_db.Config.{Config, DatabaseConfig}

-- `%d`: the digits of a number, of which there are fewer than the fuel.
unfoldable pub digits : ℕ → ℕ → Name → Name
digits zero n tail = tail
digits (suc fuel) n tail = elim (ltb n 10) [
  | true ↦ (48 + n) ∷ tail
  | false ↦ digits fuel (n / 10) ((48 + n % 10) ∷ tail)
]

unfoldable pub decimal : ℤ → Name
unfolding digits
decimal (pos n) = digits (suc n) n []
decimal (negsuc n) = codes "-" ++ digits (suc (n + 1)) (n + 1) []

abbrev pub mysql : Name
mysql = codes "mysql"

abbrev pub postgresql : Name
postgresql = codes "postgresql"

mysql_dsn : DatabaseConfig → Name
unfolding decimal
mysql_dsn c =
    c.user
    ++ codes ":"
    ++ c.password
    ++ codes "@tcp("
    ++ c.host
    ++ codes ":"
    ++ decimal c.port
    ++ codes ")/"
    ++ c.database
    ++ codes "?parseTime=true&loc=Asia%2FJakarta"

postgresql_dsn : DatabaseConfig → Name
unfolding decimal
postgresql_dsn c =
    codes "host="
    ++ c.host
    ++ codes " port="
    ++ decimal c.port
    ++ codes " user="
    ++ c.user
    ++ codes " password="
    ++ c.password
    ++ codes " dbname="
    ++ c.database
    ++ codes " sslmode=disable TimeZone=Asia/Jakarta"

-- The function of the pool; the method of the configuration has the same text on its `Database`.
unfoldable pub get_dsn : DatabaseConfig → Name
unfolding mysql_dsn postgresql_dsn
get_dsn c =
    if bytes_eq c.db_type mysql
    then mysql_dsn c
    else if bytes_eq c.db_type postgresql
    then postgresql_dsn c
    else []

unfoldable pub get_database_dsn : Config → Name
unfolding get_dsn
get_database_dsn c = get_dsn c.database

-- A `sql.DB` with its settings, which keeps goroutines and connections until it is closed.
pub record Handle : Type 0 where
  pub driver : Name
  pub dsn : Name
  pub max_open : ℤ
  pub max_idle : ℤ
  pub max_lifetime : ℕ
  pub is_held : Bool

abbrev pub five_minutes : ℕ
five_minutes = 300_000_000_000

-- The result of `NewPool`, with the handle that `sql.Open` has made, if any.
pub data Opened : Type 0 where
  not_opened : Opened
  no_ping : Handle → Opened
  pool : Handle → Opened

-- `opens driver dsn` says whether `sql.Open` succeeds, and `pings` whether the server answers before
-- the timeout.
unfoldable pub new_pool : (Name → Name → Bool) → (Handle → Bool) → DatabaseConfig → Opened
unfolding get_dsn
new_pool opens pings c =
    let h : Handle = record {
      driver = c.db_type;
      dsn = get_dsn c;
      max_open = c.max_connections;
      max_idle = c.idle_connections;
      max_lifetime = five_minutes;
      is_held = true;
    } in
    if opens c.db_type (get_dsn c) then (if pings h then pool h else no_ping h) else not_opened

unfoldable pub close_db : Handle → Handle
close_db h = record h { is_held = false }

pub data Health : Type 0 where
  healthy ping_failed no_connections : Health

-- `open_connections` is that of the statistics after the PING.
unfoldable pub check_health : Bool → ℕ → Health
check_health pings open_connections =
    if pings then (if open_connections == 0 then no_connections else healthy) else ping_failed
