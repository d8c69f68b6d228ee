-- ===== src/Database/Examples.antt =====
-- The connection string of config.yaml.
use transisi_db.Prelude.{◌≡◌, refl, codes, true, false, pos, bytes_eq}
use transisi_db.Config.Examples.{file_config}
use transisi_db.Database.{
  get_dsn, get_database_dsn, Handle, mysql, five_minutes, new_pool, no_ping, not_opened, close_db,
  check_health, ping_failed,
}

file_dsn :
    get_database_dsn file_config
    ≡ codes "root:@tcp(localhost:3306)/ecommerce_db?parseTime=true&loc=Asia%2FJakarta"
unfolding get_database_dsn
file_dsn = refl

postgresql_dsn_text :
    get_dsn (record (file_config.database) { db_type = codes "postgresql" })
    ≡ codes
        "host=localhost port=3306 user=root password= dbname=ecommerce_db sslmode=disable TimeZone=Asia/Jakarta"
unfolding get_dsn
postgresql_dsn_text = refl

-- Two accounts, one connection string.
ambiguous :
    get_dsn (record (file_config.database) { user = codes "a:b"; password = codes "c" })
    ≡ get_dsn (record (file_config.database) { user = codes "a"; password = codes "b:c" })
unfolding get_dsn
ambiguous = refl

abbrev settings : Handle
settings = record {
  driver = mysql;
  dsn = codes "root:@tcp(localhost:3306)/ecommerce_db?parseTime=true&loc=Asia%2FJakarta";
  max_open = pos 100;
  max_idle = pos 10;
  max_lifetime = five_minutes;
  is_held = true;
}

-- A server that does not answer: the handle stays open, and nobody has it.
no_answer :
    new_pool (λ driver dsn. bytes_eq driver mysql) (λ h. false) file_config.database
    ≡ no_ping settings
unfolding new_pool
no_answer = refl

-- Only the MySQL driver is linked.
no_driver :
    new_pool
      (λ driver dsn. bytes_eq driver mysql)
      (λ h. true)
      (record (file_config.database) { db_type = codes "postgresql" })
    ≡ not_opened
unfolding new_pool
no_driver = refl

closed_then_unhealthy : check_health (close_db settings).is_held 0 ≡ ping_failed
unfolding check_health close_db
closed_then_unhealthy = refl
