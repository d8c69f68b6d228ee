-- ===== src/Config/Store.antt =====
-- internal/config/redisstore.go: the operations on the keys of Redis. `json.Marshal` does not fail on
-- the two types that are saved.
pub mod History
pub mod Listing
pub mod Sync
pub mod Watch
pub mod Reload
use transisi_db.Prelude.{
  ℕ, Bool, true, false, Option, none, some, List, [], ◌∷◌, ◌++◌, Name, codes, length, drop, ltb,
  if◌then◌else◌,
}
use transisi_db.Config.{Config, TableConfig, TablesConfig}
use transisi_db.Config.Redis.{Redis, Json, Reading, value, missing, failure}

pub data StoreError : Type 0 where
  save_failed timestamp_failed not_found load_failed not_decoded scan_failed delete_failed :
      StoreError
  sync_failed : Name → StoreError
  nil_tables : StoreError

pub data Result (A : Type 0) : Type 0 where
  ok : A → Result A
  err : StoreError → Result A

abbrev pub config_key_prefix : Name
config_key_prefix = codes "transisidb:config"

abbrev pub main_key : Name
main_key = config_key_prefix ++ codes ":main"

abbrev pub timestamp_key : Name
timestamp_key = config_key_prefix ++ codes ":timestamp"

abbrev pub tables_prefix : Name
tables_prefix = config_key_prefix ++ codes ":tables:"

abbrev pub table_key : Name → Name
table_key name = tables_prefix ++ name

-- The texts behind a prefix; a key that is the prefix alone is passed over.
abbrev pub names_behind : Name → List Name → List Name
names_behind prefix [] = []
names_behind prefix (k ∷ ks) =
    if ltb (length prefix) (length k)
    then drop (length prefix) k ∷ names_behind prefix ks
    else names_behind prefix ks

module _ {S D : Type 0} (redis : Redis S D) (json : Json D) where
  unfoldable pub save_timestamp : ℕ → S × Bool → S × Option StoreError
  save_timestamp now (s, false) = (s, some save_failed)
  save_timestamp now (s, true) =
      let (s', done) = redis.set s timestamp_key (json.print_int now) in
      (s', if done then none else some timestamp_failed)

  -- `none` is the nil error.
  unfoldable pub save_config : ℕ → Config → S → S × Option StoreError
  unfolding save_timestamp
  save_config now c s = save_timestamp now (redis.set s main_key (json.print_config c))

  unfoldable pub decoded : {A : Type 0} → (D → Option A) → Reading D → Result A
  decoded parse (value v) = elim (parse v) [ none ↦ err not_decoded | some a ↦ ok a ]
  decoded parse missing = err not_found
  decoded parse failure = err load_failed

  unfoldable pub load_config : S → Result Config
  unfolding decoded
  load_config s = decoded json.parse_config (redis.get s main_key)

  unfoldable pub get_config_timestamp : S → Result ℕ
  get_config_timestamp s = elim (redis.get s timestamp_key) [
    | value v ↦ elim (json.parse_int v) [ none ↦ err load_failed | some n ↦ ok n ]
    | missing ↦ ok 0
    | failure ↦ err load_failed
  ]

  unfoldable pub save_table_config : Name → TableConfig → S → S × Option StoreError
  save_table_config name t s =
      let (s', done) = redis.set s (table_key name) (json.print_table t) in
      (s', if done then none else some save_failed)

  unfoldable pub load_table_config : Name → S → Result TableConfig
  unfolding decoded
  load_table_config name s = decoded json.parse_table (redis.get s (table_key name))

  unfoldable pub delete_table_config : Name → S → S × Option StoreError
  delete_table_config name s =
      let (s', done) = redis.del s (table_key name) in
      (s', if done then none else some delete_failed)

  unfoldable pub list_tables : S → Result (List Name)
  list_tables s = elim (redis.scan s tables_prefix) [
    | none ↦ err scan_failed
    | some ks ↦ ok (names_behind tables_prefix ks)
  ]

  sync_entries : TablesConfig → S → S × Option StoreError
  unfolding save_table_config
  sync_entries [] s = (s, none)
  sync_entries ((name, t) ∷ tables) s =
      let (s', e) = save_table_config name t s in
      elim e [ none ↦ sync_entries tables s' | some _ ↦ (s', some (sync_failed name)) ]

  -- `none` is a nil configuration, or nil tables.
  unfoldable pub sync_tables_from_config : Option TablesConfig → S → S × Option StoreError
  unfolding sync_entries
  sync_tables_from_config none s = (s, some nil_tables)
  sync_tables_from_config (some tables) s = sync_entries tables s
