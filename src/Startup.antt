-- ===== src/Startup.antt =====
-- cmd/api/main.go up to the server's start, with `NewRedisStore` of internal/config/redisstore.go: the
-- configuration file, the store that is filled from it, and the server on that store. A store is
-- `none` where the program goes on with nil. Log lines are left out.
pub mod Laws
mod Examples
use transisi_db.Prelude.{ℕ, Bool, Option, none, some, if◌then◌else◌}
use transisi_db.Config.{Config, ApiConfig, Source, Loaded, LoadError, loaded, not_loaded, load}
use transisi_db.Config.Redis.{Redis, Json}
use transisi_db.Config.Store.{save_config, sync_tables_from_config}

-- `log.Fatalf`, or the server with its configuration and its store; it gets no worker.
pub data Booted (S : Type 0) : Type 0 where
  fatal : LoadError → Booted S
  serving : ApiConfig → Option S → Booted S

module _ {S D : Type 0} (redis : Redis S D) (json : Json D) where
  -- The PING that a new client sends.
  unfoldable pub new_redis_store : S → Option S
  new_redis_store s = if redis.ping s then some s else none

  -- An error of either call is logged, and the next call is made all the same. Tables that the file
  -- leaves out are nil in the source and an empty list here: the error that they give is only logged,
  -- and the store is as an empty map leaves it.
  unfoldable pub fill : ℕ → Config → Option S → Option S
  fill now c none = none
  fill now c (some s) =
      let saved = save_config redis json now c s in
      let synced = sync_tables_from_config redis json (some c.tables) saved.0 in some synced.0

  unfoldable pub boot : ℕ → Source → S → Booted S
  unfolding fill new_redis_store
  boot now file s = elim (load file) [
    | not_loaded e ↦ fatal e
    | loaded c ↦ serving c.api (fill now c (new_redis_store s))
  ]
