-- ===== src/Config/Store/Watch.antt =====
-- `watchLoop` and `Close` of internal/config/redisstore.go. The loop is a recursion on what its
-- `select` meets; between them the consumer may take a configuration from the channel.
use transisi_db.Prelude.{ℕ, List, [], ◌∷◌, ◌++◌, length, ltb, if◌then◌else◌}
use transisi_db.Config.{Config}
use transisi_db.Config.Redis.{Redis, Json}
use transisi_db.Config.Store.{Result, ok, err, load_config}

-- `ctx.Done`, `closeCh`, a nil message, a message with the store as it is when it is read, and a
-- receive by the consumer.
pub data Event (S : Type 0) : Type 0 where
  cancelled closing nil_message : Event S
  message : S → Event S
  consumes : Event S

-- `reload_ch` and what was received from it.
pub record Watcher : Type 0 where
  pub reload_ch : List Config
  pub received : List Config

abbrev pub reload_capacity : ℕ
reload_capacity = 10

-- The `select` with a default branch.
unfoldable pub deliver : Result Config → Watcher → Watcher
deliver (ok c) w =
    if ltb (length w.reload_ch) reload_capacity
    then record w { reload_ch = w.reload_ch ++ c ∷ [] }
    else w
deliver (err e) w = w

unfoldable pub consume : List Config → Watcher → Watcher
consume [] w = w
consume (c ∷ cs) w = record w { reload_ch = cs; received = w.received ++ c ∷ [] }

abbrev pub added : Result Config → List Config → List Config
added (ok c) cs = c ∷ cs
added (err e) cs = cs

module _ {S D : Type 0} (redis : Redis S D) (json : Json D) where
  -- Until the loop returns, or the events end.
  unfoldable pub watch_loop : List (Event S) → Watcher → Watcher
  unfolding deliver consume
  watch_loop [] w = w
  watch_loop (cancelled ∷ es) w = w
  watch_loop (closing ∷ es) w = w
  watch_loop (nil_message ∷ es) w = watch_loop es w
  watch_loop (message s ∷ es) w = watch_loop es (deliver (load_config redis json s) w)
  watch_loop (consumes ∷ es) w = watch_loop es (consume w.reload_ch w)

  -- The configurations that the messages can load.
  abbrev pub loads : List S → List Config
  loads [] = []
  loads (s ∷ ss) = added (load_config redis json s) (loads ss)

  abbrev pub messages : List S → List (Event S)
  messages [] = []
  messages (s ∷ ss) = message s ∷ messages ss
