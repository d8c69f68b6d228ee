-- ===== src/Api.antt =====
-- internal/api/server.go: the key that guards the management API, and its handlers on the store. A
-- request is what the handlers read of it; the store and the worker are `none` where the program
-- passes nil. Metrics and the request log are left out.
pub mod Auth
pub mod Stored
pub mod Tables
mod Examples
use transisi_db.Prelude.{
  ℕ, Bool, true, false, ◌&&◌, not, Option, none, some, List, [], ◌∷◌, Name, codes, bytes_eq, length,
  take, drop, ltb, if◌then◌else◌,
}
use transisi_db.Config.{Config, TableConfig, Invalid, validate}
use transisi_db.Config.Redis.{Redis, Json}
use transisi_db.Config.Store.{
  StoreError, Result, ok, err, save_config, load_config, save_table_config, load_table_config,
  delete_table_config, list_tables,
}

-- The bodies that the handlers send; their messages are left out.
pub data Body : Type 0 where
  missing_header invalid_key : Body
  config : Config → Body
  table : TableConfig → Body
  tables : List Name → Body
  health : Option Bool → Body
  done : Body
  invalid_format : Body
  invalid_config : Invalid → Body
  store_failed : StoreError → Body
  publish_failed no_job pause_failed resume_failed not_implemented no_worker : Body
  progress : Body

pub record Response : Type 0 where
  pub status : ℕ
  pub body : Body

-- A response, or the panic of a method that reads a field of a nil store.
pub data Reply : Type 0 where
  response : Response → Reply
  nil_dereference : Reply

abbrev pub reply : ℕ → Body → Reply
reply status body = response (record { status = status; body = body })

abbrev pub bearer : Name
bearer = codes "Bearer "

-- `apiKey[7:]` where the header is longer than "Bearer " and begins so.
abbrev pub strip_bearer : Name → Name
strip_bearer header =
    if ltb 7 (length header) && bytes_eq (take 7 header) bearer then drop 7 header else header

-- `authMiddleware`; `none` lets the request through. A header that is not sent is empty.
unfoldable pub auth : Name → Name → Option Reply
auth api_key [] = some (reply 401 missing_header)
auth api_key (c ∷ header) =
    if bytes_eq (strip_bearer (c ∷ header)) api_key then none else some (reply 401 invalid_key)

-- A protected route with what its handler reads; `none` is a body that is no JSON of its type.
pub data Route : Type 0 where
  get_config reload_config : Route
  update_config : Option Config → Route
  backfill_start backfill_pause backfill_resume backfill_stop backfill_status : Route
  list : Route
  get_table delete_table : Name → Route
  update_table : Name → Option TableConfig → Route

-- What a handler asks of the worker: whether it runs, and whether a pause or a resumption succeeds.
pub record WorkerState : Type 0 where
  pub running : Bool
  pub pauses : Bool
  pub resumes : Bool

abbrev pub running_worker : Option WorkerState → (WorkerState → Reply) → Reply
running_worker none k = reply 400 no_job
running_worker (some w) k = if w.running then k w else reply 400 no_job

module _ {S D : Type 0} (redis : Redis S D) (json : Json D) where
  -- A method of a nil store reads its client.
  abbrev with_store : Option S → (S → S × Reply) → Option S × Reply
  with_store none f = (none, nil_dereference)
  with_store (some s) f = let (s', r) = f s in (some s', r)

  abbrev finished : S × Option StoreError → S × Reply
  finished (s, none) = (s, reply 200 done)
  finished (s, some e) = (s, reply 500 (store_failed e))

  unfoldable pub handle_health : Option S → Reply
  handle_health none = reply 200 (health none)
  handle_health (some s) = reply 200 (health (some (redis.ping s)))

  handle_get_config : S → S × Reply
  handle_get_config s = elim (load_config redis json s) [
    | ok c ↦ (s, reply 200 (config c))
    | err e ↦ (s, reply 500 (store_failed e))
  ]

  handle_update_config : ℕ → Option Config → Option S → Option S × Reply
  handle_update_config now none s = (s, reply 400 invalid_format)
  handle_update_config now (some c) s = elim (validate c) [
    | some e ↦ (s, reply 400 (invalid_config e))
    | none ↦ with_store s (λ s. finished (save_config redis json now c s))
  ]

  handle_reload_config : S → S × Reply
  handle_reload_config s = (s, if redis.publish s then reply 200 done else reply 500 publish_failed)

  handle_list_tables : S → S × Reply
  handle_list_tables s = elim (list_tables redis json s) [
    | ok ns ↦ (s, reply 200 (tables ns))
    | err e ↦ (s, reply 500 (store_failed e))
  ]

  handle_get_table : Name → S → S × Reply
  handle_get_table name s = elim (load_table_config redis json name s) [
    | ok t ↦ (s, reply 200 (table t))
    | err e ↦ (s, reply 404 (store_failed e))
  ]

  handle_update_table : Name → Option TableConfig → Option S → Option S × Reply
  handle_update_table name none s = (s, reply 400 invalid_format)
  handle_update_table name (some t) s =
      with_store s (λ s. finished (save_table_config redis json name t s))

  handle_delete_table : Name → S → S × Reply
  handle_delete_table name s = finished (delete_table_config redis json name s)

  handle_backfill_pause : Option WorkerState → Reply
  handle_backfill_pause w =
      running_worker w (λ w. if w.pauses then reply 200 done else reply 500 pause_failed)

  handle_backfill_resume : Option WorkerState → Reply
  handle_backfill_resume w =
      running_worker w (λ w. if w.resumes then reply 200 done else reply 500 resume_failed)

  handle_backfill_stop : Option WorkerState → Reply
  handle_backfill_stop w = running_worker w (λ w. reply 200 done)

  handle_backfill_status : Option WorkerState → Reply
  handle_backfill_status none = reply 200 no_worker
  handle_backfill_status (some w) = reply 200 progress

  -- The handler of a route, as `setupRoutes` names it.
  unfoldable pub dispatch : ℕ → Option WorkerState → Route → Option S → Option S × Reply
  unfolding handle_get_config handle_update_config handle_reload_config handle_list_tables
      handle_get_table handle_update_table handle_delete_table handle_backfill_pause
      handle_backfill_resume handle_backfill_stop handle_backfill_status
  dispatch now w get_config s = with_store s handle_get_config
  dispatch now w reload_config s = with_store s handle_reload_config
  dispatch now w (update_config c) s = handle_update_config now c s
  dispatch now w list s = with_store s handle_list_tables
  dispatch now w (get_table name) s = with_store s (handle_get_table name)
  dispatch now w (delete_table name) s = with_store s (handle_delete_table name)
  dispatch now w (update_table name t) s = handle_update_table name t s
  dispatch now w backfill_start s = (s, reply 501 not_implemented)
  dispatch now w backfill_pause s = (s, handle_backfill_pause w)
  dispatch now w backfill_resume s = (s, handle_backfill_resume w)
  dispatch now w backfill_stop s = (s, handle_backfill_stop w)
  dispatch now w backfill_status s = (s, handle_backfill_status w)

  -- A request to a protected route, with its Authorization header.
  unfoldable pub serve : Name → ℕ → Option WorkerState → Name → Route → Option S → Option S × Reply
  unfolding auth dispatch
  serve api_key now w header route s = elim (auth api_key header) [
    | some r ↦ (s, r)
    | none ↦ dispatch now w route s
  ]
