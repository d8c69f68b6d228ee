-- ===== src/Api/Stored.antt =====
-- What the store holds after any requests: no configuration that `Validate` refuses.
use mathlib.Core.Option
use transisi_db.Prelude.{
  ℕ, ◌≡◌, ◌≢◌, subst, ◌⊎◌, inl, inr, refl, sym, ap, ◌∙◌, Bool, true, false, Option, none, some,
  List, [], ◌∷◌, Name, bytes_eq, bytes_eq_refl, arith, Option-cases,
}
use transisi_db.Config.{Config, TableConfig, validate}
use transisi_db.Config.Valid.{IsValid, validate_iff}
use transisi_db.Config.Redis.{Redis, Json}
use transisi_db.Config.Store.{
  StoreError, main_key, timestamp_key, table_key, save_config, save_timestamp, save_table_config,
  delete_table_config,
}
use transisi_db.Api.{
  Route, get_config, reload_config, update_config, backfill_start, backfill_pause, backfill_resume,
  backfill_stop, backfill_status, list, get_table, delete_table, update_table, WorkerState, Reply,
  auth, dispatch, serve, with_store, finished, handle_get_config, handle_update_config,
  handle_list_tables, handle_get_table, handle_update_table, handle_delete_table,
}

pub record Request : Type 0 where
  pub now : ℕ
  pub worker : Option WorkerState
  pub header : Name
  pub route : Route

different : (k j : Name) → bytes_eq k j ≡ false → k ≢ j
different k j h e = cc (h, ap (bytes_eq k) e, bytes_eq_refl k)

module _ {S D : Type 0} (redis : Redis S D) (json : Json D) where
  abbrev pub stored_config : S → Option Config
  stored_config s = Option.bind (redis.stored s main_key) json.parse_config

  abbrev pub StoredValid : Option S → Type 0
  StoredValid none = Unit
  StoredValid (some s) = (c : Config) → stored_config s ≡ some c → IsValid c

  -- A write or deletion under another key leaves the configuration alone, done or not.
  set_other :
      (s : S) (k : Name) (v : D)
      → bytes_eq main_key k ≡ false
      → stored_config (redis.set s k v).0 ≡ stored_config s
  set_other s k v h = elim (redis.set_any s k v main_key) [
    | inl e ↦ ap (λ x. Option.bind x json.parse_config) e
    | inr (same, _) ↦ absurd (different main_key k h same)
  ]

  del_other :
      (s : S) (k : Name)
      → bytes_eq main_key k ≡ false
      → stored_config (redis.del s k).0 ≡ stored_config s
  del_other s k h = elim (redis.del_any s k main_key) [
    | inl e ↦ ap (λ x. Option.bind x json.parse_config) e
    | inr (same, _) ↦ absurd (different main_key k h same)
  ]

  set_main :
      (s : S) (c : Config)
      → let s' = (redis.set s main_key (json.print_config c)).0 in
        (stored_config s' ≡ stored_config s) ⊎ (stored_config s' ≡ some c)
  unfolding Option.bind
  set_main s c = elim (redis.set_any s main_key (json.print_config c) main_key) [
    | inl e ↦ inl (ap (λ x. Option.bind x json.parse_config) e)
    | inr (_, e) ↦ inr (ap (λ x. Option.bind x json.parse_config) e ∙ json.config_lem c)
  ]

  timestamp_config :
      (now : ℕ) (p : S × Bool)
      → stored_config (save_timestamp redis json now p).0 ≡ stored_config p.0
  unfolding save_timestamp
  timestamp_config now (s, false) = refl
  timestamp_config now (s, true) = set_other s timestamp_key (json.print_int now) refl

  saved-StoredValid :
      (now : ℕ) (c : Config) (s : S)
      → IsValid c
      → StoredValid (some s)
      → StoredValid (some (save_config redis json now c s).0)
  unfolding save_config
  saved-StoredValid now c s v h d e =
      let first = redis.set s main_key (json.print_config c) in
      let e' = sym (timestamp_config now first) ∙ e in
      elim (set_main s c) [
        | inl q ↦ h d (sym q ∙ e')
        | inr q ↦ let same : c ≡ d = cc (q, e') in subst IsValid same v
      ]

  finished-store : (p : S × Option StoreError) → (finished redis json p).0 ≡ p.0
  finished-store (s, none) = refl
  finished-store (s, some e) = refl

  update_config-StoredValid :
      (now : ℕ) (c : Option Config) (s : Option S)
      → StoredValid s
      → StoredValid (handle_update_config redis json now c s).0
  unfolding handle_update_config
  update_config-StoredValid now none s h = h
  update_config-StoredValid now (some c) none h = elim (Option-cases (validate c)) [
    | inl q ↦ rw (q, handle_update_config) tt
    | inr (e, q) ↦ rw (q, handle_update_config) tt
  ]
  update_config-StoredValid now (some c) (some s) h = elim (Option-cases (validate c)) [
    | inl q ↦
        rw (q, handle_update_config)
          (rw (finished-store (save_config redis json now c s))
            (saved-StoredValid now c s ((validate_iff c).0 q) h))
    | inr (e, q) ↦ rw (q, handle_update_config) h
  ]

  -- A handler that leaves the configuration alone.
  keeps-StoredValid :
      (f : S → S × Reply) (s : Option S)
      → ((s : S) → stored_config (f s).0 ≡ stored_config s)
      → StoredValid s
      → StoredValid (with_store redis json s f).0
  keeps-StoredValid f none k h = tt
  keeps-StoredValid f (some s) k h = λ d e. h d (sym (k s) ∙ e)

  get_config-store : (s : S) → (handle_get_config redis json s).0 ≡ s
  unfolding handle_get_config
  get_config-store s = ground arith

  list_tables-store : (s : S) → (handle_list_tables redis json s).0 ≡ s
  unfolding handle_list_tables
  list_tables-store s = ground arith

  get_table-store : (name : Name) (s : S) → (handle_get_table redis json name s).0 ≡ s
  unfolding handle_get_table
  get_table-store name s = ground arith

  update_table-StoredValid :
      (name : Name) (t : Option TableConfig) (s : Option S)
      → StoredValid s
      → StoredValid (handle_update_table redis json name t s).0
  unfolding handle_update_table save_table_config
  update_table-StoredValid name none s h = h
  update_table-StoredValid name (some t) s h =
      keeps-StoredValid (λ s. finished redis json (save_table_config redis json name t s)) s
        (λ s.
          ap stored_config (finished-store (save_table_config redis json name t s))
          ∙ set_other s (table_key name) (json.print_table t) refl)
        h

  delete_table-config :
      (name : Name) (s : S)
      → stored_config (handle_delete_table redis json name s).0 ≡ stored_config s
  unfolding handle_delete_table delete_table_config
  delete_table-config name s =
      ap stored_config (finished-store (delete_table_config redis json name s))
      ∙ del_other s (table_key name) refl

  dispatch-StoredValid :
      (now : ℕ) (w : Option WorkerState) (route : Route) (s : Option S)
      → StoredValid s
      → StoredValid (dispatch redis json now w route s).0
  unfolding dispatch
  dispatch-StoredValid now w get_config s h =
      keeps-StoredValid (handle_get_config redis json) s
        (λ s. ap stored_config (get_config-store s)) h
  dispatch-StoredValid now w reload_config s h = keeps-StoredValid _ s (λ s. refl) h
  dispatch-StoredValid now w (update_config c) s h = update_config-StoredValid now c s h
  dispatch-StoredValid now w list s h =
      keeps-StoredValid (handle_list_tables redis json) s
        (λ s. ap stored_config (list_tables-store s)) h
  dispatch-StoredValid now w (get_table name) s h =
      keeps-StoredValid (handle_get_table redis json name) s
        (λ s. ap stored_config (get_table-store name s)) h
  dispatch-StoredValid now w (delete_table name) s h =
      keeps-StoredValid (handle_delete_table redis json name) s (delete_table-config name) h
  dispatch-StoredValid now w (update_table name t) s h = update_table-StoredValid name t s h
  dispatch-StoredValid now w backfill_start s h = h
  dispatch-StoredValid now w backfill_pause s h = h
  dispatch-StoredValid now w backfill_resume s h = h
  dispatch-StoredValid now w backfill_stop s h = h
  dispatch-StoredValid now w backfill_status s h = h

  unfoldable pub serve_all : Name → List Request → Option S → Option S
  serve_all api_key [] s = s
  serve_all api_key (r ∷ rs) s =
      serve_all api_key rs (serve redis json api_key r.now r.worker r.header r.route s).0

  serve-StoredValid :
      (api_key : Name) (r : Request) (s : Option S)
      → StoredValid s
      → StoredValid (serve redis json api_key r.now r.worker r.header r.route s).0
  unfolding serve
  serve-StoredValid api_key r s h = elim (Option-cases (auth api_key r.header)) [
    | inl q ↦ rw (q, serve) (dispatch-StoredValid r.now r.worker r.route s h)
    | inr (e, q) ↦ rw (q, serve) h
  ]

  -- Whatever requests the API serves, and whichever writes of theirs fail or are done though they
  -- fail: if the configuration in the store was valid, or there was none, the same holds afterwards.
  pub history-StoredValid :
      (api_key : Name) (rs : List Request) (s : Option S)
      → StoredValid s
      → StoredValid (serve_all api_key rs s)
  unfolding serve_all
  history-StoredValid api_key [] s h = h
  history-StoredValid api_key (r ∷ rs) s h =
      history-StoredValid api_key rs _ (serve-StoredValid api_key r s h)
