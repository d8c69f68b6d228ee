-- ===== src/Api/Tables.antt =====
-- A table that was put is the one that is got.
use transisi_db.Prelude.{
  ◌≡◌, ◌⊎◌, inl, inr, refl, ap, ◌∙◌, ℕ, Option, some, Name, bytes_eq_refl, arith, Bool-cases,
}
use transisi_db.Config.{TableConfig}
use transisi_db.Config.Redis.{Redis, Json, value, of_stored}
use transisi_db.Config.Store.{
  table_key, load_failed, save_table_config, load_table_config, decoded, ok, err,
}
use transisi_db.Api.{
  WorkerState, reply, table, store_failed, done, update_table, get_table, dispatch,
}

module _ {S D : Type 0} (redis : Redis S D) (json : Json D) where
  stored-load :
      (name : Name) (t : TableConfig) (s : S)
      → redis.stored s (table_key name) ≡ some (json.print_table t)
      → (load_table_config redis json name s ≡ ok t)
        ⊎ (load_table_config redis json name s ≡ err load_failed)
  unfolding load_table_config decoded
  stored-load name t s h =
      let key = table_key name in
      elim (redis.get_lem s key) [
        | inl e ↦
            let read : redis.get s key ≡ value (json.print_table t) = e ∙ ap of_stored h in
            inl
              (ap (decoded redis json json.parse_table) read ∙ rw (json.table_lem t, decoded) refl)
        | inr e ↦ inr (ap (decoded redis json json.parse_table) e)
      ]

  -- When a table's configuration was put with status 200, a GET of it behind that gives the same
  -- configuration, or status 404 where Redis does not answer.
  pub put_then_get :
      (now later : ℕ) (w w' : Option WorkerState) (name : Name) (t : TableConfig) (s s' : S)
      → dispatch redis json now w (update_table name (some t)) (some s) ≡ (some s', reply 200 done)
      → ((dispatch redis json later w' (get_table name) (some s')).1 ≡ reply 200 (table t))
        ⊎ ((dispatch redis json later w' (get_table name) (some s')).1
            ≡ reply 404 (store_failed load_failed))
  unfolding dispatch save_table_config
  put_then_get now later w w' name t s s' h =
      let p = redis.set s (table_key name) (json.print_table t) in
      elim (Bool-cases p.1) [
        | inl q ↦
            let same : s' ≡ p.0 = ground arith in
            let there : redis.stored s' (table_key name) ≡ some (json.print_table t) =
              ap (λ x. redis.stored x (table_key name)) same
              ∙ redis.set_done s (table_key name) (json.print_table t) (table_key name) q
              ∙ rw (bytes_eq_refl (table_key name)) refl in
            elim (stored-load name t s' there) [
              | inl e ↦ inl (ground arith)
              | inr e ↦ inr (ground arith)
            ]
        | inr q ↦ ground arith
      ]
