-- ===== src/Api/Examples.antt =====
-- Tests and witnesses, on a store in memory.
use mathlib.Core.Option
use transisi_db.Prelude.{◌≡◌, ◌≢◌, ◌↔◌, ◌⊎◌, refl, none, some, List, [], ◌∷◌, ◌++◌, Name, codes}
use transisi_db.Config.Memory.{Memory, memory, plain, of_table}
use transisi_db.Config.Store.{table_key, save_table_config}
use transisi_db.Config.Examples.{orders_table, file_config}
use transisi_db.Api.{
  update_config, update_table, delete_table, reply, nil_dereference, get_config, done, bearer, auth,
  dispatch,
}
use transisi_db.Api.Auth.{IsBearer, auth_iff}
use transisi_db.Api.Stored.{Request, StoredValid, serve_all, history-StoredValid}

abbrev key : Name
key = codes "sk_dev"

no_store : (dispatch memory plain 0 none get_config none).1 ≡ nil_dereference
unfolding dispatch
no_store = refl

auth_iff_example : (auth key (bearer ++ key) ≡ none) ↔ (
    (key ≢ [])
    × (((bearer ++ key ≡ key) × ¬ IsBearer (bearer ++ key)) ⊎ (bearer ++ key ≡ bearer ++ key)))
auth_iff_example = auth_iff key (bearer ++ key)

abbrev requests : List Request
requests =
    (record {
      now = 1;
      worker = none;
      header = bearer ++ key;
      route = update_config (some file_config);
    })
    ∷ (record { now = 2; worker = none; header = key; route = delete_table (codes "orders") })
    ∷ []

empty-StoredValid : StoredValid memory plain (some [])
unfolding Option.bind
empty-StoredValid c h = cc

history-StoredValid_example :
    StoredValid memory plain (serve_all memory plain key requests (some []))
history-StoredValid_example =
    history-StoredValid memory plain key requests (some []) empty-StoredValid

abbrev holding : Memory
holding = (table_key (codes "orders"), of_table orders_table) ∷ []

orders_put :
    dispatch memory plain 1 none (update_table (codes "orders") (some orders_table)) (some [])
    ≡ (some holding, reply 200 done)
unfolding dispatch save_table_config
orders_put = refl
