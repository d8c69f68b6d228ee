-- ===== src/Config/Store/History.antt =====
-- The store as a map: what a sequence of operations leaves behind.
use mathlib.Core.Option
use transisi_db.Prelude.{
  ℕ, ◌≡◌, inl, inr, refl, ◌∙◌, ap, Bool, true, false, Option, none, some, List, [], ◌∷◌, Name,
  bytes_eq, arith, if◌then◌else◌, Option-cases,
}
use transisi_db.Config.{Config, TableConfig}
use transisi_db.Config.Redis.{Redis, Json}
use transisi_db.Config.Store.{
  StoreError, main_key, timestamp_key, table_key, save_config, save_table_config,
  delete_table_config, save_timestamp,
}

-- What the store promises: a configuration, and a map of tables.
pub record View : Type 0 where
  pub config : Option Config
  pub tables : Name → Option TableConfig

pub data Op : Type 0 where
  saves_config : ℕ → Config → Op
  saves_table : Name → TableConfig → Op
  deletes_table : Name → Op

abbrev pub update :
    Name → Option TableConfig → (Name → Option TableConfig) → Name → Option TableConfig
update name t m n = if bytes_eq n name then t else m n

abbrev pub apply : Op → View → View
apply (saves_config now c) v = record v { config = some c }
apply (saves_table name t) v = record v { tables = update name (some t) v.tables }
apply (deletes_table name) v = record v { tables = update name none v.tables }

abbrev pub replay : List Op → View → View
replay [] v = v
replay (op ∷ ops) v = replay ops (apply op v)

module _ {S D : Type 0} (redis : Redis S D) (json : Json D) where
  unfoldable pub step : Op → S → S × Option StoreError
  step (saves_config now c) s = save_config redis json now c s
  step (saves_table name t) s = save_table_config redis json name t s
  step (deletes_table name) s = delete_table_config redis json name s

  -- The operations up to the first that fails.
  unfoldable pub run : List Op → S → S × Option StoreError
  unfolding step
  run [] s = (s, none)
  run (op ∷ ops) s = let (s', e) = step op s in elim e [ none ↦ run ops s' | some x ↦ (s', some x) ]

  abbrev pub view : S → View
  view s = record {
    config = Option.bind (redis.stored s main_key) json.parse_config;
    tables = λ n. Option.bind (redis.stored s (table_key n)) json.parse_table;
  }

  View-eq : {u v : View} → u.config ≡ v.config → ((n : Name) → u.tables n ≡ v.tables n) → u ≡ v
  View-eq p q = λ i. record { config = p i; tables = λ n. q n i }

  decoded_by {ℓ} :
      {A : Type ℓ} (parse : D → Option A) {x : Option D} {v : D} {a : A}
      → x ≡ some v
      → parse v ≡ some a
      → Option.bind x parse ≡ some a
  unfolding Option.bind
  decoded_by parse p q = rw (p, q) refl

  bind_if {ℓ} :
      {A : Type ℓ} (parse : D → Option A) (b : Bool) (v : D) (x : Option D) {a : A}
      → parse v ≡ some a
      → Option.bind (if b then some v else x) parse ≡ (if b then some a else Option.bind x parse)
  unfolding Option.bind
  bind_if parse true v x q = q
  bind_if parse false v x q = refl

  bind_if_none {ℓ} :
      {A : Type ℓ} (parse : D → Option A) (b : Bool) (x : Option D)
      → Option.bind (if b then none else x) parse ≡ (if b then none else Option.bind x parse)
  unfolding Option.bind
  bind_if_none parse true x = refl
  bind_if_none parse false x = refl

  timestamp_saved :
      (now : ℕ) (p : S × Bool)
      → (save_timestamp redis json now p).1 ≡ none
      → (p.1 ≡ true)
        × ((redis.set p.0 timestamp_key (json.print_int now)).1 ≡ true)
        × ((save_timestamp redis json now p).0
            ≡ (redis.set p.0 timestamp_key (json.print_int now)).0)
  unfolding save_timestamp
  timestamp_saved now (s, false) h = cc
  timestamp_saved now (s, true) h = (refl, ground arith, refl)

  pub save_config-view :
      (now : ℕ) (c : Config) (s : S)
      → (save_config redis json now c s).1 ≡ none
      → view (save_config redis json now c s).0 ≡ apply (saves_config now c) (view s)
  unfolding save_config
  save_config-view now c s h =
      let first = redis.set s main_key (json.print_config c) in
      let (one, two, same) = timestamp_saved now first h in
      let kept = λ (k : Name). redis.set_done first.0 timestamp_key (json.print_int now) k two in
      let put = λ (k : Name). redis.set_done s main_key (json.print_config c) k one in
      rw same (
        View-eq (decoded_by json.parse_config (kept main_key ∙ put main_key) (json.config_lem c))
          (λ n. ap (λ x. Option.bind x json.parse_table) (kept (table_key n) ∙ put (table_key n))))

  pub save_table-view :
      (name : Name) (t : TableConfig) (s : S)
      → (save_table_config redis json name t s).1 ≡ none
      → view (save_table_config redis json name t s).0 ≡ apply (saves_table name t) (view s)
  unfolding save_table_config
  save_table-view name t s h =
      let put =
        λ (k : Name). redis.set_done s (table_key name) (json.print_table t) k (ground arith) in
      View-eq (ap (λ x. Option.bind x json.parse_config) (put main_key)) (λ n.
        ap (λ x. Option.bind x json.parse_table) (put (table_key n))
        ∙ bind_if json.parse_table (bytes_eq n name) (json.print_table t)
            (redis.stored s (table_key n)) (json.table_lem t))

  delete_table-view :
      (name : Name) (s : S)
      → (delete_table_config redis json name s).1 ≡ none
      → view (delete_table_config redis json name s).0 ≡ apply (deletes_table name) (view s)
  unfolding delete_table_config
  delete_table-view name s h =
      let gone = λ (k : Name). redis.del_done s (table_key name) k (ground arith) in
      View-eq (ap (λ x. Option.bind x json.parse_config) (gone main_key)) (λ n.
        ap (λ x. Option.bind x json.parse_table) (gone (table_key n))
        ∙ bind_if_none json.parse_table (bytes_eq n name) (redis.stored s (table_key n)))

  step-view : (op : Op) (s : S) → (step op s).1 ≡ none → view (step op s).0 ≡ apply op (view s)
  unfolding step
  step-view (saves_config now c) s h = save_config-view now c s h
  step-view (saves_table name t) s h = save_table-view name t s h
  step-view (deletes_table name) s h = delete_table-view name s h

  -- When a sequence of saves and deletions goes through without an error, the store holds what the
  -- same sequence does to a configuration and a map of tables: the last configuration saved, and for
  -- each table the last one saved and not deleted since.
  pub run_refines :
      (ops : List Op) (s : S) → (run ops s).1 ≡ none → view (run ops s).0 ≡ replay ops (view s)
  unfolding run
  run_refines [] s h = refl
  run_refines (op ∷ ops) s h = elim (Option-cases (step op s).1) [
    | inl e ↦
        let same : run (op ∷ ops) s ≡ run ops (step op s).0 = ground arith in
        rw same (run_refines ops (step op s).0 (rw same at h) ∙ ap (replay ops) (step-view op s e))
    | inr (x, e) ↦ ground arith
  ]
