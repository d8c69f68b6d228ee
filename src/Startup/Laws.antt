-- ===== src/Startup/Laws.antt =====
-- What the API answers from the store that the program has filled.
use mathlib.Core.Option
use transisi_db.Prelude.{
  ℕ, ◌≡◌, ◌⊎◌, inl, inr, refl, ◌∙◌, ap, true, Option, none, some, Name, arith,
}
use transisi_db.Config.{Config, TableConfig, Source, loaded, load, lookup}
use transisi_db.Config.Redis.{Redis, Json, of_stored}
use transisi_db.Config.Store.{
  ok, err, load_failed, main_key, table_key, decoded, load_config, load_table_config, save_config,
  sync_tables_from_config,
}
use transisi_db.Config.Store.History.{view, save_config-view}
use transisi_db.Config.Store.Sync.{IsMap, or_else, sync_tables-view}
use transisi_db.Api.{
  Body, Reply, reply, config, table, store_failed, get_config, get_table, dispatch,
}
use transisi_db.Startup.{serving, boot}

module _ {S D : Type 0} (redis : Redis S D) (json : Json D) where
  decoded_stored :
      {A : Type 0} (parse : D → Option A) (x : Option D) {a : A}
      → Option.bind x parse ≡ some a
      → decoded redis json parse (of_stored x) ≡ ok a
  unfolding decoded Option.bind
  decoded_stored parse none h = cc
  decoded_stored parse (some v) h = ground (arith, h)

  -- A read of what is stored: the value, or the server's failure.
  read_stored :
      {A : Type 0} (parse : D → Option A) (s : S) (k : Name) {a : A}
      → Option.bind (redis.stored s k) parse ≡ some a
      → (decoded redis json parse (redis.get s k) ≡ ok a)
        ⊎ (decoded redis json parse (redis.get s k) ≡ err load_failed)
  read_stored parse s k h = elim (redis.get_lem s k) [
    | inl e ↦ inl (ap (decoded redis json parse) e ∙ decoded_stored parse (redis.stored s k) h)
    | inr e ↦ inr (unfold decoded in rw e refl)
  ]

  -- The body with status 200, or the failure to read the store with the route's own status.
  abbrev pub Answers : ℕ → Body → Reply → Type 0
  Answers status b r = (r ≡ reply 200 b) ⊎ (r ≡ reply status (store_failed load_failed))

  config_answered :
      (now : ℕ) (s : S) {c : Config}
      → (view redis json s).config ≡ some c
      → Answers 500 (config c) (dispatch redis json now none get_config (some s)).1
  unfolding dispatch load_config
  config_answered now s h = elim (read_stored json.parse_config s main_key h) [
    | inl e ↦ inl (ground (arith, e))
    | inr e ↦ inr (ground (arith, e))
  ]

  table_answered :
      (now : ℕ) (s : S) (name : Name) {t : TableConfig}
      → (view redis json s).tables name ≡ some t
      → Answers 404 (table t) (dispatch redis json now none (get_table name) (some s)).1
  unfolding dispatch load_table_config
  table_answered now s name h = elim (read_stored json.parse_table s (table_key name) h) [
    | inl e ↦ inl (ground (arith, e))
    | inr e ↦ inr (ground (arith, e))
  ]

  -- What the start leaves in the store, when both of its calls succeed.
  abbrev pub IsFilled : ℕ → Config → S → Type 0
  IsFilled now c s =
      let saved = save_config redis json now c s in
      (saved.1 ≡ none) × ((sync_tables_from_config redis json (some c.tables) saved.0).1 ≡ none)

  filled : ℕ → Config → S → S
  filled now c s =
      (sync_tables_from_config redis json (some c.tables) (save_config redis json now c s).0).0

  filled-view :
      (now : ℕ) (c : Config) (s : S)
      → IsMap c.tables
      → IsFilled now c s
      → let v = view redis json (filled now c s) in
        (v.config ≡ some c)
        × ((n : Name) → v.tables n ≡ or_else (lookup n c.tables) ((view redis json s).tables n))
  unfolding filled
  filled-view now c s m f =
      let saved = save_config redis json now c s in
      let first = save_config-view redis json now c s f.0 in
      let (same, all) = sync_tables-view redis json c.tables saved.0 m f.1 in
      (
        same ∙ ap (λ v. v.config) first,
        λ n. all n ∙ ap (λ v. or_else (lookup n c.tables) (v.tables n)) first,
      )

  boots :
      (now : ℕ) (file : Source) (s : S) {c : Config}
      → load file ≡ loaded c
      → redis.ping s ≡ true
      → boot redis json now file s ≡ serving c.api (some (filled now c s))
  unfolding boot filled
  boots now file s l p = ground (arith, l, p)

  -- When the file is loaded, Redis answers the PING and both writes succeed, the server begins on a
  -- store from which GET /config answers with the file's configuration and GET /tables with each
  -- table of the file, whatever was stored before, unless the read itself fails (500, and 404 for a
  -- table); the tables that are not in the file are as they were.
  pub boot_serves :
      (now : ℕ) (file : Source) (s : S) {c : Config}
      → load file ≡ loaded c
      → redis.ping s ≡ true
      → IsMap c.tables
      → IsFilled now c s
      → (s' : S) × (boot redis json now file s ≡ serving c.api (some s'))
        × ((later : ℕ)
            → Answers 500 (config c) (dispatch redis json later none get_config (some s')).1)
        × ((later : ℕ) (name : Name) (t : TableConfig)
            → lookup name c.tables ≡ some t
            → Answers 404 (table t) (dispatch redis json later none (get_table name) (some s')).1)
        × ((name : Name)
            → lookup name c.tables ≡ none
            → (view redis json s').tables name ≡ (view redis json s).tables name)
  boot_serves now file s {c} l p m f =
      let (same, all) = filled-view now c s m f in
      (
        filled now c s,
        boots now file s l p,
        λ later. config_answered later (filled now c s) same,
        λ later name t e.
            table_answered later (filled now c s) name
              (all name ∙ ap (λ x. or_else x ((view redis json s).tables name)) e),
        λ name e. all name ∙ ap (λ x. or_else x ((view redis json s).tables name)) e,
      )
