-- ===== src/Config/Store/Sync.antt =====
-- What `SyncTablesFromConfig` leaves in the store.
use transisi_db.Prelude.{
  ◌≡◌, inl, inr, refl, ◌∙◌, ap, Option, none, some, List, [], ◌∷◌, Name, bytes_eq, bytes_eq-eq,
  arith, Option-cases, Bool-cases,
}
use transisi_db.Config.{TablesConfig, lookup}
use transisi_db.Config.Redis.{Redis, Json}
use transisi_db.Config.Store.{save_table_config, sync_entries, sync_tables_from_config}
use transisi_db.Config.Store.History.{View, Op, saves_table, apply, replay, view, save_table-view}

-- A map as the list of its entries: no key stands twice.
abbrev pub IsMap {ℓ} : {A : Type ℓ} → List (Name × A) → Type ℓ
IsMap [] = Unit
IsMap ((k, a) ∷ m) = (lookup k m ≡ none) × IsMap m

abbrev pub or_else {ℓ} : {A : Type ℓ} → Option A → Option A → Option A
or_else none b = b
or_else (some a) b = some a

abbrev pub saves : TablesConfig → List Op
saves [] = []
saves ((name, t) ∷ tables) = saves_table name t ∷ saves tables

saves-config : (tables : TablesConfig) (v : View) → (replay (saves tables) v).config ≡ v.config
saves-config [] v = refl
saves-config ((name, t) ∷ tables) v = saves-config tables (apply (saves_table name t) v)

-- Of distinct tables each is found, and all others are as they were.
saves-tables :
    (tables : TablesConfig) (v : View) (n : Name)
    → IsMap tables
    → (replay (saves tables) v).tables n ≡ or_else (lookup n tables) (v.tables n)
saves-tables [] v n h = refl
saves-tables ((name, t) ∷ tables) v n h =
    saves-tables tables (apply (saves_table name t) v) n h.1 ∙ elim (Bool-cases (bytes_eq n name)) [
      | inl q ↦
          let gone : lookup n tables ≡ none =
            ap (λ k. lookup k tables) (bytes_eq-eq n name q) ∙ h.0 in
          rw (q, gone) refl
      | inr q ↦ rw q refl
    ]

module _ {S D : Type 0} (redis : Redis S D) (json : Json D) where
  sync-view :
      (tables : TablesConfig) (s : S)
      → (sync_entries redis json tables s).1 ≡ none
      → view redis json (sync_entries redis json tables s).0
        ≡ replay (saves tables) (view redis json s)
  unfolding sync_entries
  sync-view [] s h = refl
  sync-view ((name, t) ∷ tables) s h =
      let r = save_table_config redis json name t s in
      elim (Option-cases r.1) [
        | inl e ↦
            let same : sync_entries redis json ((name, t) ∷ tables) s
                ≡ sync_entries redis json tables r.0 =
              ground arith in
            rw same (
              sync-view tables r.0 (rw same at h)
              ∙ ap (replay (saves tables)) (save_table-view redis json name t s e))
        | inr (x, e) ↦ absurd (ground arith)
      ]

  -- What a synchronisation without an error leaves behind.
  pub sync_tables-view :
      (tables : TablesConfig) (s : S)
      → IsMap tables
      → (sync_tables_from_config redis json (some tables) s).1 ≡ none
      → let v = view redis json (sync_tables_from_config redis json (some tables) s).0 in
        (v.config ≡ (view redis json s).config)
        × ((n : Name) → v.tables n ≡ or_else (lookup n tables) ((view redis json s).tables n))
  unfolding sync_tables_from_config
  sync_tables-view tables s m h =
      let e = sync-view tables s h in
      let before = view redis json s in
      (
        ap (λ v. v.config) e ∙ saves-config tables before,
        λ n. ap (λ v. v.tables n) e ∙ saves-tables tables before n m,
      )
