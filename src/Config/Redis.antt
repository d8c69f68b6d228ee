-- ===== src/Config/Redis.antt =====
-- What the store relies on of Redis, and of JSON: the client's calls as an interface. A call may
-- fail; a write that fails may still have been done. `D` are the byte strings that are stored.
use transisi_db.Prelude.{
  ℕ, ◌≡◌, ◌≢◌, ◌↔◌, ◌⊎◌, Bool, true, false, ◌&&◌, Option, none, some, List, [], ◌∷◌, Name, bytes_eq,
  ◌==◌, if◌then◌else◌,
}
use transisi_db.Config.{Config, TableConfig}

-- The reply to GET: a value, `redis.Nil`, or an error.
pub data Reading (D : Type 0) : Type 0 where
  value : D → Reading D
  missing failure : Reading D

abbrev pub of_stored : {D : Type 0} → Option D → Reading D
of_stored none = missing
of_stored (some v) = value v

abbrev pub starts_with : Name → Name → Bool
starts_with [] k = true
starts_with (p ∷ ps) [] = false
starts_with (p ∷ ps) (c ∷ cs) = p == c && starts_with ps cs

-- An element of the list.
abbrev pub Among : Name → List Name → Type 0
Among k [] = ⊥
Among k (j ∷ js) = (k ≡ j) ⊎ Among k js

-- `stored` is what the server holds under a key. The flag of a write and of a deletion is false where
-- the client returns an error. SCAN is asked for the keys with a prefix, and may name a key twice.
pub record Redis (S D : Type 0) : Type 0 where
  pub stored : S → Name → Option D
  pub get : S → Name → Reading D
  pub set : S → Name → D → S × Bool
  pub del : S → Name → S × Bool
  pub scan : S → Name → Option (List Name)
  pub publish : S → Bool
  pub ping : S → Bool
  pub get_lem : (s : S) (k : Name) → (get s k ≡ of_stored (stored s k)) ⊎ (get s k ≡ failure)
  pub set_done :
      (s : S) (k : Name) (v : D) (j : Name)
      → (set s k v).1 ≡ true
      → stored (set s k v).0 j ≡ (if bytes_eq j k then some v else stored s j)
  pub set_any :
      (s : S) (k : Name) (v : D) (j : Name)
      → (stored (set s k v).0 j ≡ stored s j) ⊎ ((j ≡ k) × (stored (set s k v).0 j ≡ some v))
  pub del_done :
      (s : S) (k j : Name)
      → (del s k).1 ≡ true
      → stored (del s k).0 j ≡ (if bytes_eq j k then none else stored s j)
  pub del_any :
      (s : S) (k j : Name)
      → (stored (del s k).0 j ≡ stored s j) ⊎ ((j ≡ k) × (stored (del s k).0 j ≡ none))
  pub scan_lem :
      (s : S) (p : Name) {ks : List Name}
      → scan s p ≡ some ks
      → (k : Name) → Among k ks ↔ ((starts_with p k ≡ true) × (stored s k ≢ none))

-- `json.Marshal` and `json.Unmarshal` of the two types, and the decimal text of a number.
pub record Json (D : Type 0) : Type 0 where
  pub print_config : Config → D
  pub parse_config : D → Option Config
  pub config_lem : (c : Config) → parse_config (print_config c) ≡ some c
  pub print_table : TableConfig → D
  pub parse_table : D → Option TableConfig
  pub table_lem : (t : TableConfig) → parse_table (print_table t) ≡ some t
  pub print_int : ℕ → D
  pub parse_int : D → Option ℕ
  pub int_lem : (n : ℕ) → parse_int (print_int n) ≡ some n
