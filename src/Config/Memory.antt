-- ===== src/Config/Memory.antt =====
-- A server that is a list of entries and always answers: it meets the interface of Config/Redis.
use transisi_db.Prelude.{
  ℕ, ◌≡◌, ◌≢◌, ◌↔◌, ◌⊎◌, inl, inr, refl, ap, ◌∙◌, subst, true, Option, none, some, List, [], ◌∷◌,
  Name, bytes_eq, bytes_eq-eq, bytes_eq_refl, arith, Bool-cases, if◌then◌else◌,
}
use transisi_db.Config.{Config, TableConfig, lookup}
use transisi_db.Config.Redis.{Redis, Json, of_stored, starts_with, Among}

-- What is stored, instead of its JSON.
pub data Stored : Type 0 where
  of_config : Config → Stored
  of_table : TableConfig → Stored
  of_int : ℕ → Stored

abbrev pub Memory : Type 0
Memory = List (Name × Stored)

abbrev pub remove : Name → Memory → Memory
remove k [] = []
remove k ((i, v) ∷ m) = if bytes_eq k i then remove k m else (i, v) ∷ remove k m

abbrev pub keys_with : Name → Memory → List Name
keys_with p [] = []
keys_with p ((i, v) ∷ m) = if starts_with p i then i ∷ keys_with p m else keys_with p m

different_keys : (j k i : Name) → bytes_eq j k ≡ true → bytes_eq j i ≡ true → bytes_eq k i ≡ true
different_keys j k i p q = rw (← bytes_eq-eq j k p) q

pub lookup-remove :
    (k j : Name) (m : Memory) → lookup j (remove k m) ≡ (if bytes_eq j k then none else lookup j m)
lookup-remove k j [] = ground arith
lookup-remove k j ((i, v) ∷ m) = elim (Bool-cases (bytes_eq k i)) [
  | inl q ↦
      let same : bytes_eq j k ≡ bytes_eq j i = ap (bytes_eq j) (bytes_eq-eq k i q) in
      rw q (ground (arith, lookup-remove k j m))
  | inr q ↦ rw q (ground (arith, lookup-remove k j m, different_keys j k i))
]

found-cons :
    (k i : Name) (v : Stored) (m : Memory) → lookup k m ≢ none → lookup k ((i, v) ∷ m) ≢ none
found-cons k i v m h = ground arith

keys_with_iff :
    (p k : Name) (m : Memory)
    → Among k (keys_with p m) ↔ ((starts_with p k ≡ true) × (lookup k m ≢ none))
keys_with_iff p k [] = (λ h. absurd h, λ (s, h). absurd (h refl))
keys_with_iff p k ((i, v) ∷ m) =
    let (to, from) = keys_with_iff p k m in
    elim (Bool-cases (starts_with p i)) [
      | inl q ↦ rw q (
        λ h. elim h [
          | inl e ↦ (rw e q, rw e (rw (bytes_eq_refl i) (λ z. cc)))
          | inr a ↦ let r = to a in (r.0, found-cons k i v m r.1)
        ],
        λ (s, h). elim (Bool-cases (bytes_eq k i)) [
          | inl e ↦ inl (bytes_eq-eq k i e)
          | inr e ↦ inr (from (s, rw e at h))
        ],
      )
      | inr q ↦ rw q (
        λ a. let r = to a in (r.0, found-cons k i v m r.1),
        λ (s, h). elim (Bool-cases (bytes_eq k i)) [
          | inl e ↦ absurd (cc (bytes_eq-eq k i e, s, q))
          | inr e ↦ from (s, rw e at h)
        ],
      )
    ]

pub set_any_lem :
    (s : Memory) (k : Name) (v : Stored) (j : Name)
    → (lookup j ((k, v) ∷ s) ≡ lookup j s) ⊎ ((j ≡ k) × (lookup j ((k, v) ∷ s) ≡ some v))
set_any_lem s k v j = elim (Bool-cases (bytes_eq j k)) [
  | inl q ↦ inr (bytes_eq-eq j k q, rw q refl)
  | inr q ↦ inl (rw q refl)
]

pub del_any_lem :
    (s : Memory) (k j : Name)
    → (lookup j (remove k s) ≡ lookup j s) ⊎ ((j ≡ k) × (lookup j (remove k s) ≡ none))
del_any_lem s k j = elim (Bool-cases (bytes_eq j k)) [
  | inl q ↦ inr (bytes_eq-eq j k q, lookup-remove k j s ∙ rw q refl)
  | inr q ↦ inl (lookup-remove k j s ∙ rw q refl)
]

pub scan_memory :
    (s : Memory) (p : Name) {ks : List Name}
    → some (keys_with p s) ≡ some ks
    → (k : Name) → Among k ks ↔ ((starts_with p k ≡ true) × (lookup k s ≢ none))
scan_memory s p e k =
    let same : keys_with p s ≡ _ = cc e in
    subst (λ ks. Among k ks ↔ ((starts_with p k ≡ true) × (lookup k s ≢ none))) same
      (keys_with_iff p k s)

abbrev pub memory : Redis Memory Stored
memory = record {
  stored = λ s k. lookup k s;
  get = λ s k. of_stored (lookup k s);
  set = λ s k v. ((k, v) ∷ s, true);
  del = λ s k. (remove k s, true);
  scan = λ s p. some (keys_with p s);
  publish = λ s. true;
  ping = λ s. true;
  get_lem = λ s k. inl refl;
  set_done = λ s k v j h. refl;
  set_any = set_any_lem;
  del_done = λ s k j h. lookup-remove k j s;
  del_any = del_any_lem;
  scan_lem = scan_memory;
}

abbrev as_config : Stored → Option Config
as_config (of_config c) = some c
as_config _ = none

abbrev as_table : Stored → Option TableConfig
as_table (of_table t) = some t
as_table _ = none

abbrev as_int : Stored → Option ℕ
as_int (of_int n) = some n
as_int _ = none

abbrev pub plain : Json Stored
plain = record {
  print_config = of_config;
  parse_config = as_config;
  config_lem = λ c. refl;
  print_table = of_table;
  parse_table = as_table;
  table_lem = λ t. refl;
  print_int = of_int;
  parse_int = as_int;
  int_lem = λ n. refl;
}
