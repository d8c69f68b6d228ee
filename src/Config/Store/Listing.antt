-- ===== src/Config/Store/Listing.antt =====
-- What `ListTables` lists.
use transisi_db.Prelude.{
  ◌<◌, ◌≡◌, ◌≢◌, ◌↔◌, inl, inr, refl, sym, ◌∙◌, ap, true, none, List, [], ◌∷◌, ◌++◌, Name, arith,
  Bool-cases, length, drop, ltb, length-append, length-drop, ltb→lt, lt→ltb, Option-cases,
  drop-length-append,
}
use transisi_db.Config.Redis.{Redis, Json, Among, starts_with}
use transisi_db.Config.Store.{ok, tables_prefix, table_key, names_behind, list_tables}

starts_with-eq : (p k : Name) → starts_with p k ≡ true → k ≡ p ++ drop (length p) k
starts_with-eq [] k h = refl
starts_with-eq (c ∷ p) [] h = cc
starts_with-eq (c ∷ p) (d ∷ k) h = ground (arith, starts_with-eq p k)

starts_with-append : (p n : Name) → starts_with p (p ++ n) ≡ true
starts_with-append [] n = refl
starts_with-append (c ∷ p) n = ground (arith, starts_with-append p n)

nonempty_iff : (n : Name) → (0 < length n) ↔ (n ≢ [])
nonempty_iff [] = (λ h. absurd (omega arith), λ h. absurd (h refl))
nonempty_iff (c ∷ n) = (λ h q. cc, λ h. omega arith)

-- A name that is listed stands behind the prefix in one of the keys.
names_behind_sound :
    (p n : Name) (ks : List Name)
    → ((k : Name) → Among k ks → starts_with p k ≡ true)
    → Among n (names_behind p ks)
    → (n ≢ []) × Among (p ++ n) ks
names_behind_sound p n [] all h = absurd h
names_behind_sound p n (k ∷ ks) all h =
    let key : k ≡ p ++ drop (length p) k = starts_with-eq p k (all k (inl refl)) in
    let more = names_behind_sound p n ks (λ j m. all j (inr m)) in
    elim (Bool-cases (ltb (length p) (length k))) [
      | inl q ↦ elim (rw q at h) [
        | inl e ↦
            let longer = ltb→lt (length p) (length k) q in
            let some_text : 0 < length n = omega (arith, ap length e, length-drop (length p) k) in
            ((nonempty_iff n).0 some_text, inl (ap (λ x. p ++ x) e ∙ sym key))
        | inr m ↦ let r = more m in (r.0, inr r.1)
      ]
      | inr q ↦ let r = more (rw q at h) in (r.0, inr r.1)
    ]

names_behind_complete :
    (p n : Name) (ks : List Name) → n ≢ [] → Among (p ++ n) ks → Among n (names_behind p ks)
names_behind_complete p n [] ne h = h
names_behind_complete p n (k ∷ ks) ne (inl e) =
    let some_text = (nonempty_iff n).1 ne in
    let longer : ltb (length p) (length k) ≡ true =
      lt→ltb (length p) (length k) (omega (arith, ap length e, length-append p n)) in
    rw longer (inl (sym (drop-length-append p n) ∙ ap (drop (length p)) e))
names_behind_complete p n (k ∷ ks) ne (inr m) =
    let rest = names_behind_complete p n ks ne m in
    elim (Bool-cases (ltb (length p) (length k))) [ inl q ↦ rw q (inr rest) | inr q ↦ rw q rest ]

-- When `ListTables` gives a list, the names in it are those of the tables that the store holds, and
-- of all of them but one with an empty name.
pub list_tables_iff :
    {S D : Type 0} (redis : Redis S D) (json : Json D) (s : S) (n : Name) {ns : List Name}
    → list_tables redis json s ≡ ok ns
    → Among n ns ↔ ((n ≢ []) × (redis.stored s (table_key n) ≢ none))
unfolding list_tables
list_tables_iff redis json s n {ns} h = elim (Option-cases (redis.scan s tables_prefix)) [
  | inl none_there ↦ ground arith
  | inr (ks, e) ↦
      let listed : ns ≡ names_behind tables_prefix ks = ground arith in
      let scanned = λ (k : Name). redis.scan_lem s tables_prefix e k in
      rw listed (
        λ a.
            let (ne, m) = names_behind_sound tables_prefix n ks (λ k b. ((scanned k).0 b).0) a in
            (ne, ((scanned (table_key n)).0 m).1),
        λ (ne, there).
            names_behind_complete tables_prefix n ks ne
              ((scanned (table_key n)).1 (starts_with-append tables_prefix n, there)),
      )
]
