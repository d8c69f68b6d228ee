-- ===== src/Config/Store/Reload.antt =====
-- What a consumer of reloads gets, and what `Close` does to a reload under way.
use transisi_db.Prelude.{
  ℕ, zero, suc, ◌≤◌, ◌≡◌, refl, ap, ◌∙◌, sym, List, [], ◌∷◌, ◌++◌, length, take, ltb, if◌then◌else◌,
  arith, append_assoc, length-append, append-nil, Bool-cases, inl, inr,
}
use transisi_db.Config.{Config}
use transisi_db.Config.Redis.{Redis, Json}
use transisi_db.Config.Store.{Result, ok, err, load_config}
use transisi_db.Config.Store.Watch.{
  Watcher, added, reload_capacity, deliver, watch_loop, loads, messages,
}

take_all {ℓ} : {A : Type ℓ} (n : ℕ) (xs : List A) → length xs ≤ n → take n xs ≡ xs
take_all zero [] h = refl
take_all zero (x ∷ xs) h = absurd (omega arith)
take_all (suc n) [] h = refl
take_all (suc n) (x ∷ xs) h = ap (◌∷◌ x) (take_all n xs (omega arith))

take_full {ℓ} : {A : Type ℓ} (xs ys : List A) → take (length xs) (xs ++ ys) ≡ xs
take_full [] ys = refl
take_full (x ∷ xs) ys = ap (◌∷◌ x) (take_full xs ys)

module _ {ℓ} {A : Type ℓ} where
  -- A send that is skipped when the channel is full.
  abbrev offer : ℕ → List A → A → List A
  offer cap q a = if ltb (length q) cap then q ++ a ∷ [] else q

  length-offer_le : (cap : ℕ) (q : List A) (a : A) → length q ≤ cap → length (offer cap q a) ≤ cap
  length-offer_le cap q a h = ground (arith, length-append q (a ∷ []))

  take_exact : (n : ℕ) (xs ys : List A) → length xs ≡ n → take n (xs ++ ys) ≡ xs
  take_exact n xs ys e = rw (← e) (take_full xs ys)

  take-offer :
      (cap : ℕ) (q : List A) (a : A) (bs : List A)
      → length q ≤ cap
      → take cap (offer cap q a ++ bs) ≡ take cap (q ++ a ∷ bs)
  take-offer cap q a bs h = elim (Bool-cases (ltb (length q) cap)) [
    | inl room ↦ rw room (ap (take cap) (append_assoc q (a ∷ []) bs))
    | inr full ↦
        let e : length q ≡ cap = ground arith in
        rw full (take_exact cap q bs e ∙ sym (take_exact cap q (a ∷ bs) e))
  ]

abbrev kept : List Config → Watcher → Watcher
kept cs w = record w { reload_ch = take reload_capacity (w.reload_ch ++ cs) }

offered : Config → Watcher → Watcher
offered c w = record w { reload_ch = offer reload_capacity w.reload_ch c }

deliver-offered : (c : Config) (w : Watcher) → deliver (ok c) w ≡ offered c w
unfolding deliver offered
deliver-offered c w = elim (Bool-cases (ltb (length w.reload_ch) reload_capacity)) [
  | inl room ↦ rw room refl
  | inr full ↦ rw full refl
]

deliver-kept :
    (r : Result Config) (cs : List Config) (w : Watcher)
    → length w.reload_ch ≤ reload_capacity
    → (kept cs (deliver r w) ≡ kept (added r cs) w)
      × (length (deliver r w).reload_ch ≤ reload_capacity)
unfolding offered
deliver-kept (ok c) cs w h = rw (deliver-offered c w) (
  ap (λ q. record w { reload_ch = q }) (take-offer reload_capacity w.reload_ch c cs h),
  length-offer_le reload_capacity w.reload_ch c h,
)
deliver-kept (err e) cs w h = unfold deliver in (refl, h)

module _ {S D : Type 0} (redis : Redis S D) (json : Json D) where
  -- While the consumer takes nothing, the channel keeps the ten oldest of the configurations that were
  -- loaded, and drops all later ones.
  pub keeps_oldest :
      (ss : List S) (w : Watcher)
      → length w.reload_ch ≤ reload_capacity
      → watch_loop redis json (messages redis json ss) w
        ≡ record w { reload_ch = take reload_capacity (w.reload_ch ++ loads redis json ss) }
  unfolding watch_loop
  keeps_oldest [] w h =
      ap (λ q. record w { reload_ch = q })
        (sym (
          take_all reload_capacity (w.reload_ch ++ []) (rw (append-nil w.reload_ch) h)
          ∙ append-nil w.reload_ch))
  keeps_oldest (s ∷ ss) w h =
      let r = load_config redis json s in
      let (same, room) = deliver-kept r (loads redis json ss) w h in
      keeps_oldest ss (deliver r w) room ∙ same
