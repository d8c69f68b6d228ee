-- ===== src/Listener/Drains.antt =====
-- No goroutine of the listener blocks the others for ever.
use transisi_db.Prelude.{
  ℕ, zero, suc, ◌+◌, ◌*◌, ◌≡◌, ◌≢◌, ◌∙◌, ◌<◌, ◌⊎◌, inl, inr, refl, ap, true, Option, none, some,
  List, [], ◌∷◌, length, All, arith, if-cases, ltb, lt→ltb, subst,
}
use transisi_db.Pool.{BackendConn, BackendPool, Acquired, conn, err, acquire}
use transisi_db.Listener.{
  Server, opened, open_session, open_one, pick, ended, end_session, take_slot, entered, Move,
  takes_slot, opens, ends, advance, play, played,
}
use transisi_db.Listener.Laws.{IsValid, Leads, advance-IsValid}

-- The steps that the goroutines have left.
work : Server → ℕ
work s = 3 * s.waiting + 2 * s.starting + length s.sessions

-- A step from `s` to a server that has fewer left.
abbrev Lighter : Server → Option Server → Type 0
Lighter s o = (t : Server) × (o ≡ some t) × (work t < work s) × (t.capacity ≡ s.capacity)

-- A step of a goroutine that has a client: no new client, and nothing of `Stop`.
abbrev pub IsOwn : {E : Type 0} → Move E → Type 0
IsOwn takes_slot = Unit
IsOwn (opens healthy now later dial) = Unit
IsOwn (ends now i) = Unit
IsOwn m = ⊥

module _ (s : Server) where
  entered-Lighter : (n : ℕ) → s.waiting ≡ suc n → Lighter s (entered (suc n) s)
  unfolding entered work
  entered-Lighter n e = (_, refl, omega (arith, e), refl)

  opened-Lighter :
      {E : Type 0} (n : ℕ) (r : BackendPool × Acquired E)
      → s.starting ≡ suc n
      → (work (opened n s r) < work s) × ((opened n s r).capacity ≡ s.capacity)
  unfolding opened work
  opened-Lighter n (p, conn bc) e = (omega (arith, e), refl)
  opened-Lighter n (p, err x) e = (omega (arith, e), refl)

  ended-Lighter :
      (bc : BackendConn) (others : List BackendConn)
      → length s.sessions ≡ length others + 1
      → Lighter s (ended 0 s (some (bc, others)))
  unfolding ended work
  ended-Lighter bc others e = (_, refl, omega (arith, e), refl)

  -- By the goroutines that there are: those that hold a connection, those that are about to acquire
  -- one, those that wait.
  some_step :
      (held : List BackendConn) (starting waiting : ℕ)
      → s.sessions ≡ held
      → s.starting ≡ starting
      → s.waiting ≡ waiting
      → IsValid s
      → 0 < s.capacity
      → s.wg ≢ 0
      → (Lighter s (ended 0 s (pick held 0)))
        ⊎ ((Lighter s (open_one {E = ℕ} (λ _. true) 0 0 none starting s))
            ⊎ ((s.slots < s.capacity) × Lighter s (entered waiting s)))
  unfolding pick open_one
  some_step (bc ∷ held) m n e f g v c w = inl (ended-Lighter bc held (omega (arith, ap length e)))
  some_step [] (suc m) n e f g v c w = inr (
      inl (
        let (less, same) =
          opened-Lighter m (acquire {E = ℕ} (λ _. true) 0 0 none s.backend_pool) f in
        (_, refl, less, same)))
  some_step [] zero (suc n) e f g v c w =
      inr (inr (omega (arith, ap length e, f, v.0), entered-Lighter n g))
  some_step [] zero zero e f g v c w = absurd (w (omega (arith, ap length e, f, g, v.0)))

  goroutine_step :
      IsValid s → 0 < s.capacity → s.wg ≢ 0 → (m : Move ℕ) × IsOwn m × Lighter s (advance m s)
  unfolding advance end_session open_session take_slot
  goroutine_step v c w = elim (some_step s.sessions s.starting s.waiting refl refl refl v c w) [
    | inl h ↦ (ends 0 0, tt, h)
    | inr (inl h) ↦ (opens (λ _. true) 0 0 none, tt, h)
    | inr (inr (l, h)) ↦ (
      takes_slot,
      tt,
      if-cases (Lighter s) (ltb s.slots s.capacity) _ _ (λ _. h)
          (λ f. absurd (ground (arith, lt→ltb s.slots s.capacity l))),
    )
  ]

played-some :
    (rest : Server → Option Server) (o : Option Server) (t : Server)
    → o ≡ some t
    → played rest o ≡ rest t
unfolding played
played-some rest o t e = rw e refl

-- A schedule of such steps after which no goroutine is left.
pub Drained : Server → Type 0
Drained s = (ms : List (Move ℕ)) × All IsOwn ms × (t : Server) × (play ms s ≡ some t) × (t.wg ≡ 0)

drained_already : (s : Server) → s.wg ≡ 0 → Drained s
unfolding Drained play
drained_already s e = ([], tt, s, refl, e)

zero-cases : (n : ℕ) → (n ≡ 0) ⊎ (n ≢ 0)
zero-cases n = ground arith

after_step : (m : Move ℕ) (s t : Server) → IsOwn m → advance m s ≡ some t → Drained t → Drained s
unfolding Drained play
after_step m s t own e (ms, owns, u, r, z) =
    (m ∷ ms, (own, owns), u, played-some (play ms) (advance m s) t e ∙ r, z)

drains_within : (fuel : ℕ) (s : Server) → work s < fuel → IsValid s → 0 < s.capacity → Drained s
drains_within zero s l v c = absurd (omega arith)
drains_within (suc fuel) s l v c = elim (zero-cases s.wg) [
  | inl e ↦ drained_already s e
  | inr w ↦
      (let (m, own, (t, e, less, same)) = goroutine_step s v c w in
        after_step m s t own e (
          drains_within fuel t (omega (arith, less, l))
            (subst (Leads IsValid) e (advance-IsValid m s v)) (omega (arith, same, c))))
]

-- In a valid server with a slot at least, whatever goroutines there are: a schedule of their own
-- steps, without a new client and without `Stop`, ends all of them, so that `wg.Wait` returns.
pub drains : (s : Server) → IsValid s → 0 < s.capacity → Drained s
drains s v c = drains_within (suc (work s)) s (omega arith) v c
