-- ===== src/Rounding/Ties.antt =====
-- The engine rounds to the nearest integer, a tie to the even one.
use transisi_db.Prelude.{
  ℕ, zero, suc, ◌+◌, ◌*◌, ◌<◌, ◌≤◌, ◌≡◌, ◌⊎◌, inl, inr, ◌≢◌, refl, sym, ap, ◌∙◌, true, false, ltb,
  ℤ, pos, negsuc, bytes_eq, bytes_eq-eq, if-cases, arith,
}
use transisi_db.Config.{arithmetic_round, bankers_round}
use transisi_db.Rounding.{
  Float, Engine, is_even, multiplier, half_to_even, bankers_round_value, round_value,
  convert_idr_to_idn,
}

abbrev pub successor : ℤ → ℤ
successor (pos n) = pos (n + 1)
successor (negsuc zero) = pos 0
successor (negsuc (suc n)) = negsuc n

successor-is_even : (n : ℤ) → is_even n ≡ false → is_even (successor n) ≡ true
successor-is_even (pos n) h = ground arith
successor-is_even (negsuc zero) h = refl
successor-is_even (negsuc (suc n)) h = ground arith

module _ {F : Type 0} (fl : Float F) where
  round_value-bankers :
      (e : Engine) (value : F)
      → e.strategy ≢ arithmetic_round
      → round_value fl e value ≡ bankers_round_value fl e value
  unfolding round_value
  round_value-bankers e value ne =
      let r = bankers_round_value fl e value in
      if-cases (λ q. q ≡ r) (bytes_eq e.strategy bankers_round) _ _ (λ _. refl)
        (λ _.
          if-cases (λ q. q ≡ r) (bytes_eq e.strategy arithmetic_round) _ _
            (λ h. absurd (ne (bytes_eq-eq e.strategy arithmetic_round h))) (λ _. refl))

  -- The amount divided by the ratio, scaled by the precision.
  abbrev pub scaled : Engine → ℤ → ℤ → F
  scaled e amount ratio = fl.mul (fl.div (fl.of_int amount) (fl.of_int ratio)) (multiplier fl e)

ltb-true_lt : (a b : ℕ) → ltb a b ≡ true → a < b
ltb-true_lt a b h = ground arith

ltb-false_le : (a b : ℕ) → ltb a b ≡ false → b ≤ a
ltb-false_le a b h = ground arith

-- Where numbers stand: `x` lies `rest x` steps above the integer `whole x`, with `2 * half` steps to
-- an integer. `InRange` are the numbers whose fraction and whose conversion to int64 are exact, and
-- `slack` is the distance of 1e-9 in steps.
pub record Grid {F : Type 0} (fl : Float F) : Type 1 where
  pub half : ℕ
  pub slack : ℕ
  pub InRange : F → Type 0
  pub whole : F → ℤ
  pub rest : F → ℕ
  -- 1e-9 of an integer, with what the rounding of the two constants adds to it.
  pub slack_le : slack * 999999000 ≤ half + half
  pub rest_lt : (x : F) → rest x < half + half
  -- `math.Floor` is the greatest integer that is not above a number, `math.Ceil` the least one that
  -- is not below it.
  pub whole-floor : (x : F) → InRange x → whole (fl.floor x) ≡ whole x
  pub rest-floor : (x : F) → InRange x → rest (fl.floor x) ≡ 0
  pub whole-ceil : (x : F) → InRange x → 0 < rest x → whole (fl.ceil x) ≡ successor (whole x)
  pub rest-ceil : (x : F) → InRange x → rest (fl.ceil x) ≡ 0
  pub to_int64-floor : (x : F) → InRange x → fl.to_int64 (fl.floor x) ≡ whole x
  pub whole-sub : (x : F) → InRange x → whole (fl.sub x (fl.floor x)) ≡ pos 0
  pub rest-sub : (x : F) → InRange x → rest (fl.sub x (fl.floor x)) ≡ rest x
  -- `<` on the numbers from 0 to 1, and the two constants of the engine.
  pub less_lem : (x y : F) → whole x ≡ pos 0 → whole y ≡ pos 0 → fl.less x y ≡ ltb (rest x) (rest y)
  pub whole-below_half : whole fl.below_half ≡ pos 0
  pub whole-above_half : whole fl.above_half ≡ pos 0
  pub below_positive : 0 < rest fl.below_half
  pub below_le : rest fl.below_half ≤ half
  pub below_close : half ≤ rest fl.below_half + slack
  pub above_ge : half ≤ rest fl.above_half
  pub above_close : rest fl.above_half ≤ half + slack

module _ {F : Type 0} (fl : Float F) (g : Grid fl) where
  -- `n` is the integer below `x` or the one above it, and no farther from `x` than the other by more
  -- than twice the slack; it is even if the fraction of `x` lies between the two constants, as a half
  -- does.
  pub record IsNearest (x n : F) : Type 0 where
    pub integral : g.rest n ≡ 0
    pub near :
        ((g.whole n ≡ g.whole x) × (g.rest x ≤ g.half + g.slack))
        ⊎ ((g.whole n ≡ successor (g.whole x)) × (g.half ≤ g.rest x + g.slack))
    pub tie :
        g.rest fl.below_half ≤ g.rest x
        → g.rest x ≤ g.rest fl.above_half
        → is_even (g.whole n) ≡ true

  less-below :
      (x : F)
      → g.InRange x
      → fl.less (fl.sub x (fl.floor x)) fl.below_half ≡ ltb (g.rest x) (g.rest fl.below_half)
  less-below x r =
      g.less_lem _ _ (g.whole-sub x r) g.whole-below_half
      ∙ ap (λ k. ltb k (g.rest fl.below_half)) (g.rest-sub x r)

  less-above :
      (x : F)
      → g.InRange x
      → fl.less fl.above_half (fl.sub x (fl.floor x)) ≡ ltb (g.rest fl.above_half) (g.rest x)
  less-above x r =
      g.less_lem _ _ g.whole-above_half (g.whole-sub x r)
      ∙ ap (ltb (g.rest fl.above_half)) (g.rest-sub x r)

  floor-IsNearest :
      (x : F)
      → g.InRange x
      → g.rest x ≤ g.rest fl.above_half
      → (g.rest fl.below_half ≤ g.rest x → is_even (g.whole x) ≡ true)
      → IsNearest x (fl.floor x)
  floor-IsNearest x r a e = record {
    integral = g.rest-floor x r;
    near = inl (g.whole-floor x r, omega (arith, a, g.above_close));
    tie = λ b _. ap is_even (g.whole-floor x r) ∙ e b;
  }

  ceil-IsNearest :
      (x : F)
      → g.InRange x
      → g.rest fl.below_half ≤ g.rest x
      → (g.rest x ≤ g.rest fl.above_half → is_even (successor (g.whole x)) ≡ true)
      → IsNearest x (fl.ceil x)
  ceil-IsNearest x r b e =
      let up = g.whole-ceil x r (omega (arith, b, g.below_positive)) in
      record {
        integral = g.rest-ceil x r;
        near = inr (up, omega (arith, b, g.below_close));
        tie = λ _ a. ap is_even up ∙ e a;
      }

  half_to_even-IsNearest : (x : F) → g.InRange x → IsNearest x (half_to_even fl x)
  unfolding half_to_even
  half_to_even-IsNearest x r =
      if-cases (IsNearest x) (fl.less (fl.sub x (fl.floor x)) fl.below_half) _ _
        (λ b.
          let below = ltb-true_lt (g.rest x) (g.rest fl.below_half) (sym (less-below x r) ∙ b) in
          floor-IsNearest x r (omega (arith, below, g.below_le, g.above_ge))
            (λ h. absurd (omega (arith, below, h))))
        (λ b.
          let not_below =
            ltb-false_le (g.rest x) (g.rest fl.below_half) (sym (less-below x r) ∙ b) in
          if-cases (IsNearest x) (fl.less fl.above_half (fl.sub x (fl.floor x))) _ _
            (λ a.
              let above =
                ltb-true_lt (g.rest fl.above_half) (g.rest x) (sym (less-above x r) ∙ a) in
              ceil-IsNearest x r not_below (λ h. absurd (omega (arith, above, h))))
            (λ a.
              let not_above =
                ltb-false_le (g.rest fl.above_half) (g.rest x) (sym (less-above x r) ∙ a) in
              if-cases (IsNearest x) (is_even (fl.to_int64 (fl.floor x))) _ _
                (λ e.
                  floor-IsNearest x r not_above (λ _. sym (ap is_even (g.to_int64-floor x r)) ∙ e))
                (λ o. ceil-IsNearest x r not_below (λ _.
                  successor-is_even (g.whole x) (sym (ap is_even (g.to_int64-floor x r)) ∙ o)))))

  -- With any strategy but ARITHMETIC_ROUND, an unknown one included, if the amount divided by the
  -- ratio and scaled by the precision is in range: the result is an integer scaled back. It is the
  -- integer below or above the scaled amount, the nearer one where the distances differ by more than
  -- twice 1e-9, and the even one where the fraction lies between the two constants around a half, as a
  -- tie does. Package math, the conversion to int64, `-` and `<` are as the laws of `Grid` say.
  pub convert_idr_to_idn-IsNearest :
      (e : Engine) (amount ratio : ℤ)
      → e.strategy ≢ arithmetic_round
      → g.InRange (scaled fl e amount ratio)
      → (n : F) × (convert_idr_to_idn fl e amount ratio ≡ fl.div n (multiplier fl e))
        × IsNearest (scaled fl e amount ratio) n
  unfolding convert_idr_to_idn bankers_round_value
  convert_idr_to_idn-IsNearest e amount ratio ne r = (
    half_to_even fl (scaled fl e amount ratio),
    round_value-bankers fl e (fl.div (fl.of_int amount) (fl.of_int ratio)) ne,
    half_to_even-IsNearest _ r,
  )
