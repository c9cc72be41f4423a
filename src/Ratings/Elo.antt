-- ===== src/Ratings/Elo.antt =====
-- services/ratings/internal/api/domain/rating.go: the constants, `kFactor` and `CalcELODeltas`.
use mathlib.Core.Path.{subst}
use full.Base.{ℕ, if◌then◌else◌}
use full.Base.Int.{ℤ, pos, ◌-ℤ◌, ◌≤ℤ◌, ltb_ℤ}
use full.Ratings.Float.{Float64}

-- DefaultELO, DefaultLevel, DefaultGamesPlayed
abbrev pub default_elo : ℤ
default_elo = pos 1000

abbrev pub default_level : ℕ
default_level = 4

abbrev pub default_games_played : ℕ
default_games_played = 0

unfoldable pub k_factor : ℕ → ℕ
k_factor games_played = if ltb_ℤ (pos games_played) (pos 20) then 64 else 32

module _ (fl : Float64) where
  open fl use {
    F, ◌≤F◌, add, sub, mul, div, pow10, of_int, round, four_fifths, pow10_nonneg,
    four_fifths_bounds, of_int_nonneg, one_le_add, div_bounds, sub_bounds, mul_bounds, scale_bounds,
    mul_neg_bounds, round_mono, round_int,
  }

  -- The expected score of the winner, `ew`.
  unfoldable pub expected : ℤ → ℤ → F
  expected rw rl =
      div (of_int (pos 1))
        (add (of_int (pos 1)) (pow10 (div (of_int (rl -ℤ rw)) (of_int (pos 400)))))

  -- The deltas of the winner and of the loser.
  unfoldable pub calc_elo_deltas : ℤ → ℤ → ℕ → ℕ → ℤ × ℤ
  unfolding expected
  calc_elo_deltas rw rl gw_played gl_played =
      let kw : F = of_int (pos (k_factor gw_played)) in
      let kl : F = of_int (pos (k_factor gl_played)) in
      let ew = expected rw rl in
      let el = sub (of_int (pos 1)) ew in
      (
        round (mul kw (sub (of_int (pos 1)) ew)),
        round (mul (mul four_fifths kl) (sub (of_int (pos 0)) el)),
      )

  expected_bounds :
      (rw rl : ℤ) → (of_int (pos 0) ≤F expected rw rl) × (expected rw rl ≤F of_int (pos 1))
  unfolding expected
  expected_bounds rw rl = div_bounds _ (one_le_add _ (pow10_nonneg _))

  round_above : (n : ℤ) (x : F) → of_int n ≤F x → n ≤ℤ round x
  round_above n x h = subst (λ k. k ≤ℤ round x) (round_int n) (round_mono _ _ h)

  round_below : (n : ℤ) (x : F) → x ≤F of_int n → round x ≤ℤ n
  round_below n x h = subst (λ k. round x ≤ℤ k) (round_int n) (round_mono _ _ h)

  -- The winner gains between 0 and its K-factor; the loser loses between 0 and its K-factor.
  pub calc_elo_deltas_bounds :
      (w l : ℤ) (gw gl : ℕ)
      → let d = calc_elo_deltas w l gw gl in
        (pos 0 ≤ℤ d.0)
        × (d.0 ≤ℤ pos (k_factor gw))
        × (pos 0 -ℤ pos (k_factor gl) ≤ℤ d.1)
        × (d.1 ≤ℤ pos 0)
  unfolding calc_elo_deltas
  calc_elo_deltas_bounds w l gw gl =
      let e = expected_bounds w l in
      let s = sub_bounds _ e.0 e.1 in
      let g = mul_bounds (of_int (pos (k_factor gw))) _ (of_int_nonneg _) s.0 s.1 in
      let q =
        scale_bounds (of_int (pos (k_factor gl))) four_fifths (of_int_nonneg _) four_fifths_bounds.0
          four_fifths_bounds.1 in
      let n =
        mul_neg_bounds (mul four_fifths (of_int (pos (k_factor gl)))) _ (k_factor gl) q.0 q.1 s.0
          s.1 in
      (round_above _ _ g.0, round_below _ _ g.1, round_above _ _ n.0, round_below _ _ n.1)
