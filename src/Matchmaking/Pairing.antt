-- ===== src/Matchmaking/Pairing.antt =====
-- Whom a tick pairs: services/matchmaking/internal/api/service/matchmaking_service.go.
use full.Base.{
  ℕ, ◌≡◌, ◌≢◌, ◌⊎◌, inl, inr, true, false, none, some, List, [], ◌∷◌, arith, nat_eq, Option-cases,
}
use full.Matchmaking.Player.{
  Player, nearest_within_distance, nearest_regardless, past_fallback_deadline,
}
use full.Matchmaking.Nearest.{
  Among, Preferred, IsPartner, nearest_within_distance-best, nearest_within_distance-none,
  nearest_regardless-best,
}
use full.Matchmaking.Choice.{Env, has, available, choose}

-- An available opponent waits, is another player, and is not paired yet; and all such are
-- available.
pub available-Among :
    (candidate : Player) (paired : List ℕ) (waiting : List Player) (w : Player)
    → Among w (available candidate paired waiting)
    → Among w waiting × (w.user_id ≢ candidate.user_id) × (has paired w.user_id ≡ false)
unfolding available
available-Among candidate paired [] w a = elim a [ ]
available-Among candidate paired (o ∷ waiting) w a =
    ground (arith, available-Among candidate paired waiting w)

pub Among-available :
    (candidate : Player) (paired : List ℕ) (waiting : List Player) (w : Player)
    → Among w waiting
    → w.user_id ≢ candidate.user_id
    → has paired w.user_id ≡ false
    → Among w (available candidate paired waiting)
unfolding available
Among-available candidate paired [] w a n u = elim a [ ]
Among-available candidate paired (o ∷ waiting) w a n u =
    ground (arith, Among-available candidate paired waiting w)

-- The opponent that a candidate gets waits and is another player; it is within the level
-- distance, or the candidate is past the deadline and nobody waits within the distance. In both
-- cases no other such player is preferred to it.
pub choose-best :
    (env : Env) (now : ℕ) (candidate : Player) (others : List Player) (p : Player)
    → choose env now candidate others ≡ some p
    → Among p others
      × (p.user_id ≢ candidate.user_id)
      × ((IsPartner candidate env.level_dist p
            × ((w : Player)
                → Among w others
                → IsPartner candidate env.level_dist w
                → ¬ Preferred candidate w p))
          ⊎ ((past_fallback_deadline now candidate.enqueued_at env.fallback_after ≡ true)
              × ((w : Player) → Among w others → ¬ IsPartner candidate env.level_dist w)
              × ((w : Player)
                  → Among w others
                  → w.user_id ≢ candidate.user_id
                  → ¬ Preferred candidate w p)))
unfolding choose
choose-best env now candidate others p h =
    elim (Option-cases (nearest_within_distance candidate others env.level_dist)) [
      | inl e ↦
          let far : nearest_regardless candidate others ≡ some p = ground arith in
          let (a, n, b) = (nearest_regardless-best candidate others).0 p far in
          (
            a,
            n,
            inr (ground arith, nearest_within_distance-none candidate others env.level_dist e, b),
          )
      | inr (q, e) ↦
          let near : nearest_within_distance candidate others env.level_dist ≡ some p =
            ground arith in
          let (a, n, b) = nearest_within_distance-best candidate others env.level_dist p near in
          (a, n.0, inl (n, b))
    ]

-- Nobody is chosen only where nobody available is within the distance.
pub choose-none :
    (env : Env) (now : ℕ) (candidate : Player) (others : List Player)
    → choose env now candidate others ≡ none
    → (w : Player) → Among w others
    → ¬ IsPartner candidate env.level_dist w
unfolding choose
choose-none env now candidate others h =
    nearest_within_distance-none candidate others env.level_dist (ground arith)
