-- ===== src/Matchmaking/Choice.antt =====
-- services/matchmaking/internal/api/service/matchmaking_service.go: what a tick reads of the
-- environment, and how it picks the opponent of a candidate.
use full.Base.{
  ℕ, ◌+◌, Bool, false, not, ◌||◌, Option, none, some, List, [], ◌∷◌, ◌++◌, String, ◌==◌, nat_eq,
  string_eq, if◌then◌else◌,
}
use full.Base.Int.{ℤ}
use full.Base.Dict.{Dict}
use full.Matchmaking.Player.{
  Player, nearest_within_distance, nearest_regardless, past_fallback_deadline,
}

-- domain.MatchedMessage; its type field is always "matched".
pub record MatchedMessage : Type 0 where
  pub room_id : String
  pub opponent : ℕ

-- What the service does to a connection.
pub data Act : Type 0 where
  send : ℕ → MatchedMessage → Act
  close : ℕ → String → Act

pub record Env : Type 0 where
  pub level_dist : ℤ
  pub fallback_after : ℤ
  -- The n-th id that the generator returns.
  pub room_id : ℕ → String
  -- Whether Send to a connection succeeds.
  pub delivers : ℕ → MatchedMessage → Bool

-- Membership in the set of ids paired so far.
abbrev pub has : List ℕ → ℕ → Bool
has [] u = false
has (v ∷ vs) u = v == u || has vs u

-- The still available opponents of a candidate.
unfoldable pub available : Player → List ℕ → List Player → List Player
available candidate paired [] = []
available candidate paired (opp ∷ waiting) =
    let rest = available candidate paired waiting in
    if opp.user_id == candidate.user_id || has paired opp.user_id then rest else opp ∷ rest

abbrev pub or_fallback : Bool → Option Player → Option Player → Option Player
or_fallback late (some opp) far = some opp
or_fallback late none far = if late then far else none

-- In distance first; past the deadline, the nearest of all.
unfoldable pub choose : Env → ℕ → Player → List Player → Option Player
choose env now candidate others =
    or_fallback (past_fallback_deadline now candidate.enqueued_at env.fallback_after)
      (nearest_within_distance candidate others env.level_dist)
      (nearest_regardless candidate others)

unfoldable pub still_waiting : List Player → List ℕ → ℕ
still_waiting [] paired = 0
still_waiting (c ∷ cs) paired =
    (if not (has paired c.user_id) then 1 else 0) + still_waiting cs paired

-- Membership in the set of modes seen so far.
abbrev pub has_mode : List String → String → Bool
has_mode [] m = false
has_mode (v ∷ vs) m = v == m || has_mode vs m

-- activeModes, without duplicates.
unfoldable pub active_modes : List String → Dict ℕ String → List String
active_modes seen [] = seen
active_modes seen ((u, m) ∷ modes) =
    active_modes (if has_mode seen m then seen else seen ++ m ∷ []) modes
