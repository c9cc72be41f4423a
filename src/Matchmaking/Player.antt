-- ===== src/Matchmaking/Player.antt =====
-- services/matchmaking/internal/api/domain/player.go: players, validation, and the choice of an
-- opponent. Levels are Go ints; times are nanoseconds since an epoch; user ids are database
-- serials, which are never negative.
use Prim.Native.Char.{code}
use full.Base.{
  ℕ, suc, Bool, true, not, ◌&&◌, ◌||◌, Option, none, some, List, [], ◌∷◌, String, ltb, leb, ◌==◌,
  nat_eq, if◌then◌else◌,
}
use full.Base.Int.{ℤ, pos, ◌-ℤ◌, sub_ℕ, ltb_ℤ, leb_ℤ, eqb_ℤ}

pub record Player : Type 0 where
  pub user_id : ℕ
  pub mode : String
  pub level : ℤ
  pub enqueued_at : ℕ

-- ErrInvalidLevel, ErrInvalidMode
pub data Invalid : Type 0 where
  invalid_level invalid_mode : Invalid

abbrev pub min_level : ℤ
min_level = pos 1

abbrev pub max_level : ℤ
max_level = pos 10

unfoldable pub validate_level : ℤ → Option Invalid
validate_level level =
    if ltb_ℤ level min_level || ltb_ℤ max_level level then some invalid_level else none

-- [a-z0-9_-]
unfoldable pub mode_char : ℕ → Bool
mode_char c = (leb b'a' c && leb c b'z') || ((leb b'0' c && leb c b'9') || (c == b'_' || c == b'-'))

unfoldable pub mode_chars : String → Bool
mode_chars String.[] = true
mode_chars (String.◌∷◌ c s) = mode_char (code c) && mode_chars s

abbrev pub count_chars : String → ℕ
count_chars String.[] = 0
count_chars (String.◌∷◌ c s) = suc (count_chars s)

-- modeRe: ^[a-z0-9_-]{1,32}$
unfoldable pub mode_matches : String → Bool
unfolding mode_char mode_chars
mode_matches mode = (leb 1 (count_chars mode) && leb (count_chars mode) 32) && mode_chars mode

unfoldable pub validate_mode : String → Option Invalid
validate_mode mode = if not (mode_matches mode) then some invalid_mode else none

abbrev pub first_error : Option Invalid → Option Invalid → Option Invalid
first_error (some e) _ = some e
first_error none next = next

unfoldable pub validate_join : String → ℤ → Option Invalid
validate_join mode level = first_error (validate_mode mode) (validate_level level)

unfoldable pub abs : ℤ → ℤ
abs x = if ltb_ℤ x (pos 0) then pos 0 -ℤ x else x

-- The level distance |candidate.Level - w.Level|.
abbrev pub distance : Player → Player → ℤ
distance candidate w = abs (candidate.level -ℤ w.level)

unfoldable pub is_better : Player → Player → Player → Bool
is_better challenger current candidate =
    let diff_c = distance candidate challenger in
    let diff_b = distance candidate current in
    if not (eqb_ℤ diff_c diff_b)
    then ltb_ℤ diff_c diff_b
    else if not (challenger.enqueued_at == current.enqueued_at)
    then ltb challenger.enqueued_at current.enqueued_at
    else ltb challenger.user_id current.user_id

-- The body of both loops: `best` after the player `w` passed the loop's tests.
abbrev pub better_of : Player → Player → Option Player → Option Player
better_of candidate w none = some w
better_of candidate w (some best) = if is_better w best candidate then some w else some best

unfoldable pub nearest_within_from : Player → ℤ → Option Player → List Player → Option Player
nearest_within_from candidate max_dist best [] = best
nearest_within_from candidate max_dist best (w ∷ ws) =
    nearest_within_from candidate max_dist
      (if w.user_id == candidate.user_id
        then best
        else if ltb_ℤ max_dist (distance candidate w)
        then best
        else better_of candidate w best)
      ws

unfoldable pub nearest_within_distance : Player → List Player → ℤ → Option Player
unfolding nearest_within_from
nearest_within_distance candidate waiting max_dist =
    nearest_within_from candidate max_dist none waiting

unfoldable pub nearest_regardless_from : Player → Option Player → List Player → Option Player
nearest_regardless_from candidate best [] = best
nearest_regardless_from candidate best (w ∷ ws) =
    nearest_regardless_from candidate
      (if w.user_id == candidate.user_id then best else better_of candidate w best) ws

unfoldable pub nearest_regardless : Player → List Player → Option Player
unfolding nearest_regardless_from
nearest_regardless candidate waiting = nearest_regardless_from candidate none waiting

unfoldable pub past_fallback_deadline : ℕ → ℕ → ℤ → Bool
past_fallback_deadline now enqueued_at fallback_after = leb_ℤ fallback_after (sub_ℕ now enqueued_at)
