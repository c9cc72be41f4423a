-- ===== src/Ratings/Level.antt =====
-- services/ratings/internal/api/domain/rating.go: `LevelForELO`.
use full.Base.{ℕ, ◌≤◌, ◌≡◌, arith, List, [], ◌∷◌, ◌+◌, if◌then◌else◌}
use full.Base.Int.{ℤ, pos, ◌≤ℤ◌, leb_ℤ, ltb_ℤ}

unfoldable pub level_for_elo : ℤ → ℕ
level_for_elo elo =
    if leb_ℤ elo (pos 500)
    then 1
    else if leb_ℤ elo (pos 700)
    then 2
    else if leb_ℤ elo (pos 900)
    then 3
    else if leb_ℤ elo (pos 1100)
    then 4
    else if leb_ℤ elo (pos 1300)
    then 5
    else if leb_ℤ elo (pos 1500)
    then 6
    else if leb_ℤ elo (pos 1700)
    then 7
    else if leb_ℤ elo (pos 1900)
    then 8
    else if leb_ℤ elo (pos 2000)
    then 9
    else 10

-- The upper ends of the bands L1 to L9.
abbrev pub band_ends : List ℤ
band_ends =
    pos 500
    ∷ pos 700
    ∷ pos 900
    ∷ pos 1100
    ∷ pos 1300
    ∷ pos 1500
    ∷ pos 1700
    ∷ pos 1900
    ∷ pos 2000
    ∷ []

-- How many band ends a rating has passed.
abbrev pub passed : ℤ → List ℤ → ℕ
passed elo [] = 0
passed elo (b ∷ bs) = (if ltb_ℤ b elo then 1 else 0) + passed elo bs

-- The level is 1 and one more for each band end that the rating exceeds.
pub level-passed : (elo : ℤ) → level_for_elo elo ≡ 1 + passed elo band_ends
unfolding level_for_elo
level-passed elo = ground arith

-- A level is between 1 and 10.
pub level_range : (elo : ℤ) → (1 ≤ level_for_elo elo) × (level_for_elo elo ≤ 10)
unfolding level_for_elo
level_range elo = ground arith

-- A higher rating never has a lower level.
pub level_mono : (a b : ℤ) → a ≤ℤ b → level_for_elo a ≤ level_for_elo b
unfolding level_for_elo
level_mono a b h = ground arith
