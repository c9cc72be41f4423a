-- ===== src/Koth/Crown.antt =====
-- What a challenge and a reset do to the crowns: services/koth/internal/api/repository/
-- hill_repository.go, with the failures of the connection set apart.
use full.Base.{
  ℕ, suc, ◌+◌, ◌≡◌, ◌≢◌, ◌<◌, ◌≤◌, refl, true, false, none, some, List, [], ◌∷◌, arith, nat_eq,
  if◌then◌else◌,
}
use full.Koth.Clock.{HillType, Time}
use full.Koth.Hill.{KingReign, Tables, same_hill, is_current, current, close_row}

-- How many current reigns a hill has.
abbrev pub currents : HillType → List KingReign → ℕ
currents h [] = 0
currents h (k ∷ ks) = (if is_current h k then 1 else 0) + currents h ks

-- The ids of the rows, each below the next id and none twice.
abbrev pub AllBelow : ℕ → List KingReign → Type 0
AllBelow n [] = Unit
AllBelow n (k ∷ ks) = (k.id < n) × AllBelow n ks

abbrev pub IsFresh : ℕ → List KingReign → Type 0
IsFresh i [] = Unit
IsFresh i (k ∷ ks) = (i ≢ k.id) × IsFresh i ks

abbrev pub IsKeyed : List KingReign → Type 0
IsKeyed [] = Unit
IsKeyed (k ∷ ks) = IsFresh k.id ks × IsKeyed ks

-- The table's constraints: the primary key, and at most one current reign of a hill.
pub record IsValid (t : Tables) : Type 0 where
  pub below : AllBelow t.next_id t.reigns
  pub keyed : IsKeyed t.reigns
  pub single : (h : HillType) → currents h t.reigns ≤ 1

pub AllBelow-IsFresh : (n : ℕ) (ks : List KingReign) → AllBelow n ks → IsFresh n ks
AllBelow-IsFresh n [] b = tt
AllBelow-IsFresh n (k ∷ ks) b = ground (arith, AllBelow-IsFresh n ks b.1)

pub AllBelow-suc : (n : ℕ) (ks : List KingReign) → AllBelow n ks → AllBelow (suc n) ks
AllBelow-suc n [] b = tt
AllBelow-suc n (k ∷ ks) b = ground (arith, AllBelow-suc n ks b.1)

pub current-none : (h : HillType) (ks : List KingReign) → currents h ks ≡ 0 → current h ks ≡ none
unfolding current
current-none h [] e = refl
current-none h (k ∷ ks) e = ground (arith, current-none h ks)

pub none-currents : (h : HillType) (ks : List KingReign) → current h ks ≡ none → currents h ks ≡ 0
unfolding current
none-currents h [] e = refl
none-currents h (k ∷ ks) e = ground (arith, none-currents h ks)

current-is_current :
    (h : HillType) (ks : List KingReign) (k : KingReign)
    → current h ks ≡ some k
    → is_current h k ≡ true
unfolding current
current-is_current h [] k e = cc
current-is_current h (j ∷ ks) k e = ground (arith, current-is_current h ks k)

-- The current reign is a row, so its id is no new one.
current-mem :
    (h : HillType) (ks : List KingReign) (k : KingReign) (i : ℕ)
    → current h ks ≡ some k
    → IsFresh i ks
    → i ≢ k.id
unfolding current
current-mem h [] k i e f = cc
current-mem h (j ∷ ks) k i e f = ground (arith, current-mem h ks k i)

module _ (id : ℕ) (now : Time) where
  -- Closing a row adds no current reign, and keeps the keys.
  pub currents-close_row :
      (h : HillType) (ks : List KingReign) → currents h (close_row id now ks) ≤ currents h ks
  unfolding close_row
  currents-close_row h [] = omega arith
  currents-close_row h (j ∷ ks) = ground (arith, currents-close_row h ks)

  pub close_row-AllBelow :
      (n : ℕ) (ks : List KingReign) → AllBelow n ks → AllBelow n (close_row id now ks)
  unfolding close_row
  close_row-AllBelow n [] b = tt
  close_row-AllBelow n (j ∷ ks) b = ground (arith, close_row-AllBelow n ks b.1)

  pub close_row-IsFresh :
      (i : ℕ) (ks : List KingReign) → IsFresh i ks → IsFresh i (close_row id now ks)
  unfolding close_row
  close_row-IsFresh i [] b = tt
  close_row-IsFresh i (j ∷ ks) b = ground (arith, close_row-IsFresh i ks b.1)

  pub close_row-IsKeyed : (ks : List KingReign) → IsKeyed ks → IsKeyed (close_row id now ks)
  unfolding close_row
  close_row-IsKeyed [] b = tt
  close_row-IsKeyed (j ∷ ks) b =
      ground (arith, close_row-IsFresh j.id ks b.0, close_row-IsKeyed ks b.1)

  close_row_fresh : (ks : List KingReign) → IsFresh id ks → close_row id now ks ≡ ks
  unfolding close_row
  close_row_fresh [] f = refl
  close_row_fresh (j ∷ ks) f = ground (arith, close_row_fresh ks f.1)

-- After closing the current reign its hill has none.
pub currents-close_row_self :
    (h : HillType) (ks : List KingReign) (k : KingReign) (now : Time)
    → currents h ks ≤ 1
    → current h ks ≡ some k
    → currents h (close_row k.id now ks) ≡ 0
unfolding current close_row
currents-close_row_self h [] k now r e = cc
currents-close_row_self h (j ∷ ks) k now r e =
    ground (arith, currents-close_row_self h ks k now, currents-close_row k.id now h ks)

-- The other hill's current reign stays.
pub current-close_row_other :
    (h g : HillType) (ks : List KingReign) (k : KingReign) (now : Time)
    → IsKeyed ks
    → current h ks ≡ some k
    → same_hill h g ≡ false
    → current g (close_row k.id now ks) ≡ current g ks
unfolding current close_row
current-close_row_other h g [] k now y e n = refl
current-close_row_other h g (j ∷ ks) k now y e n = ground (
  arith,
  current-close_row_other h g ks k now y.1,
  close_row_fresh k.id now ks,
  current-mem h ks k j.id,
)
