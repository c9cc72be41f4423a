-- ===== src/Koth/Hill.antt =====
-- services/koth/internal/api/domain/hill.go and repository/hill_repository.go: the crowns, over
-- the table `king_reigns`.
use full.Base.{
  ℕ, suc, Bool, true, false, not, ◌&&◌, Option, none, some, List, [], ◌∷◌, String, ◌==◌, nat_eq,
  string_eq, if◌then◌else◌,
}
use full.Base.Int.{ℤ, ltb_ℤ}
use full.Base.Db.{Db, pure, raise, statement, transaction, ◌>>=◌, ◌>>◌}
use full.Koth.Clock.{HillType, daily, monthly, Time, before}

-- ParseHillType; none is ErrInvalidHillType.
unfoldable pub parse_hill_type : String → Option HillType
parse_hill_type raw =
    if raw == "daily" then some daily else if raw == "monthly" then some monthly else none

abbrev pub same_hill : HillType → HillType → Bool
same_hill daily daily = true
same_hill monthly monthly = true
same_hill _ _ = false

-- domain.KingReign, and a row of king_reigns; a NULL clip id reads as "".
pub record KingReign : Type 0 where
  pub id : ℕ
  pub hill_type : HillType
  pub user_id : ℕ
  pub clip_id : String
  pub blink_ts_ms : ℤ
  pub started_at : Time
  pub ended_at : Option Time

-- `now` is what now() reads in the transaction.
pub record Tables : Type 0 where
  pub reigns : List KingReign
  pub next_id : ℕ
  pub now : Time

-- domain.ChallengeOutcome
pub record ChallengeOutcome : Type 0 where
  pub won : Bool
  pub king : KingReign

-- ErrHillNotFound; a second current reign violates the unique index
-- king_reigns_hill_type_current_key.
pub data Fault : Type 0 where
  hill_not_found not_unique : Fault

abbrev pub is_open : Option Time → Bool
is_open none = true
is_open (some t) = false

abbrev pub is_current : HillType → KingReign → Bool
is_current h k = same_hill k.hill_type h && is_open k.ended_at

-- currentKingSQL
unfoldable pub current : HillType → List KingReign → Option KingReign
current h [] = none
current h (k ∷ ks) = if is_current h k then some k else current h ks

abbrev pub or_not_found : Option KingReign → Db Fault Tables KingReign
or_not_found none = raise hill_not_found
or_not_found (some k) = pure k

unfoldable pub scan_current_king : HillType → Db Fault Tables KingReign
scan_current_king h = do found ← statement (λ t. (current h t.reigns, t)); or_not_found found

-- closeReignSQL
unfoldable pub close_row : ℕ → Time → List KingReign → List KingReign
close_row id now [] = []
close_row id now (k ∷ ks) =
    (if k.id == id then record k { ended_at = some now } else k) ∷ close_row id now ks

unfoldable pub close_reign : ℕ → Db Fault Tables (Unit {0})
close_reign id = statement λ t. (tt, record t { reigns = close_row id t.now t.reigns })

abbrev pub new_reign : HillType → ℕ → String → ℤ → Tables → KingReign
new_reign h user_id clip_id survived_ms t = record {
  id = t.next_id;
  hill_type = h;
  user_id = user_id;
  clip_id = clip_id;
  blink_ts_ms = survived_ms;
  started_at = t.now;
  ended_at = none;
}

abbrev pub insert_reign : Option KingReign → KingReign → Tables → Option KingReign × Tables
insert_reign (some other) k t = (none, t)
insert_reign none k t = (some k, record t { reigns = k ∷ t.reigns; next_id = suc t.next_id })

abbrev pub or_not_unique : Option KingReign → Db Fault Tables KingReign
or_not_unique none = raise not_unique
or_not_unique (some k) = pure k

-- openReignSQL, under the unique index of current reigns.
unfoldable pub open_reign : HillType → ℕ → String → ℤ → Db Fault Tables KingReign
unfolding current
open_reign h user_id clip_id survived_ms = do
  made ←
      statement λ t. insert_reign (current h t.reigns) (new_reign h user_id clip_id survived_ms t) t
  or_not_unique made

-- lockHillSQL: the advisory lock, which orders the transactions of one hill and changes no table.
unfoldable pub lock_hill : Db Fault Tables (Unit {0})
lock_hill = statement λ t. (tt, t)

abbrev pub take_crown : HillType → ℕ → ℤ → String → KingReign → Db Fault Tables ChallengeOutcome
take_crown h user_id survived_ms new_clip_id king = do
  close_reign king.id
  new_king ← open_reign h user_id new_clip_id survived_ms
  pure (record { won = true; king = new_king })

unfoldable pub challenge_tx : HillType → ℕ → ℤ → String → Db Fault Tables ChallengeOutcome
challenge_tx h user_id survived_ms new_clip_id = do
  lock_hill
  king ← scan_current_king h
  if ltb_ℤ survived_ms king.blink_ts_ms
      then pure (record { won = false; king = king })
      else take_crown h user_id survived_ms new_clip_id king

unfoldable pub challenge : HillType → ℕ → ℤ → String → Db Fault Tables ChallengeOutcome
challenge h user_id survived_ms new_clip_id =
    transaction (challenge_tx h user_id survived_ms new_clip_id)

abbrev pub close_found : Time → Option KingReign → Db Fault Tables (Option KingReign)
close_found period_start none = pure none
close_found period_start (some king) =
    if not (before king.started_at period_start)
    then pure none
    else (do close_reign king.id; pure (some king))

-- The statements of CloseIfStale: a missing reign is no error here.
unfoldable pub close_if_stale_tx : HillType → Time → Db Fault Tables (Option KingReign)
close_if_stale_tx h period_start = do
  lock_hill
  found ← statement (λ t. (current h t.reigns, t))
  close_found period_start found

unfoldable pub close_if_stale : HillType → Time → Db Fault Tables (Option KingReign)
close_if_stale h period_start = transaction (close_if_stale_tx h period_start)
