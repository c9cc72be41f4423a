-- ===== src/Koth/Credits.antt =====
-- services/koth/internal/api/service: hill_service.go and reset_service.go. A call of the points
-- or media client (points_client.go, media_client.go: HTTP requests) is an entry of `calls`; the
-- failure of such a call is logged and dropped, so only the calls made are kept.
use full.Base.{ℕ, Option, none, some, List, [], ◌∷◌, ◌++◌, String, ◌==◌, string_eq, if◌then◌else◌}
use full.Base.Int.{ℤ, pos}
use full.Base.Db.{Conn, Result, ok, err, Error, unavailable, raised}
use full.Base.Text.{◌+++◌, format_int}
use full.Koth.Clock.{HillType, daily, monthly, Time, period_start, format_day}
use full.Koth.Hill
use full.Koth.Hill.{KingReign, ChallengeOutcome, Tables, parse_hill_type}

pub record CreditRequest : Type 0 where
  pub user_id : ℕ
  pub reason : String
  pub ref_id : String
  pub delta : ℤ

pub data Call : Type 0 where
  credit : CreditRequest → Call
  expire_king_clip : String → Call

-- ErrInvalidHillType, or the repository's error.
pub data Fault : Type 0 where
  invalid_hill_type : Fault
  repository : Hill.Fault → Fault

pub record World : Type 0 where
  pub conn : Conn Tables
  pub calls : List Call

abbrev pub in_service : Error Hill.Fault → Error Fault
in_service unavailable = unavailable
in_service (raised e) = raised (repository e)

-- creditWin
unfoldable pub credit_win : ℤ → ℕ → KingReign → List Call
credit_win win_amount user_id king =
    credit (record {
      user_id = user_id;
      reason = "koth_win";
      ref_id = format_int king.id;
      delta = win_amount;
    })
    ∷ []

abbrev pub challenged :
    ℤ
    → ℕ
    → List Call
    → Result Hill.Fault ChallengeOutcome × Conn Tables
    → Result Fault ChallengeOutcome × World
challenged win_amount user_id calls (err e, c) =
    (err (in_service e), record { conn = c; calls = calls })
challenged win_amount user_id calls (ok outcome, c) = (
  ok outcome,
  record {
    conn = c;
    calls = if outcome.won then calls ++ credit_win win_amount user_id outcome.king else calls;
  },
)

abbrev parsed :
    {A : Type 0}
    → Option HillType
    → (HillType → World → Result Fault A × World)
    → World
    → Result Fault A × World
parsed none k w = (err (raised invalid_hill_type), w)
parsed (some h) k w = k h w

-- hillService.Challenge
unfoldable pub challenge :
    ℤ → String → ℕ → ℤ → String → World → Result Fault ChallengeOutcome × World
challenge win_amount hill_type user_id survived_ms new_clip_id =
    parsed (parse_hill_type hill_type) λ h w.
      challenged win_amount user_id w.calls
        (Hill.challenge h user_id survived_ms new_clip_id w.conn)

abbrev crown_read :
    List Call → Result Hill.Fault KingReign × Conn Tables → Result Fault KingReign × World
crown_read calls (err e, c) = (err (in_service e), record { conn = c; calls = calls })
crown_read calls (ok king, c) = (ok king, record { conn = c; calls = calls })

-- hillService.CurrentKing
unfoldable pub current_king : String → World → Result Fault KingReign × World
current_king hill_type =
    parsed (parse_hill_type hill_type) λ h w. crown_read w.calls (Hill.scan_current_king h w.conn)

abbrev pub hill_name : HillType → String
hill_name daily = "daily"
hill_name monthly = "monthly"

abbrev pub final_reason : HillType → String
final_reason daily = "koth_daily_final"
final_reason monthly = "koth_monthly_final"

-- The calls for a closed reign: the reward, and the clip's expiry where there is a clip.
unfoldable pub closing_calls : HillType → Time → KingReign → List Call
closing_calls h start closed =
    credit (record {
      user_id = closed.user_id;
      reason = final_reason h;
      ref_id = hill_name h +++ ":" +++ format_day start;
      delta = pos 0;
    })
    ∷ (if closed.clip_id == "" then [] else expire_king_clip closed.clip_id ∷ [])

abbrev pub reset :
    HillType
    → Time
    → List Call
    → Result Hill.Fault (Option KingReign) × Conn Tables
    → Result Fault (Unit {0}) × World
reset h start calls (err e, c) = (err (in_service e), record { conn = c; calls = calls })
reset h start calls (ok none, c) = (ok tt, record { conn = c; calls = calls })
reset h start calls (ok (some closed), c) =
    (ok tt, record { conn = c; calls = calls ++ closing_calls h start closed })

-- resetService.CloseStaleReign; `now` is what the clock shows.
unfoldable pub close_stale_reign : HillType → Time → World → Result Fault (Unit {0}) × World
close_stale_reign h now w =
    let start = period_start h now in reset h start w.calls (Hill.close_if_stale h start w.conn)
