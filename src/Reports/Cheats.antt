-- ===== src/Reports/Cheats.antt =====
-- services/reports/internal/api/repository/cheat_repository.go and service/reports_service.go: the
-- table `cheat_reports`, newest row first, and the cooldowns that are set.
use full.Base.{
  ℕ, suc, Bool, false, not, ◌&&◌, ◌||◌, List, [], ◌∷◌, ◌++◌, String, leb, ◌==◌, nat_eq, string_eq,
  if◌then◌else◌,
}
use full.Base.Db.{Db, Conn, Result, ok, err, raised, statement, ◌>>◌}

-- domain.CheatReport
pub record CheatReport : Type 0 where
  pub reporter_id : ℕ
  pub reported_id : ℕ
  pub match_id : String

-- ErrSelfReport
pub data Fault : Type 0 where
  self_report : Fault

-- A row of the same reporter and match.
unfoldable pub is_repeated : CheatReport → List CheatReport → Bool
is_repeated r [] = false
is_repeated r (s ∷ ss) =
    (s.reporter_id == r.reporter_id && s.match_id == r.match_id) || is_repeated r ss

abbrev pub inserted : CheatReport → List CheatReport → List CheatReport
inserted r ss = if is_repeated r ss then ss else r ∷ ss

-- UpsertCheatReport
unfoldable pub upsert_cheat_report : CheatReport → Db Fault (List CheatReport) (Unit {0})
upsert_cheat_report r = statement λ t. (tt, inserted r t)

abbrev pub has_match : List String → String → Bool
has_match [] m = false
has_match (n ∷ ns) m = n == m || has_match ns m

-- The matches of a user's reports, from the latest report on, without duplicates: `seen` so far,
-- at most `n` more.
unfoldable pub recent_matches : ℕ → List String → ℕ → List CheatReport → List String
recent_matches user_id seen n [] = []
recent_matches user_id seen ℕ.zero (r ∷ rs) = []
recent_matches user_id seen (suc n) (r ∷ rs) =
    let skipped = recent_matches user_id seen (suc n) rs in
    let taken = recent_matches user_id (r.match_id ∷ seen) n rs in
    if r.reported_id == user_id && not (has_match seen r.match_id)
    then r.match_id ∷ taken
    else skipped

-- The reports of a user in some matches.
unfoldable pub count_in : ℕ → List String → List CheatReport → ℕ
count_in user_id ms [] = 0
count_in user_id ms (r ∷ rs) =
    let rest = count_in user_id ms rs in
    if r.reported_id == user_id && has_match ms r.match_id then suc rest else rest

abbrev pub recent_count : ℕ → ℕ → List CheatReport → ℕ
recent_count user_id n t = count_in user_id (recent_matches user_id [] n t) t

-- CountRecentCheatReports
unfoldable pub count_recent : ℕ → ℕ → Db Fault (List CheatReport) ℕ
count_recent user_id n = statement λ t. (recent_count user_id n t, t)

-- The service's state: the cooldowns set, in order; a failure to set one is logged and dropped.
pub record World : Type 0 where
  pub conn : Conn (List CheatReport)
  pub cooldowns : List ℕ

abbrev pub last_n_matches : ℕ
last_n_matches = 10

abbrev pub threshold : ℕ
threshold = 5

unfoldable pub recorded : CheatReport → Db Fault (List CheatReport) ℕ
recorded r = do upsert_cheat_report r; count_recent r.reported_id last_n_matches

abbrev pub cooled :
    ℕ → List ℕ → Result Fault ℕ × Conn (List CheatReport) → Result Fault (Unit {0}) × World
cooled user_id cooldowns (err e, c) = (err e, record { conn = c; cooldowns = cooldowns })
cooled user_id cooldowns (ok count, c) = (
  ok tt,
  record {
    conn = c;
    cooldowns = (if leb threshold count then cooldowns ++ user_id ∷ [] else cooldowns);
  },
)

-- ReportCheat; a reporter id of 0 is unknown.
unfoldable pub report_cheat : CheatReport → World → Result Fault (Unit {0}) × World
report_cheat r w =
    let out = cooled r.reported_id w.cooldowns (recorded r w.conn) in
    if not (r.reporter_id == 0) && r.reporter_id == r.reported_id
    then (err (raised self_report), w)
    else out
