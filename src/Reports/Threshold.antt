-- ===== src/Reports/Threshold.antt =====
-- When a cheat report brings a cooldown: services/reports/internal/api/service/reports_service.go.
use full.Base.{
  ℕ, suc, ◌≡◌, ◌≢◌, refl, ap, ◌⊎◌, inl, inr, List, [], ◌∷◌, ◌++◌, String, arith, map, leb, ◌==◌,
  nat_eq, string_eq, if◌then◌else◌, Bool-cases, filter, take, length,
}
use full.Base.Db.{Result, ok, err, unavailable, raised, statement, ◌>>=◌}
use full.Reports.Cheats.{
  CheatReport, Fault, inserted, upsert_cheat_report, has_match, recent_matches, count_in,
  count_recent, World, last_n_matches, recorded, report_cheat,
}

-- A list without repetitions, each entry where it comes first; but those seen.
abbrev pub distinct : List String → List String → List String
distinct seen [] = []
distinct seen (m ∷ ms) =
    let new = m ∷ distinct (m ∷ seen) ms in
    let old = distinct seen ms in if has_match seen m then old else new

abbrev pub against : ℕ → List CheatReport → List CheatReport
against user_id rs = filter (λ r. r.reported_id == user_id) rs

-- The ten matches in which a user was reported last, the latest report first.
abbrev pub last_reported : ℕ → List CheatReport → List String
last_reported user_id rs = take 10 (distinct [] (map (λ r. r.match_id) (against user_id rs)))

-- The reports against a user in those matches.
abbrev pub accusations : ℕ → List CheatReport → List CheatReport
accusations user_id rs =
    filter (λ r. has_match (last_reported user_id rs) r.match_id) (against user_id rs)

recent_matches_lem :
    (u n : ℕ) (seen : List String) (rs : List CheatReport)
    → recent_matches u seen n rs
      ≡ take n (distinct seen (map (λ (r : CheatReport). r.match_id) (against u rs)))
unfolding recent_matches
recent_matches_lem u ℕ.zero seen [] = refl
recent_matches_lem u (suc n) seen [] = refl
recent_matches_lem u ℕ.zero seen (r ∷ rs) = refl
recent_matches_lem u (suc n) seen (r ∷ rs) = elim (Bool-cases (r.reported_id == u)) [
  | inl mine ↦ elim (Bool-cases (has_match seen r.match_id)) [
    | inl old ↦ rw (mine, old) (recent_matches_lem u (suc n) seen rs)
    | inr new ↦
        rw (mine, new) (ap (λ ms. r.match_id ∷ ms) (recent_matches_lem u n (r.match_id ∷ seen) rs))
  ]
  | inr other ↦ rw other (recent_matches_lem u (suc n) seen rs)
]

count_in_lem :
    (u : ℕ) (ms : List String) (rs : List CheatReport)
    → count_in u ms rs ≡ length (filter (λ r. has_match ms r.match_id) (against u rs))
unfolding count_in
count_in_lem u ms [] = refl
count_in_lem u ms (r ∷ rs) = ground (arith, count_in_lem u ms rs)

recent_count_lem :
    (u : ℕ) (rs : List CheatReport)
    → count_in u (recent_matches u [] last_n_matches rs) rs ≡ length (accusations u rs)
recent_count_lem u rs = rw (recent_matches_lem u 10 [] rs) (count_in_lem u (last_reported u rs) rs)

-- What a report leaves: a report of oneself is refused and changes nothing; another is recorded
-- once for its reporter and match; and the reported user is cooled down exactly from five
-- accusations on.
abbrev pub Reported : CheatReport → World → Result Fault (Unit {0}) → World → Type 0
Reported r w (ok _) after =
    ((r.reporter_id ≡ 0) ⊎ (r.reporter_id ≢ r.reported_id))
    × (after.conn.tables ≡ inserted r w.conn.tables)
    × (after.cooldowns ≡ (
        if leb 5 (length (accusations r.reported_id after.conn.tables))
        then w.cooldowns ++ r.reported_id ∷ []
        else w.cooldowns))
Reported r w (err unavailable) after = after.cooldowns ≡ w.cooldowns
Reported r w (err (raised e)) after = (r.reporter_id ≡ r.reported_id) × (after ≡ w)

-- A report that answers is recorded once for its reporter and match, and is none of oneself where
-- the reporter is known; it sets a cooldown of the reported user exactly where five reports or more
-- are against that user in the ten matches that were reported last, not counting matches without a
-- report. A report of oneself changes nothing, and a failure of the database sets no cooldown.
pub report_cheat-Reported :
    (r : CheatReport) (w : World) → Reported r w (report_cheat r w).0 (report_cheat r w).1
unfolding report_cheat recorded upsert_cheat_report count_recent statement ◌>>=◌
report_cheat-Reported r w =
    ground (arith, recent_count_lem r.reported_id (inserted r w.conn.tables))
