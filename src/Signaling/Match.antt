-- ===== src/Signaling/Match.antt =====
-- Deciding a match: ReportEvent and resolveTimeout of services/signaling/internal/api/service/
-- signaling_service.go, up to the release of the mutex. The outcome is sent right after it.
use full.Base.{
  ℕ, true, not, Option, none, some, [], ◌∷◌, ◌++◌, String, ltb, ◌==◌, nat_eq, string_eq,
  if◌then◌else◌,
}
use full.Base.Dict
use full.Base.Dict.{Dict}
use full.Signaling.Hub.{
  outcome, Fault, not_member, match_finished, Report, Arbitration, Hub, exists, members,
  arbitration, collect_conns,
}

-- A decided match, and its winner and loser.
abbrev pub decide : String → Arbitration → ℕ → ℕ → Hub → Option (ℕ × ℕ) × Hub
decide room_id arb winner_id loser_id h = (
  some (winner_id, loser_id),
  record h {
    arbitrations = Dict.put h.arbitrations room_id (record arb { decided = true });
    acts = h.acts ++ outcome room_id (collect_conns (members room_id h)) winner_id loser_id ∷ [];
  },
)

module _ (now : ℕ) (user_id : ℕ) (room_id : String) where
  -- The second report: the earlier one loses.
  abbrev pub judged : Option Report → Arbitration → Hub → Option (ℕ × ℕ) × Hub
  judged none arb h = (
    none,
    record h {
      arbitrations =
          Dict.put h.arbitrations room_id
            (record arb { first_report = some (record { user_id = user_id; received_at = now }) });
    },
  )
  judged (some first) arb h =
      if user_id == first.user_id
      then (none, h)
      else if ltb now first.received_at
      then decide room_id arb first.user_id user_id h
      else decide room_id arb user_id first.user_id h

  abbrev pub arbitrated : Arbitration → Hub → Option Fault × Option (ℕ × ℕ) × Hub
  arbitrated arb h =
      let (decision, after) = judged arb.first_report arb h in
      if arb.decided then (some match_finished, none, h) else (none, decision, after)

  -- ReportEvent up to the release of the mutex.
  unfoldable pub report_event : Hub → Option Fault × Option (ℕ × ℕ) × Hub
  report_event h =
      if not (exists (Dict.get (members room_id h) user_id))
      then (some not_member, none, h)
      else arbitrated (arbitration room_id h) h

-- The last other member; 0 where there is none.
unfoldable pub last_other : ℕ → ℕ → Dict ℕ ℕ → ℕ
last_other loser_id winner_id [] = winner_id
last_other loser_id winner_id ((u, conn) ∷ ms) =
    last_other loser_id (if u == loser_id then winner_id else u) ms

abbrev pub timed_out : String → Option Report → Arbitration → Hub → Option (ℕ × ℕ) × Hub
timed_out room_id none arb h = (none, h)
timed_out room_id (some first) arb h =
    decide room_id arb (last_other first.user_id 0 (members room_id h)) first.user_id h

-- resolveTimeout up to the release of the mutex.
unfoldable pub resolve_timeout : String → Hub → Option (ℕ × ℕ) × Hub
resolve_timeout room_id h =
    let arb = arbitration room_id h in
    if arb.decided then (none, h) else timed_out room_id arb.first_report arb h
