-- ===== src/Signaling/Verdicts.antt =====
-- Who wins, and what a departure leaves behind: services/signaling/internal/api/service/
-- signaling_service.go.
use full.Base.{
  ap, ℕ, ◌≡◌, ◌≢◌, ◌≤◌, ◌<◌, refl, ◌⊎◌, inl, inr, true, false, none, some, List, [], ◌∷◌, ◌++◌,
  String, arith, nat_eq, string_eq, Option-cases,
}
use full.Base.Dict
use full.Base.Dict.{Dict, get-put, get-remove}
use full.Signaling.Hub.{
  exists, Hub, outcome, Report, arbitration, members, fire_ratings_call, collect_conns, peers_of,
  mode_ranked, since_ms, ApplyResult,
}
use full.Signaling.Match.{report_event, resolve_timeout, last_other}
use full.Signaling.Departure.{forfeit_calls, forfeit, leave}

-- The announcement of a decision, to all members.
abbrev pub Announced : String → ℕ → ℕ → Hub → Hub → Type 0
Announced room_id winner_id loser_id h after =
    ((arbitration room_id after).decided ≡ true)
    × (after.acts
        ≡ h.acts ++ outcome room_id (collect_conns (members room_id h)) winner_id loser_id ∷ [])

-- The verdict of a second report.
abbrev pub Judged : ℕ → ℕ → String → Hub → ℕ → ℕ → Type 0
Judged now u room_id h winner_id loser_id =
    (exists (Dict.get (members room_id h) u) ≡ true)
    × (first : Report) × ((arbitration room_id h).first_report ≡ some first)
    × ((arbitration room_id h).decided ≡ false)
    × (winner_id ≢ loser_id)
    × (((winner_id ≡ u) × (loser_id ≡ first.user_id) × (first.received_at ≤ now))
        ⊎ ((winner_id ≡ first.user_id) × (loser_id ≡ u) × (now < first.received_at)))
    × Announced room_id winner_id loser_id h (report_event now u room_id h).2

-- A report that decides a match comes from a member of the room, after the report of another
-- user, in a match that was not decided; of the two reports the earlier one loses, the first one
-- on a tie. The match is then decided, and the outcome is announced to all members.
pub report_event-Judged :
    (now u : ℕ) (room_id : String) (h : Hub) (winner_id loser_id : ℕ)
    → (report_event now u room_id h).1 ≡ some (winner_id, loser_id)
    → Judged now u room_id h winner_id loser_id
unfolding report_event
report_event-Judged now u room_id h winner_id loser_id e =
    elim (Option-cases (arbitration room_id h).first_report) [
      | inl n ↦ ground (arith, n, e)
      | inr (first, f) ↦ (
        ground (arith, f, e),
        first,
        f,
        ground (arith, f, e),
        ground (arith, f, e),
        ground (arith, f, e),
        ground (
          arith,
          f,
          e,
          get-put h.arbitrations room_id room_id
              (record (arbitration room_id h) { decided = true }),
          string_eq.same_iff room_id room_id,
        ),
      )
    ]

last_other_lem :
    (l w : ℕ) (ms : Dict ℕ ℕ) (v : ℕ)
    → ((last_other l w ms ≡ w) × ((v ≡ l) ⊎ (Dict.get ms v ≡ none)))
      ⊎ ((last_other l w ms ≢ l) × (exists (Dict.get ms (last_other l w ms)) ≡ true))
unfolding last_other Dict.get
last_other_lem l w [] v = inl (refl, inr refl)
last_other_lem l w ((u, c) ∷ ms) v =
    ground (arith, last_other_lem l w ms v, last_other_lem l u ms v)

-- The verdict of a timer; `v` is any user.
abbrev pub TimedOut : String → Hub → ℕ → ℕ → ℕ → Type 0
TimedOut room_id h winner_id loser_id v =
    ((arbitration room_id h).decided ≡ false)
    × (((winner_id ≡ 0) × ((v ≡ loser_id) ⊎ (Dict.get (members room_id h) v ≡ none)))
        ⊎ ((winner_id ≢ loser_id) × (exists (Dict.get (members room_id h) winner_id) ≡ true)))
    × Announced room_id winner_id loser_id h (resolve_timeout room_id h).1

-- A timer decides only a match that is undecided. The winner is a member other than the loser; or
-- it is user 0, where the room has no member but the loser.
pub resolve_timeout-TimedOut :
    (room_id : String) (h : Hub) (winner_id loser_id v : ℕ)
    → (resolve_timeout room_id h).0 ≡ some (winner_id, loser_id)
    → TimedOut room_id h winner_id loser_id v
unfolding resolve_timeout
resolve_timeout-TimedOut room_id h winner_id loser_id v e =
    elim (Option-cases (arbitration room_id h).first_report) [
      | inl n ↦ ground (arith, n, e)
      | inr (first, f) ↦ ground (
        arith,
        f,
        e,
        last_other_lem first.user_id 0 (members room_id h) v,
        get-put h.arbitrations room_id room_id (record (arbitration room_id h) { decided = true }),
        string_eq.same_iff room_id room_id,
      )
    ]

-- What the registry keeps of a room.
abbrev pub IsGone : String → Hub → Type 0
IsGone r h =
    (Dict.get h.rooms r ≡ none)
    × (Dict.get h.arbitrations r ≡ none)
    × (Dict.get h.room_modes r ≡ none)
    × (Dict.get h.battle_start r ≡ none)
    × (Dict.get h.room_codes r ≡ none)

abbrev pub IsSameRoom : String → Hub → Hub → Type 0
IsSameRoom r h k =
    (Dict.get h.rooms r ≡ Dict.get k.rooms r)
    × (Dict.get h.arbitrations r ≡ Dict.get k.arbitrations r)
    × (Dict.get h.room_modes r ≡ Dict.get k.room_modes r)
    × (Dict.get h.battle_start r ≡ Dict.get k.battle_start r)
    × (Dict.get h.room_codes r ≡ Dict.get k.room_codes r)

-- A departure from a room, whose id is not empty, leaves nothing of it in the registry, and no
-- other room changes.
pub leave-IsGone :
    (now u : ℕ) (room_id : String) (h : Hub) (r : String)
    → room_id ≢ ""
    → IsGone room_id (leave now u room_id h)
      × ((room_id ≡ r) ⊎ IsSameRoom r (leave now u room_id h) h)
unfolding leave
leave-IsGone now u room_id h r n = ground (
  arith,
  string_eq.same_iff room_id "",
  string_eq.same_iff room_id room_id,
  string_eq.same_iff room_id r,
  get-remove h.rooms room_id room_id,
  get-remove h.arbitrations room_id room_id,
  get-remove h.room_modes room_id room_id,
  get-remove h.battle_start room_id room_id,
  get-remove h.room_codes room_id room_id,
  get-remove h.rooms room_id r,
  get-remove h.arbitrations room_id r,
  get-remove h.room_modes room_id r,
  get-remove h.battle_start room_id r,
  get-remove h.room_codes room_id r,
)

++-nil : (xs : List ApplyResult) → xs ++ [] ≡ xs
++-nil [] = refl
++-nil (x ∷ xs) = ap (λ ys. x ∷ ys) (++-nil xs)

no_forfeit :
    (now u : ℕ) (room_id : String) (h : Hub) (peers : Dict ℕ ℕ)
    → forfeit_calls now room_id u h (forfeit peers true) ≡ []
no_forfeit now u room_id h [] = refl
no_forfeit now u room_id h ((v, c) ∷ ms) = refl

decided-calls :
    (now u : ℕ) (room_id : String) (h : Hub)
    → (arbitration room_id h).decided ≡ true
    → (leave now u room_id h).calls ≡ h.calls
unfolding leave
decided-calls now u room_id h d =
    ground (arith, no_forfeit now u room_id h (peers_of u (members room_id h)), ++-nil h.calls)

-- The result of a decided match of a ranked room, whose id is not empty, is posted to the ratings
-- service once, where the call runs before anyone leaves the room; a departure that runs between
-- the decision and the call adds no call, since the match is decided, and then the call is not
-- made: the result is lost.
pub fire_ratings_call-leave :
    (now u winner_id loser_id : ℕ) (room_id : String) (h : Hub)
    → room_id ≢ ""
    → (arbitration room_id h).decided ≡ true
    → Dict.get h.room_modes room_id ≡ some mode_ranked
    → ((fire_ratings_call now room_id winner_id loser_id h).calls
        ≡ h.calls
          ++ record {
            winner_id = winner_id;
            loser_id = loser_id;
            mode = mode_ranked;
            duration_ms = since_ms now (Dict.get h.battle_start room_id);
          }
            ∷ [])
      × ((fire_ratings_call now room_id winner_id loser_id (leave now u room_id h)).calls ≡ h.calls)
unfolding fire_ratings_call
fire_ratings_call-leave now u winner_id loser_id room_id h n d m =
    let gone = (leave-IsGone now u room_id h room_id n).0.2 in
    (rw m refl, rw gone (decided-calls now u room_id h d))
