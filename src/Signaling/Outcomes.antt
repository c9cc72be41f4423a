-- ===== src/Signaling/Outcomes.antt =====
-- How often a match is decided: sequences of the mutex sections of
-- services/signaling/internal/api/service/signaling_service.go.
use full.Base.{
  ℕ, ◌+◌, ◌≡◌, ◌≤◌, refl, ◌⊎◌, inl, inr, Bool, true, false, not, ◌&&◌, Option, none, some, List, [],
  ◌∷◌, ◌++◌, String, map, arith, ltb, ◌==◌, nat_eq, string_eq, if◌then◌else◌, Bool-cases,
}
use full.Base.Dict
use full.Base.Dict.{Dict, get-put, get-remove}
use full.Signaling.Hub.{
  exists, Hub, Act, outcome, relayed, Report, arbitration, members, register_conn,
  fire_ratings_call, collect_conns, peers_of,
}
use full.Signaling.Match.{decide, judged, timed_out, report_event, resolve_timeout, last_other}
use full.Signaling.Departure.{relay, relay_to, farewells, forfeit, forfeit_acts, leave}

-- The mutex sections, in the order in which they run.
pub data Step : Type 0 where
  register : ℕ → String → String → ℕ → ℕ → Step
  report : ℕ → ℕ → String → Step
  time_out : String → Step
  fire : ℕ → String → ℕ → ℕ → Step
  frame : ℕ → String → String → Step
  depart : ℕ → ℕ → String → Step

unfoldable pub step : Step → Hub → Hub
step (register now room_id mode user_id conn) h = register_conn now room_id mode user_id conn h
step (report now user_id room_id) h = (report_event now user_id room_id h).2
step (time_out room_id) h = (resolve_timeout room_id h).1
step (fire now room_id winner_id loser_id) h = fire_ratings_call now room_id winner_id loser_id h
step (frame user_id room_id raw) h = (relay user_id room_id raw h).1
step (depart now user_id room_id) h = leave now user_id room_id h

unfoldable pub steps : List Step → Hub → Hub
steps [] h = h
steps (s ∷ ss) h = steps ss (step s h)

abbrev pub departs : String → Step → Bool
departs r (depart now user_id room_id) = room_id == r
departs r _ = false

abbrev pub stays : String → List Step → Bool
stays r [] = true
stays r (s ∷ ss) = not (departs r s) && stays r ss

abbrev pub is_outcome : String → Act → Bool
is_outcome r (outcome room_id conns winner_id loser_id) = room_id == r
is_outcome r _ = false

-- The outcomes announced for a room.
unfoldable pub outcomes : String → List Act → ℕ
outcomes r [] = 0
outcomes r (a ∷ acts) = (if is_outcome r a then 1 else 0) + outcomes r acts

pub outcomes-++ : (r : String) (a b : List Act) → outcomes r (a ++ b) ≡ outcomes r a + outcomes r b
unfolding outcomes
outcomes-++ r [] b = omega arith
outcomes-++ r (x ∷ a) b = ground (arith, outcomes-++ r a b)

outcomes-farewells : (r : String) (cs : List ℕ) → outcomes r (farewells cs) ≡ 0
unfolding outcomes farewells
outcomes-farewells r [] = refl
outcomes-farewells r (c ∷ cs) = ground (arith, outcomes-farewells r cs)

outcomes-relayed : (r raw : String) (cs : List ℕ) → outcomes r (map (λ c. relayed c raw) cs) ≡ 0
unfolding outcomes
outcomes-relayed r raw [] = refl
outcomes-relayed r raw (c ∷ cs) = ground (arith, outcomes-relayed r raw cs)

-- The outcomes that a room may still see.
abbrev pub undecided : String → Hub → ℕ
undecided r h = if (arbitration r h).decided then 0 else 1

abbrev pub budget : String → Hub → ℕ
budget r h = outcomes r h.acts + undecided r h

decide-budget :
    (r room_id : String) (w l : ℕ) (h : Hub)
    → (arbitration room_id h).decided ≡ false
    → budget r (decide room_id (arbitration room_id h) w l h).1 ≤ budget r h
unfolding outcomes
decide-budget r room_id w l h e = ground (
  arith,
  outcomes-++ r h.acts (outcome room_id (collect_conns (members room_id h)) w l ∷ []),
  string_eq.same_iff room_id r,
  get-put h.arbitrations room_id r (record (arbitration room_id h) { decided = true }),
)

judged-budget :
    (r : String) (now u : ℕ) (room_id : String) (o : Option Report) (h : Hub)
    → (arbitration room_id h).decided ≡ false
    → budget r (judged now u room_id o (arbitration room_id h) h).1 ≤ budget r h
judged-budget r now u room_id none h e = ground (
  arith,
  string_eq.same_iff room_id r,
  get-put h.arbitrations room_id r (record (arbitration room_id h) {
    first_report = some (record { user_id = u; received_at = now });
  }),
)
judged-budget r now u room_id (some first) h e = elim (Bool-cases (u == first.user_id)) [
  | inl same ↦ rw same (omega arith)
  | inr other ↦ elim (Bool-cases (ltb now first.received_at)) [
    | inl early ↦ rw (other, early) (decide-budget r room_id first.user_id u h e)
    | inr late ↦ rw (other, late) (decide-budget r room_id u first.user_id h e)
  ]
]

report-budget :
    (r : String) (now u : ℕ) (room_id : String) (h : Hub)
    → budget r (report_event now u room_id h).2 ≤ budget r h
unfolding report_event
report-budget r now u room_id h = elim (Bool-cases (exists (Dict.get (members room_id h) u))) [
  | inl here ↦ elim (Bool-cases (arbitration room_id h).decided) [
    | inl done ↦ rw (here, done) (omega arith)
    | inr not_yet ↦
        rw (here, not_yet)
          (judged-budget r now u room_id (arbitration room_id h).first_report h not_yet)
  ]
  | inr gone ↦ rw gone (omega arith)
]

timed_out-budget :
    (r room_id : String) (o : Option Report) (h : Hub)
    → (arbitration room_id h).decided ≡ false
    → budget r (timed_out room_id o (arbitration room_id h) h).1 ≤ budget r h
timed_out-budget r room_id none h e = omega arith
timed_out-budget r room_id (some first) h e =
    decide-budget r room_id (last_other first.user_id 0 (members room_id h)) first.user_id h e

resolve-budget :
    (r room_id : String) (h : Hub) → budget r (resolve_timeout room_id h).1 ≤ budget r h
unfolding resolve_timeout
resolve-budget r room_id h = elim (Bool-cases (arbitration room_id h).decided) [
  | inl done ↦ rw done (omega arith)
  | inr not_yet ↦
      rw not_yet (timed_out-budget r room_id (arbitration room_id h).first_report h not_yet)
]

outcomes-forfeit_acts :
    (r room_id : String) (u : ℕ) (peers : Dict ℕ ℕ) (decided : Bool)
    → outcomes r (forfeit_acts room_id u peers (forfeit peers decided))
      ≤ (if room_id == r && not decided then 1 else 0)
unfolding outcomes
outcomes-forfeit_acts r room_id u [] decided = omega arith
outcomes-forfeit_acts r room_id u ((w, c) ∷ ms) decided = ground arith

outcomes-left :
    (r room_id : String) (u : ℕ) (acts : List Act) (peers : Dict ℕ ℕ) (decided : Bool)
    → let bye =
        forfeit_acts room_id u peers (forfeit peers decided) ++ farewells (collect_conns peers) in
      outcomes r (acts ++ bye) ≤ outcomes r acts + (if room_id == r && not decided then 1 else 0)
outcomes-left r room_id u acts peers decided =
    let bye = forfeit_acts room_id u peers (forfeit peers decided) in
    omega (
      arith,
      outcomes-++ r acts (bye ++ farewells (collect_conns peers)),
      outcomes-++ r bye (farewells (collect_conns peers)),
      outcomes-farewells r (collect_conns peers),
      outcomes-forfeit_acts r room_id u peers decided,
    )

leave-budget :
    (r : String) (now u : ℕ) (room_id : String) (h : Hub)
    → (outcomes r (leave now u room_id h).acts ≤ budget r h)
      × ((room_id == r ≡ true) ⊎ (budget r (leave now u room_id h) ≤ budget r h))
unfolding leave
leave-budget r now u room_id h = ground (
  arith,
  outcomes-left r room_id u h.acts (peers_of u (members room_id h)) (arbitration room_id h).decided,
  string_eq.same_iff room_id r,
  get-remove h.arbitrations room_id r,
)

step-budget :
    (r : String) (s : Step) (h : Hub) → departs r s ≡ false → budget r (step s h) ≤ budget r h
unfolding step register_conn fire_ratings_call relay
step-budget r (register now room_id mode user_id conn) h e = omega arith
step-budget r (report now user_id room_id) h e = report-budget r now user_id room_id h
step-budget r (time_out room_id) h e = resolve-budget r room_id h
step-budget r (fire now room_id winner_id loser_id) h e = ground arith
step-budget r (frame user_id room_id raw) h e = ground (
  arith,
  outcomes-++ r h.acts (relay_to raw (peers_of user_id (members room_id h))),
  outcomes-relayed r raw (collect_conns (peers_of user_id (members room_id h))),
)
step-budget r (depart now user_id room_id) h e =
    ground (arith, leave-budget r now user_id room_id h)

steps-budget :
    (r : String) (ss : List Step) (h : Hub) → stays r ss ≡ true → budget r (steps ss h) ≤ budget r h
unfolding steps
steps-budget r [] h e = omega arith
steps-budget r (s ∷ ss) h e = ground (arith, steps-budget r ss (step s h), step-budget r s h)

-- However joins, reports, timers, frames and departures from other rooms are interleaved, a room
-- sees at most one outcome, and none if its match was decided before; with the departure that ends
-- the room, and its forfeit, it is still at most one.
pub steps-outcomes :
    (r : String) (ss : List Step) (now u : ℕ) (h : Hub)
    → stays r ss ≡ true
    → let after = steps ss h in
      (outcomes r after.acts ≤ outcomes r h.acts + undecided r h)
      × (outcomes r (leave now u r after).acts ≤ outcomes r h.acts + undecided r h)
steps-outcomes r ss now u h e =
    ground (arith, steps-budget r ss h e, leave-budget r now u r (steps ss h))
