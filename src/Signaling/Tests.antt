-- ===== src/Signaling/Tests.antt =====
-- Concrete inputs for services/signaling, and Redis sets as an association list.
use full.Base.{
  ℕ, suc, ◌+◌, ◌≡◌, ◌≢◌, ◌≤◌, refl, ◌⊎◌, inl, inr, Bool, true, false, not, ◌&&◌, ◌||◌, none, some,
  List, [], ◌∷◌, ◌++◌, String, arith, ◌==◌, nat_eq, string_eq, if◌then◌else◌, Bool-cases,
}
use full.Base.Dict
use full.Base.Dict.{Dict, get-put, get-remove}
use full.Base.Redis.Sets.{Sets, Codes}
use full.Signaling.Hub.{Hub, Report, arbitration, fire_ratings_call, mode_ranked, since_ms}
use full.Signaling.Match.{report_event, resolve_timeout, last_other}
use full.Signaling.Departure.{leave}
use full.Signaling.Outcomes.{
  Step, register, report, time_out, fire, steps, stays, outcomes, undecided, steps-outcomes,
}
use full.Signaling.Verdicts.{
  Judged, TimedOut, IsGone, IsSameRoom, report_event-Judged, resolve_timeout-TimedOut, leave-IsGone,
  fire_ratings_call-leave,
}
use full.Signaling.Service.{World, join, room_key}
use full.Signaling.Admission.{Joined, join-Joined}
use full.Signaling.Serve.{Envelope, Inbound, garbage, frame, elsewhere, serve, arrived}
use full.Signaling.Registry.{conn_in}
use full.Signaling.Invites.{IsNamed}
use full.Signaling.Served.{AreFair}
use full.Signaling.Gone.{IsNowhere, serve-gone}

-- A store: the pairs of a key and a member.
abbrev Rows : Type 0
Rows = List (String × ℕ)

holds : Rows → String → ℕ → Bool
holds [] k u = false
holds ((j, v) ∷ s) k u = (j == k && v == u) || holds s k u

count : Rows → String → ℕ
count [] k = 0
count ((j, v) ∷ s) k = let rest = count s k in if j == k then suc rest else rest

wipe : String → Rows → Rows
wipe k [] = []
wipe k ((j, v) ∷ s) = let rest = wipe k s in if j == k then rest else (j, v) ∷ rest

insert : String → ℕ → Rows → Rows
unfolding holds
insert k u s = if holds s k u then s else (k, u) ∷ s

holds-insert :
    (s : Rows) (k j : String) (u v : ℕ)
    → holds (insert k u s) j v ≡ ((k == j && u == v) || holds s j v)
unfolding insert
holds-insert s k j u v = elim (Bool-cases (holds s k u)) [
  | inl e ↦ rw e (ground (arith, e, string_eq.same_iff k j))
  | inr e ↦ rw e refl
]

count-insert :
    (s : Rows) (k j : String) (u : ℕ)
    → count (insert k u s) j ≡ (if k == j && not (holds s k u) then suc (count s j) else count s j)
unfolding insert count
count-insert s k j u = ground arith

holds-wipe :
    (s : Rows) (k j : String) (v : ℕ) → holds (wipe k s) j v ≡ (not (k == j) && holds s j v)
unfolding wipe holds
holds-wipe [] k j v = ground arith
holds-wipe ((i, u) ∷ s) k j v = ground (
  arith,
  holds-wipe s k j v,
  string_eq.same_iff i k,
  string_eq.same_iff i j,
  string_eq.same_iff k j,
)

count-wipe : (s : Rows) (k j : String) → count (wipe k s) j ≡ (if k == j then 0 else count s j)
unfolding wipe count
count-wipe [] k j = ground arith
count-wipe ((i, u) ∷ s) k j = ground (
  arith,
  count-wipe s k j,
  string_eq.same_iff i k,
  string_eq.same_iff i j,
  string_eq.same_iff k j,
)

abbrev sets : Sets
sets = record {
  Store = Rows;
  sismember = holds;
  scard = count;
  sadd = insert;
  del = wipe;
  expire = λ k t s. s;
  sismember-sadd = holds-insert;
  scard-sadd = count-insert;
  sismember-del = holds-wipe;
  scard-del = count-wipe;
  sismember-expire = λ s k j t v. refl;
  scard-expire = λ s k j t. refl;
}

abbrev codes : Codes
codes = record {
  Store = Dict String String;
  read = Dict.get;
  set_nx = λ k v t s. Dict.put s k v;
  del = λ k s. Dict.remove s k;
  read-set_nx = λ s k j v t e. get-put s k j v;
  read-del = λ s k j. get-remove s k j;
}

abbrev room : String
room = "r1"

abbrev idle : Hub
idle = record {
  rooms = [];
  arbitrations = [];
  room_modes = [];
  battle_start = [];
  room_codes = [];
  acts = [];
  calls = [];
}

abbrev battle : List Step
battle =
    register 10 room mode_ranked 1 101
    ∷ register 20 room mode_ranked 2 102
    ∷ report 50 2 room
    ∷ report 60 1 room
    ∷ time_out room
    ∷ fire 61 room 1 2
    ∷ []

battle-stays : stays room battle ≡ true
battle-stays = refl

steps-outcomes_example :
    let after = steps battle idle in
    (outcomes room after.acts ≤ outcomes room [] + undecided room idle)
    × (outcomes room (leave 70 2 room after).acts ≤ outcomes room [] + undecided room idle)
steps-outcomes_example = steps-outcomes room battle 70 2 idle battle-stays

abbrev first_report : Report
first_report = record { user_id = 2; received_at = 50 }

abbrev disputed : Hub
disputed = record idle {
  rooms = (room, (1, 101) ∷ (2, 102) ∷ []) ∷ [];
  arbitrations = (room, record { first_report = some first_report; decided = false }) ∷ [];
  room_modes = (room, mode_ranked) ∷ [];
  battle_start = (room, 20) ∷ [];
}

second-decides : (report_event 60 1 room disputed).1 ≡ some (1, 2)
unfolding report_event Dict.get
second-decides = refl

report_event-Judged_example : Judged 60 1 room disputed 1 2
report_event-Judged_example = report_event-Judged 60 1 room disputed 1 2 second-decides

timer-decides : (resolve_timeout room disputed).0 ≡ some (1, 2)
unfolding resolve_timeout Dict.get last_other
timer-decides = refl

resolve_timeout-TimedOut_example : TimedOut room disputed 1 2 1
resolve_timeout-TimedOut_example = resolve_timeout-TimedOut room disputed 1 2 1 timer-decides

room-named : room ≢ ""
room-named = ground (arith, string_eq.same_iff room "")

leave-IsGone_example :
    IsGone room (leave 70 2 room disputed)
    × ((room ≡ "r2") ⊎ IsSameRoom "r2" (leave 70 2 room disputed) disputed)
leave-IsGone_example = leave-IsGone 70 2 room disputed "r2" room-named

abbrev won : Hub
won = (report_event 60 1 room disputed).2

won-decided : (arbitration room won).decided ≡ true
unfolding report_event Dict.get Dict.put
won-decided = refl

won-ranked : Dict.get won.room_modes room ≡ some mode_ranked
unfolding report_event Dict.get
won-ranked = refl

fire_ratings_call-leave_example :
    ((fire_ratings_call 61 room 1 2 won).calls
      ≡ won.calls
        ++ record {
          winner_id = 1;
          loser_id = 2;
          mode = mode_ranked;
          duration_ms = since_ms 61 (Dict.get won.battle_start room);
        }
          ∷ [])
    × ((fire_ratings_call 61 room 1 2 (leave 61 2 room won)).calls ≡ won.calls)
fire_ratings_call-leave_example =
    fire_ratings_call-leave 61 2 1 2 room won room-named won-decided won-ranked

abbrev lobby : World sets codes 1800 900
lobby = record {
  hub = idle;
  members = record { tables = (room_key room, 1) ∷ (room_key room, 2) ∷ []; fates = [] };
  invites = record { tables = []; fates = [] };
}

lobby-card : count lobby.members.tables (room_key room) ≤ 2
unfolding count
lobby-card = ground arith

join-Joined_example :
    Joined sets codes 1800 900 10 3 103 room mode_ranked lobby
      (join sets codes 1800 900 10 3 103 room mode_ranked lobby)
join-Joined_example = join-Joined sets codes 1800 900 10 3 103 room mode_ranked lobby lobby-card

abbrev envelope : String → Envelope
envelope type = record { type = type; room_id = room; mode = mode_ranked; code = "" }

abbrev frames : List Inbound
frames =
    garbage
    ∷ frame 10 none (λ i. none) (envelope "join") "{}"
    ∷ elsewhere (register 20 room mode_ranked 2 102)
    ∷ frame 50 none (λ i. none) (envelope "blink") "{}"
    ∷ []

frames-AreFair : AreFair 1 101 frames
frames-AreFair = (tt, (λ e. cc, (inl (omega arith), (λ e. cc, tt))))

abbrev opened : World sets codes 1800 900
opened = record {
  hub = idle;
  members = record { tables = []; fates = [] };
  invites = record { tables = []; fates = [] };
}

opened-IsNowhere : IsNowhere sets codes 1800 900 1 101 opened.hub
unfolding conn_in Dict.get
opened-IsNowhere r e = cc

opened-IsNamed : IsNamed codes opened.invites.tables
unfolding Dict.get
opened-IsNamed k e = cc

serve-gone_example :
    let v =
      (serve sets codes 1800 900 1 101 60 frames (arrived sets codes 1800 900 1 101, opened)).1 in
    conn_in room 1 v.hub ≢ some 101
serve-gone_example =
    serve-gone sets codes 1800 900 1 101 60 frames opened frames-AreFair opened-IsNowhere
      opened-IsNamed room
