-- ===== src/Signaling/Departure.antt =====
-- Relay and Leave of services/signaling/internal/api/service/signaling_service.go.
use full.Base.{
  ℕ, Bool, not, Option, none, some, List, [], ◌∷◌, ◌++◌, String, map, ◌==◌, nat_eq, string_eq,
  if◌then◌else◌,
}
use full.Base.Dict
use full.Base.Dict.{Dict}
use full.Signaling.Hub.{
  Act, outcome, peer_left, relayed, closed, Fault, not_member, ApplyResult, Hub, exists, members,
  arbitration, collect_conns, peers_of, mode_of, mode_ranked, since_ms,
}

-- Relay: a frame to every other member.
abbrev pub relay_to : String → Dict ℕ ℕ → List Act
relay_to raw ms = map (λ c. relayed c raw) (collect_conns ms)

unfoldable pub relay : ℕ → String → String → Hub → Option Fault × Hub
relay user_id room_id raw h =
    if not (exists (Dict.get (members room_id h) user_id))
    then (some not_member, h)
    else (none, record h { acts = h.acts ++ relay_to raw (peers_of user_id (members room_id h)) })

unfoldable pub farewells : List ℕ → List Act
farewells [] = []
farewells (c ∷ cs) = peer_left c ∷ closed c ∷ farewells cs

-- The forfeit of a leaving user: who wins it, if anyone does.
abbrev pub forfeit : Dict ℕ ℕ → Bool → Option ℕ
forfeit [] decided = none
forfeit ((winner_id, conn) ∷ ms) decided = if decided then none else some winner_id

abbrev pub forfeit_acts : String → ℕ → Dict ℕ ℕ → Option ℕ → List Act
forfeit_acts room_id user_id peers none = []
forfeit_acts room_id user_id peers (some winner_id) =
    outcome room_id (collect_conns peers) winner_id user_id ∷ []

abbrev pub forfeit_calls : ℕ → String → ℕ → Hub → Option ℕ → List ApplyResult
forfeit_calls now room_id user_id h none = []
forfeit_calls now room_id user_id h (some winner_id) =
    let mode = mode_of (Dict.get h.room_modes room_id) in
    if mode == mode_ranked
    then record {
      winner_id = winner_id;
      loser_id = user_id;
      mode = mode;
      duration_ms = since_ms now (Dict.get h.battle_start room_id);
    }
      ∷ []
    else []

-- Leave, in the registry; the room and the code are removed from Redis by the caller below.
unfoldable pub leave : ℕ → ℕ → String → Hub → Hub
leave now user_id room_id h =
    let peers = peers_of user_id (members room_id h) in
    let won = forfeit peers (arbitration room_id h).decided in
    if room_id == "" then h else record {
      rooms = Dict.remove h.rooms room_id;
      arbitrations = Dict.remove h.arbitrations room_id;
      room_modes = Dict.remove h.room_modes room_id;
      battle_start = Dict.remove h.battle_start room_id;
      room_codes = Dict.remove h.room_codes room_id;
      acts = h.acts ++ (forfeit_acts room_id user_id peers won ++ farewells (collect_conns peers));
      calls = h.calls ++ forfeit_calls now room_id user_id h won;
    }
