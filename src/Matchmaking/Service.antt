-- ===== src/Matchmaking/Service.antt =====
-- services/matchmaking/internal/api/service/matchmaking_service.go: the hub of connections, Join,
-- Leave and the pairing tick. A connection is a handle; whether a message reaches it, the room ids
-- and the replies of the ratings and reports services are the environment's.
use full.Base.{
  ℕ, suc, ◌+◌, Bool, true, Option, none, some, List, [], ◌∷◌, ◌++◌, String, ltb, nat_eq, string_eq,
  if◌then◌else◌,
}
use full.Base.Int.{ℤ, pos}
use full.Base.Dict
use full.Base.Dict.{Dict}
use full.Base.Db.{Conn, Result, ok, err, unavailable, raised}
use full.Base.Redis.Hash.{Hash}
use full.Matchmaking.Player.{Player, Invalid, validate_join}
use full.Matchmaking.Choice.{
  MatchedMessage, Act, send, close, Env, has, available, choose, still_waiting, active_modes,
}
use full.Matchmaking.Queue
use full.Matchmaking.Queue.{Value, NoFault}

-- CooldownStatus
pub record Cooldown : Type 0 where
  pub active : Bool
  pub seconds_remaining : ℤ

pub data Fault : Type 0 where
  invalid : Invalid → Fault
  cooling_down : ℤ → Fault

abbrev pub default_level : ℤ
default_level = pos 4

abbrev pub level_or_default : Option ℤ → ℤ
level_or_default none = default_level
level_or_default (some level) = level

-- A failed lookup of the cooldown lets the player through.
abbrev pub cooldown_error : Option Cooldown → Option Fault
cooldown_error none = none
cooldown_error (some c) = if c.active then some (cooling_down c.seconds_remaining) else none

abbrev pub invalid_error : Option Invalid → Option Fault
invalid_error none = none
invalid_error (some e) = some (invalid e)

module _ (redis : Hash Value) where
  open redis use {Store}

  pub record World : Type 0 where
    pub conns : Dict ℕ ℕ
    pub modes : Dict ℕ String
    pub queue : Conn Store
    pub acts : List Act
    pub rooms : ℕ

  abbrev register :
      ℕ → Player → World → Result NoFault (Unit {0}) × Conn Store → Result Fault (Unit {0}) × World
  register conn player w (ok _, q) = (
    ok tt,
    record w {
      conns = Dict.put w.conns player.user_id conn;
      modes = Dict.put w.modes player.user_id player.mode;
      queue = q;
    },
  )
  register conn player w (err _, q) = (err unavailable, record w { queue = q })

  abbrev guarded :
      Option Fault
      → Option Fault
      → World
      → Result Fault (Unit {0}) × World
      → Result Fault (Unit {0}) × World
  guarded (some e) _ w enqueued = (err (raised e), w)
  guarded none (some e) w enqueued = (err (raised e), w)
  guarded none none w enqueued = enqueued

  -- Join; `level_reply` and `cooldown_reply` are what the two clients return (none: an error).
  unfoldable pub join :
      Option ℤ → Option Cooldown → ℕ → Player → World → Result Fault (Unit {0}) × World
  join level_reply cooldown_reply conn player w =
      let rated = record player { level = level_or_default level_reply } in
      guarded (invalid_error (validate_join rated.mode rated.level)) (cooldown_error cooldown_reply)
        w (register conn rated w (Queue.enqueue redis rated w.queue))

  unfoldable pub leave : ℕ → String → World → World
  leave user_id mode w = record w {
    conns = Dict.remove w.conns user_id;
    modes = Dict.remove w.modes user_id;
    queue = (Queue.remove redis mode user_id w.queue).1;
  }

  module _ (env : Env) where
    abbrev pub notice : Option ℕ → MatchedMessage → List Act
    notice none msg = []
    notice (some conn) msg =
        if env.delivers conn msg
        then send conn msg ∷ []
        else send conn msg ∷ close conn "send error: reconnect and rejoin" ∷ []

    -- The state of one pass: the service and the ids paired so far.
    pub record Pass : Type 0 where
      pub world : World
      pub paired : List ℕ

    abbrev claimed : Player → Player → Pass → Result NoFault Bool × Conn Store → Pass
    claimed a b p (ok true, q) =
        let w = p.world in
        let room = env.room_id w.rooms in
        record {
          world = record {
            conns = Dict.remove (Dict.remove w.conns a.user_id) b.user_id;
            modes = Dict.remove (Dict.remove w.modes a.user_id) b.user_id;
            queue = q;
            acts =
                w.acts
                ++ (notice (Dict.get w.conns a.user_id)
                      (record { room_id = room; opponent = b.user_id })
                    ++ notice (Dict.get w.conns b.user_id)
                        (record { room_id = room; opponent = a.user_id }));
            rooms = suc w.rooms;
          };
          paired = b.user_id ∷ a.user_id ∷ p.paired;
        }
    claimed a b p (_, q) = record { world = record p.world { queue = q }; paired = p.paired }

    unfoldable pub try_pair : Player → Player → Pass → Pass
    try_pair a b p = claimed a b p (Queue.pair redis a b p.world.queue)

    abbrev pair_with : Player → Option Player → Pass → Pass
    pair_with candidate none p = p
    pair_with candidate (some opp) p = try_pair candidate opp p

    -- One round of the loop over the candidates. With nobody available `choose` finds nobody.
    unfoldable pub consider : ℕ → List Player → Player → Pass → Pass
    consider now waiting candidate p =
        if has p.paired candidate.user_id
        then p
        else pair_with candidate (choose env now candidate (available candidate p.paired waiting)) p

    unfoldable pub pass_over : ℕ → List Player → List Player → Pass → Pass
    pass_over now waiting [] p = p
    pass_over now waiting (c ∷ cs) p = pass_over now waiting cs (consider now waiting c p)

    abbrev pub refreshed : String → ℕ → World → World
    refreshed mode n w =
        if ltb 0 n then record w { queue = (Queue.refresh redis mode w.queue).1 } else w

    abbrev pub swept : ℕ → String → World → Result NoFault (List Player) × Conn Store → World
    swept now mode w (err _, q) = record w { queue = q }
    swept now mode w (ok waiting, q) =
        let p =
          pass_over now waiting waiting (record { world = record w { queue = q }; paired = [] }) in
        refreshed mode (still_waiting waiting p.paired) p.world

    unfoldable pub tick_mode : ℕ → String → World → World
    tick_mode now mode w = swept now mode w (Queue.list_waiting redis mode w.queue)

    unfoldable pub tick_modes : (ℕ → ℕ) → List String → ℕ → World → World
    tick_modes clock [] n w = w
    tick_modes clock (m ∷ ms) n w = tick_modes clock ms (n + 1) (tick_mode (clock n) m w)

    -- `clock n` is what the clock shows at the n-th mode of the tick.
    unfoldable pub tick : (ℕ → ℕ) → World → World
    tick clock w = tick_modes clock (active_modes [] w.modes) 0 w
