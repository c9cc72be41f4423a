-- ===== src/Matchmaking/Queue.antt =====
-- services/matchmaking/internal/api/repository/queue_repository.go: the queue of each mode as a
-- Redis hash from user ids to entries. A value that is no JSON entry is `corrupted`.
use full.Base.{ℕ, ◌*◌, Bool, true, false, not, List, [], ◌∷◌, String, if◌then◌else◌}
use full.Base.Int.{ℤ}
use full.Base.Db.{Db, pure, statement, ◌>>=◌, ◌>>◌}
use full.Base.Redis.Hash.{Hash, exists}
use full.Base.Text.{◌+++◌}
use full.Matchmaking.Player.{Player}

-- queueEntry
pub record Entry : Type 0 where
  pub level : ℤ
  pub enqueued_at : ℕ

pub data Value : Type 0 where
  entry : Entry → Value
  corrupted : Value

-- The repository returns only the connection's errors.
pub data NoFault : Type 0 where

-- queueTTL, 5 minutes in seconds.
abbrev pub queue_ttl : ℕ
queue_ttl = 5 * 60

abbrev pub queue_key : String → String
queue_key mode = "mm:queue:" +++ mode

unfoldable pub decode : String → List (ℕ × Value) → List Player
decode mode [] = []
decode mode ((user_id, entry e) ∷ raw) =
    record { user_id = user_id; mode = mode; level = e.level; enqueued_at = e.enqueued_at }
    ∷ decode mode raw
decode mode ((user_id, corrupted) ∷ raw) = decode mode raw

module _ (redis : Hash Value) where
  open redis use {Store, hget, hset, hdel, expire, hgetall}

  unfoldable pub enqueue : Player → Db NoFault Store (Unit {0})
  enqueue player = do
    let key = queue_key player.mode
    statement λ s. (
      tt,
      hset key player.user_id
          (entry (record { level = player.level; enqueued_at = player.enqueued_at })) s,
    )
    statement λ s. (tt, expire key queue_ttl s)

  unfoldable pub list_waiting : String → Db NoFault Store (List Player)
  list_waiting mode = do
    raw ← statement (λ s. (hgetall s (queue_key mode), s))
    pure (decode mode raw)

  -- HDEL, and whether it removed a field.
  unfoldable pub remove : String → ℕ → Db NoFault Store Bool
  remove mode user_id =
      statement λ s. (exists (hget s (queue_key mode) user_id), hdel (queue_key mode) user_id s)

  -- pairScript, which Redis runs as one command.
  unfoldable pub pair_script : String → String → ℕ → ℕ → Store → Bool × Store
  pair_script ka kb fa fb s =
      if not (exists (hget s ka fa))
      then (false, s)
      else if not (exists (hget s kb fb))
      then (false, s)
      else (true, hdel kb fb (hdel ka fa s))

  unfoldable pub refresh : String → Db NoFault Store (Unit {0})
  refresh mode = statement λ s. (tt, expire (queue_key mode) queue_ttl s)

  unfoldable pub pair : Player → Player → Db NoFault Store Bool
  pair a b = statement (pair_script (queue_key a.mode) (queue_key b.mode) a.user_id b.user_id)
