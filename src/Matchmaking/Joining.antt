-- ===== src/Matchmaking/Joining.antt =====
-- Who gets into the queue: Join of services/matchmaking/internal/api/service/
-- matchmaking_service.go.
use full.Base.{
  ℕ, ◌≡◌, refl, true, ◌&&◌, Option, none, some, String, arith, ◌==◌, nat_eq, string_eq,
  if◌then◌else◌,
}
use full.Base.Int.{ℤ, ◌≤ℤ◌}
use full.Base.Dict
use full.Base.Dict.{get-put}
use full.Base.Db.{Conn, ok, statement, ◌>>=◌}
use full.Base.Redis.Hash.{Hash}
use full.Matchmaking.Player.{
  Player, min_level, max_level, mode_matches, validate_join, validate_mode, validate_level,
}
use full.Matchmaking.Queue.{Value, entry, queue_key, queue_ttl, enqueue}
use full.Matchmaking.Service.{World, Cooldown, level_or_default, cooldown_error, join}

-- The checks of a request: a well-formed mode, and a level between 1 and 10.
abbrev pub IsAdmissible : String → ℤ → Type 0
IsAdmissible mode level = (mode_matches mode ≡ true) × (min_level ≤ℤ level) × (level ≤ℤ max_level)

-- Validation accepts exactly the well-formed requests.
pub validate_join-IsAdmissible :
    (mode : String) (level : ℤ)
    → ((validate_join mode level ≡ none) → IsAdmissible mode level)
      × (IsAdmissible mode level → validate_join mode level ≡ none)
unfolding validate_join validate_mode validate_level
validate_join-IsAdmissible mode level = (λ h. ground arith, λ h. ground arith)

module _ (redis : Hash Value) where
  open redis use {Store, hget, hset, expire, hget-hset, hget-expire}

  -- The level that a client sends is ignored: the ratings service's, or the default, is used.
  pub join_ignores_level :
      (level_reply : Option ℤ) (cooldown_reply : Option Cooldown) (conn : ℕ) (player : Player)
      (w : World redis) (level : ℤ)
      → join redis level_reply cooldown_reply conn (record player { level = level }) w
        ≡ join redis level_reply cooldown_reply conn player w
  unfolding join
  join_ignores_level level_reply cooldown_reply conn player w level = refl

  enqueue-hget :
      (player : Player) (c : Conn Store)
      → (enqueue redis player c).0 ≡ ok tt
      → (k : String) (u : ℕ)
      → hget (enqueue redis player c).1.tables k u ≡ (
          if queue_key player.mode == k && player.user_id == u
          then some (entry (record { level = player.level; enqueued_at = player.enqueued_at }))
          else hget c.tables k u)
  unfolding enqueue statement ◌>>=◌
  enqueue-hget player c h k u =
      let key = queue_key player.mode in
      let v = entry (record { level = player.level; enqueued_at = player.enqueued_at }) in
      ground (
        arith,
        hget-expire (hset key player.user_id v c.tables) key k queue_ttl u,
        hget-hset c.tables key k player.user_id u v,
      )

  -- A join that answers was admissible, at the level that the ratings service replied or else at
  -- the default, and not cooling down; the connection and the mode are then registered, and the
  -- queues are as before but for the player's entry in the mode's queue.
  pub join-accepts :
      (level_reply : Option ℤ) (cooldown_reply : Option Cooldown) (conn : ℕ) (player : Player)
      (w : World redis)
      → let out = join redis level_reply cooldown_reply conn player w in
        let level = level_or_default level_reply in
        out.0 ≡ ok tt
        → IsAdmissible player.mode level
          × (cooldown_error cooldown_reply ≡ none)
          × (Dict.get out.1.conns player.user_id ≡ some conn)
          × (Dict.get out.1.modes player.user_id ≡ some player.mode)
          × ((k : String) (u : ℕ)
              → hget out.1.queue.tables k u ≡ (
                  if queue_key player.mode == k && player.user_id == u
                  then some (entry (record { level = level; enqueued_at = player.enqueued_at }))
                  else hget w.queue.tables k u))
  unfolding join
  join-accepts level_reply cooldown_reply conn player w h =
      let level = level_or_default level_reply in
      let rated : Player = record player { level = level } in
      (
        ground (arith, (validate_join-IsAdmissible player.mode level).0),
        ground arith,
        ground (arith, get-put w.conns player.user_id player.user_id conn),
        ground (arith, get-put w.modes player.user_id player.user_id player.mode),
        λ k u. ground (
          arith,
          λ (p : (enqueue redis rated w.queue).0 ≡ ok tt). enqueue-hget rated w.queue p k u,
        ),
      )
