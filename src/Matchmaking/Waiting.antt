-- ===== src/Matchmaking/Waiting.antt =====
-- A join and a leave of services/matchmaking/internal/api/delivery/matchmaking_handler.go, where
-- Redis answers: the user waits in one queue at most.
use full.Base.{
  ℕ, ◌≡◌, ◌≢◌, refl, true, Option, none, [], String, arith, ◌==◌, nat_eq, string_eq, Bool-cases,
  inl, inr,
}
use mathlib.Core.Path.{subst}
use full.Base.Dict
use full.Base.Dict.{get-remove}
use full.Base.Db.{Result, ok, err, Error, statement, ◌>>=◌}
use full.Base.Int.{ℤ}
use full.Base.Redis.Hash.{Hash}
use full.Matchmaking.Player.{Player, mode_matches}
use full.Matchmaking.Queue.{Value, queue_key, enqueue, remove}
use full.Matchmaking.Service.{Cooldown, Fault, World, join, leave}
use full.Matchmaking.Joining.{join-accepts}
use full.Matchmaking.Serve.{Session, leave_current}

named_mode : (mode : String) → mode_matches mode ≡ true → mode ≢ ""
unfolding mode_matches
named_mode String.[] h e = cc
named_mode (String.◌∷◌ c s) h e = cc

module _ (redis : Hash Value) (user_id conn : ℕ) where
  open redis use {hget, hget-hdel}

  -- Redis answers; the user waits in the queue of `mode` at most, and while no mode is joined the
  -- service does not have the user's connection.
  pub record IsWaiting (mode : String) (w : World redis) : Type 0 where
    pub quiet : w.queue.fates ≡ []
    pub only :
        (k : String) → hget w.queue.tables k user_id ≢ none → (mode ≢ "") × (k ≡ queue_key mode)
    pub unknown : mode ≡ "" → Dict.get w.conns user_id ≡ none

  leave-IsWaiting :
      (mode : String) (w : World redis)
      → IsWaiting mode w
      → IsWaiting "" (leave redis user_id mode w)
  unfolding leave remove statement
  leave-IsWaiting mode w p = record {
    quiet = ground (arith, p.quiet);
    only = λ k h. absurd (
        ground (
          arith,
          h,
          p.quiet,
          p.only k,
          hget-hdel w.queue.tables (queue_key mode) k user_id user_id,
          string_eq.same_iff (queue_key mode) k,
          nat_eq.same_iff user_id user_id,
        ));
    unknown =
        λ _. ground (arith, get-remove w.conns user_id user_id, nat_eq.same_iff user_id user_id);
  }

  pub leave_current-IsWaiting :
      (s : Session) (w : World redis)
      → IsWaiting s.current_mode w
      → IsWaiting "" (leave_current redis user_id conn (s, w))
  unfolding leave_current
  leave_current-IsWaiting s w p = elim (Bool-cases (s.current_mode == "")) [
    | inl free ↦
        rw free (subst (λ m. IsWaiting m w) ((string_eq.same_iff s.current_mode "").0 free) p)
    | inr waits ↦ rw waits (leave-IsWaiting s.current_mode w p)
  ]

  -- What a join leaves where Redis answers: the mode's queue, or nothing at all.
  unfoldable pub Joins : String → Result Fault (Unit {0}) × World redis → Type 0
  Joins mode (ok _, w) = IsWaiting mode w
  Joins mode (err e, w) = IsWaiting "" w

  Joins-by :
      (mode : String) (w : World redis) (out : Result Fault (Unit {0}) × World redis)
      → IsWaiting "" w
      → ((e : Error Fault) → out.0 ≡ err e → out.1 ≡ w)
      → (out.0 ≡ ok tt → IsWaiting mode out.1)
      → Joins mode out
  unfolding Joins
  Joins-by mode w (ok tt, v) p failed worked = worked refl
  Joins-by mode w (err e, v) p failed worked = rw (failed e refl) p

  join-failed :
      (level_reply : Option ℤ) (cooldown_reply : Option Cooldown) (player : Player)
      (w : World redis) (e : Error Fault)
      → w.queue.fates ≡ []
      → (join redis level_reply cooldown_reply conn player w).0 ≡ err e
      → (join redis level_reply cooldown_reply conn player w).1 ≡ w
  unfolding join enqueue statement ◌>>=◌
  join-failed level_reply cooldown_reply player w e quiet h = ground arith

  join-quiet :
      (level_reply : Option ℤ) (cooldown_reply : Option Cooldown) (player : Player)
      (w : World redis)
      → w.queue.fates ≡ []
      → (join redis level_reply cooldown_reply conn player w).1.queue.fates ≡ []
  unfolding join enqueue statement ◌>>=◌
  join-quiet level_reply cooldown_reply player w quiet = ground arith

  pub join-Joins :
      (level_reply : Option ℤ) (cooldown_reply : Option Cooldown) (player : Player)
      (w : World redis)
      → player.user_id ≡ user_id
      → IsWaiting "" w
      → Joins player.mode (join redis level_reply cooldown_reply conn player w)
  join-Joins level_reply cooldown_reply player w mine p =
      let out = join redis level_reply cooldown_reply conn player w in
      Joins-by player.mode w out p (λ e. join-failed level_reply cooldown_reply player w e p.quiet)
        (λ e.
          let accepted = join-accepts redis level_reply cooldown_reply conn player w e in
          let named : player.mode ≢ "" = named_mode player.mode accepted.0.0 in
          record {
            quiet = join-quiet level_reply cooldown_reply player w p.quiet;
            only = λ k h. ground (
              arith,
              h,
              named,
              accepted.4 k user_id,
              p.only k,
              string_eq.same_iff (queue_key player.mode) k,
            );
            unknown = λ m. absurd (named m);
          })
