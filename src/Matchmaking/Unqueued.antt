-- ===== src/Matchmaking/Unqueued.antt =====
-- A connection of services/matchmaking/internal/api/delivery/matchmaking_handler.go waits in one
-- queue at most, and in none once it is gone.
use full.Base.{
  ℕ, ◌≡◌, refl, none, List, [], ◌∷◌, String, arith, nat_eq, string_eq, Option-cases, inl, inr,
}
use full.Base.Dict
use full.Base.Dict.{get-remove}
use full.Base.Db.{Result, ok, err, Error}
use full.Base.Redis.Hash.{Hash}
use full.Matchmaking.Player.{Player}
use full.Matchmaking.Queue.{Value}
use full.Matchmaking.Service.{Fault, World, join}
use full.Matchmaking.Serve.{
  Session, Inbound, message, elsewhere, leave_current, join_answer, on_join, receive, serve,
  arrived, join_error,
}
use full.Matchmaking.Waiting.{IsWaiting, Joins, join-Joins, leave_current-IsWaiting}

module _ (redis : Hash Value) (user_id conn : ℕ) where
  open redis use {hget}

  abbrev pub Waits : String → World redis → Type 0
  Waits mode w = IsWaiting redis user_id conn mode w

  -- What the service does for others leaves the user's connection unknown and its queues without
  -- the user, where they are so, and Redis answers.
  abbrev pub IsFair : Inbound redis → Type 0
  IsFair (message now level_reply cooldown_reply msg) = Unit {0}
  IsFair (elsewhere act) =
      (w : World redis)
      → (w.queue.fates ≡ [] → (act w).queue.fates ≡ [])
        × ((k : String)
            → hget w.queue.tables k user_id ≡ none
            → hget (act w).queue.tables k user_id ≡ none)
        × (Dict.get w.conns user_id ≡ none → Dict.get (act w).conns user_id ≡ none)

  abbrev pub AreFair : List (Inbound redis) → Type 0
  AreFair [] = Unit {0}
  AreFair (m ∷ ms) = IsFair m × AreFair ms

  waiting-any : (mode : String) (w : World redis) → Waits "" w → Waits mode w
  waiting-any mode w p = record {
    quiet = p.quiet;
    only = λ k h. absurd ((p.only k h).0 refl);
    unknown = λ _. p.unknown refl;
  }

  error-mode : (e : Error Fault) (s : Session) → (join_error e s).current_mode ≡ s.current_mode
  unfolding join_error
  error-mode e s = ground arith

  join_answer-IsWaiting :
      (mode : String) (s : Session) (out : Result Fault (Unit {0}) × World redis)
      → Joins redis user_id conn mode out
      → let t = join_answer redis user_id conn mode s out in Waits t.0.current_mode t.1
  unfolding Joins
  join_answer-IsWaiting mode s (ok _, w) p = p
  join_answer-IsWaiting mode s (err e, w) p = rw (error-mode e s) (waiting-any s.current_mode w p)

  act-IsWaiting :
      (act : World redis → World redis) (mode : String) (w : World redis)
      → IsFair (elsewhere act)
      → Waits mode w
      → Waits mode (act w)
  act-IsWaiting act mode w fair p = record {
    quiet = (fair w).0 p.quiet;
    only = λ k h. p.only k (λ gone. h ((fair w).1 k gone));
    unknown = λ m. (fair w).2 (p.unknown m);
  }

  receive-IsWaiting :
      (m : Inbound redis) (s : Session) (w : World redis)
      → IsFair m
      → Waits s.current_mode w
      → let t = receive redis user_id conn m (s, w) in Waits t.0.current_mode t.1
  unfolding receive on_join
  receive-IsWaiting (elsewhere act) s w fair p = act-IsWaiting act s.current_mode w fair p
  receive-IsWaiting (message now level_reply cooldown_reply msg) s w fair p =
      let left = leave_current redis user_id conn (s, w) in
      let free = leave_current-IsWaiting redis user_id conn s w p in
      let player : Player = record {
        user_id = user_id;
        mode = msg.mode;
        level = msg.level;
        enqueued_at = now;
      } in
      let joins =
        join_answer-IsWaiting msg.mode s (join redis level_reply cooldown_reply conn player left)
          (join-Joins redis user_id conn level_reply cooldown_reply player left refl free) in
      ground (arith, joins, free, p)

  serve-IsWaiting :
      (ms : List (Inbound redis)) (s : Session) (w : World redis)
      → AreFair ms
      → Waits s.current_mode w
      → Waits "" (serve redis user_id conn ms (s, w)).1
  unfolding serve
  serve-IsWaiting [] s w fair p = leave_current-IsWaiting redis user_id conn s w p
  serve-IsWaiting (m ∷ ms) s w (fair, later) p =
      let (t, v) = receive redis user_id conn m (s, w) in
      serve-IsWaiting ms t v later (receive-IsWaiting m s w fair p)

  -- While Redis answers: a connection of a user who waits nowhere, served to its end, whatever it
  -- sent, leaves the user in no queue, and without a connection; if all that happens in between is
  -- that the service takes the user out of a queue or acts on other users.
  pub serve-unqueued :
      (ms : List (Inbound redis)) (w : World redis)
      → AreFair ms
      → w.queue.fates ≡ []
      → ((k : String) → hget w.queue.tables k user_id ≡ none)
      → Dict.get w.conns user_id ≡ none
      → let v = (serve redis user_id conn ms (arrived, w)).1 in
        ((k : String) → hget v.queue.tables k user_id ≡ none) × (Dict.get v.conns user_id ≡ none)
  serve-unqueued ms w fair quiet nowhere unknown =
      let p =
        serve-IsWaiting ms arrived w fair
          record { quiet = quiet; only = λ k h. absurd (h (nowhere k)); unknown = λ _. unknown } in
      let v = (serve redis user_id conn ms (arrived, w)).1 in
      (
        λ k. elim (Option-cases (hget v.queue.tables k user_id)) [
          | inl e ↦ e
          | inr (x, e) ↦ absurd ((p.only k (λ n. cc)).0 refl)
        ],
        p.unknown refl,
      )
