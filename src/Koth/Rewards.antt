-- ===== src/Koth/Rewards.antt =====
-- What the koth services ask the store and the media service for: services/koth/internal/api/
-- service/hill_service.go and reset_service.go over the repository.
use full.Base.{
  ℕ, ◌≡◌, refl, ◌⊎◌, inl, inr, true, false, Option, none, some, ◌++◌, String, arith, Option-cases,
}
use full.Base.Int.{ℤ}
use full.Base.Db.{Conn, Result, ok, err}
use full.Base.Db.Laws.{AtomicAt}
use full.Koth.Clock.{HillType, Time, period_start, before}
use full.Koth.Hill
use full.Koth.Hill.{KingReign, ChallengeOutcome, Tables, parse_hill_type, current, new_reign}
use full.Koth.Crown.{IsValid}
use full.Koth.Challenge.{challenge_effect, challenge-AtomicAt}
use full.Koth.Reset.{close_effect, close_if_stale-Atomic}
use full.Koth.Credits.{
  World, challenged, challenge, credit_win, reset, close_stale_reign, closing_calls,
}

challenged-calls :
    (h : HillType) (win_amount : ℤ) (user_id : ℕ) (survived_ms : ℤ) (clip_id : String) (w : World)
    (out : Result Hill.Fault ChallengeOutcome × Conn Tables)
    → AtomicAt (challenge_effect h user_id survived_ms clip_id) w.conn out
    → let done = challenged win_amount user_id w.calls out in
      ((done.1.calls ≡ w.calls) × ((o : ChallengeOutcome) → done.0 ≡ ok o → o.won ≡ false))
      ⊎ ((done.0
            ≡ ok (record {
              won = true;
              king = new_reign h user_id clip_id survived_ms w.conn.tables;
            }))
          × (done.1.calls
              ≡ w.calls
                ++ credit_win win_amount user_id
                    (new_reign h user_id clip_id survived_ms w.conn.tables)))
challenged-calls h win_amount user_id survived_ms clip_id w (err e, c) a = ground arith
challenged-calls h win_amount user_id survived_ms clip_id w (ok o, c) a = ground arith

-- On a valid table a challenge asks for points exactly when its reply says that the challenger
-- won: then it is one credit of the configured amount to the challenger, under the id of the
-- reign that was opened.
pub challenge-calls :
    (win_amount : ℤ) (hill_type : String) (user_id : ℕ) (survived_ms : ℤ) (clip_id : String)
    (w : World)
    → IsValid w.conn.tables
    → let done = challenge win_amount hill_type user_id survived_ms clip_id w in
      ((done.1.calls ≡ w.calls) × ((o : ChallengeOutcome) → done.0 ≡ ok o → o.won ≡ false))
      ⊎ ((king : KingReign) × (done.0 ≡ ok (record { won = true; king = king }))
          × (king.user_id ≡ user_id)
          × (king.blink_ts_ms ≡ survived_ms)
          × (king.id ≡ w.conn.tables.next_id)
          × (done.1.calls ≡ w.calls ++ credit_win win_amount user_id king))
unfolding challenge
challenge-calls win_amount hill_type user_id survived_ms clip_id w v =
    elim (Option-cases (parse_hill_type hill_type)) [
      | inl e ↦ rw e (inl (refl, λ o k. cc))
      | inr (h, e) ↦
          rw e
            (elim (challenged-calls h win_amount user_id survived_ms clip_id w
              (Hill.challenge h user_id survived_ms clip_id w.conn)
              (challenge-AtomicAt h user_id survived_ms clip_id w.conn v)) [
                | inl same ↦ inl same
                | inr (a, b) ↦
                    inr (
                      new_reign h user_id clip_id survived_ms w.conn.tables,
                      a,
                      refl,
                      refl,
                      refl,
                      b,
                    )
              ])
    ]

reset-calls :
    (h : HillType) (start : Time) (w : World)
    (out : Result Hill.Fault (Option KingReign) × Conn Tables)
    → AtomicAt (close_effect h start) w.conn out
    → let done = reset h start w.calls out in
      (done.1.calls ≡ w.calls)
      ⊎ ((king : KingReign) × (done.0 ≡ ok tt)
          × (current h w.conn.tables.reigns ≡ some king)
          × (before king.started_at start ≡ true)
          × (done.1.calls ≡ w.calls ++ closing_calls h start king))
reset-calls h start w (err e, c) a = inl refl
reset-calls h start w (ok none, c) a = inl refl
reset-calls h start w (ok (some king), c) a = inr (king, refl, ground arith, ground arith, refl)

-- A reset makes calls exactly when it closed a reign that began before the period: the final
-- reward under the hill and the period's first day, and the expiry of the clip if there is one.
pub close_stale_reign-calls :
    (h : HillType) (now : Time) (w : World)
    → let done = close_stale_reign h now w in
      (done.1.calls ≡ w.calls)
      ⊎ ((king : KingReign) × (done.0 ≡ ok tt)
          × (current h w.conn.tables.reigns ≡ some king)
          × (before king.started_at (period_start h now) ≡ true)
          × (done.1.calls ≡ w.calls ++ closing_calls h (period_start h now) king))
unfolding close_stale_reign
close_stale_reign-calls h now w =
    reset-calls h (period_start h now) w (Hill.close_if_stale h (period_start h now) w.conn)
      (close_if_stale-Atomic h (period_start h now) w.conn)
