-- ===== src/Koth/Challenge.antt =====
-- The outcome of Challenge and CloseIfStale: services/koth/internal/api/repository/
-- hill_repository.go under any schedule of connection failures.
use full.Base.{
  ℕ, suc, ◌≡◌, ◌≤◌, refl, inl, inr, true, false, Option, none, some, ◌∷◌, String, arith, nat_eq,
  if◌then◌else◌, Option-cases, Bool-cases,
}
use full.Base.Int.{ℤ, ltb_ℤ, ◌≤ℤ◌}
use full.Base.Db.{Conn, Result, ok, err, raised, pure, transaction}
use full.Base.Db.Laws.{
  Effect, Follows, AtomicAt, AtomicAt-ext, AtomicAt-keeps, Atomic-transaction, rolled_back,
  Follows-bind, Follows-pure, Follows-raise, Follows-statement,
}
use full.Koth.Clock.{HillType}
use full.Koth.Hill.{
  KingReign, Tables, ChallengeOutcome, Fault, hill_not_found, not_unique, same_hill, current,
  or_not_found, or_not_unique, new_reign, take_crown, close_row, close_reign, scan_current_king,
  open_reign, lock_hill, challenge_tx, challenge,
}
use full.Koth.Crown.{
  IsValid, currents, current-none, currents-close_row_self, currents-close_row, close_row-AllBelow,
  close_row-IsKeyed, AllBelow-suc, AllBelow-IsFresh, close_row-IsFresh, current-close_row_other,
}

abbrev outcome : {A : Type 0} → Fault → Option A → Tables → Result Fault A × Tables
outcome e none t = (err (raised e), t)
outcome e (some a) t = (ok a, t)

or_not_found-Follows :
    (o : Option KingReign) → Follows {S = Tables} (or_not_found o) (outcome hill_not_found o)
or_not_found-Follows none = Follows-raise hill_not_found
or_not_found-Follows (some k) = Follows-pure k

or_not_unique-Follows :
    (o : Option KingReign) → Follows {S = Tables} (or_not_unique o) (outcome not_unique o)
or_not_unique-Follows none = Follows-raise not_unique
or_not_unique-Follows (some k) = Follows-pure k

same_hill-eq : (g h : HillType) → same_hill g h ≡ true → g ≡ h
same_hill-eq g h e = ground arith

module _ (h : HillType) (user_id : ℕ) (survived_ms : ℤ) (clip_id : String) where
  -- The tables after a challenger took the crown of `king`.
  abbrev pub crowned : KingReign → Tables → Tables
  crowned king t = record t {
    reigns = new_reign h user_id clip_id survived_ms t ∷ close_row king.id t.now t.reigns;
    next_id = suc t.next_id;
  }

  abbrev decided : Option KingReign → Tables → Result Fault ChallengeOutcome × Tables
  decided none t = (err (raised hill_not_found), t)
  decided (some king) t =
      if ltb_ℤ survived_ms king.blink_ts_ms
      then (ok (record { won = false; king = king }), t)
      else (
        ok (record { won = true; king = new_reign h user_id clip_id survived_ms t }),
        crowned king t,
      )

  -- What a challenge does: nothing without a current king; the king stays where the challenger
  -- survived less; otherwise the reign is closed and the challenger's is opened.
  abbrev pub challenge_effect : Effect Fault Tables ChallengeOutcome
  challenge_effect t = decided (current h t.reigns) t

  take_crown-Follows :
      (king : KingReign)
      → (f : Effect Fault Tables ChallengeOutcome) × Follows
          (take_crown h user_id survived_ms clip_id king)
          f
        × ((t : Tables)
            → current h (close_row king.id t.now t.reigns) ≡ none
            → f t ≡ (
              ok (record { won = true; king = new_reign h user_id clip_id survived_ms t }),
              crowned king t,
            ))
  unfolding close_reign open_reign
  take_crown-Follows king = (
    _,
    Follows-bind _ _ _ _ (Follows-statement _) (λ _.
        Follows-bind _ _ _ _ (Follows-bind _ _ _ _ (Follows-statement _) or_not_unique-Follows)
          (λ k. Follows-pure _)),
    λ t e. ground arith,
  )

  settle-Follows :
      (king : KingReign)
      → Follows
          (if ltb_ℤ survived_ms king.blink_ts_ms
            then pure (record { won = false; king = king })
            else take_crown h user_id survived_ms clip_id king)
          (if ltb_ℤ survived_ms king.blink_ts_ms
            then (λ t. (ok (record { won = false; king = king }), t))
            else (take_crown-Follows king).0)
  settle-Follows king = elim (Bool-cases (ltb_ℤ survived_ms king.blink_ts_ms)) [
    | inl e ↦ rw e (Follows-pure _)
    | inr e ↦ rw e (take_crown-Follows king).1
  ]

  challenge_tx-Follows :
      (f : Effect Fault Tables ChallengeOutcome) × Follows
        (challenge_tx h user_id survived_ms clip_id)
        f
      × ((t : Tables) → IsValid t → rolled_back f t ≡ challenge_effect t)
  unfolding challenge_tx lock_hill scan_current_king
  challenge_tx-Follows = (
    _,
    Follows-bind _ _ _ _ (Follows-statement _) (λ _.
        Follows-bind _ _ _ _ (Follows-bind _ _ _ _ (Follows-statement _) or_not_found-Follows)
          settle-Follows),
    λ t v. elim (Option-cases (current h t.reigns)) [
      | inl e ↦ ground arith
      | inr (k, e) ↦ ground (
        arith,
        (take_crown-Follows k).2 t (
            current-none h (close_row k.id t.now t.reigns)
              (currents-close_row_self h t.reigns k t.now (v.single h) e)),
      )
    ],
  )

  -- On a valid table a challenge is all or nothing, whatever fails, and does what
  -- `challenge_effect` says.
  pub challenge-AtomicAt :
      (c : Conn Tables)
      → IsValid c.tables
      → AtomicAt challenge_effect c (challenge h user_id survived_ms clip_id c)
  unfolding challenge
  challenge-AtomicAt c v =
      AtomicAt-ext (rolled_back challenge_tx-Follows.0) challenge_effect c
        (transaction (challenge_tx h user_id survived_ms clip_id) c)
        (challenge_tx-Follows.2 c.tables v) (Atomic-transaction _ _ challenge_tx-Follows.1 c)

  crowned-single :
      (k : KingReign) (t : Tables) (g : HillType)
      → IsValid t
      → current h t.reigns ≡ some k
      → currents g (crowned k t).reigns ≤ 1
  crowned-single k t g v e = ground (
    arith,
    v.single g,
    same_hill-eq h g,
    currents-close_row k.id t.now g t.reigns,
    currents-close_row_self h t.reigns k t.now (v.single h),
  )

  challenge_effect-IsValid : (t : Tables) → IsValid t → IsValid (challenge_effect t).1
  challenge_effect-IsValid t v = elim (Option-cases (current h t.reigns)) [
    | inl e ↦ rw e v
    | inr (k, e) ↦ elim (Bool-cases (ltb_ℤ survived_ms k.blink_ts_ms)) [
      | inl l ↦ rw (e, l) v
      | inr l ↦
          rw (e, l)
            (record {
              below = (
                omega arith,
                AllBelow-suc t.next_id _ (close_row-AllBelow k.id t.now t.next_id t.reigns v.below),
              );
              keyed = (
                close_row-IsFresh k.id t.now t.next_id t.reigns
                    (AllBelow-IsFresh t.next_id t.reigns v.below),
                close_row-IsKeyed k.id t.now t.reigns v.keyed,
              );
              single = λ g. crowned-single k t g v e;
            })
    ]
  ]

  -- A challenge keeps a table valid, whatever fails: its keys, and at most one current reign for
  -- each hill.
  pub challenge-IsValid :
      (c : Conn Tables)
      → IsValid c.tables
      → IsValid (challenge h user_id survived_ms clip_id c).1.tables
  challenge-IsValid c v =
      AtomicAt-keeps IsValid challenge_effect c (challenge h user_id survived_ms clip_id c)
        (challenge-AtomicAt c v) v (challenge_effect-IsValid c.tables v)

  -- On a valid table a challenge against a king leaves a king, who survived at least as long; he is
  -- the old one exactly where the challenger survived less; and the other hill keeps its king.
  pub challenge_effect-king :
      (t : Tables) (king : KingReign)
      → IsValid t
      → current h t.reigns ≡ some king
      → (next : KingReign) × (current h (challenge_effect t).1.reigns ≡ some next)
        × (king.blink_ts_ms ≤ℤ next.blink_ts_ms)
        × (next ≡ (
            if ltb_ℤ survived_ms king.blink_ts_ms
            then king
            else new_reign h user_id clip_id survived_ms t))
        × ((g : HillType)
            → same_hill h g ≡ false
            → current g (challenge_effect t).1.reigns ≡ current g t.reigns)
  unfolding current
  challenge_effect-king t king v e = (
    if ltb_ℤ survived_ms king.blink_ts_ms then king else new_reign h user_id clip_id survived_ms t,
    ground (arith, e),
    ground arith,
    refl,
    λ g n. ground (arith, e, current-close_row_other h g t.reigns king t.now v.keyed),
  )
