-- ===== src/Koth/Reset.antt =====
-- Resets: CloseIfStale of services/koth/internal/api/repository/hill_repository.go under any
-- schedule of connection failures.
use full.Base.{
  ℕ, ◌≡◌, refl, sym, ◌∙◌, ◌⊎◌, inl, inr, true, Option, none, some, String, arith, if◌then◌else◌,
  Option-cases, Bool-cases,
}
use full.Base.Int.{ℤ}
use full.Base.Db.{Conn, Result, ok, err, raised, unavailable}
use full.Base.Db.Laws.{
  Effect, Follows, AtomicAt, AtomicAt-keeps, Atomic, Atomic-transaction, Follows-bind, Follows-pure,
  Follows-statement, Follows-ext,
}
use full.Koth.Clock.{HillType, Time, before}
use full.Koth.Hill.{
  KingReign, Tables, Fault, hill_not_found, same_hill, current, close_row, close_reign, lock_hill,
  close_found, close_if_stale_tx, close_if_stale, challenge,
}
use full.Koth.Crown.{
  IsValid, current-none, currents-close_row_self, currents-close_row, close_row-AllBelow,
  close_row-IsKeyed, current-close_row_other,
}
use full.Koth.Challenge.{challenge_effect, challenge-AtomicAt}

-- The answer is an error of the connection or `r`, and the tables are `t`.
abbrev pub Leaves : {A : Type 0} → Result Fault A → Tables → Result Fault A × Conn Tables → Type 0
Leaves r t out = ((out.0 ≡ err unavailable) ⊎ (out.0 ≡ r)) × (out.1.tables ≡ t)

AtomicAt-Leaves :
    {A : Type 0} (f : Effect Fault Tables A) (r : Result Fault A) (c : Conn Tables)
    (out : Result Fault A × Conn Tables)
    → f c.tables ≡ (r, c.tables)
    → AtomicAt f c out
    → Leaves r c.tables out
AtomicAt-Leaves f r c out e a = ground (arith, e, a)

module _ (h : HillType) (period_start : Time) where
  abbrev stale : Option KingReign → Tables → Result Fault (Option KingReign) × Tables
  stale none t = (ok none, t)
  stale (some king) t =
      if before king.started_at period_start
      then (ok (some king), record t { reigns = close_row king.id t.now t.reigns })
      else (ok none, t)

  -- What a reset does: it closes the current reign exactly where that began before the period.
  abbrev pub close_effect : Effect Fault Tables (Option KingReign)
  close_effect t = stale (current h t.reigns) t

  close_found-Follows : (o : Option KingReign) → Follows (close_found period_start o) (stale o)
  unfolding close_reign
  close_found-Follows none = Follows-pure none
  close_found-Follows (some king) = elim (Bool-cases (before king.started_at period_start)) [
    | inl e ↦ rw e (Follows-bind _ _ _ _ (Follows-statement _) (λ _. Follows-pure _))
    | inr e ↦ rw e (Follows-pure none)
  ]

  close_if_stale_tx-Follows : Follows (close_if_stale_tx h period_start) close_effect
  unfolding close_if_stale_tx lock_hill
  close_if_stale_tx-Follows =
      Follows-ext _ _ close_effect (λ t. refl)
        (Follows-bind _ _ _ _ (Follows-statement _)
          λ _. Follows-bind _ _ _ _ (Follows-statement _) close_found-Follows)

  -- A reset is all or nothing, whatever fails, and does what `close_effect` says.
  pub close_if_stale-Atomic : Atomic (close_if_stale h period_start) close_effect
  unfolding close_if_stale
  close_if_stale-Atomic c = ground (arith, Atomic-transaction _ _ close_if_stale_tx-Follows c)

  close_effect-IsValid : (t : Tables) → IsValid t → IsValid (close_effect t).1
  close_effect-IsValid t v = elim (Option-cases (current h t.reigns)) [
    | inl e ↦ rw e v
    | inr (k, e) ↦ elim (Bool-cases (before k.started_at period_start)) [
      | inl l ↦
          rw (e, l)
            (record {
              below = close_row-AllBelow k.id t.now t.next_id t.reigns v.below;
              keyed = close_row-IsKeyed k.id t.now t.reigns v.keyed;
              single = λ g. omega (arith, v.single g, currents-close_row k.id t.now g t.reigns);
            })
      | inr l ↦ rw (e, l) v
    ]
  ]

  -- A reset keeps a table valid, whatever fails: its keys, and at most one current reign for each
  -- hill.
  pub close_if_stale-IsValid :
      (c : Conn Tables) → IsValid c.tables → IsValid (close_if_stale h period_start c).1.tables
  close_if_stale-IsValid c v =
      AtomicAt-keeps IsValid close_effect c (close_if_stale h period_start c)
        (close_if_stale-Atomic c) v (close_effect-IsValid c.tables v)

  -- What the effect of a reset leaves, where it closes a reign.
  close_effect-closed :
      (t : Tables) (king : KingReign) (user_id : ℕ) (survived_ms : ℤ) (clip_id : String)
      (g : HillType)
      → IsValid t
      → (close_effect t).0 ≡ ok (some king)
      → let u = (close_effect t).1 in
        (current h t.reigns ≡ some king)
        × (before king.started_at period_start ≡ true)
        × (current h u.reigns ≡ none)
        × (close_effect u ≡ (ok none, u))
        × (challenge_effect h user_id survived_ms clip_id u ≡ (err (raised hill_not_found), u))
        × ((same_hill h g ≡ true) ⊎ (current g u.reigns ≡ current g t.reigns))
  close_effect-closed t king user_id survived_ms clip_id g v e =
      let at_start : current h t.reigns ≡ some king = ground arith in
      let late : before king.started_at period_start ≡ true = ground arith in
      let gone : current h (close_row king.id t.now t.reigns) ≡ none =
        current-none h (close_row king.id t.now t.reigns)
          (currents-close_row_self h t.reigns king t.now (v.single h) at_start) in
      let closed : current h (close_effect t).1.reigns ≡ none = ground arith in
      (
        at_start,
        late,
        closed,
        ground arith,
        ground arith,
        ground (arith, current-close_row_other h g t.reigns king t.now v.keyed),
      )

  -- Where CloseIfStale of a valid table answers that it closed a reign, whatever fails later:
  -- that reign was the hill's current one and began before the period; the hill has no king now,
  -- and another hill keeps its own; a second reset in the period closes nothing, a challenge is
  -- answered that the hill was not found, unless the connection fails, and neither changes a
  -- table.
  pub close_if_stale-closed :
      (c : Conn Tables) (king : KingReign) (user_id : ℕ) (survived_ms : ℤ) (clip_id : String)
      (g : HillType)
      → IsValid c.tables
      → (close_if_stale h period_start c).0 ≡ ok (some king)
      → let d = (close_if_stale h period_start c).1 in
        (current h c.tables.reigns ≡ some king)
        × (before king.started_at period_start ≡ true)
        × (current h d.tables.reigns ≡ none)
        × ((same_hill h g ≡ true) ⊎ (current g d.tables.reigns ≡ current g c.tables.reigns))
        × Leaves (ok none) d.tables (close_if_stale h period_start d)
        × Leaves (err (raised hill_not_found)) d.tables (challenge h user_id survived_ms clip_id d)
  close_if_stale-closed c king user_id survived_ms clip_id g v e =
      let t = c.tables in
      let out = close_if_stale h period_start c in
      let d = out.1 in
      let valid = close_if_stale-IsValid c v in
      let (answer, after) : (out.0 ≡ (close_effect t).0) × (d.tables ≡ (close_effect t).1) =
        ground (arith, e, close_if_stale-Atomic c) in
      let (at_start, late, gone, again, refused, others) =
        close_effect-closed t king user_id survived_ms clip_id g v (sym answer ∙ e) in
      (
        at_start,
        late,
        rw after gone,
        rw after others,
        AtomicAt-Leaves close_effect (ok none) d (close_if_stale h period_start d) (rw after again)
            (close_if_stale-Atomic d),
        AtomicAt-Leaves (challenge_effect h user_id survived_ms clip_id)
            (err (raised hill_not_found)) d (challenge h user_id survived_ms clip_id d)
            (rw after refused) (challenge-AtomicAt h user_id survived_ms clip_id d valid),
      )
