-- ===== src/Matchmaking/Nearest.antt =====
-- The chosen opponent is the best one: services/matchmaking/internal/api/domain/player.go.
use full.Base.{
  ◌≡◌, not, ◌&&◌, ◌≢◌, refl, sym, ap, ◌∙◌, ◌⊎◌, inl, inr, Bool, true, false, Option, none, some,
  List, [], ◌∷◌, arith, ◌==◌, nat_eq, if◌then◌else◌, ◌<◌,
}
use full.Base.Int.{ℤ, ltb_ℤ, ◌≤ℤ◌, ◌<ℤ◌}
use full.Matchmaking.Player.{
  Player, distance, is_better, better_of, nearest_within_from, nearest_within_distance,
  nearest_regardless_from, nearest_regardless,
}

abbrev pub Among : Player → List Player → Type 0
Among p [] = ⊥
Among p (w ∷ ws) = (p ≡ w) ⊎ Among p ws

module _ (candidate : Player) where
  -- `p` is strictly preferred to `q`: nearer in level, then longer in the queue, then the lower id.
  abbrev pub Preferred : Player → Player → Type 0
  Preferred p q =
      (distance candidate p <ℤ distance candidate q)
      ⊎ ((distance candidate p ≡ distance candidate q) × (p.enqueued_at < q.enqueued_at))
      ⊎ ((distance candidate p ≡ distance candidate q)
          × (p.enqueued_at ≡ q.enqueued_at)
          × (p.user_id < q.user_id))

  Preferred-is_better : (p q : Player) → Preferred p q → is_better p q candidate ≡ true
  unfolding is_better
  Preferred-is_better p q h = ground arith

  not-Preferred : (p q : Player) → is_better p q candidate ≡ false → ¬ Preferred p q
  not-Preferred p q h k = cc (Preferred-is_better p q k)

  is_better_asym : (p q : Player) → is_better p q candidate ≡ true → is_better q p candidate ≡ false
  unfolding is_better
  is_better_asym p q h = ground arith

  is_better_irrefl : (p : Player) → is_better p p candidate ≡ false
  unfolding is_better
  is_better_irrefl p = ground arith

  not_better_trans :
      (p q r : Player)
      → is_better p q candidate ≡ false
      → is_better q r candidate ≡ false
      → is_better p r candidate ≡ false
  unfolding is_better
  not_better_trans p q r h k = ground arith

  -- Both loops, over their own test of who may be chosen.
  pick : (Player → Bool) → Option Player → List Player → Option Player
  pick ok best [] = best
  pick ok best (w ∷ ws) = pick ok (if ok w then better_of candidate w best else best) ws

  module _ (ok : Player → Bool) where
    abbrev next : Player → Option Player → Option Player
    next w best = if ok w then better_of candidate w best else best

    next-some :
        (w : Player) (best : Option Player) (p : Player)
        → next w best ≡ some p
        → (best ≡ some p) ⊎ ((p ≡ w) × (ok p ≡ true))
    next-some w best p h = ground arith

    pick-Among :
        (best : Option Player) (ws : List Player) (p : Player)
        → pick ok best ws ≡ some p
        → (best ≡ some p) ⊎ (Among p ws × (ok p ≡ true))
    unfolding pick
    pick-Among best [] p h = inl h
    pick-Among best (w ∷ ws) p h =
        ground (arith, pick-Among (next w best) ws p h, next-some w best p)

    next_best :
        (w : Player) (best : Option Player) (p : Player)
        → ((b : Player) → next w best ≡ some b → is_better b p candidate ≡ false)
        → ok w ≡ true
        → is_better w p candidate ≡ false
    next_best w none p h o = h w (ground arith)
    next_best w (some b) p h o = ground (arith, h w, h b, not_better_trans w b p)

    pick_best :
        (best : Option Player) (ws : List Player) (p : Player)
        → pick ok best ws ≡ some p
        → ((b : Player) → best ≡ some b → is_better b p candidate ≡ false)
          × ((w : Player) → Among w ws → ok w ≡ true → is_better w p candidate ≡ false)
    unfolding pick
    pick_best best [] p h = (λ b e. ground (arith, is_better_irrefl p), λ w a. elim a [ ])
    pick_best best (w ∷ ws) p h =
        let ih = pick_best (next w best) ws p h in
        (
          λ b e. ground (arith, ih.0 b, ih.0 w, is_better_asym w b, not_better_trans b w p),
          λ v a o. elim a [
            | inl e ↦ next_best v best p (λ b k. ih.0 b (ground arith)) o
            | inr a' ↦ ih.1 v a' o
          ],
        )

    pick-none :
        (best : Option Player) (ws : List Player)
        → pick ok best ws ≡ none
        → (best ≡ none) × ((w : Player) → Among w ws → ok w ≡ false)
    unfolding pick
    pick-none best [] h = (h, λ w a. elim a [ ])
    pick-none best (w ∷ ws) h =
        let ih = pick-none (next w best) ws h in
        (ground arith, λ v a. elim a [ inl e ↦ ground arith | inr a' ↦ ih.1 v a' ])

  abbrev may_pair : ℤ → Player → Bool
  may_pair max_dist w =
      not (w.user_id == candidate.user_id) && not (ltb_ℤ max_dist (distance candidate w))

  nearest_within_from-pick :
      (max_dist : ℤ) (best : Option Player) (ws : List Player)
      → nearest_within_from candidate max_dist best ws ≡ pick (may_pair max_dist) best ws
  unfolding nearest_within_from pick
  nearest_within_from-pick max_dist best [] = refl
  nearest_within_from-pick max_dist best (w ∷ ws) =
      ap (λ b. nearest_within_from candidate max_dist b ws) (ground arith)
      ∙ nearest_within_from-pick max_dist (next (may_pair max_dist) w best) ws

  abbrev other_than : Player → Bool
  other_than w = not (w.user_id == candidate.user_id)

  nearest_regardless_from-pick :
      (best : Option Player) (ws : List Player)
      → nearest_regardless_from candidate best ws ≡ pick other_than best ws
  unfolding nearest_regardless_from pick
  nearest_regardless_from-pick best [] = refl
  nearest_regardless_from-pick best (w ∷ ws) =
      ap (λ b. nearest_regardless_from candidate b ws) (ground arith)
      ∙ nearest_regardless_from-pick (next other_than w best) ws

  abbrev pub IsPartner : ℤ → Player → Type 0
  IsPartner max_dist w = (w.user_id ≢ candidate.user_id) × (distance candidate w ≤ℤ max_dist)

  may_pair-IsPartner :
      (max_dist : ℤ) (w : Player) → may_pair max_dist w ≡ true → IsPartner max_dist w
  may_pair-IsPartner max_dist w h = ground arith

  IsPartner-may_pair :
      (max_dist : ℤ) (w : Player) → IsPartner max_dist w → may_pair max_dist w ≡ true
  IsPartner-may_pair max_dist w h = ground arith

  -- The opponent within the distance is a waiting player other than the candidate, no farther
  -- away than `max_dist`, and no such player is preferred to it.
  pub nearest_within_distance-best :
      (waiting : List Player) (max_dist : ℤ) (p : Player)
      → nearest_within_distance candidate waiting max_dist ≡ some p
      → Among p waiting
        × IsPartner max_dist p
        × ((w : Player) → Among w waiting → IsPartner max_dist w → ¬ Preferred w p)
  unfolding nearest_within_distance
  nearest_within_distance-best waiting max_dist p h =
      let k = sym (nearest_within_from-pick max_dist none waiting) ∙ h in
      elim (pick-Among (may_pair max_dist) none waiting p k) [
        | inl e ↦ cc e
        | inr (a, o) ↦ (
          a,
          may_pair-IsPartner max_dist p o,
          λ w b e. not-Preferred w p (
              (pick_best (may_pair max_dist) none waiting p k).1 w b
                (IsPartner-may_pair max_dist w e)),
        )
      ]

  -- No opponent within the distance: every other waiting player is farther away.
  pub nearest_within_distance-none :
      (waiting : List Player) (max_dist : ℤ)
      → nearest_within_distance candidate waiting max_dist ≡ none
      → (w : Player) → Among w waiting
      → ¬ IsPartner max_dist w
  unfolding nearest_within_distance
  nearest_within_distance-none waiting max_dist h w a e =
      let k = sym (nearest_within_from-pick max_dist none waiting) ∙ h in
      cc ((pick-none (may_pair max_dist) none waiting k).1 w a, IsPartner-may_pair max_dist w e)

  -- The opponent of the fallback: the best of all other waiting players, and there is none only
  -- where no other player waits.
  pub nearest_regardless-best :
      (waiting : List Player)
      → ((p : Player)
          → nearest_regardless candidate waiting ≡ some p
          → Among p waiting
            × (p.user_id ≢ candidate.user_id)
            × ((w : Player) → Among w waiting → w.user_id ≢ candidate.user_id → ¬ Preferred w p))
        × (nearest_regardless candidate waiting ≡ none
            → (w : Player) → Among w waiting
            → w.user_id ≡ candidate.user_id)
  unfolding nearest_regardless
  nearest_regardless-best waiting =
      let same = sym (nearest_regardless_from-pick none waiting) in
      (
        λ p h. elim (pick-Among other_than none waiting p (same ∙ h)) [
          | inl e ↦ cc e
          | inr (a, o) ↦ (
            a,
            ground arith,
            λ w b e.
                not-Preferred w p
                  ((pick_best other_than none waiting p (same ∙ h)).1 w b (ground arith)),
          )
        ],
        λ h w a. ground (arith, (pick-none other_than none waiting (same ∙ h)).1 w a),
      )
