-- ===== src/Store/Limits.antt =====
-- The cap on rewarded grants: grants of one user between two ends of the window, whatever fails.
use full.Base.{
  ℕ, suc, ◌+◌, ◌≡◌, ◌≤◌, ◌<◌, refl, ◌⊎◌, inl, Bool, true, false, List, [], ◌∷◌, arith, nat_eq,
  string_eq, if◌then◌else◌,
}
use full.Base.Int.{ℤ, pos, ◌≤ℤ◌}
use full.Base.Db.{Result, ok, err, pure, statement, ◌>>=◌}
use full.Base.Redis.Strings.{Counters}
use full.Store.Rewarded
use full.Store.Rewarded.{grant_unit, allow, grant_free_distraction}

abbrev pub is_ok : {E A : Type 0} → Result E A → Bool
is_ok (ok a) = true
is_ok (err e) = false

module _ (redis : Counters) (cap : ℤ) (user_id : ℕ) where
  abbrev World : Type 0
  World = Rewarded.World redis

  abbrev used : World → ℕ
  used w = redis.count w.counters.tables user_id

  -- Requests of the user for these products, one after another; the number of grants.
  unfoldable pub grants : List ℕ → World → ℕ
  grants [] w = 0
  grants (p ∷ ps) w =
      let (r, v) = grant_free_distraction redis cap user_id p w in
      let rest = grants ps v in if is_ok r then suc rest else rest

  -- A grant is paid with an attempt within the cap.
  grant_free_distraction-used :
      (p : ℕ) (w : World)
      → let out = grant_free_distraction redis cap user_id p w in
        (used w ≤ used out.1)
        × ((is_ok out.0 ≡ false) ⊎ ((used w < used out.1) × (pos (used out.1) ≤ℤ cap)))
  unfolding grant_free_distraction allow grant_unit statement pure ◌>>=◌
  grant_free_distraction-used p w = ground (
    arith,
    redis.count-incr w.counters.tables user_id user_id,
    redis.count-expire (redis.incr user_id w.counters.tables) user_id user_id,
  )

  -- Over any sequence of requests of one user within a window, whatever products they name and
  -- whatever fails, the attempts counted at the start and the grants made stay within the cap
  -- together, or no grant is made.
  pub grants-cap :
      (ps : List ℕ) (w : World) → (grants ps w ≡ 0) ⊎ (pos (used w + grants ps w) ≤ℤ cap)
  unfolding grants
  grants-cap [] w = inl refl
  grants-cap (p ∷ ps) w =
      let (r, v) = grant_free_distraction redis cap user_id p w in
      let step = grant_free_distraction-used p w in let more = grants-cap ps v in ground arith
