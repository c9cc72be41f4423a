-- ===== src/Matchmaking/Couples.antt =====
-- Whom a tick pairs, and what it does to them while Redis answers:
-- services/matchmaking/internal/api/service/matchmaking_service.go.
use full.Base.{
  ℕ, ◌+◌, ◌≡◌, ◌≢◌, refl, sym, ap, ◌∙◌, ◌⊎◌, inl, inr, true, false, none, List, [], ◌∷◌, ◌++◌,
  arith, String, nat_eq, string_eq, if◌then◌else◌, length, Bool-cases, Option-cases,
}
use full.Base.Dict
use full.Base.Dict.{Dict, get-remove}
use full.Base.Redis.Hash.{Hash, exists}
use full.Matchmaking.Player.{Player, past_fallback_deadline}
use full.Matchmaking.Nearest.{Among, IsPartner}
use full.Matchmaking.Queue.{Value, queue_key}
use full.Matchmaking.Choice.{Act, Env, has, available, choose}
use full.Matchmaking.Pairing.{available-Among, choose-best}
use full.Matchmaking.Service.{
  World, Pass, notice, try_pair, consider, pass_over, refreshed, tick_mode,
}
use full.Matchmaking.Progress.{listed, listed-queued, list_waiting-listed, refreshed-hget}
use full.Matchmaking.Settled.{IsSettled, pair-claims, pass_over-IsSettled}
use mathlib.Core.Path.{subst}

-- No id twice.
abbrev pub IsDistinct : List ℕ → Type 0
IsDistinct [] = Unit {0}
IsDistinct (v ∷ vs) = (has vs v ≡ false) × IsDistinct vs

-- The pairs that were made, the last one first: a candidate and its opponent.
abbrev pub Couples : Type 0
Couples = List (Player × Player)

abbrev pub ids : Couples → List ℕ
ids [] = []
ids ((a, b) ∷ cs) = b.user_id ∷ a.user_id ∷ ids cs

++_assoc : {A : Type 0} (xs ys zs : List A) → (xs ++ ys) ++ zs ≡ xs ++ (ys ++ zs)
++_assoc [] ys zs = refl
++_assoc (x ∷ xs) ys zs = ap (λ l. x ∷ l) (++_assoc xs ys zs)

++_nil : {A : Type 0} (xs : List A) → xs ++ [] ≡ xs
++_nil [] = refl
++_nil (x ∷ xs) = ap (λ l. x ∷ l) (++_nil xs)

module _ (redis : Hash Value) (env : Env) (now : ℕ) (mode : String) (waiting : List Player)
    (w : World redis) where
  open redis use {hget}

  -- Both were waiting; they are near enough, or the candidate has waited long enough.
  abbrev pub AreFit : Couples → Type 0
  AreFit [] = Unit {0}
  AreFit ((a, b) ∷ cs) =
      Among a waiting
      × Among b waiting
      × (IsPartner a env.level_dist b
          ⊎ (past_fallback_deadline now a.enqueued_at env.fallback_after ≡ true))
      × AreFit cs

  -- Each of a pair is sent the pair's own room and the other's id, on the connection it had.
  abbrev pub announced : Couples → List Act
  announced [] = []
  announced ((a, b) ∷ cs) =
      let room = env.room_id (length cs + w.rooms) in
      announced cs
      ++ (notice redis env (Dict.get w.conns a.user_id)
            (record { room_id = room; opponent = b.user_id })
          ++ notice redis env (Dict.get w.conns b.user_id)
              (record { room_id = room; opponent = a.user_id }))

  -- The world after the pairs were made: they are out of the queue, unregistered and told.
  pub record AreMade (cs : Couples) (v : World redis) : Type 0 where
    pub distinct : IsDistinct (ids cs)
    pub fit : AreFit cs
    pub queue :
        (u : ℕ)
        → hget v.queue.tables (queue_key mode) u
          ≡ (if has (ids cs) u then none else hget w.queue.tables (queue_key mode) u)
    pub conns : (u : ℕ) → Dict.get v.conns u ≡ (if has (ids cs) u then none else Dict.get w.conns u)
    pub modes : (u : ℕ) → Dict.get v.modes u ≡ (if has (ids cs) u then none else Dict.get w.modes u)
    pub rooms : v.rooms ≡ length cs + w.rooms
    pub acts : v.acts ≡ w.acts ++ announced cs

  -- A pass so far.
  record IsPass (cs : Couples) (p : Pass redis env) : Type 0 where
    made : AreMade cs p.world
    quiet : p.world.queue.fates ≡ []
    paired : p.paired ≡ ids cs

  -- Both still queue.
  abbrev InQueue : Player → Type 0
  InQueue c = (c.mode ≡ mode) × (exists (hget w.queue.tables (queue_key mode) c.user_id) ≡ true)

  open redis use {hdel, hget-hdel}

  try_pair-IsPass :
      (a b : Player) (cs : Couples) (p : Pass redis env)
      → IsPass cs p
      → InQueue a
      → InQueue b
      → has (ids cs) a.user_id ≡ false
      → has (ids cs) b.user_id ≡ false
      → b.user_id ≢ a.user_id
      → AreFit ((a, b) ∷ [])
      → IsPass ((a, b) ∷ cs) (try_pair redis env a b p)
  unfolding try_pair
  try_pair-IsPass a b cs p h qa qb ha hb n fit =
      let m = h.made in
      let q = p.world.queue in
      let told : (c : Player)
          → has (ids cs) c.user_id ≡ false
          → Dict.get p.world.conns c.user_id ≡ Dict.get w.conns c.user_id =
        λ c k. m.conns c.user_id ∙ rw k refl in
      let claim =
        pair-claims redis env now mode w.queue.tables waiting a b q h.quiet qa.0 qb.0
          (ground (arith, m.queue a.user_id)) (ground (arith, m.queue b.user_id)) in
      rw (claim, try_pair)
        (record {
          made = record {
            distinct = ground (arith, m.distinct);
            fit = (fit.0, fit.1, fit.2, m.fit);
            queue = λ u. ground (
              arith,
              m.queue u,
              string_eq.same_iff (queue_key mode) (queue_key mode),
              hget-hdel (hdel (queue_key mode) a.user_id q.tables) (queue_key mode) (queue_key mode)
                  b.user_id u,
              hget-hdel q.tables (queue_key mode) (queue_key mode) a.user_id u,
            );
            conns = λ u. ground (
              arith,
              m.conns u,
              get-remove (Dict.remove p.world.conns a.user_id) b.user_id u,
              get-remove p.world.conns a.user_id u,
            );
            modes = λ u. ground (
              arith,
              m.modes u,
              get-remove (Dict.remove p.world.modes a.user_id) b.user_id u,
              get-remove p.world.modes a.user_id u,
            );
            rooms = omega (arith, m.rooms);
            acts = rw (told a ha, told b hb, m.acts, m.rooms) (++_assoc w.acts (announced cs) _);
          };
          quiet = refl;
          paired = ap (λ l. b.user_id ∷ a.user_id ∷ l) h.paired;
        })

  module _ (queued : (c : Player) → Among c waiting → InQueue c) where
    consider-IsPass :
        (c : Player) (cs : Couples) (p : Pass redis env)
        → Among c waiting
        → IsPass cs p
        → (ds : Couples) × IsPass ds (consider redis env now waiting c p)
    unfolding consider
    consider-IsPass c cs p a h = elim (Bool-cases (has p.paired c.user_id)) [
      | inl old ↦ rw old (cs, h)
      | inr new ↦ rw new (elim (Option-cases (choose env now c (available c p.paired waiting))) [
        | inl e ↦ rw e (cs, h)
        | inr (o, e) ↦
            let (found, _, why) = choose-best env now c (available c p.paired waiting) o e in
            let (waits, n, u) = available-Among c p.paired waiting o found in
            let near : IsPartner c env.level_dist o
                ⊎ (past_fallback_deadline now c.enqueued_at env.fallback_after ≡ true) =
              elim why [ inl x ↦ inl x.0 | inr x ↦ inr x.0 ] in
            rw e (
              (c, o) ∷ cs,
              try_pair-IsPass c o cs p h (queued c a) (queued o waits)
                  (ap (λ l. has l c.user_id) (sym h.paired) ∙ new)
                  (ap (λ l. has l o.user_id) (sym h.paired) ∙ u) n (a, waits, near, tt),
            )
      ])
    ]

    pass_over-IsPass :
        (xs : List Player) (cs : Couples) (p : Pass redis env)
        → ((c : Player) → Among c xs → Among c waiting)
        → IsPass cs p
        → (ds : Couples) × IsPass ds (pass_over redis env now waiting xs p)
    unfolding pass_over
    pass_over-IsPass [] cs p sub h = (cs, h)
    pass_over-IsPass (c ∷ xs) cs p sub h =
        let (ds, h') = consider-IsPass c cs p (sub c (inl refl)) h in
        pass_over-IsPass xs ds (consider redis env now waiting c p) (λ d a. sub d (inr a)) h'

module _ (redis : Hash Value) (env : Env) (now : ℕ) (mode : String) (w : World redis) where
  refreshed-AreMade :
      (n : ℕ) (cs : Couples) (v : World redis)
      → v.queue.fates ≡ []
      → AreMade redis env now mode (listed redis env now mode w) w cs v
      → AreMade redis env now mode (listed redis env now mode w) w cs (refreshed redis env mode n v)
  refreshed-AreMade n cs v q m = record {
    distinct = m.distinct;
    fit = m.fit;
    queue = λ u. refreshed-hget redis env now mode w n u v q ∙ m.queue u;
    conns = λ u. ground (arith, m.conns u);
    modes = λ u. ground (arith, m.modes u);
    rooms = ground (arith, m.rooms);
    acts = ground (arith, m.acts);
  }

  -- Whom a tick pairs while Redis answers, and what it does to them: there is a list of pairs, in
  -- which no id stands twice. Both of a pair wait in the mode's queue; their levels are within the
  -- configured distance, or the first has waited as long as the fallback asks. Exactly the paired
  -- users have left the queue, the connections and the modes. Each of a pair is sent, on the
  -- connection it had, the other's id and the pair's room, the generator's next id; a connection
  -- that cannot be sent to is closed; nothing else is sent or closed. Of two players who waited and
  -- were not paired, neither is within the distance of the other.
  pub tick_mode-AreMade :
      w.queue.fates ≡ []
      → (cs : Couples) × AreMade redis env now mode
          (listed redis env now mode w)
          w
          cs
          (tick_mode redis env now mode w)
        × ((c : Player)
            → Among c (listed redis env now mode w)
            → IsSettled redis env now mode w.queue.tables (listed redis env now mode w) (ids cs) c)
  unfolding tick_mode
  tick_mode-AreMade q =
      let waiting = listed redis env now mode w in
      let start : IsPass redis env now mode waiting w [] (record { world = w; paired = [] }) =
        record {
          made = record {
            distinct = tt;
            fit = tt;
            queue = λ u. refl;
            conns = λ u. refl;
            modes = λ u. refl;
            rooms = omega arith;
            acts = sym (++_nil w.acts);
          };
          quiet = q;
          paired = refl;
        } in
      let (cs, p) =
        pass_over-IsPass redis env now mode waiting w (listed-queued redis env now mode w) waiting
          [] (record { world = w; paired = [] }) (λ c a. a) start in
      let (_, _, settled) =
        pass_over-IsSettled redis env now mode w.queue.tables waiting
          (listed-queued redis env now mode w) waiting (record { world = w; paired = [] })
          (λ c a. a) (record { quiet = q; queue = λ u. refl }) in
      rw (list_waiting-listed redis env now mode w q, tick_mode)
        (
          cs,
          refreshed-AreMade _ cs _ p.quiet p.made,
          λ c a.
              subst (λ l. IsSettled redis env now mode w.queue.tables waiting l c) p.paired
                (settled c a),
        )
