-- ===== src/Matchmaking/Settled.antt =====
-- What one pass settles of the queue while Redis answers: services/matchmaking/internal/api/
-- service/matchmaking_service.go over queue_repository.go.
use mathlib.Core.Path.{subst}
use full.Base.{
  ℕ, ◌≡◌, ◌≢◌, refl, ◌⊎◌, inl, inr, true, false, none, List, [], ◌∷◌, arith, String, nat_eq,
  string_eq, if◌then◌else◌, sym, Bool-cases, Option-cases,
}
use full.Base.Db.{Conn, ok, statement}
use full.Base.Redis.Hash.{Hash, exists, Listed}
use full.Matchmaking.Player.{Player}
use full.Matchmaking.Nearest.{Among, IsPartner}
use full.Matchmaking.Queue.{Value, Entry, entry, corrupted, queue_key, decode, pair, pair_script}
use full.Matchmaking.Choice.{Env, has, available, choose}
use full.Matchmaking.Pairing.{available-Among, Among-available, choose-best, choose-none}
use full.Matchmaking.Service.{Pass, try_pair, consider, pass_over}

-- The players of a mode are the entries of its hash.
abbrev pub player_of : String → ℕ → Entry → Player
player_of mode u e = record {
  user_id = u;
  mode = mode;
  level = e.level;
  enqueued_at = e.enqueued_at;
}

pub decode-Among :
    (mode : String) (raw : List (ℕ × Value)) (w : Player)
    → Among w (decode mode raw)
    → (w.mode ≡ mode)
      × Listed w.user_id (entry (record { level = w.level; enqueued_at = w.enqueued_at })) raw
unfolding decode
decode-Among mode [] w a = elim a [ ]
decode-Among mode ((u, entry e) ∷ raw) w a = ground (arith, decode-Among mode raw w)
decode-Among mode ((u, corrupted) ∷ raw) w a = ground (arith, decode-Among mode raw w)

pub Among-decode :
    (mode : String) (raw : List (ℕ × Value)) (u : ℕ) (e : Entry)
    → Listed u (entry e) raw
    → Among (player_of mode u e) (decode mode raw)
unfolding decode
Among-decode mode [] u e a = elim a [ ]
Among-decode mode ((v, entry d) ∷ raw) u e a = ground (arith, Among-decode mode raw u e)
Among-decode mode ((v, corrupted) ∷ raw) u e a = ground (arith, Among-decode mode raw u e)

abbrev Grows : List ℕ → List ℕ → Type 0
Grows old new = (u : ℕ) → has new u ≡ false → has old u ≡ false

Grows-two : (a b : ℕ) (old new : List ℕ) → new ≡ b ∷ a ∷ old → Grows old new
Grows-two a b old new e u k = ground arith

has_second : (a b : ℕ) (old new : List ℕ) → new ≡ b ∷ a ∷ old → has new a ≡ true
has_second a b old new e = ground arith

has-Grows : (old new : List ℕ) (u : ℕ) → Grows old new → has old u ≡ true → has new u ≡ true
has-Grows old new u g h = ground (arith, g u)

module _ (redis : Hash Value) (env : Env) (now : ℕ) (mode : String) (s : redis.Store)
    (waiting : List Player) where
  open redis use {Store, hget, hdel, hget-hdel}

  -- Redis answers, and the queue has lost exactly the players paired so far.
  pub record IsSound (p : Pass redis env) : Type 0 where
    pub quiet : p.world.queue.fates ≡ []
    pub queue :
        (u : ℕ)
        → hget p.world.queue.tables (queue_key mode) u
          ≡ (if has p.paired u then none else hget s (queue_key mode) u)

  abbrev InQueue : Player → Type 0
  InQueue w = (w.mode ≡ mode) × (exists (hget s (queue_key mode) w.user_id) ≡ true)

  pub pair-claims :
      (a b : Player) (c : Conn Store)
      → c.fates ≡ []
      → a.mode ≡ mode
      → b.mode ≡ mode
      → exists (hget c.tables (queue_key mode) a.user_id) ≡ true
      → exists (hget c.tables (queue_key mode) b.user_id) ≡ true
      → pair redis a b c ≡ (
        ok true,
        record {
          tables = hdel (queue_key mode) b.user_id (hdel (queue_key mode) a.user_id c.tables);
          fates = [];
        },
      )
  unfolding pair pair_script statement
  pair-claims a b c q ma mb ha hb = rw (ma, mb) (ground arith)

  try_pair-claims :
      (a b : Player) (p : Pass redis env)
      → IsSound p
      → InQueue a
      → InQueue b
      → has p.paired a.user_id ≡ false
      → has p.paired b.user_id ≡ false
      → (IsSound (try_pair redis env a b p))
        × ((try_pair redis env a b p).paired ≡ b.user_id ∷ a.user_id ∷ p.paired)
  unfolding try_pair
  try_pair-claims a b p h qa qb ha hb =
      let claim =
        pair-claims a b p.world.queue h.quiet qa.0 qb.0 (ground (arith, h.queue a.user_id))
          (ground (arith, h.queue b.user_id)) in
      rw (claim, try_pair)
        (
          record {
            quiet = refl;
            queue = λ u. ground (
              arith,
              h.queue u,
              string_eq.same_iff (queue_key mode) (queue_key mode),
              hget-hdel (hdel (queue_key mode) a.user_id p.world.queue.tables) (queue_key mode)
                  (queue_key mode) b.user_id u,
              hget-hdel p.world.queue.tables (queue_key mode) (queue_key mode) a.user_id u,
            );
          },
          refl,
        )

  -- What a candidate's round achieves: it is paired, or nobody unpaired is within its distance.
  abbrev pub IsSettled : List ℕ → Player → Type 0
  IsSettled paired c =
      (has paired c.user_id ≡ true)
      ⊎ ((w : Player)
          → Among w waiting
          → w.user_id ≢ c.user_id
          → has paired w.user_id ≡ false
          → ¬ IsPartner c env.level_dist w)

  module _ (queued : (w : Player) → Among w waiting → InQueue w) where
    consider-IsSettled :
        (c : Player) (p : Pass redis env)
        → Among c waiting
        → IsSound p
        → let q = consider redis env now waiting c p in
          IsSound q × Grows p.paired q.paired × IsSettled q.paired c
    unfolding consider
    consider-IsSettled c p a h = elim (Bool-cases (has p.paired c.user_id)) [
      | inl old ↦ rw old (h, λ u k. k, inl old)
      | inr new ↦ rw new (elim (Option-cases (choose env now c (available c p.paired waiting))) [
        | inl e ↦ rw e (
          h,
          λ u k. k,
          inr λ w b n u.
              choose-none env now c (available c p.paired waiting) e w
                (Among-available c p.paired waiting w b n u),
        )
        | inr (o, e) ↦
            let (found, _, _) = choose-best env now c (available c p.paired waiting) o e in
            let (waits, _, u) = available-Among c p.paired waiting o found in
            let (sound, now_paired) = try_pair-claims c o p h (queued c a) (queued o waits) new u in
            rw e (sound, Grows-two _ _ _ _ now_paired, inl (has_second _ _ _ _ now_paired))
      ])
    ]

    IsSettled-Grows :
        (old new : List ℕ) (c : Player) → Grows old new → IsSettled old c → IsSettled new c
    IsSettled-Grows old new c g (inl h) = inl (has-Grows old new c.user_id g h)
    IsSettled-Grows old new c g (inr h) = inr λ w a n u. h w a n (g w.user_id u)

    pub pass_over-IsSettled :
        (cs : List Player) (p : Pass redis env)
        → ((c : Player) → Among c cs → Among c waiting)
        → IsSound p
        → let q = pass_over redis env now waiting cs p in
          IsSound q × Grows p.paired q.paired × ((c : Player) → Among c cs → IsSettled q.paired c)
    unfolding pass_over
    pass_over-IsSettled [] p sub h = (h, λ u k. k, λ c a. elim a [ ])
    pass_over-IsSettled (c ∷ cs) p sub h =
        let (sound, grows, settled) = consider-IsSettled c p (sub c (inl refl)) h in
        let (sound', grows', settled') =
          pass_over-IsSettled cs (consider redis env now waiting c p) (λ d a. sub d (inr a))
            sound in
        (
          sound',
          λ u k. grows u (grows' u k),
          λ d a. elim a [
            | inl e ↦
                subst (IsSettled (pass_over redis env now waiting (c ∷ cs) p).paired) (sym e)
                  (IsSettled-Grows _ _ c grows' settled)
            | inr a' ↦ settled' d a'
          ],
        )
