-- ===== src/Matchmaking/Progress.antt =====
-- What a tick leaves in the queue while Redis answers: services/matchmaking/internal/api/service/
-- matchmaking_service.go over queue_repository.go.
use full.Base.{
  ℕ, ◌≡◌, ◌≢◌, refl, inl, inr, true, false, some, List, [], arith, String, nat_eq, string_eq, sym,
  ◌∙◌,
}
use full.Base.Db.{ok, statement, pure, ◌>>=◌}
use full.Base.Redis.Hash.{Hash, exists}
use full.Matchmaking.Player.{Player}
use full.Matchmaking.Nearest.{Among, IsPartner}
use full.Matchmaking.Queue.{
  Value, Entry, entry, queue_key, decode, refresh, list_waiting, queue_ttl,
}
use full.Matchmaking.Choice.{Env, has}
use full.Matchmaking.Service.{World, Pass, pass_over, tick_mode, refreshed}
use full.Matchmaking.Settled.{
  player_of, decode-Among, Among-decode, IsSound, IsSettled, pass_over-IsSettled,
}

module _ (redis : Hash Value) (env : Env) (now : ℕ) (mode : String) (w : World redis) where
  open redis use {Store, hget, hgetall, hget-expire, hget_of_listed, listed_of_hget}

  unfoldable pub listed : List Player
  listed = decode mode (hgetall w.queue.tables (queue_key mode))

  passed : Pass redis env
  passed = pass_over redis env now listed listed (record { world = w; paired = [] })

  pub list_waiting-listed :
      w.queue.fates ≡ [] → list_waiting redis mode w.queue ≡ (ok listed, w.queue)
  unfolding list_waiting statement pure ◌>>=◌ listed
  list_waiting-listed q = ground arith

  pub refreshed-hget :
      (n u : ℕ) (x : World redis)
      → x.queue.fates ≡ []
      → hget (refreshed redis env mode n x).queue.tables (queue_key mode) u
        ≡ hget x.queue.tables (queue_key mode) u
  unfolding refresh statement
  refreshed-hget n u x q =
      ground (arith, hget-expire x.queue.tables (queue_key mode) (queue_key mode) queue_ttl u)

  tick_mode-hget :
      (u : ℕ)
      → w.queue.fates ≡ []
      → passed.world.queue.fates ≡ []
      → hget (tick_mode redis env now mode w).queue.tables (queue_key mode) u
        ≡ hget passed.world.queue.tables (queue_key mode) u
  unfolding tick_mode passed
  tick_mode-hget u q r = rw (list_waiting-listed q, tick_mode) (refreshed-hget _ u _ r)

  pub listed-queued :
      (p : Player)
      → Among p listed
      → (p.mode ≡ mode) × (exists (hget w.queue.tables (queue_key mode) p.user_id) ≡ true)
  unfolding listed
  listed-queued p a =
      let (m, l) = decode-Among mode (hgetall w.queue.tables (queue_key mode)) p a in
      (m, rw (hget_of_listed w.queue.tables (queue_key mode) p.user_id _ l))

  -- While Redis answers, a tick leaves no two players of the mode in the queue whose levels are
  -- within the configured distance of each other.
  pub tick_mode-separates :
      w.queue.fates ≡ []
      → (u v : ℕ) (d e : Entry) → u ≢ v
      → let t = (tick_mode redis env now mode w).queue.tables in
        hget t (queue_key mode) u ≡ some (entry d)
        → hget t (queue_key mode) v ≡ some (entry e)
        → ¬ IsPartner (player_of mode u d) env.level_dist (player_of mode v e)
  unfolding passed listed
  tick_mode-separates quiet u v d e n hu hv =
      let (sound, _, settled) =
        pass_over-IsSettled redis env now mode w.queue.tables listed listed-queued listed
          (record { world = w; paired = [] }) (λ c a. a)
          (record { quiet = quiet; queue = λ x. refl }) in
      separated sound settled
    where
      remaining :
          IsSound redis env now mode w.queue.tables listed passed
          → (x : ℕ) (f : Entry)
          → hget (tick_mode redis env now mode w).queue.tables (queue_key mode) x ≡ some (entry f)
          → Among (player_of mode x f) listed × (has passed.paired x ≡ false)
      remaining sound x f h =
          let at_end = sym (tick_mode-hget x quiet sound.quiet) ∙ h in
          let unpaired : has passed.paired x ≡ false = ground (arith, sound.queue x) in
          let at_start : hget w.queue.tables (queue_key mode) x ≡ some (entry f) =
            ground (arith, sound.queue x) in
          (Among-decode mode _ x f (listed_of_hget _ _ _ _ at_start), unpaired)

      separated :
          IsSound redis env now mode w.queue.tables listed passed
          → ((c : Player)
              → Among c listed
              → IsSettled redis env now mode w.queue.tables listed passed.paired c)
          → ¬ IsPartner (player_of mode u d) env.level_dist (player_of mode v e)
      separated sound settled =
          let (a, ua) = remaining sound u d hu in
          let (b, ub) = remaining sound v e hv in
          elim (settled (player_of mode u d) a) [
            | inl paired ↦ cc (paired, ua)
            | inr far ↦ far (player_of mode v e) b (λ q. n (sym q)) ub
          ]
