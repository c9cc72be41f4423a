-- ===== src/Matchmaking/Tests.antt =====
-- Concrete inputs for services/matchmaking, and Redis hashes as an association list.
use full.Base.{
  ℕ, ◌≡◌, ◌≢◌, refl, ◌⊎◌, ◌&&◌, true, Option, none, some, List, [], ◌∷◌, String, arith, ◌==◌,
  nat_eq, string_eq, if◌then◌else◌,
}
use full.Base.Int.{ℤ, pos, ◌-ℤ◌}
use full.Base.Dict
use full.Base.Dict.{Dict}
use full.Base.Db.{◌>>=◌, statement, pure}
use full.Base.Redis.Hash.{Hash, Listed}
use full.Matchmaking.Player.{
  Player, nearest_within_distance, is_better, abs, past_fallback_deadline,
}
use full.Matchmaking.Nearest.{Among, Preferred, IsPartner}
use full.Matchmaking.Queue.{
  pair, pair_script, list_waiting, decode, refresh, Value, entry, queue_key,
}
use full.Matchmaking.Choice.{still_waiting, available, send, Env, choose}
use full.Matchmaking.Service.{consider, World, pass_over, tick_mode, try_pair}
use full.Matchmaking.Pairing.{choose-best}
use full.Matchmaking.Couples.{Couples, AreMade, ids, tick_mode-AreMade}
use full.Matchmaking.Settled.{player_of, IsSettled}
use full.Matchmaking.Progress.{listed, tick_mode-separates}
use full.Matchmaking.Serve.{Message, Inbound, message, elsewhere, serve, arrived}
use full.Matchmaking.Unqueued.{AreFair, serve-unqueued}

-- A store: each row is a key, a field and a value, with one row for a key and a field.
abbrev Rows : Type 0
Rows = List (String × ℕ × Value)

look : Rows → String → ℕ → Option Value
look [] k f = none
look ((j, g, v) ∷ s) k f = if j == k && g == f then some v else look s k f

drop : String → ℕ → Rows → Rows
drop k f [] = []
drop k f ((j, g, v) ∷ s) =
    let rest = drop k f s in if j == k && g == f then rest else (j, g, v) ∷ rest

look-drop :
    (s : Rows) (k j : String) (f g : ℕ)
    → look (drop k f s) j g ≡ (if k == j && f == g then none else look s j g)
unfolding look drop
look-drop [] k j f g = ground arith
look-drop ((i, h, v) ∷ s) k j f g = ground (
  arith,
  look-drop s k j f g,
  string_eq.same_iff i k,
  string_eq.same_iff i j,
  string_eq.same_iff k j,
)

-- The visible fields of a key: a row hides the later ones of its field.
all_fields : Rows → String → Dict ℕ Value
all_fields [] k = []
all_fields ((j, g, v) ∷ s) k =
    let rest = all_fields s k in if j == k then (g, v) ∷ Dict.remove rest g else rest

Listed-remove :
    (r : Dict ℕ Value) (g f : ℕ) (v : Value)
    → (Listed f v (Dict.remove r g) → Listed f v r × (f ≢ g))
      × (Listed f v r → f ≢ g → Listed f v (Dict.remove r g))
unfolding Dict.remove
Listed-remove [] g f v = (λ l. elim l [ ], λ l n. l)
Listed-remove ((h, w) ∷ r) g f v = (
  λ l. ground (arith, (Listed-remove r g f v).0),
  λ l n. ground (arith, (Listed-remove r g f v).1),
)

look-all_fields :
    (s : Rows) (k : String) (f : ℕ) (v : Value) → Listed f v (all_fields s k) → look s k f ≡ some v
unfolding look all_fields
look-all_fields [] k f v l = elim l [ ]
look-all_fields ((j, g, w) ∷ s) k f v l =
    ground (arith, look-all_fields s k f v, (Listed-remove (all_fields s k) g f v).0)

all_fields-look :
    (s : Rows) (k : String) (f : ℕ) (v : Value) → look s k f ≡ some v → Listed f v (all_fields s k)
unfolding look all_fields
all_fields-look [] k f v e = cc e
all_fields-look ((j, g, w) ∷ s) k f v e =
    ground (arith, all_fields-look s k f v, (Listed-remove (all_fields s k) g f v).1)

hset-look :
    (s : Rows) (k j : String) (f g : ℕ) (v : Value)
    → look ((k, f, v) ∷ s) j g ≡ (if k == j && f == g then some v else look s j g)
unfolding look
hset-look s k j f g v = refl

abbrev hashes : Hash Value
hashes = record {
  Store = Rows;
  hget = look;
  hset = λ k f v s. (k, f, v) ∷ s;
  hdel = drop;
  expire = λ k t s. s;
  hgetall = all_fields;
  hget-hset = hset-look;
  hget-hdel = look-drop;
  hget-expire = λ s k j t g. refl;
  hget_of_listed = look-all_fields;
  listed_of_hget = all_fields-look;
}

abbrev casual : String
casual = "casual"

abbrev player : ℕ → ℤ → ℕ → Player
player user_id level enqueued_at = record {
  user_id = user_id;
  mode = casual;
  level = level;
  enqueued_at = enqueued_at;
}

abbrev ann : Player
ann = player 1 (pos 4) 100

abbrev others : List Player
others = player 2 (pos 9) 50 ∷ player 3 (pos 5) 80 ∷ player 4 (pos 3) 70 ∷ []

abbrev env : Env
env = record {
  level_dist = pos 1;
  fallback_after = pos 1000;
  room_id = λ n. "room";
  delivers = λ conn msg. true;
}

abbrev hub : World hashes
hub = record {
  conns = [];
  modes = [];
  queue = record { tables = []; fates = [] };
  acts = [];
  rooms = 0;
}

chosen : choose env 200 ann others ≡ some (player 4 (pos 3) 70)
unfolding choose nearest_within_distance is_better abs ◌-ℤ◌ past_fallback_deadline
chosen = refl

choose-best_example :
    let p = player 4 (pos 3) 70 in
    Among p others
    × (p.user_id ≢ ann.user_id)
    × ((IsPartner ann env.level_dist p
          × ((w : Player) → Among w others → IsPartner ann env.level_dist w → ¬ Preferred ann w p))
        ⊎ ((past_fallback_deadline 200 ann.enqueued_at env.fallback_after ≡ true)
            × ((w : Player) → Among w others → ¬ IsPartner ann env.level_dist w)
            × ((w : Player) → Among w others → w.user_id ≢ ann.user_id → ¬ Preferred ann w p)))
choose-best_example = choose-best env 200 ann others (player 4 (pos 3) 70) chosen

abbrev queue : Rows
queue =
    (queue_key casual, 1, entry (record { level = pos 4; enqueued_at = 100 }))
    ∷ (queue_key casual, 2, entry (record { level = pos 9; enqueued_at = 50 }))
    ∷ []

abbrev waiting_hub : World hashes
waiting_hub = record hub { queue = record { tables = queue; fates = [] } }

ticked_one :
    look (tick_mode hashes env 200 casual waiting_hub).queue.tables (queue_key casual) 1
    ≡ some (entry (record { level = pos 4; enqueued_at = 100 }))
unfolding look all_fields drop tick_mode pass_over choose nearest_within_distance is_better abs ◌-ℤ◌
    past_fallback_deadline list_waiting ◌>>=◌ statement pure still_waiting decode Dict.remove
    consider available refresh
ticked_one = refl

ticked_two :
    look (tick_mode hashes env 200 casual waiting_hub).queue.tables (queue_key casual) 2
    ≡ some (entry (record { level = pos 9; enqueued_at = 50 }))
unfolding look all_fields drop tick_mode pass_over choose nearest_within_distance is_better abs ◌-ℤ◌
    past_fallback_deadline list_waiting ◌>>=◌ statement pure still_waiting decode Dict.remove
    consider available refresh
ticked_two = refl

tick_mode-separates_example :
    ¬ IsPartner
      (player_of casual 1 (record { level = pos 4; enqueued_at = 100 }))
      env.level_dist
      (player_of casual 2 (record { level = pos 9; enqueued_at = 50 }))
tick_mode-separates_example =
    tick_mode-separates hashes env 200 casual waiting_hub refl 1 2
      (record { level = pos 4; enqueued_at = 100 }) (record { level = pos 9; enqueued_at = 50 })
      (λ e. cc e) ticked_one ticked_two

-- Three wait, of whom the first two are near enough.
abbrev busy_hub : World hashes
busy_hub = record hub {
  conns = (1, 10) ∷ (3, 30) ∷ (2, 20) ∷ [];
  modes = (1, casual) ∷ (3, casual) ∷ (2, casual) ∷ [];
  queue = record {
    tables = (queue_key casual, 3, entry (record { level = pos 5; enqueued_at = 80 })) ∷ queue;
    fates = [];
  };
}

-- The two are told on their connections.
busy_acts :
    (tick_mode hashes env 200 casual busy_hub).acts
    ≡ send 30 (record { room_id = "room"; opponent = 1 })
      ∷ send 10 (record { room_id = "room"; opponent = 3 })
      ∷ []
unfolding look all_fields drop tick_mode pass_over choose nearest_within_distance is_better abs ◌-ℤ◌
    past_fallback_deadline list_waiting ◌>>=◌ statement pure still_waiting decode Dict.remove
    consider available refresh try_pair pair pair_script Dict.get
busy_acts = refl

tick_mode-AreMade_example :
    let waiting = listed hashes env 200 casual busy_hub in
    (cs : Couples) × AreMade hashes env 200 casual waiting busy_hub cs
      (tick_mode hashes env 200 casual busy_hub)
    × ((c : Player)
        → Among c waiting
        → IsSettled hashes env 200 casual busy_hub.queue.tables waiting (ids cs) c)
tick_mode-AreMade_example = tick_mode-AreMade hashes env 200 casual busy_hub refl

abbrev wanted : String → Message
wanted type = record { type = type; mode = casual; level = pos 3 }

abbrev requests : List (Inbound hashes)
requests =
    message 10 (some (pos 4)) none (wanted "join")
    ∷ elsewhere (λ w. w)
    ∷ message 20 none none (wanted "join")
    ∷ []

requests-AreFair : AreFair hashes 9 900 requests
requests-AreFair = (tt, (λ w. (λ q. q, λ k h. h, λ h. h), (tt, tt)))

abbrev empty_hall : World hashes
empty_hall = record {
  queue = record { tables = []; fates = [] };
  conns = [];
  modes = [];
  acts = [];
  rooms = 0;
}

serve-unqueued_example :
    let v = (serve hashes 9 900 requests (arrived, empty_hall)).1 in
    ((k : String) → look v.queue.tables k 9 ≡ none) × (Dict.get v.conns 9 ≡ none)
unfolding look Dict.get
serve-unqueued_example =
    serve-unqueued hashes 9 900 requests empty_hall requests-AreFair refl (λ k. refl) refl
