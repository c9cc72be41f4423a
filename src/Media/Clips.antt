-- ===== src/Media/Clips.antt =====
-- services/media/internal/api/repository/clip_repository.go over the tables of its migrations. The
-- time at which a statement runs, which the column's default now() reads, is an argument.
use full.Base.{
  ℕ, suc, Bool, true, false, not, ◌&&◌, ◌||◌, Option, none, some, List, [], ◌∷◌, map, String, ltb,
  ◌==◌, nat_eq, string_eq, if◌then◌else◌, any, filter, sort_by, drop,
}
use full.Base.Db.{Db, pure, raise, statement, ◌>>=◌}
use full.Media.Clip.{Clip, KingClip, ConversionStatus, unconverted, pending, done, failed}

-- The tables, and the next values of their identity columns.
pub record Tables : Type 0 where
  pub clips : List Clip
  pub next_clip : ℕ
  pub king_clips : List KingClip
  pub next_king_clip : ℕ

pub data Fault : Type 0 where
  invalid_content_type too_large body_too_large clip_not_found duplicate_key : Fault
  conversion_not_done conversion_failed no_url : Fault
  invalid_hill_type invalid_blink_ts king_clip_not_found : Fault

-- createClipSQL: no row where the key is taken (the unique index on object_key).
unfoldable pub insert_clip : ℕ → Clip → Tables → Option Clip × Tables
insert_clip now clip t =
    let created = record clip {
      id = t.next_clip;
      created_at = now;
      mp4_object_key = "";
      conversion_status = unconverted;
    } in
    if any (λ c. c.object_key == clip.object_key) t.clips
    then (none, record t { next_clip = suc t.next_clip })
    else (some created, record t { clips = created ∷ t.clips; next_clip = suc t.next_clip })

abbrev pub or_raise : {S A : Type 0} → Fault → Option A → Db Fault S A
or_raise e none = raise e
or_raise e (some a) = pure a

-- Create
unfoldable pub create : ℕ → Clip → Db Fault Tables Clip
create now clip = do row ← statement (insert_clip now clip); or_raise duplicate_key row

-- ORDER BY created_at DESC, id DESC
abbrev pub newer : Clip → Clip → Bool
newer c d = ltb d.created_at c.created_at || ((c.created_at == d.created_at) && ltb d.id c.id)

-- listByUserSQL
unfoldable pub select_by_user : ℕ → List Clip → List Clip
select_by_user user_id clips = sort_by newer (filter (λ c. c.user_id == user_id) clips)

-- ListByUser
unfoldable pub list_by_user : ℕ → Db Fault Tables (List Clip)
list_by_user user_id = statement (λ t. (select_by_user user_id t.clips, t))

unfoldable pub find_clip : ℕ → List Clip → Option Clip
find_clip id [] = none
find_clip id (c ∷ cs) = if c.id == id then some c else find_clip id cs

-- GetByID
unfoldable pub get_by_id : ℕ → Db Fault Tables Clip
get_by_id id = do row ← statement (λ t. (find_clip id t.clips, t)); or_raise clip_not_found row

-- The rows of deleteOldestBeyondLimitSQL's subquery.
unfoldable pub beyond_limit : ℕ → ℕ → List Clip → List Clip
beyond_limit user_id limit clips = drop limit (select_by_user user_id clips)

abbrev pub among : List Clip → Clip → Bool
among rows c = any (λ r. r.id == c.id) rows

-- deleteOldestBeyondLimitSQL, with the keys that it returns.
unfoldable pub delete_beyond : ℕ → ℕ → Tables → List String × Tables
delete_beyond user_id limit t =
    let rows = beyond_limit user_id limit t.clips in
    (
      map (λ c. c.object_key) (filter (among rows) t.clips),
      record t { clips = filter (λ c. not (among rows c)) t.clips },
    )

-- DeleteOldestBeyondLimit
unfoldable pub delete_oldest_beyond_limit : ℕ → ℕ → Db Fault Tables (List String)
delete_oldest_beyond_limit user_id limit = statement (delete_beyond user_id limit)

-- UPDATE clips SET mp4_object_key, conversion_status WHERE id
unfoldable pub set_conversion : ℕ → String → ConversionStatus → List Clip → List Clip
set_conversion id mp4_key status [] = []
set_conversion id mp4_key status (c ∷ cs) =
    (if c.id == id then record c { mp4_object_key = mp4_key; conversion_status = status } else c)
    ∷ set_conversion id mp4_key status cs

-- UpdateConversion
unfoldable pub update_conversion : ℕ → String → ConversionStatus → Db Fault Tables (Unit {0})
update_conversion id mp4_key status =
    statement (λ t. (tt, record t { clips = set_conversion id mp4_key status t.clips }))

-- conversion_status IN ('none', 'failed')
abbrev pub is_claimable : ConversionStatus → Bool
is_claimable unconverted = true
is_claimable failed = true
is_claimable pending = false
is_claimable done = false

abbrev pub claimed_row : Option Clip → Bool
claimed_row none = false
claimed_row (some c) = is_claimable c.conversion_status

-- claimConversionSQL: whether a row was changed.
unfoldable pub claim : ℕ → String → Tables → Bool × Tables
claim id mp4_key t =
    let changed = record t { clips = set_conversion id mp4_key pending t.clips } in
    if claimed_row (find_clip id t.clips) then (true, changed) else (false, t)

-- ClaimConversion
unfoldable pub claim_conversion : ℕ → String → Db Fault Tables Bool
claim_conversion id mp4_key = statement (claim id mp4_key)
