-- ===== src/Media/KingClips.antt =====
-- services/media/internal/api/repository/king_clip_repository.go. The time that now() reads is an
-- argument.
use full.Base.{
  ℕ, suc, Bool, not, ◌&&◌, ◌||◌, Option, none, some, List, [], ◌∷◌, map, String, ltb, ◌==◌, nat_eq,
  string_eq, if◌then◌else◌, any, filter, sort_by,
}
use full.Base.Int.{pos, ltb_ℤ, leb_ℤ}
use full.Base.Db.{Db, statement, ◌>>=◌}
use full.Media.Clip.{KingClip}
use full.Media.Clips.{Tables, Fault, king_clip_not_found, duplicate_key, or_raise}

-- createKingClipSQL: no row where the key is taken (the unique index on object_key).
unfoldable pub insert_king_clip : ℕ → KingClip → Tables → Option KingClip × Tables
insert_king_clip now clip t =
    let created = record clip { id = t.next_king_clip; created_at = now } in
    if any (λ c. c.object_key == clip.object_key) t.king_clips
    then (none, record t { next_king_clip = suc t.next_king_clip })
    else (
      some created,
      record t { king_clips = created ∷ t.king_clips; next_king_clip = suc t.next_king_clip },
    )

-- Create
unfoldable pub create : ℕ → KingClip → Db Fault Tables KingClip
create now clip = do row ← statement (insert_king_clip now clip); or_raise duplicate_key row

-- ORDER BY created_at DESC, id DESC
abbrev pub newer : KingClip → KingClip → Bool
newer c d = ltb d.created_at c.created_at || ((c.created_at == d.created_at) && ltb d.id c.id)

abbrev pub first : List KingClip → Option KingClip
first [] = none
first (c ∷ cs) = some c

-- getCurrentKingClipSQL
unfoldable pub select_current : ℕ → String → List KingClip → Option KingClip
select_current now hill_type clips =
    first (
      sort_by newer
        (filter (λ c. (c.hill_type == hill_type) && ltb_ℤ (pos now) c.expires_at) clips))

-- GetCurrent
unfoldable pub get_current : ℕ → String → Db Fault Tables KingClip
get_current now hill_type = do
  row ← statement (λ t. (select_current now hill_type t.king_clips, t))
  or_raise king_clip_not_found row

unfoldable pub find_king_clip : ℕ → List KingClip → Option KingClip
find_king_clip id [] = none
find_king_clip id (c ∷ cs) = if c.id == id then some c else find_king_clip id cs

-- GetByID
unfoldable pub get_by_id : ℕ → Db Fault Tables KingClip
get_by_id id = do
  row ← statement (λ t. (find_king_clip id t.king_clips, t))
  or_raise king_clip_not_found row

-- DELETE FROM king_clips WHERE, RETURNING object_key
abbrev pub delete_where : (KingClip → Bool) → Tables → List String × Tables
delete_where p t = (
  map (λ c. c.object_key) (filter p t.king_clips),
  record t { king_clips = filter (λ c. not (p c)) t.king_clips },
)

abbrev pub first_key : List String → Option String
first_key [] = none
first_key (k ∷ ks) = some k

-- deleteKingClipSQL
unfoldable pub delete_king_clip : ℕ → Tables → Option String × Tables
delete_king_clip id t = let out = delete_where (λ c. c.id == id) t in (first_key out.0, out.1)

-- Delete
unfoldable pub delete : ℕ → Db Fault Tables String
delete id = do row ← statement (delete_king_clip id); or_raise king_clip_not_found row

-- deleteSupersededByHillSQL
unfoldable pub superseded : String → ℕ → Tables → List String × Tables
superseded hill_type keep_id = delete_where (λ c. (c.hill_type == hill_type) && ltb c.id keep_id)

-- DeleteSupersededByHill
unfoldable pub delete_superseded_by_hill : String → ℕ → Db Fault Tables (List String)
delete_superseded_by_hill hill_type keep_id = statement (superseded hill_type keep_id)

-- DeleteExpired
unfoldable pub delete_expired : ℕ → Db Fault Tables (List String)
delete_expired now = statement (delete_where (λ c. leb_ℤ c.expires_at (pos now)))
