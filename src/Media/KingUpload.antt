-- ===== src/Media/KingUpload.antt =====
-- services/media/internal/api/service/king_clip_service.go. A cleanup that fails is logged and
-- dropped.
use full.Base.{ℕ, not, ◌||◌, Option, List, String, ◌==◌, nat_eq, string_eq, if◌then◌else◌}
use full.Base.Int.{ℤ, pos, ◌+ℤ◌, leb_ℤ, ltb_ℤ}
use full.Base.Db.{Db, Conn, Result, ok, err, raised, pure, raise, ◌>>=◌}
use full.Media.Clip.{
  KingClip, hill_type_daily, hill_type_monthly, hill_type_ranked, valid_content_type,
  valid_hill_type, build_king_clip_object_key,
}
use full.Media.Objects.{Objects}
use full.Media.Clips.{
  Tables, Fault, invalid_content_type, too_large, no_url, invalid_hill_type, invalid_blink_ts,
  king_clip_not_found, or_raise,
}
use full.Media.Upload.{World, put_object, remove_object, remove_objects}
use full.Media.KingClips.{
  create, get_current, get_by_id, delete as delete_row, delete_superseded_by_hill,
}

-- KingClipServiceConfig, without the lifetime of URLs.
pub record Config : Type 0 where
  pub max_upload_bytes : ℤ
  pub daily_ttl : ℤ
  pub monthly_ttl : ℤ
  pub ranked_ttl : ℤ

-- termFor
unfoldable pub term_for : Config → String → ℤ
term_for cfg hill_type =
    if hill_type == hill_type_daily
    then cfg.daily_ttl
    else if hill_type == hill_type_monthly
    then cfg.monthly_ttl
    else if hill_type == hill_type_ranked
    then cfg.ranked_ttl
    else pos 0

-- CurrentURL; `presign` is what PresignedGetURL answers for a key, none for an error.
unfoldable pub current_url : (String → Option String) → ℕ → String → Db Fault Tables (String × ℤ)
current_url presign now hill_type =
    if not (valid_hill_type hill_type) then raise invalid_hill_type else (do
      clip ← get_current now hill_type
      url ← or_raise no_url (presign clip.object_key)
      pure (url, clip.blink_ts_ms))

-- The key of the row that is deleted for its owner.
unfoldable pub delete_owned : ℕ → ℕ → Db Fault Tables String
delete_owned user_id id = do
  clip ← get_by_id id
  if not (clip.user_id == user_id) then raise king_clip_not_found else delete_row id

module _ (objects : Objects) where
  abbrev pub superseded_by :
      World objects → Result Fault (List String) × Conn Tables → World objects
  superseded_by w (err e, c) = record w { conn = c }
  superseded_by w (ok keys, c) = record w { conn = c; store = remove_objects objects keys w.store }

  abbrev pub recorded :
      KingClip
      → World objects
      → Result Fault KingClip × Conn Tables
      → Result Fault KingClip × World objects
  recorded clip w (err e, c) =
      (err e, record w { conn = c; store = (remove_object objects clip.object_key w.store).1 })
  recorded clip w (ok created, c) = (
    ok created,
    superseded_by (record w { conn = c }) (delete_superseded_by_hill clip.hill_type created.id c),
  )

  abbrev pub stored :
      ℕ
      → KingClip
      → World objects
      → Result Fault (Unit {0}) × Conn objects.Store
      → Result Fault KingClip × World objects
  stored now clip w (err e, s) = (err e, record w { store = s })
  stored now clip w (ok _, s) = recorded clip (record w { store = s }) (create now clip w.conn)

  abbrev pub new_king_clip : Config → String → ℕ → ℕ → String → ℤ → KingClip
  new_king_clip cfg uuid now user_id hill_type blink_ts_ms = record {
    id = 0;
    user_id = user_id;
    hill_type = hill_type;
    object_key = build_king_clip_object_key hill_type user_id uuid;
    blink_ts_ms = blink_ts_ms;
    created_at = 0;
    expires_at = pos now +ℤ term_for cfg hill_type;
  }

  unfoldable pub keep :
      ℕ → KingClip → Option ℕ → World objects → Result Fault KingClip × World objects
  keep now clip body w = stored now clip w (put_object objects clip.object_key body w.store)

  -- Upload; `uuid` is what the generator returns, and the clock of the service shows `now`, as that
  -- of the database does.
  unfoldable pub upload :
      Config
      → String
      → ℕ
      → ℕ
      → String
      → ℤ
      → String
      → ℤ
      → Option ℕ
      → World objects
      → Result Fault KingClip × World objects
  upload cfg uuid now user_id hill_type blink_ts_ms content_type size body w =
      if not (valid_hill_type hill_type)
      then (err (raised invalid_hill_type), w)
      else if not (valid_content_type content_type)
      then (err (raised invalid_content_type), w)
      else if leb_ℤ size (pos 0) || ltb_ℤ cfg.max_upload_bytes size
      then (err (raised too_large), w)
      else if ltb_ℤ blink_ts_ms (pos 0)
      then (err (raised invalid_blink_ts), w)
      else keep now (new_king_clip cfg uuid now user_id hill_type blink_ts_ms) body w

  abbrev pub removed :
      World objects → Result Fault String × Conn Tables → Result Fault (Unit {0}) × World objects
  removed w (err e, c) = (err e, record w { conn = c })
  removed w (ok key, c) =
      (ok tt, record w { conn = c; store = (remove_object objects key w.store).1 })

  -- Delete
  unfoldable pub delete : ℕ → ℕ → World objects → Result Fault (Unit {0}) × World objects
  delete user_id id w = removed w (delete_owned user_id id w.conn)

  -- ExpireByID
  unfoldable pub expire_by_id : ℕ → World objects → Result Fault (Unit {0}) × World objects
  expire_by_id id w = removed w (delete_row id w.conn)
