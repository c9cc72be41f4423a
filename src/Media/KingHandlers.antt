-- ===== src/Media/KingHandlers.antt =====
-- services/media/internal/api/delivery/king_clip_handler.go. The user is none where RequireAuth put
-- none into the context; ids of users and rows are positive.
use full.Base.{ℕ, suc, not, ◌||◌, Option, none, some, String, if◌then◌else◌}
use full.Base.Db.{Conn, Result, ok, err, raised}
use full.Base.Decimal.{parse_int}
use full.Base.Http.{Reply, json, error, no_content}
use full.Base.Int.{ℤ, pos, leb_ℤ, ltb_ℤ}
use full.Media.Clip.{KingClip, valid_hill_type}
use full.Media.Objects.{Objects}
use full.Media.Clips.{
  Tables, Fault, invalid_content_type, too_large, body_too_large, invalid_hill_type,
  invalid_blink_ts, king_clip_not_found,
}
use full.Media.Upload.{World}
use full.Media.KingUpload.{Config, upload, current_url, delete, expire_by_id}
use full.Media.Handlers.{Content, is_webm, unauthorized, internal_error}

abbrev pub crowned : Result Fault KingClip → Reply ℕ
crowned (ok clip) = json 201 clip.id
crowned (err (raised invalid_hill_type)) = error 400 "invalid hill type"
crowned (err (raised invalid_content_type)) = error 400 "invalid content type"
crowned (err (raised too_large)) = error 400 "file too large"
crowned (err (raised invalid_blink_ts)) = error 400 "invalid blink_ts_ms"
crowned (err (raised body_too_large)) = error 400 "file too large"
crowned (err _) = internal_error

abbrev pub shown : Result Fault (String × ℤ) → Reply (String × ℤ)
shown (ok answer) = json 200 answer
shown (err (raised invalid_hill_type)) = error 400 "invalid hill type"
shown (err (raised king_clip_not_found)) = error 404 "not found"
shown (err _) = internal_error

abbrev pub deleted : Result Fault (Unit {0}) → Reply (Unit {0})
deleted (ok _) = no_content 204
deleted (err (raised king_clip_not_found)) = error 404 "not found"
deleted (err _) = internal_error

-- kingClipHandler.Current
unfoldable pub current :
    (String → Option String)
    → ℕ
    → Option ℕ
    → String
    → Conn Tables
    → Reply (String × ℤ) × Conn Tables
current presign now none hill_type c = (unauthorized, c)
current presign now (some user_id) hill_type c =
    let out = current_url presign now hill_type c in (shown out.0, out.1)

module _ (objects : Objects) where
  abbrev pub upload_at :
      Config
      → String
      → ℕ
      → ℕ
      → String
      → Content
      → World objects
      → Option ℤ
      → Reply ℕ × World objects
  upload_at cfg uuid now user_id hill_type content w none = (error 400 "invalid blink_ts_ms", w)
  upload_at cfg uuid now user_id hill_type content w (some blink_ts_ms) =
      let out =
        upload objects cfg uuid now user_id hill_type blink_ts_ms content.content_type
          content.content_length content.body w in
      if ltb_ℤ blink_ts_ms (pos 0)
      then (error 400 "invalid blink_ts_ms", w)
      else if leb_ℤ content.content_length (pos 0)
          || ltb_ℤ cfg.max_upload_bytes content.content_length
      then (error 400 "file too large", w)
      else (crowned out.0, out.1)

  -- kingClipHandler.Upload
  unfoldable pub upload_king_clip :
      Config
      → String
      → ℕ
      → Option ℕ
      → String
      → String
      → Content
      → World objects
      → Reply ℕ × World objects
  upload_king_clip cfg uuid now none hill_type blink content w = (unauthorized, w)
  upload_king_clip cfg uuid now (some user_id) hill_type blink content w =
      let rest = upload_at cfg uuid now user_id hill_type content w (parse_int blink) in
      if not (is_webm content.media_type)
      then (error 400 "invalid content type", w)
      else if not (valid_hill_type hill_type)
      then (error 400 "invalid hill type", w)
      else rest

  abbrev pub delete_at : ℕ → Option ℤ → World objects → Reply (Unit {0}) × World objects
  delete_at user_id (some (pos (suc n))) w =
      let out = delete objects user_id (suc n) w in (deleted out.0, out.1)
  delete_at user_id _ w = (error 400 "invalid king clip id", w)

  -- kingClipHandler.Delete
  unfoldable pub delete_king_clip :
      Option ℕ → String → World objects → Reply (Unit {0}) × World objects
  delete_king_clip none param w = (unauthorized, w)
  delete_king_clip (some user_id) param w = delete_at user_id (parse_int param) w

  abbrev pub expire_at : Option ℤ → World objects → Reply (Unit {0}) × World objects
  expire_at (some (pos (suc n))) w =
      let out = expire_by_id objects (suc n) w in (deleted out.0, out.1)
  expire_at _ w = (error 400 "invalid king clip id", w)

  -- DeleteInternal
  unfoldable pub delete_internal : String → World objects → Reply (Unit {0}) × World objects
  delete_internal param w = expire_at (parse_int param) w
