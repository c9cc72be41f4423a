-- ===== src/Media/Handlers.antt =====
-- services/media/internal/api/delivery/clip_handler.go. The user is none where RequireAuth put none
-- into the context; ids of users and rows are positive.
use full.Base.{
  ℕ, zero, suc, Bool, false, not, ◌||◌, Option, none, some, List, map, String, ◌==◌, nat_eq,
  string_eq, if◌then◌else◌,
}
use full.Base.Db.{Conn, Db, Result, ok, err, raised, raise, statement, ◌>>=◌}
use full.Base.Decimal.{parse_int}
use full.Base.Http.{Reply, json, error}
use full.Base.Int.{ℤ, pos, negsuc, leb_ℤ, ltb_ℤ}
use full.Media.Clip.{Clip, ConversionStatus, is_done, content_type_webm}
use full.Media.Objects.{Objects}
use full.Media.Clips.{
  Tables, Fault, invalid_content_type, too_large, body_too_large, clip_not_found,
  conversion_not_done, conversion_failed,
}
use full.Media.Upload.{World, upload, list, download_url}
use full.Media.Convert.{request_convert, get_mp4_url}

-- The body of a request to upload: the header Content-Type, the media type that
-- mime.ParseMediaType finds in it (none for an error), Content-Length, and the bytes.
pub record Content : Type 0 where
  pub content_type : String
  pub media_type : Option String
  pub content_length : ℤ
  pub body : Option ℕ

abbrev pub is_webm : Option String → Bool
is_webm none = false
is_webm (some media_type) = media_type == content_type_webm

-- clipResponse
pub record ClipResponse : Type 0 where
  pub id : ℕ
  pub mode : String
  pub result : String
  pub created_at : ℕ

abbrev pub response_of : Clip → ClipResponse
response_of c = record { id = c.id; mode = c.mode; result = c.result; created_at = c.created_at }

abbrev pub unauthorized : {A : Type 0} → Reply A
unauthorized = error 401 "unauthorized"

abbrev pub internal_error : {A : Type 0} → Reply A
internal_error = error 500 "internal server error"

abbrev pub uploaded : Result Fault Clip → Reply ℕ
uploaded (ok clip) = json 201 clip.id
uploaded (err (raised invalid_content_type)) = error 400 "invalid content type"
uploaded (err (raised too_large)) = error 400 "file too large"
uploaded (err (raised body_too_large)) = error 400 "file too large"
uploaded (err _) = internal_error

abbrev pub listed : Result Fault (List Clip) → Reply (List ClipResponse)
listed (ok clips) = json 200 (map response_of clips)
listed (err e) = internal_error

abbrev pub downloaded : Result Fault String → Reply String
downloaded (ok url) = json 200 url
downloaded (err (raised clip_not_found)) = error 404 "not found"
downloaded (err _) = internal_error

abbrev pub asked : Result Fault ConversionStatus → Reply ConversionStatus
asked (ok status) = json (if is_done status then 200 else 202) status
asked (err (raised clip_not_found)) = error 404 "not found"
asked (err _) = error 500 "internal error"

abbrev pub located : Result Fault String → Reply String
located (ok url) = json 200 url
located (err (raised clip_not_found)) = error 404 "not found"
located (err (raised conversion_not_done)) = error 409 "conversion not complete"
located (err (raised conversion_failed)) = error 422 "conversion failed"
located (err _) = error 500 "internal error"

-- A query for a row with a negative id finds none.
abbrev pub no_row : {A : Type 0} → Db Fault Tables A
no_row = statement (λ t. (tt, t)) >>= λ _. raise clip_not_found

module _ (presign : String → Option String) where
  abbrev pub download_at : ℕ → Option ℤ → Conn Tables → Reply String × Conn Tables
  download_at user_id none c = (error 400 "invalid clip id", c)
  download_at user_id (some (pos id)) c =
      let out = download_url presign user_id id c in (downloaded out.0, out.1)
  download_at user_id (some (negsuc n)) c = let out = no_row c in (downloaded out.0, out.1)

  -- clipHandler.Download
  unfoldable pub download : Option ℕ → String → Conn Tables → Reply String × Conn Tables
  download none param c = (unauthorized, c)
  download (some user_id) param c = download_at user_id (parse_int param) c

  abbrev pub mp4_at : ℕ → Option ℤ → Conn Tables → Reply String × Conn Tables
  mp4_at user_id (some (pos (suc n))) c =
      let out = get_mp4_url presign user_id (suc n) c in (located out.0, out.1)
  mp4_at user_id _ c = (error 400 "invalid clip id", c)

  -- clipHandler.GetMP4
  unfoldable pub get_mp4 : Option ℕ → String → Conn Tables → Reply String × Conn Tables
  get_mp4 none param c = (unauthorized, c)
  get_mp4 (some zero) param c = (unauthorized, c)
  get_mp4 (some (suc u)) param c = mp4_at (suc u) (parse_int param) c

-- clipHandler.List
unfoldable pub list_clips : Option ℕ → Conn Tables → Reply (List ClipResponse) × Conn Tables
list_clips none c = (unauthorized, c)
list_clips (some user_id) c = let out = list user_id c in (listed out.0, out.1)

module _ (objects : Objects) where
  -- clipHandler.Upload
  unfoldable pub upload_clip :
      ℤ → String → ℕ → Option ℕ → Content → World objects → Reply ℕ × World objects
  upload_clip max_bytes uuid now none content w = (unauthorized, w)
  upload_clip max_bytes uuid now (some user_id) content w =
      let out =
        upload objects max_bytes uuid now user_id content.content_type content.content_length
          content.body w in
      if not (is_webm content.media_type)
      then (error 400 "invalid content type", w)
      else if leb_ℤ content.content_length (pos 0) || ltb_ℤ max_bytes content.content_length
      then (error 400 "file too large", w)
      else (uploaded out.0, out.1)

  abbrev pub convert_at : ℕ → Option ℤ → World objects → Reply ConversionStatus × World objects
  convert_at user_id (some (pos (suc n))) w =
      let out = request_convert objects user_id (suc n) w in (asked out.0, out.1)
  convert_at user_id _ w = (error 400 "invalid clip id", w)

  -- clipHandler.Convert
  unfoldable pub convert :
      Option ℕ → String → World objects → Reply ConversionStatus × World objects
  convert none param w = (unauthorized, w)
  convert (some zero) param w = (unauthorized, w)
  convert (some (suc u)) param w = convert_at (suc u) (parse_int param) w
