-- ===== src/Media/Upload.antt =====
-- services/media/internal/api/service/clip_service.go: Upload, List and DownloadURL. A cleanup that
-- fails is logged and dropped.
use full.Base.{ℕ, not, ◌||◌, Option, none, some, List, [], ◌∷◌, String, ◌==◌, nat_eq, if◌then◌else◌}
use full.Base.Int.{ℤ, pos, leb_ℤ, ltb_ℤ}
use full.Base.Db.{Db, Conn, Result, ok, err, raised, raise, statement, ◌>>=◌}
use full.Media.Clip.{
  Clip, unconverted, content_type_webm, max_clips_per_user, valid_content_type, build_object_key,
}
use full.Media.Objects.{Objects}
use full.Media.Clips.{
  Tables, Fault, invalid_content_type, too_large, body_too_large, clip_not_found, no_url, or_raise,
  create, list_by_user, get_by_id, delete_oldest_beyond_limit,
}

-- A goroutine that doConvert runs in, with its arguments.
pub record Job : Type 0 where
  pub webm_key : String
  pub mp4_key : String
  pub clip_id : ℕ

-- ClipService.List
unfoldable pub list : ℕ → Db Fault Tables (List Clip)
list user_id = list_by_user user_id

-- DownloadURL; `presign` is what PresignedGetURL answers for a key, none for an error.
unfoldable pub download_url : (String → Option String) → ℕ → ℕ → Db Fault Tables String
download_url presign user_id clip_id = do
  clip ← get_by_id clip_id
  if not (clip.user_id == user_id)
      then raise clip_not_found
      else or_raise no_url (presign clip.object_key)

module _ (objects : Objects) where
  pub record World : Type 0 where
    pub conn : Conn Tables
    pub store : Conn objects.Store
    pub jobs : List Job

  -- Put of a body, none where reading it passes the limit of http.MaxBytesReader.
  unfoldable pub put_object : String → Option ℕ → Db Fault objects.Store (Unit {0})
  put_object key none = raise body_too_large
  put_object key (some body) = statement (λ s. (tt, objects.put key body s))

  unfoldable pub remove_object : String → Db Fault objects.Store (Unit {0})
  remove_object key = statement (λ s. (tt, objects.remove key s))

  -- The loop over the keys that were evicted.
  unfoldable pub remove_objects : List String → Conn objects.Store → Conn objects.Store
  remove_objects [] s = s
  remove_objects (k ∷ ks) s = remove_objects ks (remove_object k s).1

  abbrev pub evicted : World → Result Fault (List String) × Conn Tables → World
  evicted w (err e, c) = record w { conn = c }
  evicted w (ok keys, c) = record w { conn = c; store = remove_objects keys w.store }

  unfoldable pub evict : ℕ → World → World
  evict user_id w = evicted w (delete_oldest_beyond_limit user_id max_clips_per_user w.conn)

  abbrev pub recorded : Clip → World → Result Fault Clip × Conn Tables → Result Fault Clip × World
  recorded clip w (err e, c) =
      (err e, record w { conn = c; store = (remove_object clip.object_key w.store).1 })
  recorded clip w (ok created, c) = (ok created, evict clip.user_id (record w { conn = c }))

  abbrev pub stored :
      ℕ → Clip → World → Result Fault (Unit {0}) × Conn objects.Store → Result Fault Clip × World
  stored now clip w (err e, s) = (err e, record w { store = s })
  stored now clip w (ok _, s) = recorded clip (record w { store = s }) (create now clip w.conn)

  abbrev pub new_clip : ℕ → String → ℤ → Clip
  new_clip user_id uuid size = record {
    id = 0;
    user_id = user_id;
    object_key = build_object_key user_id uuid;
    mode = "default";
    result = "win";
    content_type = content_type_webm;
    size_bytes = size;
    created_at = 0;
    mp4_object_key = "";
    conversion_status = unconverted;
  }

  -- Put, Create and the eviction, past the checks.
  unfoldable pub keep : ℕ → Clip → Option ℕ → World → Result Fault Clip × World
  keep now clip body w = stored now clip w (put_object clip.object_key body w.store)

  -- Upload; `uuid` is what the generator returns.
  unfoldable pub upload :
      ℤ → String → ℕ → ℕ → String → ℤ → Option ℕ → World → Result Fault Clip × World
  upload max_upload_bytes uuid now user_id content_type size body w =
      if not (valid_content_type content_type)
      then (err (raised invalid_content_type), w)
      else if leb_ℤ size (pos 0) || ltb_ℤ max_upload_bytes size
      then (err (raised too_large), w)
      else keep now (new_clip user_id uuid size) body w
