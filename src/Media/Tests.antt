-- ===== src/Media/Tests.antt =====
-- Concrete inputs for services/media.
use full.Base.{
  ℕ, ◌≡◌, ◌≢◌, ◌≤◌, refl, ◌⊎◌, inr, none, some, [], ◌∷◌, String, arith, ◌==◌, nat_eq, string_eq,
  if◌then◌else◌, count_p,
}
use full.Base.Int.{pos, ◌+ℤ◌}
use full.Base.Dict
use full.Base.Dict.{Dict, get-put, get-remove}
use full.Base.Db.{Conn, Result, ok, answered, refused, pure, raise, statement, ◌>>=◌}
use full.Base.Http.{status_of}
use full.Base.Text.{digit, digits, format_int}
use full.Media.Clip.{
  Clip, KingClip, unconverted, pending, done, failed, max_clips_per_user, build_object_key,
  build_mp4_key, valid_content_type, valid_hill_type, build_king_clip_object_key,
}
use full.Media.Clips.{Tables, Fault, find_clip, create, insert_clip}
use full.Media.Upload.{World, upload, keep, put_object, download_url}
use full.Media.Convert.{request, request_convert, get_mp4_url}
use full.Media.Evicted.{upload-Bounded}
use full.Media.Stored.{IsStored, naming, upload-IsStored}
use full.Media.Conversion.{ask_convert, run_job, handle, handle_all, jobs_for}
use full.Media.Moves.{Moved, handle-Moved}
use full.Media.Finality.{handle_all-final, handle_all-stuck}
use full.Media.Converted.{Works, request_convert-get_mp4_url}
use full.Media.KingClips.{insert_king_clip, delete_superseded_by_hill, superseded}
use full.Media.KingClips
use full.Media.KingUpload
use full.Media.KingUpload.{Config, current_url}
use full.Media.Reign.{upload-Reigns}
use full.Media.Hidden.{request-hidden}
use full.Media.Handlers.{get_mp4}
use full.Media.Replies.{mp4_status, get_mp4-status}
use full.Media.Samples.{
  objects, presign, first_key, clip, rows, archive, shaky, smooth, events, rows-IsTable,
  shaky-IsTidy, shaky-found,
}

handle-Moved_example :
    Moved
      (clip pending)
      (find_clip 1 (handle objects (pos 100) (ask_convert 7 1) (shaky pending)).conn.tables.clips)
handle-Moved_example =
    handle-Moved (pos 100) (ask_convert 7 1) (shaky pending) 1 (clip pending) (shaky-IsTidy pending)
      (shaky-found pending)

handle_all-final_example :
    let left = find_clip 1 (handle_all objects (pos 100) events (shaky done)).conn.tables.clips in
    (left ≡ some (clip done)) ⊎ (left ≡ none)
handle_all-final_example =
    handle_all-final (pos 100) events (shaky done) 1 (clip done) (shaky-IsTidy done)
      (shaky-found done) refl

handle_all-stuck_example :
    let left =
      find_clip 1 (handle_all objects (pos 100) events (shaky pending)).conn.tables.clips in
    (left ≡ some (clip pending)) ⊎ (left ≡ none)
unfolding jobs_for
handle_all-stuck_example =
    handle_all-stuck (pos 100) events (shaky pending) 1 (clip pending) (shaky-IsTidy pending)
      (shaky-found pending) refl refl

abbrev new_key : String
new_key = "clips/7/b.webm"

abbrev added : Clip
added = record {
  id = 2;
  user_id = 7;
  object_key = new_key;
  mode = "default";
  result = "win";
  content_type = "video/webm";
  size_bytes = pos 9;
  created_at = 20;
  mp4_object_key = "";
  conversion_status = unconverted;
}

abbrev uploading : World objects → Result Fault Clip × World objects
uploading w = upload objects (pos 100) "b" 20 7 "video/webm" (pos 9) (some 66) w

uploads : (uploading (archive done)).0 ≡ ok added
unfolding upload keep put_object create insert_clip statement pure raise ◌>>=◌ valid_content_type
    build_object_key format_int digits digit
uploads = refl

upload-Bounded_example :
    let t = (uploading (archive done)).1.conn.tables in
    (count_p (λ (c : Clip). c.user_id == 7) t.clips ≤ max_clips_per_user)
    × (find_clip 2 t.clips ≡ some added)
    × (added.user_id ≡ 7)
    × ((id : ℕ) (c : Clip)
        → find_clip id (archive done).conn.tables.clips ≡ some c
        → c.user_id ≢ 7
        → find_clip id t.clips ≡ some c)
upload-Bounded_example =
    upload-Bounded objects (pos 100) "b" 20 7 "video/webm" (pos 9) (some 66) (archive done) added
      refl (rows-IsTable done) refl uploads

naming-rows : (k : String) → naming k (clip done ∷ []) ≡ (if first_key == k then 1 else 0)
unfolding naming
naming-rows k = ground arith

shaky-IsStored : IsStored objects (shaky done)
unfolding Dict.get
shaky-IsStored = record {
  single = λ k. ground (arith, naming-rows k);
  held = λ k h. ground (arith, h, naming-rows k);
}

new_key-free : naming (build_object_key 7 "b") (clip done ∷ []) ≡ 0
unfolding naming build_object_key format_int digits digit
new_key-free = refl

upload-IsStored_example : IsStored objects (uploading (shaky done)).1
upload-IsStored_example =
    upload-IsStored objects (pos 100) "b" 20 7 "video/webm" (pos 9) (some 66) (shaky done)
      shaky-IsStored new_key-free (λ e. cc)

smooth-Works : Works smooth 55 56
smooth-Works = (refl, refl, refl, refl, refl, refl)

stored-first : objects.read (archive failed).store.tables first_key ≡ some 55
unfolding Dict.get
stored-first = refl

request_convert-get_mp4_url_example :
    let asked = request_convert objects 7 1 (archive failed) in
    let v = handle objects (pos 0) (run_job 0 smooth) asked.1 in
    (asked.0 ≡ ok pending)
    × ((get_mp4_url presign 7 1 v.conn).0 ≡ ok (build_mp4_key 7 (format_int 1)))
    × (objects.read v.store.tables (build_mp4_key 7 (format_int 1)) ≡ some 56)
request_convert-get_mp4_url_example =
    request_convert-get_mp4_url objects presign (build_mp4_key 7 (format_int 1)) smooth 55 56
      (archive failed) (clip failed) 1 refl refl (shaky-found failed) (inr refl) stored-first
      smooth-Works refl

abbrev cfg : Config
cfg = record {
  max_upload_bytes = pos 100;
  daily_ttl = pos 50;
  monthly_ttl = pos 500;
  ranked_ttl = pos 70;
}

abbrev new_king : KingClip
new_king = record {
  id = 2;
  user_id = 7;
  hill_type = "daily";
  object_key = "king-clips/daily/7/b.webm";
  blink_ts_ms = pos 1200;
  created_at = 20;
  expires_at = pos 70;
}

abbrev crowning : Result Fault KingClip × World objects
crowning =
    KingUpload.upload objects cfg "b" 20 7 "daily" (pos 1200) "video/webm" (pos 9) (some 66)
      (archive done)

crowns : crowning.0 ≡ ok new_king
unfolding KingUpload.upload KingUpload.keep KingUpload.term_for put_object KingClips.create
    insert_king_clip statement pure raise ◌>>=◌ valid_content_type valid_hill_type
    build_king_clip_object_key format_int digits digit delete_superseded_by_hill superseded ◌+ℤ◌
crowns = refl

upload-Reigns_example :
    ((current_url presign 60 "daily" crowning.1.conn).0
      ≡ ok ("king-clips/daily/7/b.webm", pos 1200))
    × ((current_url presign 60 "ranked" crowning.1.conn).0
        ≡ (current_url presign 60 "ranked" (archive done).conn).0)
upload-Reigns_example =
    upload-Reigns objects cfg "b" 20 7 "daily" (pos 1200) "video/webm" (pos 9) (some 66)
      (archive done) new_king presign "king-clips/daily/7/b.webm" 60 "ranked" refl refl crowns refl
      refl (ground (arith, string_eq.same_iff "ranked" "daily"))

abbrev blank : Conn Tables
blank = record { tables = rows []; fates = answered ∷ refused ∷ [] }

none-found : find_clip 1 (rows []).clips ≡ none
unfolding find_clip
none-found = refl

request-hidden_example :
    let c = (shaky done).conn in
    ((download_url presign 8 1 c).0 ≡ (download_url presign 8 1 blank).0)
    × ((get_mp4_url presign 8 1 c).0 ≡ (get_mp4_url presign 8 1 blank).0)
    × ((request 8 1 c).0 ≡ (request 8 1 blank).0)
    × ((download_url presign 8 1 c).1.tables ≡ c.tables)
    × ((get_mp4_url presign 8 1 c).1.tables ≡ c.tables)
    × ((request 8 1 c).1.tables ≡ c.tables)
request-hidden_example =
    request-hidden presign 8 1 (shaky done).conn blank (clip done) (shaky-found done) (omega arith)
      none-found refl

get_mp4-status_example :
    let out = get_mp4 presign (some 7) (format_int 1) (archive failed).conn in
    (status_of out.0 ≡ mp4_status presign 7 (find_clip 1 (archive failed).conn.tables.clips))
    × (out.1.tables ≡ (archive failed).conn.tables)
get_mp4-status_example = get_mp4-status presign 6 0 (archive failed).conn refl (omega arith)
