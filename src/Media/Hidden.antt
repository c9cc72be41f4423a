-- ===== src/Media/Hidden.antt =====
-- "Do not leak the existence of another user's clip", in
-- services/media/internal/api/service/clip_service.go and king_clip_service.go.
use full.Base.{ℕ, ◌≡◌, ◌≢◌, none, some, Option, String, arith, nat_eq}
use full.Base.Db.{Conn, pure, raise, statement, ◌>>=◌}
use full.Media.Clip.{Clip, KingClip}
use full.Media.Clips.{Tables, find_clip, get_by_id}
use full.Media.Upload.{download_url}
use full.Media.Convert.{request, get_mp4_url}
use full.Media.KingClips
use full.Media.KingClips.{find_king_clip}
use full.Media.KingUpload.{delete_owned}

module _ (presign : String → Option String) (user_id id : ℕ) (c d : Conn Tables) (clip : Clip) where
  -- Whatever fails, a user is answered about another user's clip just as about a clip that does not
  -- exist, by DownloadURL, GetMP4URL and RequestConvert; and none of them changes the tables.
  pub request-hidden :
      find_clip id c.tables.clips ≡ some clip
      → clip.user_id ≢ user_id
      → find_clip id d.tables.clips ≡ none
      → c.fates ≡ d.fates
      → ((download_url presign user_id id c).0 ≡ (download_url presign user_id id d).0)
        × ((get_mp4_url presign user_id id c).0 ≡ (get_mp4_url presign user_id id d).0)
        × ((request user_id id c).0 ≡ (request user_id id d).0)
        × ((download_url presign user_id id c).1.tables ≡ c.tables)
        × ((get_mp4_url presign user_id id c).1.tables ≡ c.tables)
        × ((request user_id id c).1.tables ≡ c.tables)
  unfolding download_url get_mp4_url request get_by_id statement pure raise ◌>>=◌
  request-hidden found other gone same = ground arith

-- Whatever fails, Delete answers about another user's king clip just as about one that does not
-- exist, and deletes nothing.
pub delete_owned-hidden :
    (user_id id : ℕ) (c d : Conn Tables) (clip : KingClip)
    → find_king_clip id c.tables.king_clips ≡ some clip
    → clip.user_id ≢ user_id
    → find_king_clip id d.tables.king_clips ≡ none
    → c.fates ≡ d.fates
    → ((delete_owned user_id id c).0 ≡ (delete_owned user_id id d).0)
      × ((delete_owned user_id id c).1.tables ≡ c.tables)
unfolding delete_owned KingClips.get_by_id statement pure raise ◌>>=◌
delete_owned-hidden user_id id c d clip found other gone same = ground arith
