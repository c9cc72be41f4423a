-- ===== src/Media/Converted.antt =====
-- From a request to convert to the URL of the MP4:
-- services/media/internal/api/service/clip_service.go, where nothing fails.
use full.Base.{ℕ, ◌≡◌, ◌⊎◌, true, some, Option, [], String, arith, nat_eq, string_eq}
use full.Base.Int.{ℤ}
use full.Base.Db.{ok, raise, pure, statement, ◌>>=◌}
use full.Base.Text.{format_int}
use full.Media.Clip.{Clip, unconverted, pending, done, failed, build_mp4_key}
use full.Media.Objects.{Objects}
use full.Media.Clips.{
  find_clip, set_conversion, claim, claim_conversion, get_by_id, update_conversion,
}
use full.Media.Upload.{World}
use full.Media.Convert.{
  Run, request, claim_job, request_convert, do_convert, encode, record_conv_status, get_mp4_url,
}
use full.Media.Rows.{find_clip-set_conversion}
use full.Media.Conversion.{handle, run_job}

-- A run in which the files and ffmpeg do their work.
abbrev pub Works : Run → ℕ → ℕ → Type 0
Works run webm mp4 =
    (run.temp_input ≡ true)
    × (run.copied ≡ true)
    × (run.temp_output ≡ true)
    × (run.convert webm ≡ some mp4)
    × (run.opened ≡ true)
    × (run.measured ≡ true)

module _ (objects : Objects) (presign : String → Option String) (url : String) (run : Run)
    (webm mp4 : ℕ) (w : World objects) (clip : Clip) (id : ℕ) where
  -- While nothing fails, a request for a clip of the user that is not converted, or failed to be,
  -- answers "pending"; and once the goroutine has run, GetMP4URL answers the user with the URL of
  -- the key under which the encoded bytes are in the store.
  pub request_convert-get_mp4_url :
      w.conn.fates ≡ []
      → w.store.fates ≡ []
      → find_clip id w.conn.tables.clips ≡ some clip
      → (clip.conversion_status ≡ unconverted) ⊎ (clip.conversion_status ≡ failed)
      → objects.read w.store.tables clip.object_key ≡ some webm
      → Works run webm mp4
      → presign (build_mp4_key clip.user_id (format_int id)) ≡ some url
      → let asked = request_convert objects clip.user_id id w in
        let v = handle objects (ℤ.pos 0) (run_job 0 run) asked.1 in
        (asked.0 ≡ ok pending)
        × ((get_mp4_url presign clip.user_id id v.conn).0 ≡ ok url)
        × (objects.read v.store.tables (build_mp4_key clip.user_id (format_int id)) ≡ some mp4)
  unfolding request_convert request claim_job claim_conversion claim get_by_id handle do_convert
      encode record_conv_status update_conversion get_mp4_url statement pure raise ◌>>=◌
  request_convert-get_mp4_url q r found start there works signed =
      let key = build_mp4_key clip.user_id (format_int id) in
      ground (
        arith,
        find_clip-set_conversion id id key pending w.conn.tables.clips,
        find_clip-set_conversion id id key done (set_conversion id key pending w.conn.tables.clips),
        objects.read-put w.store.tables key key mp4,
        nat_eq.same_iff clip.user_id clip.user_id,
        nat_eq.same_iff id id,
        string_eq.same_iff key key,
      )
