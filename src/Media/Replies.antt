-- ===== src/Media/Replies.antt =====
-- The statuses that the handlers of services/media/internal/api/delivery answer.
use full.Base.{
  ℕ, suc, ◌^◌, ◌<◌, ◌≡◌, Option, none, some, String, [], arith, ◌==◌, nat_eq, if◌then◌else◌,
  Option-cases, inl, inr,
}
use full.Base.Db.{Conn, pure, raise, statement, ◌>>=◌}
use full.Base.Decimal.{parse_int-format_int}
use full.Base.Http.{status_of}
use full.Base.Text.{format_int}
use full.Media.Clip.{Clip, ConversionStatus, unconverted, pending, done, failed}
use full.Media.Clips.{Tables, find_clip, get_by_id}
use full.Media.Convert.{get_mp4_url}
use full.Media.Handlers.{get_mp4}

abbrev signed_status : Option String → ℕ
signed_status none = 500
signed_status (some url) = 200

abbrev status_for : (String → Option String) → Clip → ConversionStatus → ℕ
status_for presign clip done = signed_status (presign clip.mp4_object_key)
status_for presign clip failed = 422
status_for presign clip pending = 409
status_for presign clip unconverted = 409

-- What a client is told of a clip's MP4.
abbrev pub mp4_status : (String → Option String) → ℕ → Option Clip → ℕ
mp4_status presign user_id none = 404
mp4_status presign user_id (some c) =
    if c.user_id == user_id then status_for presign c c.conversion_status else 404

-- While the database answers, GET /v1/clips/:id/mp4 of a user answers 404 for a clip that is not
-- there or is not theirs, 409 until the conversion is done, 422 once it has failed, and else 200,
-- or 500 if the URL cannot be signed; it changes nothing.
pub get_mp4-status :
    (presign : String → Option String) (u id : ℕ) (c : Conn Tables)
    → c.fates ≡ []
    → suc id < 2 ^ 63
    → let out = get_mp4 presign (some (suc u)) (format_int (suc id)) c in
      (status_of out.0 ≡ mp4_status presign (suc u) (find_clip (suc id) c.tables.clips))
      × (out.1.tables ≡ c.tables)
unfolding get_mp4 get_mp4_url get_by_id statement pure raise ◌>>=◌
get_mp4-status presign u id c quiet small =
    elim (Option-cases (find_clip (suc id) c.tables.clips)) [
      | inl e ↦ ground (arith, e, parse_int-format_int (suc id) small)
      | inr (clip, e) ↦ ground (arith, e, parse_int-format_int (suc id) small)
    ]
