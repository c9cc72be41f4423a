-- ===== src/Media/Clip.antt =====
-- services/media/internal/api/domain: clip.go and king_clip.go.
use Prim.Native.Char.{code}
use full.Base.{
  ℕ, ◌≡◌, refl, Bool, true, false, ◌||◌, ◌&&◌, String, leb, ◌==◌, nat_eq, string_eq, if◌then◌else◌,
}
use full.Base.Int.{ℤ}
use full.Base.Text.{◌+++◌, format_int}

abbrev pub content_type_webm : String
content_type_webm = "video/webm"

abbrev pub content_type_mp4 : String
content_type_mp4 = "video/mp4"

abbrev pub max_clips_per_user : ℕ
max_clips_per_user = 10

-- The values of the column conversion_status: "none", "pending", "done" and "failed".
pub data ConversionStatus : Type 0 where
  unconverted pending done failed : ConversionStatus

abbrev pub is_pending : ConversionStatus → Bool
is_pending pending = true
is_pending _ = false

abbrev pub is_done : ConversionStatus → Bool
is_done done = true
is_done _ = false

pub record Clip : Type 0 where
  pub id : ℕ
  pub user_id : ℕ
  pub object_key : String
  pub mode : String
  pub result : String
  pub content_type : String
  pub size_bytes : ℤ
  pub created_at : ℕ
  pub mp4_object_key : String
  pub conversion_status : ConversionStatus

-- BuildObjectKey
unfoldable pub build_object_key : ℕ → String → String
build_object_key user_id id = "clips/" +++ format_int user_id +++ "/" +++ id +++ ".webm"

-- BuildMP4Key
unfoldable pub build_mp4_key : ℕ → String → String
build_mp4_key user_id id = "clips/" +++ format_int user_id +++ "/" +++ id +++ ".mp4"

-- The characters that strings.TrimSpace removes.
abbrev pub is_space : ℕ → Bool
is_space c =
    (leb 9 c && leb c 13)
    || (c == 32)
    || (c == 0x85)
    || (c == 0xa0)
    || (c == 0x1680)
    || (leb 0x2000 c && leb c 0x200a)
    || (c == 0x2028)
    || (c == 0x2029)
    || (c == 0x202f)
    || (c == 0x205f)
    || (c == 0x3000)

abbrev pub trim_left : String → String
trim_left String.[] = ""
trim_left (String.◌∷◌ c s) =
    let rest = trim_left s in if is_space (code c) then rest else String.◌∷◌ c s

abbrev pub trim_right : String → String
trim_right String.[] = ""
trim_right (String.◌∷◌ c s) =
    let rest = trim_right s in if is_space (code c) && (rest == "") then "" else String.◌∷◌ c rest

abbrev pub trim_space : String → String
trim_space s = trim_left (trim_right s)

-- The part that strings.Cut gives before the first semicolon.
abbrev pub before_semicolon : String → String
before_semicolon String.[] = ""
before_semicolon (String.◌∷◌ c s) =
    let rest = String.◌∷◌ c (before_semicolon s) in if code c == b';' then "" else rest

-- ValidContentType
unfoldable pub valid_content_type : String → Bool
valid_content_type ct = trim_space (before_semicolon ct) == content_type_webm

abbrev pub hill_type_daily : String
hill_type_daily = "daily"

abbrev pub hill_type_monthly : String
hill_type_monthly = "monthly"

abbrev pub hill_type_ranked : String
hill_type_ranked = "ranked"

-- ValidHillType
unfoldable pub valid_hill_type : String → Bool
valid_hill_type s = s == hill_type_daily || s == hill_type_monthly || s == hill_type_ranked

pub record KingClip : Type 0 where
  pub id : ℕ
  pub user_id : ℕ
  pub hill_type : String
  pub object_key : String
  pub blink_ts_ms : ℤ
  pub created_at : ℕ
  pub expires_at : ℤ

-- BuildKingClipObjectKey
unfoldable pub build_king_clip_object_key : String → ℕ → String → String
build_king_clip_object_key hill_type user_id id =
    "king-clips/" +++ hill_type +++ "/" +++ format_int user_id +++ "/" +++ id +++ ".webm"

content_types :
    ((valid_content_type "video/webm" ≡ true)
      × (valid_content_type " video/webm ; codecs=vp8" ≡ true)
      × (valid_content_type "video/mp4" ≡ false))
unfolding valid_content_type
content_types = (refl, refl, refl)
