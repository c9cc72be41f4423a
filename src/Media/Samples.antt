-- ===== src/Media/Samples.antt =====
-- Clips, tables and an object store of services/media, as data for tests.
use full.Base.{
  ℕ, ◌+◌, ◌≡◌, refl, true, Option, some, List, [], ◌∷◌, String, arith, nat_eq, string_eq,
}
use full.Base.Int.{pos}
use full.Base.Dict
use full.Base.Dict.{Dict, get-put, get-remove}
use full.Base.Db.{answered, refused}
use full.Media.Clip.{Clip, KingClip, ConversionStatus}
use full.Media.Objects.{Objects}
use full.Media.Clips.{Tables, find_clip}
use full.Media.Upload.{World}
use full.Media.Convert.{Run}
use full.Media.Table.{IsTable}
use full.Media.Conversion.{Event, upload_clip, ask_convert, claim_later, run_job, IsTidy, jobs_for}

abbrev pub objects : Objects
objects = record {
  Store = Dict String ℕ;
  read = Dict.get;
  put = λ k body s. Dict.put s k body;
  remove = λ k s. Dict.remove s k;
  read-put = λ s k j body. get-put s k j body;
  read-remove = λ s k j. get-remove s k j;
}

abbrev pub presign : String → Option String
presign key = some key

abbrev pub first_key : String
first_key = "clips/7/a.webm"

abbrev pub clip : ConversionStatus → Clip
clip status = record {
  id = 1;
  user_id = 7;
  object_key = first_key;
  mode = "default";
  result = "win";
  content_type = "video/webm";
  size_bytes = pos 5;
  created_at = 10;
  mp4_object_key = "clips/7/1.mp4";
  conversion_status = status;
}

abbrev pub old_king : KingClip
old_king = record {
  id = 1;
  user_id = 8;
  hill_type = "daily";
  object_key = "king-clips/daily/8/a.webm";
  blink_ts_ms = pos 900;
  created_at = 5;
  expires_at = pos 90;
}

abbrev pub rows : List Clip → Tables
rows clips = record { clips = clips; next_clip = 2; king_clips = old_king ∷ []; next_king_clip = 2 }

abbrev pub archive : ConversionStatus → World objects
archive status = record {
  conn = record { tables = rows (clip status ∷ []); fates = [] };
  store = record { tables = (first_key, 55) ∷ []; fates = [] };
  jobs = [];
}

-- The database refuses the second statement, and the object store the first.
abbrev pub shaky : ConversionStatus → World objects
shaky status = record (archive status) {
  conn = record { tables = rows (clip status ∷ []); fates = answered ∷ refused ∷ [] };
  store = record { tables = (first_key, 55) ∷ []; fates = refused ∷ [] };
}

abbrev pub smooth : Run
smooth = record {
  temp_input = true;
  copied = true;
  temp_output = true;
  convert = λ webm. some (webm + 1);
  opened = true;
  measured = true;
}

abbrev pub events : List Event
events =
    ask_convert 7 1
    ∷ upload_clip "b" 20 7 "video/webm" (pos 9) (some 66)
    ∷ claim_later (record { webm_key = first_key; mp4_key = "clips/7/1.mp4"; clip_id = 1 })
    ∷ run_job 0 smooth
    ∷ ask_convert 7 2
    ∷ run_job 0 smooth
    ∷ []

pub rows-IsTable : (status : ConversionStatus) → IsTable (rows (clip status ∷ []))
rows-IsTable status = record { fresh = ground arith; unique = λ id. ground arith }

pub shaky-IsTidy : (status : ConversionStatus) → IsTidy (shaky status)
unfolding jobs_for
shaky-IsTidy status = record {
  table = rows-IsTable status;
  single = λ id. ground arith;
  known = λ id h. refl;
  converting = λ id h. absurd (omega (arith, h));
}

pub shaky-found :
    (status : ConversionStatus) → find_clip 1 (shaky status).conn.tables.clips ≡ some (clip status)
unfolding find_clip
shaky-found status = refl
