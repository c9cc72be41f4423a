-- ===== src/Media/Convert.antt =====
-- The conversion of a clip to MP4 in services/media/internal/api/service/clip_service.go:
-- RequestConvert, GetMP4URL, recordConvStatus and doConvert.
use full.Base.{
  ℕ, zero, suc, Bool, true, false, not, Option, none, some, List, [], ◌∷◌, String, ◌==◌, nat_eq,
  if◌then◌else◌,
}
use full.Base.Db.{Db, Conn, Result, ok, err, pure, raise, statement, ◌>>=◌, ◌>>◌}
use full.Base.Text.{format_int}
use full.Media.Clip.{Clip, ConversionStatus, pending, done, failed, build_mp4_key}
use full.Media.Objects.{Objects}
use full.Media.Clips.{
  Tables, Fault, clip_not_found, conversion_not_done, conversion_failed, no_url, or_raise,
  get_by_id, claim_conversion, update_conversion,
}
use full.Media.Upload.{Job, World}

-- The answer, and the job to start.
abbrev pub answer : ConversionStatus → Option Job → Db Fault Tables (ConversionStatus × Option Job)
answer status job = pure (status, job)

abbrev pub job_for : Clip → ℕ → Job
job_for clip clip_id = record {
  webm_key = clip.object_key;
  mp4_key = build_mp4_key clip.user_id (format_int clip_id);
  clip_id = clip_id;
}

unfoldable pub claim_job : Job → Db Fault Tables (ConversionStatus × Option Job)
claim_job job = do
  claimed ← claim_conversion job.clip_id job.mp4_key
  answer pending (if claimed then some job else none)

abbrev pub by_status : Clip → ℕ → ConversionStatus → Db Fault Tables (ConversionStatus × Option Job)
by_status clip clip_id done = answer done none
by_status clip clip_id pending = answer pending none
by_status clip clip_id _ = claim_job (job_for clip clip_id)

unfoldable pub request : ℕ → ℕ → Db Fault Tables (ConversionStatus × Option Job)
request user_id clip_id = do
  clip ← get_by_id clip_id
  if not (clip.user_id == user_id)
      then raise clip_not_found
      else by_status clip clip_id clip.conversion_status

abbrev pub mp4_url : (String → Option String) → Clip → ConversionStatus → Db Fault Tables String
mp4_url presign clip done = or_raise no_url (presign clip.mp4_object_key)
mp4_url presign clip failed = raise conversion_failed
mp4_url presign clip _ = raise conversion_not_done

-- GetMP4URL; `presign` is what PresignedGetURL answers for a key, none for an error.
unfoldable pub get_mp4_url : (String → Option String) → ℕ → ℕ → Db Fault Tables String
get_mp4_url presign user_id clip_id = do
  clip ← get_by_id clip_id
  if not (clip.user_id == user_id)
      then raise clip_not_found
      else mp4_url presign clip clip.conversion_status

-- recordConvStatus: a failed write is logged and dropped.
unfoldable pub record_conv_status : ℕ → String → ConversionStatus → Conn Tables → Conn Tables
record_conv_status clip_id mp4_key status c = (update_conversion clip_id mp4_key status c).1

-- What the operating system answers to one run: the temporary files, the copy to disk, ffmpeg (the
-- bytes of the MP4, none for an error), and the opening and measuring of its output.
pub record Run : Type 0 where
  pub temp_input : Bool
  pub copied : Bool
  pub temp_output : Bool
  pub convert : ℕ → Option ℕ
  pub opened : Bool
  pub measured : Bool

pub data Failure : Type 0 where
  no_object no_file not_encoded : Failure

abbrev pub check : {S : Type 0} → Bool → Db Failure S (Unit {0})
check true = pure tt
check false = raise no_file

abbrev pub or_fail : {S A : Type 0} → Failure → Option A → Db Failure S A
or_fail e none = raise e
or_fail e (some a) = pure a

module _ (objects : Objects) where
  -- The pipeline of doConvert up to the upload of the MP4. The bytes are read while they are
  -- copied.
  unfoldable pub encode : Run → Job → Db Failure objects.Store (Unit {0})
  encode run job = do
    found ← statement (λ s. (objects.read s job.webm_key, s))
    webm ← or_fail no_object found
    check run.temp_input
    check run.copied
    check run.temp_output
    mp4 ← or_fail not_encoded (run.convert webm)
    check run.opened
    check run.measured
    statement (λ s. (tt, objects.put job.mp4_key mp4 s))

  abbrev pub finished :
      Job → World objects → Result Failure (Unit {0}) × Conn objects.Store → World objects
  finished job w (ok _, s) = record w {
    store = s;
    conn = record_conv_status job.clip_id job.mp4_key done w.conn;
  }
  finished job w (err e, s) = record w {
    store = s;
    conn = record_conv_status job.clip_id "" failed w.conn;
  }

  -- doConvert
  unfoldable pub do_convert : Run → Job → World objects → World objects
  do_convert run job w = finished job w (encode run job w.store)

  abbrev pub with_job : Option Job → List Job → List Job
  with_job none jobs = jobs
  with_job (some job) jobs = job ∷ jobs

  abbrev pub started :
      World objects
      → Result Fault (ConversionStatus × Option Job) × Conn Tables
      → Result Fault ConversionStatus × World objects
  started w (err e, c) = (err e, record w { conn = c })
  started w (ok (status, job), c) = (ok status, record w { conn = c; jobs = with_job job w.jobs })

  -- RequestConvert
  unfoldable pub request_convert :
      ℕ → ℕ → World objects → Result Fault ConversionStatus × World objects
  request_convert user_id clip_id w = started w (request user_id clip_id w.conn)

-- The scheduler lets the job at some place of the list run; past the end there is none.
abbrev pub nth_job : ℕ → List Job → Option Job
nth_job i [] = none
nth_job zero (j ∷ js) = some j
nth_job (suc i) (j ∷ js) = nth_job i js

abbrev pub without_job : ℕ → List Job → List Job
without_job i [] = []
without_job zero (j ∷ js) = js
without_job (suc i) (j ∷ js) = j ∷ without_job i js
