-- ===== src/Media/Conversion.antt =====
-- The life of a conversion in services/media/internal/api/service/clip_service.go: uploads,
-- requests to convert and the goroutines they start, in any order and whatever fails. A goroutine
-- that runs writes the database once, at its end, so its run stands as one event of the sequence.
-- A request reads the row and then claims it: `claim_later` is the claim of a request that read
-- any row before.
use full.Base.{
  ℕ, zero, suc, ◌+◌, ◌≤◌, ◌≡◌, ◌⊎◌, inl, inr, Bool, true, Option, none, some, List, [], ◌∷◌, String,
  arith, ◌==◌, nat_eq, if◌then◌else◌, Option-cases, count_p,
}
use full.Base.Int.{ℤ}
use full.Base.Db.{Conn, Result, ok, err, raise, pure, statement, ◌>>=◌}
use full.Base.Text.{format_int}
use full.Media.Clip.{Clip, pending, done, failed, is_pending, build_mp4_key}
use full.Media.Objects.{Objects}
use full.Media.Clips.{
  find_clip, set_conversion, claimed_row, claim, claim_conversion, get_by_id, update_conversion,
}
use full.Media.Upload.{Job, World, upload}
use full.Media.Convert.{
  Run, Failure, request, claim_job, request_convert, started, do_convert, finished,
  record_conv_status, nth_job, without_job,
}
use full.Media.Table.{IsTable}

pub data Event : Type 0 where
  upload_clip : String → ℕ → ℕ → String → ℤ → Option ℕ → Event
  ask_convert : ℕ → ℕ → Event
  claim_later : Job → Event
  run_job : ℕ → Run → Event

module _ (objects : Objects) (max_upload_bytes : ℤ) where
  abbrev pub run_some : Option Job → ℕ → Run → World objects → World objects
  run_some none i run w = w
  run_some (some job) i run w =
      do_convert objects run job (record w { jobs = without_job i w.jobs })

  unfoldable pub handle : Event → World objects → World objects
  handle (upload_clip uuid now user_id content_type size body) w =
      (upload objects max_upload_bytes uuid now user_id content_type size body w).1
  handle (ask_convert user_id clip_id) w = (request_convert objects user_id clip_id w).1
  handle (claim_later job) w = (started objects w (claim_job job w.conn)).1
  handle (run_job i run) w = run_some (nth_job i w.jobs) i run w

  unfoldable pub handle_all : List Event → World objects → World objects
  handle_all [] w = w
  handle_all (e ∷ es) w = handle_all es (handle e w)

unfoldable pub jobs_for : ℕ → List Job → ℕ
jobs_for id jobs = count_p (λ j. j.clip_id == id) jobs

-- The row is pending, or gone.
abbrev pub is_converting : Option Clip → Bool
is_converting none = true
is_converting (some c) = is_pending c.conversion_status

-- At most one goroutine converts a clip, of an id that was given out; while one does, the clip is
-- pending or gone.
pub record IsTidy {objects : Objects} (w : World objects) : Type 0 where
  pub table : IsTable w.conn.tables
  pub single : (id : ℕ) → jobs_for id w.jobs ≤ 1
  pub known : (id : ℕ) → w.conn.tables.next_clip ≤ id → jobs_for id w.jobs ≡ 0
  pub converting :
      (id : ℕ) → 1 ≤ jobs_for id w.jobs → is_converting (find_clip id w.conn.tables.clips) ≡ true

-- The key that a request writes with its claim.
abbrev pub claim_key : ℕ → Option Clip → String
claim_key clip_id none = ""
claim_key clip_id (some c) = build_mp4_key c.user_id (format_int clip_id)

-- A claim of a clip: it was not being converted, and one goroutine starts at most; or nothing
-- changes.
abbrev pub Claims : {objects : Objects} → ℕ → String → World objects → World objects → ℕ → Type 0
Claims clip_id key w v id =
    ((v.conn.tables ≡ w.conn.tables) × (v.jobs ≡ w.jobs))
    ⊎ ((v.conn.tables
          ≡ record w.conn.tables { clips = set_conversion clip_id key pending w.conn.tables.clips })
        × (claimed_row (find_clip clip_id w.conn.tables.clips) ≡ true)
        × (jobs_for id v.jobs ≤ (if clip_id == id then 1 else 0) + jobs_for id w.jobs))

pub request_convert-Claims :
    {objects : Objects} (user_id clip_id : ℕ) (w : World objects) (id : ℕ)
    → Claims clip_id
        (claim_key clip_id (find_clip clip_id w.conn.tables.clips))
        w
        (request_convert objects user_id clip_id w).1
        id
unfolding jobs_for request_convert request claim_job claim_conversion claim get_by_id statement pure
    raise ◌>>=◌
request_convert-Claims user_id clip_id w id =
    elim (Option-cases (find_clip clip_id w.conn.tables.clips)) [
      | inl e ↦ ground (arith, e)
      | inr (c, e) ↦ ground (arith, e)
    ]

pub claim_job-Claims :
    {objects : Objects} (job : Job) (w : World objects) (id : ℕ)
    → Claims job.clip_id job.mp4_key w (started objects w (claim_job job w.conn)).1 id
unfolding jobs_for claim_job claim_conversion claim statement pure raise ◌>>=◌
claim_job-Claims job w id = ground arith

pub nth_job-count :
    (i id : ℕ) (jobs : List Job) (job : Job)
    → nth_job i jobs ≡ some job
    → jobs_for id jobs ≡ (if job.clip_id == id then 1 else 0) + jobs_for id (without_job i jobs)
unfolding jobs_for
nth_job-count i id [] job e = cc
nth_job-count zero id (j ∷ js) job e = ground arith
nth_job-count (suc i) id (j ∷ js) job e = ground (arith, nth_job-count i id js job)

-- A goroutine writes one row, its clip's.
pub finished-Writes :
    {objects : Objects} (job : Job) (w : World objects)
    (out : Result Failure (Unit {0}) × Conn objects.Store)
    → let t = w.conn.tables in
      let v = finished objects job w out in
      (v.jobs ≡ w.jobs)
      × ((v.conn.tables ≡ t)
          ⊎ (v.conn.tables
              ≡ record t { clips = set_conversion job.clip_id job.mp4_key done t.clips })
          ⊎ (v.conn.tables ≡ record t { clips = set_conversion job.clip_id "" failed t.clips }))
unfolding record_conv_status update_conversion statement
finished-Writes job w (ok _, s) = ground arith
finished-Writes job w (err e, s) = ground arith
