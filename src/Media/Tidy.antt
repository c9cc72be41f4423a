-- ===== src/Media/Tidy.antt =====
-- No clip of services/media/internal/api/service/clip_service.go is converted twice at a time,
-- whatever the order of events and whatever fails.
use full.Base.{
  ℕ, ◌≤◌, ◌<◌, ◌≡◌, inl, inr, refl, ap, true, Option, some, String, arith, ◌==◌, nat_eq,
  if◌then◌else◌, Option-cases,
}
use full.Base.Int.{ℤ}
use full.Base.Db.{Conn, Result}
use full.Media.Clip.{ConversionStatus, pending, done, failed, is_pending}
use full.Media.Objects.{Objects}
use full.Media.Clips.{Tables, find_clip, set_conversion, claimed_row}
use full.Media.Upload.{Job, World, upload}
use full.Media.Convert.{
  Failure, request_convert, claim_job, started, do_convert, finished, encode, nth_job, without_job,
}
use full.Media.Rows.{find_clip-set_conversion}
use full.Media.Grown.{Grown, upload-Kept}
use full.Media.Table.{set_conversion-IsTable, IsTable, find_clip-fresh}
use full.Media.Conversion.{
  Event, upload_clip, ask_convert, run_job, handle, IsTidy, jobs_for, claim_key, Claims,
  claim_later, claim_job-Claims, request_convert-Claims, nth_job-count, finished-Writes,
}

pub Grown-self : (t : Tables) → IsTable t → Grown t t
Grown-self t v = record { table = v; up = omega arith; old = λ id h. inr refl }

module _ {objects : Objects} where
  Grown-IsTidy :
      (w v : World objects)
      → IsTidy w
      → Grown w.conn.tables v.conn.tables
      → ((j : ℕ) → jobs_for j v.jobs ≤ jobs_for j w.jobs)
      → IsTidy v
  Grown-IsTidy w v tidy g fewer = record {
    table = g.table;
    single = λ id. omega (arith, tidy.single id, fewer id);
    known = λ id h. omega (arith, g.up, tidy.known id (omega (arith, g.up)), fewer id);
    converting = λ id h. ground (arith, fewer id, g.old id, tidy.known id, tidy.converting id);
  }

  -- One row got a new status; where a goroutine converts it now, it is pending.
  changed-IsTidy :
      (id : ℕ) (key : String) (status : ConversionStatus) (w v : World objects)
      → IsTidy w
      → v.conn.tables
        ≡ record w.conn.tables { clips = set_conversion id key status w.conn.tables.clips }
      → ((j : ℕ) → jobs_for j v.jobs ≤ (if id == j then 1 else jobs_for j w.jobs))
      → (1 ≤ jobs_for id v.jobs → (is_pending status ≡ true) × (id < w.conn.tables.next_clip))
      → IsTidy v
  changed-IsTidy id key status w v tidy e fewer busy = record {
    table = rw e (set_conversion-IsTable id key status w.conn.tables tidy.table);
    single = λ j. ground (arith, fewer j, tidy.single j);
    known = λ j h. ground (arith, e, fewer j, tidy.known j, busy, nat_eq.same_iff id j);
    converting = λ j h. ground (
      arith,
      e,
      fewer j,
      busy,
      tidy.converting j,
      find_clip-set_conversion id j key status w.conn.tables.clips,
      nat_eq.same_iff id j,
    );
  }

  -- A clip that a request can claim has no goroutine, and has its id.
  pub claimed-free :
      (clip_id : ℕ) (w : World objects)
      → IsTidy w
      → claimed_row (find_clip clip_id w.conn.tables.clips) ≡ true
      → (jobs_for clip_id w.jobs ≡ 0) × (clip_id < w.conn.tables.next_clip)
  claimed-free clip_id w tidy h =
      ground (arith, tidy.converting clip_id, find_clip-fresh clip_id w.conn.tables tidy.table)

  Claims-IsTidy :
      (clip_id : ℕ) (key : String) (w v : World objects)
      → ((id : ℕ) → Claims clip_id key w v id)
      → IsTidy w
      → IsTidy v
  Claims-IsTidy clip_id key w v claims tidy = elim (claims clip_id) [
    | inl (e, same) ↦
        Grown-IsTidy w v tidy (rw e (Grown-self w.conn.tables tidy.table))
          (λ j. rw same (omega arith))
    | inr (e, claimed, _) ↦
        let (free, known) = claimed-free clip_id w tidy claimed in
        changed-IsTidy clip_id key pending w v tidy e
          (λ j. ground (arith, free, claims j, nat_eq.same_iff clip_id j)) (λ h. (refl, known))
  ]

  upload-IsTidy :
      (max : ℤ) (uuid : String) (now user_id : ℕ) (content_type : String) (size : ℤ)
      (body : Option ℕ) (w : World objects)
      → IsTidy w
      → IsTidy (upload objects max uuid now user_id content_type size body w).1
  upload-IsTidy max uuid now user_id content_type size body w tidy =
      let (grown, same) =
        upload-Kept w.conn.tables objects max uuid now user_id content_type size body w
          (Grown-self w.conn.tables tidy.table) in
      Grown-IsTidy w (upload objects max uuid now user_id content_type size body w).1 tidy grown
        (λ j. rw same (omega arith))

  -- The job that ran is gone, and its clip has no other.
  finished-IsTidy :
      (i : ℕ) (job : Job) (w : World objects) (out : Result Failure (Unit {0}) × Conn objects.Store)
      → nth_job i w.jobs ≡ some job
      → IsTidy w
      → IsTidy (finished objects job (record w { jobs = without_job i w.jobs }) out)
  finished-IsTidy i job w out e tidy =
      let u : World objects = record w { jobs = without_job i w.jobs } in
      let v = finished objects job u out in
      let (same, writes) = finished-Writes job u out in
      let fewer : (j : ℕ)
          → jobs_for j v.jobs ≤ (if job.clip_id == j then 1 else jobs_for j w.jobs) =
        λ j. ground (arith, same, nth_job-count i j w.jobs job e, tidy.single j) in
      let free : jobs_for job.clip_id v.jobs ≡ 0 =
        ground (arith, same, nth_job-count i job.clip_id w.jobs job e, tidy.single job.clip_id) in
      elim writes [
        | inl t ↦
            Grown-IsTidy w v tidy (rw t (Grown-self w.conn.tables tidy.table))
              (λ j. omega (arith, ap (jobs_for j) same, nth_job-count i j w.jobs job e))
        | inr (inl t) ↦
            changed-IsTidy job.clip_id job.mp4_key done w v tidy t fewer
              (λ h. absurd (omega (arith, free)))
        | inr (inr t) ↦
            changed-IsTidy job.clip_id "" failed w v tidy t fewer
              (λ h. absurd (omega (arith, free)))
      ]

  pub handle-IsTidy :
      (max : ℤ) (e : Event) (w : World objects) → IsTidy w → IsTidy (handle objects max e w)
  unfolding handle do_convert
  handle-IsTidy max (upload_clip uuid now user_id content_type size body) w tidy =
      upload-IsTidy max uuid now user_id content_type size body w tidy
  handle-IsTidy max (ask_convert user_id clip_id) w tidy =
      Claims-IsTidy clip_id (claim_key clip_id (find_clip clip_id w.conn.tables.clips)) w
        (request_convert objects user_id clip_id w).1 (request_convert-Claims user_id clip_id w)
        tidy
  handle-IsTidy max (claim_later job) w tidy =
      Claims-IsTidy job.clip_id job.mp4_key w (started objects w (claim_job job w.conn)).1
        (claim_job-Claims job w) tidy
  handle-IsTidy max (run_job i run) w tidy = elim (Option-cases (nth_job i w.jobs)) [
    | inl e ↦ rw e tidy
    | inr (job, e) ↦ rw e (finished-IsTidy i job w (encode objects run job w.store) e tidy)
  ]
