-- ===== src/Media/Finality.antt =====
-- The end of a conversion in services/media/internal/api/service/clip_service.go, or its lack.
use full.Base.{
  String, ℕ, ◌≤◌, ◌<◌, ◌≡◌, ◌⊎◌, inl, inr, ap, none, some, List, [], ◌∷◌, arith, nat_eq,
  Option-cases,
}
use full.Base.Int.{ℤ}
use full.Media.Clip.{Clip, pending, done, failed}
use full.Media.Objects.{Objects}
use full.Media.Clips.{find_clip}
use full.Media.Upload.{World}
use full.Media.Convert.{
  request_convert, claim_job, started, do_convert, encode, nth_job, without_job,
}
use full.Media.Rows.{find_clip-set_conversion}
use full.Media.Grown.{upload-Kept}
use full.Media.Table.{find_clip-fresh}
use full.Media.Conversion.{
  Claims, claim_later, claim_job-Claims, claim_key, Event, upload_clip, ask_convert, run_job,
  handle, handle_all, IsTidy, jobs_for, claim_key, request_convert-Claims, nth_job-count,
  finished-Writes,
}
use full.Media.Tidy.{handle-IsTidy, Grown-self}
use full.Media.Moves.{handle-Moved}

module _ {objects : Objects} where
  handle-up :
      (max : ℤ) (e : Event) (w : World objects)
      → IsTidy w
      → w.conn.tables.next_clip ≤ (handle objects max e w).conn.tables.next_clip
  unfolding handle do_convert
  handle-up max (upload_clip uuid now user_id content_type size body) w tidy =
      (upload-Kept w.conn.tables objects max uuid now user_id content_type size body w
        (Grown-self w.conn.tables tidy.table)).0.up
  handle-up max (ask_convert user_id clip_id) w tidy =
      ground (arith, request_convert-Claims user_id clip_id w clip_id)
  handle-up max (claim_later job) w tidy = ground (arith, claim_job-Claims job w job.clip_id)
  handle-up max (run_job i run) w tidy = elim (Option-cases (nth_job i w.jobs)) [
    | inl e ↦ rw e (omega arith)
    | inr (job, e) ↦ ground (
      arith,
      e,
      finished-Writes job (record w { jobs = without_job i w.jobs })
          (encode objects run job w.store),
    )
  ]

  Claims-gone :
      (clip_id : ℕ) (key : String) (w v : World objects) (id : ℕ)
      → Claims clip_id key w v id
      → find_clip id w.conn.tables.clips ≡ none
      → find_clip id v.conn.tables.clips ≡ none
  Claims-gone clip_id key w v id claims gone =
      ground
        (arith, claims, gone, find_clip-set_conversion clip_id id key pending w.conn.tables.clips)

  -- A clip that is gone does not come back.
  handle-gone :
      (max : ℤ) (e : Event) (w : World objects) (id : ℕ)
      → IsTidy w
      → id < w.conn.tables.next_clip
      → find_clip id w.conn.tables.clips ≡ none
      → find_clip id (handle objects max e w).conn.tables.clips ≡ none
  unfolding handle do_convert
  handle-gone max (upload_clip uuid now user_id content_type size body) w id tidy known gone =
      let t = w.conn.tables in
      let grown =
        (upload-Kept t objects max uuid now user_id content_type size body w
          (Grown-self t tidy.table)).0 in
      ground (arith, grown.old id known)
  handle-gone max (ask_convert user_id clip_id) w id tidy known gone =
      Claims-gone clip_id (claim_key clip_id (find_clip clip_id w.conn.tables.clips)) w
        (request_convert objects user_id clip_id w).1 id
        (request_convert-Claims user_id clip_id w id) gone
  handle-gone max (claim_later job) w id tidy known gone =
      Claims-gone job.clip_id job.mp4_key w (started objects w (claim_job job w.conn)).1 id
        (claim_job-Claims job w id) gone
  handle-gone max (run_job i run) w id tidy known gone = elim (Option-cases (nth_job i w.jobs)) [
    | inl e ↦ rw e gone
    | inr (job, e) ↦ ground (
      arith,
      e,
      finished-Writes job (record w { jobs = without_job i w.jobs })
          (encode objects run job w.store),
      find_clip-set_conversion job.clip_id id job.mp4_key done w.conn.tables.clips,
      find_clip-set_conversion job.clip_id id "" failed w.conn.tables.clips,
    )
  ]

  handle_all-gone :
      (max : ℤ) (es : List Event) (w : World objects) (id : ℕ)
      → IsTidy w
      → id < w.conn.tables.next_clip
      → find_clip id w.conn.tables.clips ≡ none
      → find_clip id (handle_all objects max es w).conn.tables.clips ≡ none
  unfolding handle_all
  handle_all-gone max [] w id tidy known gone = gone
  handle_all-gone max (e ∷ es) w id tidy known gone =
      handle_all-gone max es (handle objects max e w) id (handle-IsTidy max e w tidy)
        (omega (arith, handle-up max e w tidy)) (handle-gone max e w id tidy known gone)

  -- Where at most one goroutine converts a clip, and only a pending one: whatever the later
  -- uploads, requests, overtaken requests and runs, in any order and whatever fails, a clip whose
  -- conversion is done keeps its MP4 and its status, and is never converted again, until it is
  -- evicted for good.
  pub handle_all-final :
      (max : ℤ) (es : List Event) (w : World objects) (id : ℕ) (c : Clip)
      → IsTidy w
      → find_clip id w.conn.tables.clips ≡ some c
      → c.conversion_status ≡ done
      → (find_clip id (handle_all objects max es w).conn.tables.clips ≡ some c)
        ⊎ (find_clip id (handle_all objects max es w).conn.tables.clips ≡ none)
  unfolding handle_all
  handle_all-final max [] w id c tidy found is_done = inl found
  handle_all-final max (e ∷ es) w id c tidy found is_done =
      let v = handle objects max e w in
      let moved = handle-Moved max e w id c tidy found in
      let known : id < w.conn.tables.next_clip =
        ground (arith, find_clip-fresh id w.conn.tables tidy.table) in
      elim (Option-cases (find_clip id v.conn.tables.clips)) [
        | inl gone ↦ inr (
            handle_all-gone max es v id (handle-IsTidy max e w tidy)
              (omega (arith, handle-up max e w tidy)) gone)
        | inr (d, at) ↦
            let same : d ≡ c = ground (arith, moved, at) in
            handle_all-final max es v id c (handle-IsTidy max e w tidy) (rw at (ap some same))
              is_done
      ]

  Claims-stuck :
      (clip_id : ℕ) (key : String) (w v : World objects) (id : ℕ) (c : Clip)
      → Claims clip_id key w v id
      → find_clip id w.conn.tables.clips ≡ some c
      → c.conversion_status ≡ pending
      → jobs_for id w.jobs ≡ 0
      → ((find_clip id v.conn.tables.clips ≡ some c) ⊎ (find_clip id v.conn.tables.clips ≡ none))
        × (jobs_for id v.jobs ≡ 0)
  Claims-stuck clip_id key w v id c claims found e idle = ground (
    arith,
    claims,
    found,
    e,
    idle,
    find_clip-set_conversion clip_id id key pending w.conn.tables.clips,
    nat_eq.same_iff clip_id id,
  )

  -- A clip that is pending, of which no goroutine runs.
  handle-stuck :
      (max : ℤ) (e : Event) (w : World objects) (id : ℕ) (c : Clip)
      → IsTidy w
      → find_clip id w.conn.tables.clips ≡ some c
      → c.conversion_status ≡ pending
      → jobs_for id w.jobs ≡ 0
      → let v = handle objects max e w in
        ((find_clip id v.conn.tables.clips ≡ some c) ⊎ (find_clip id v.conn.tables.clips ≡ none))
        × (jobs_for id v.jobs ≡ 0)
  unfolding handle do_convert
  handle-stuck max (upload_clip uuid now user_id content_type size body) w id c tidy found e idle =
      let t = w.conn.tables in
      let (grown, same) =
        upload-Kept t objects max uuid now user_id content_type size body w
          (Grown-self t tidy.table) in
      ground
        (arith, grown.old id (ground (arith, find_clip-fresh id t tidy.table)), same, found, idle)
  handle-stuck max (ask_convert user_id clip_id) w id c tidy found e idle =
      Claims-stuck clip_id (claim_key clip_id (find_clip clip_id w.conn.tables.clips)) w
        (request_convert objects user_id clip_id w).1 id c
        (request_convert-Claims user_id clip_id w id) found e idle
  handle-stuck max (claim_later job) w id c tidy found e idle =
      Claims-stuck job.clip_id job.mp4_key w (started objects w (claim_job job w.conn)).1 id c
        (claim_job-Claims job w id) found e idle
  handle-stuck max (run_job i run) w id c tidy found e idle =
      elim (Option-cases (nth_job i w.jobs)) [
        | inl n ↦ rw n (inl found, idle)
        | inr (job, n) ↦ ground (
          arith,
          n,
          nth_job-count i id w.jobs job n,
          finished-Writes job (record w { jobs = without_job i w.jobs })
              (encode objects run job w.store),
          find_clip-set_conversion job.clip_id id job.mp4_key done w.conn.tables.clips,
          find_clip-set_conversion job.clip_id id "" failed w.conn.tables.clips,
        )
      ]

  -- Where at most one goroutine converts a clip, and only a pending one: a clip that is pending
  -- while no goroutine converts it stays so, whatever is requested of it later, until it is
  -- evicted.
  pub handle_all-stuck :
      (max : ℤ) (es : List Event) (w : World objects) (id : ℕ) (c : Clip)
      → IsTidy w
      → find_clip id w.conn.tables.clips ≡ some c
      → c.conversion_status ≡ pending
      → jobs_for id w.jobs ≡ 0
      → (find_clip id (handle_all objects max es w).conn.tables.clips ≡ some c)
        ⊎ (find_clip id (handle_all objects max es w).conn.tables.clips ≡ none)
  unfolding handle_all
  handle_all-stuck max [] w id c tidy found p idle = inl found
  handle_all-stuck max (e ∷ es) w id c tidy found p idle =
      let v = handle objects max e w in
      let (row, still) = handle-stuck max e w id c tidy found p idle in
      elim row [
        | inl at ↦ handle_all-stuck max es v id c (handle-IsTidy max e w tidy) at p still
        | inr gone ↦ inr (
            handle_all-gone max es v id (handle-IsTidy max e w tidy)
              (ground (arith, find_clip-fresh id w.conn.tables tidy.table, handle-up max e w tidy))
              gone)
      ]
