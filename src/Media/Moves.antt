-- ===== src/Media/Moves.antt =====
-- The moves of a conversion in services/media/internal/api/service/clip_service.go.
use full.Base.{
  ℕ, ◌≢◌, ◌≡◌, ◌⊎◌, inl, inr, refl, Bool, true, false, Option, none, some, String, arith, ◌==◌,
  nat_eq, Option-cases, Bool-cases,
}
use full.Base.Int.{ℤ}
use full.Base.Db.{Conn, Result}
use full.Media.Clip.{Clip, ConversionStatus, unconverted, pending, done, failed, is_pending}
use full.Media.Objects.{Objects}
use full.Media.Clips.{Tables, find_clip, set_conversion, is_claimable}
use full.Media.Upload.{Job, World, upload}
use full.Media.Convert.{
  Failure, request_convert, claim_job, started, do_convert, finished, encode, nth_job, without_job,
}
use full.Media.Rows.{find_clip-set_conversion}
use full.Media.Grown.{upload-Kept}
use full.Media.Table.{find_clip-fresh}
use full.Media.Conversion.{
  Claims, claim_later, claim_job-Claims, Event, upload_clip, ask_convert, run_job, handle, IsTidy,
  claim_key, request_convert-Claims, nth_job-count, finished-Writes,
}
use full.Media.Tidy.{Grown-self}

-- The moves that a status may make.
abbrev pub can_move : ConversionStatus → ConversionStatus → Bool
can_move unconverted unconverted = true
can_move unconverted pending = true
can_move pending pending = true
can_move pending done = true
can_move pending failed = true
can_move failed failed = true
can_move failed pending = true
can_move done done = true
can_move _ _ = false

-- What is left of a clip: nothing, or a row that differs in its MP4 key and status at most, whose
-- status made a move, and which is the same if the conversion was done.
abbrev pub Moved : Clip → Option Clip → Type 0
Moved c none = Unit {0}
Moved c (some d) =
    (can_move c.conversion_status d.conversion_status ≡ true)
    × (d ≡ record c { mp4_object_key = d.mp4_object_key; conversion_status = d.conversion_status })
    × (c.conversion_status ≡ done → d ≡ c)

can_move_self : (s : ConversionStatus) → can_move s s ≡ true
can_move_self unconverted = refl
can_move_self pending = refl
can_move_self done = refl
can_move_self failed = refl

Moved-self : (c : Clip) → Moved c (some c)
Moved-self c = (can_move_self c.conversion_status, refl, λ h. refl)

kept-Moved :
    (j : ℕ) (t u : Tables) (c : Clip)
    → find_clip j t.clips ≡ some c
    → (find_clip j u.clips ≡ none) ⊎ (find_clip j u.clips ≡ find_clip j t.clips)
    → Moved c (find_clip j u.clips)
kept-Moved j t u c found (inl e) = rw e tt
kept-Moved j t u c found (inr e) = rw (e, found) (Moved-self c)

claimable-moves :
    (s : ConversionStatus) → is_claimable s ≡ true → (can_move s pending ≡ true) × (s ≢ done)
claimable-moves unconverted h = (refl, λ e. cc)
claimable-moves failed h = (refl, λ e. cc)
claimable-moves pending h = cc
claimable-moves done h = cc

pending-moves :
    (s : ConversionStatus)
    → is_pending s ≡ true
    → (can_move s done ≡ true) × (can_move s failed ≡ true) × (s ≢ done)
pending-moves pending h = (refl, refl, λ e. cc)
pending-moves unconverted h = cc
pending-moves failed h = cc
pending-moves done h = cc

module _ {objects : Objects} where
  changed-Moved :
      (id j : ℕ) (key : String) (status : ConversionStatus) (w v : World objects) (c : Clip)
      → v.conn.tables
        ≡ record w.conn.tables { clips = set_conversion id key status w.conn.tables.clips }
      → find_clip j w.conn.tables.clips ≡ some c
      → (id ≡ j → (can_move c.conversion_status status ≡ true) × (c.conversion_status ≢ done))
      → Moved c (find_clip j v.conn.tables.clips)
  changed-Moved id j key status w v c e found may = elim (Bool-cases (id == j)) [
    | inl same ↦
        let (m, n) = may ((nat_eq.same_iff id j).0 same) in
        rw (e, find_clip-set_conversion id j key status w.conn.tables.clips, found, same)
          (m, refl, λ h. absurd (n h))
    | inr other ↦
        rw (e, find_clip-set_conversion id j key status w.conn.tables.clips, found, other)
          (Moved-self c)
  ]

  run-Moved :
      (i j : ℕ) (job : Job) (w : World objects)
      (out : Result Failure (Unit {0}) × Conn objects.Store) (c : Clip)
      → nth_job i w.jobs ≡ some job
      → IsTidy w
      → find_clip j w.conn.tables.clips ≡ some c
      → Moved c (
          find_clip j
            (finished objects job (record w { jobs = without_job i w.jobs }) out).conn.tables.clips)
  run-Moved i j job w out c e tidy found =
      let u : World objects = record w { jobs = without_job i w.jobs } in
      let v = finished objects job u out in
      let may = λ (same : job.clip_id ≡ j). pending-moves c.conversion_status (
        ground (
          arith,
          tidy.converting j,
          nth_job-count i j w.jobs job e,
          nat_eq.same_iff job.clip_id j,
        )) in
      elim (finished-Writes job u out).1 [
        | inl t ↦ rw (t, found) (Moved-self c)
        | inr (inl t) ↦
            changed-Moved job.clip_id j job.mp4_key done w v c t found
              (λ same. ((may same).0, (may same).2))
        | inr (inr t) ↦
            changed-Moved job.clip_id j "" failed w v c t found
              (λ same. ((may same).1, (may same).2))
      ]

  Claims-Moved :
      (clip_id : ℕ) (key : String) (w v : World objects) (id : ℕ) (c : Clip)
      → Claims clip_id key w v id
      → find_clip id w.conn.tables.clips ≡ some c
      → Moved c (find_clip id v.conn.tables.clips)
  Claims-Moved clip_id key w v id c claims found = elim claims [
    | inl (e, _) ↦ rw (e, found) (Moved-self c)
    | inr (e, claimed, _) ↦
        changed-Moved clip_id id key pending w v c e found
          (λ same. claimable-moves c.conversion_status (ground (arith, claimed, found, same)))
  ]

  -- Whatever fails, where at most one goroutine converts a clip and only a pending one: an event
  -- makes a status move only from none or failed to pending, and from pending to done or failed;
  -- it changes nothing else of a clip than its MP4, or evicts it; and a clip whose conversion is
  -- done it leaves as it is.
  pub handle-Moved :
      (max : ℤ) (e : Event) (w : World objects) (id : ℕ) (c : Clip)
      → IsTidy w
      → find_clip id w.conn.tables.clips ≡ some c
      → Moved c (find_clip id (handle objects max e w).conn.tables.clips)
  unfolding handle do_convert
  handle-Moved max (upload_clip uuid now user_id content_type size body) w id c tidy found =
      let t = w.conn.tables in
      let grown =
        (upload-Kept t objects max uuid now user_id content_type size body w
          (Grown-self t tidy.table)).0 in
      kept-Moved id t (upload objects max uuid now user_id content_type size body w).1.conn.tables c
        found (grown.old id (ground (arith, find_clip-fresh id t tidy.table)))
  handle-Moved max (ask_convert user_id clip_id) w id c tidy found =
      Claims-Moved clip_id (claim_key clip_id (find_clip clip_id w.conn.tables.clips)) w
        (request_convert objects user_id clip_id w).1 id c
        (request_convert-Claims user_id clip_id w id) found
  handle-Moved max (claim_later job) w id c tidy found =
      Claims-Moved job.clip_id job.mp4_key w (started objects w (claim_job job w.conn)).1 id c
        (claim_job-Claims job w id) found
  handle-Moved max (run_job i run) w id c tidy found = elim (Option-cases (nth_job i w.jobs)) [
    | inl e ↦ rw (e, found) (Moved-self c)
    | inr (job, e) ↦ rw e (run-Moved i id job w (encode objects run job w.store) c e tidy found)
  ]
