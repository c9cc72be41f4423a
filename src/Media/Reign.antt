-- ===== src/Media/Reign.antt =====
-- The current king clip of each hill:
-- services/media/internal/api/service/king_clip_service.go.
use full.Base.{
  ℕ, suc, ◌≡◌, ◌≢◌, refl, true, not, ◌&&◌, Option, some, [], ◌∷◌, String, arith, leb, ltb, ◌==◌,
  nat_eq, string_eq, inl, inr, Option-cases, filter, count_p, count_p-filter, count_p_mono,
  filter-none, filter-filter,
}
use full.Base.Int.{ℤ, pos, ltb_ℤ}
use full.Base.Db.{Conn, ok, pure, raise, statement, ◌>>=◌}
use full.Media.Clip.{KingClip, valid_hill_type}
use full.Media.Objects.{Objects}
use full.Media.Clips.{Tables}
use full.Media.Upload.{World, put_object}
use full.Media.KingClips.{
  insert_king_clip, create, select_current, get_current, superseded, delete_superseded_by_hill,
}
use full.Media.KingUpload.{Config, current_url, keep, new_king_clip, upload}

-- Ids of king clips are below the next value of the identity column.
abbrev pub IsNumbered : Tables → Type 0
IsNumbered t = count_p (λ (c : KingClip). leb t.next_king_clip c.id) t.king_clips ≡ 0

abbrev created_row : ℕ → KingClip → Tables → KingClip
created_row now clip t = record clip { id = t.next_king_clip; created_at = now }

abbrev crowned : ℕ → KingClip → Tables → Tables
crowned now clip t = record t {
  king_clips =
      created_row now clip t
      ∷ filter (λ c. not ((c.hill_type == clip.hill_type) && ltb c.id t.next_king_clip))
          t.king_clips;
  next_king_clip = suc t.next_king_clip;
}

-- On its hill the new clip is the only one, and current until it expires.
select_current-crowned :
    (now at : ℕ) (clip : KingClip) (t : Tables)
    → IsNumbered t
    → ltb_ℤ (pos at) clip.expires_at ≡ true
    → select_current at clip.hill_type (crowned now clip t).king_clips
      ≡ some (created_row now clip t)
unfolding select_current
select_current-crowned now at clip t numbered valid =
    let mine = λ (c : KingClip). (c.hill_type == clip.hill_type) && ltb_ℤ (pos at) c.expires_at in
    let left =
      λ (c : KingClip). not ((c.hill_type == clip.hill_type) && ltb c.id t.next_king_clip) in
    let empty : filter mine (filter left t.king_clips) ≡ [] =
      filter-none mine (filter left t.king_clips) (
        omega (
          arith,
          count_p-filter mine left t.king_clips,
          count_p_mono (λ c. left c && mine c) (λ (c : KingClip). leb t.next_king_clip c.id)
              t.king_clips (λ c h. ground arith),
          numbered,
        )) in
    ground (arith, empty, valid, string_eq.same_iff clip.hill_type clip.hill_type)

-- On every other hill nothing changes.
select_current-other :
    (now at : ℕ) (hill : String) (clip : KingClip) (t : Tables)
    → hill ≢ clip.hill_type
    → select_current at hill (crowned now clip t).king_clips ≡ select_current at hill t.king_clips
unfolding select_current
select_current-other now at hill clip t other =
    let theirs = λ (c : KingClip). (c.hill_type == hill) && ltb_ℤ (pos at) c.expires_at in
    let left =
      λ (c : KingClip). not ((c.hill_type == clip.hill_type) && ltb c.id t.next_king_clip) in
    let same : filter theirs (filter left t.king_clips) ≡ filter theirs t.king_clips =
      filter-filter theirs left t.king_clips (λ c h. ground (
        arith,
        string_eq.same_iff c.hill_type hill,
        string_eq.same_iff c.hill_type clip.hill_type,
      )) in
    ground (arith, same, string_eq.same_iff clip.hill_type hill)

module _ (presign : String → Option String) (at : ℕ) (hill : String) where
  current_url-shows :
      (c : Conn Tables) (clip : KingClip) (url : String)
      → c.fates ≡ []
      → valid_hill_type hill ≡ true
      → select_current at hill c.tables.king_clips ≡ some clip
      → presign clip.object_key ≡ some url
      → (current_url presign at hill c).0 ≡ ok (url, clip.blink_ts_ms)
  unfolding current_url get_current statement pure raise ◌>>=◌
  current_url-shows c clip url quiet valid e signed = ground arith

  current_url-same :
      (c d : Conn Tables)
      → c.fates ≡ []
      → d.fates ≡ []
      → select_current at hill c.tables.king_clips ≡ select_current at hill d.tables.king_clips
      → (current_url presign at hill c).0 ≡ (current_url presign at hill d).0
  unfolding current_url get_current statement pure raise ◌>>=◌
  current_url-same c d quiet calm e =
      elim (Option-cases (select_current at hill d.tables.king_clips)) [
        | inl n ↦ ground (arith, n)
        | inr (clip, n) ↦ ground (arith, n)
      ]

module _ (objects : Objects) where
  upload-crowned :
      (cfg : Config) (uuid : String) (now user_id : ℕ) (hill_type : String) (blink_ts_ms : ℤ)
      (content_type : String) (size : ℤ) (body : Option ℕ) (w : World objects) (clip : KingClip)
      → w.conn.fates ≡ []
      → let out =
          upload objects cfg uuid now user_id hill_type blink_ts_ms content_type size body w in
        let new = new_king_clip objects cfg uuid now user_id hill_type blink_ts_ms in
        out.0 ≡ ok clip
        → (out.1.conn ≡ record { tables = crowned now new w.conn.tables; fates = [] })
          × (clip ≡ created_row now new w.conn.tables)
          × (valid_hill_type hill_type ≡ true)
  unfolding upload keep put_object create insert_king_clip delete_superseded_by_hill superseded
      statement pure raise ◌>>=◌
  upload-crowned cfg uuid now user_id hill_type blink_ts_ms content_type size body w clip quiet e =
      ground arith

  -- Where the database answers and the clocks agree, a king clip that was uploaded is what its
  -- hill shows, with its blink, until it expires, whoever reigned before; and every other hill
  -- shows what it showed.
  pub upload-Reigns :
      (cfg : Config) (uuid : String) (now user_id : ℕ) (hill_type : String) (blink_ts_ms : ℤ)
      (content_type : String) (size : ℤ) (body : Option ℕ) (w : World objects) (clip : KingClip)
      (presign : String → Option String) (url : String) (at : ℕ) (other : String)
      → w.conn.fates ≡ []
      → IsNumbered w.conn.tables
      → let out =
          upload objects cfg uuid now user_id hill_type blink_ts_ms content_type size body w in
        out.0 ≡ ok clip
        → presign clip.object_key ≡ some url
        → ltb_ℤ (pos at) clip.expires_at ≡ true
        → other ≢ hill_type
        → ((current_url presign at hill_type out.1.conn).0 ≡ ok (url, blink_ts_ms))
          × ((current_url presign at other out.1.conn).0 ≡ (current_url presign at other w.conn).0)
  upload-Reigns cfg uuid now user_id hill_type blink_ts_ms content_type size body w clip presign url
        at other quiet numbered e signed valid differ =
      let new = new_king_clip objects cfg uuid now user_id hill_type blink_ts_ms in
      let t = w.conn.tables in
      let (after, made, known) =
        upload-crowned cfg uuid now user_id hill_type blink_ts_ms content_type size body w clip
          quiet e in
      let c : Conn Tables = record { tables = crowned now new t; fates = [] } in
      let signed' : presign new.object_key ≡ some url = ground (arith, made, signed) in
      let valid' : ltb_ℤ (pos at) new.expires_at ≡ true = ground (arith, made, valid) in
      rw after (
        current_url-shows presign at hill_type c (created_row now new t) url refl known
            (select_current-crowned now at new t numbered valid') signed',
        current_url-same presign at other c w.conn refl quiet
            (select_current-other now at other new t differ),
      )
