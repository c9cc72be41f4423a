-- ===== src/Media/Evicted.antt =====
-- The eviction of the oldest clips, in services/media/internal/api/service/clip_service.go and
-- repository/clip_repository.go.
use full.Base.{
  ℕ, suc, ◌≤◌, ◌≡◌, ◌≢◌, refl, false, not, ◌&&◌, Option, none, some, List, [], ◌∷◌, String, arith,
  ltb, leb, ◌==◌, nat_eq, string_eq, if◌then◌else◌, any, filter, count_p, any-count_p,
  count_p-filter-le, count_p-drop-le, count_p_mono, count_p-both, count_p-filter, count_p-sort_by,
  insert_by-first, insert_by, count_p-or, drop, sort_by,
}
use full.Base.Int.{ℤ}
use full.Base.Db.{ok, raise, pure, statement, ◌>>=◌}
use full.Media.Clip.{Clip, max_clips_per_user}
use full.Media.Objects.{Objects}
use full.Media.Clips.{
  Tables, newer, find_clip, beyond_limit, select_by_user, delete_beyond, insert_clip, create,
  delete_oldest_beyond_limit,
}
use full.Media.Upload.{World, put_object, evict, keep, new_clip, upload}
use full.Media.Rows.{find_clip-filter, delete_beyond-le}
use full.Media.Table.{
  IsTable, IsPast, created_row, inserted, inserted-IsTable, find_clip-inserted, find_clip-fresh,
}

find_clip-count :
    (id user_id : ℕ) (c : Clip) (cs : List Clip)
    → find_clip id cs ≡ some c
    → c.user_id ≢ user_id
    → 1 ≤ count_p (λ d. (d.id == id) && not (d.user_id == user_id)) cs
unfolding find_clip
find_clip-count id user_id c [] e n = cc
find_clip-count id user_id c (d ∷ cs) e n = ground (arith, find_clip-count id user_id c cs)

-- Only rows of the user are deleted.
among-other :
    (user_id limit : ℕ) (c : Clip) (id : ℕ) (t : Tables)
    → IsTable t
    → find_clip id t.clips ≡ some c
    → c.user_id ≢ user_id
    → any (λ r. r.id == id) (beyond_limit user_id limit t.clips) ≡ false
unfolding beyond_limit select_by_user
among-other user_id limit c id t v e n =
    let mine = filter (λ (c : Clip). c.user_id == user_id) t.clips in
    any-count_p (λ r. r.id == id) (drop limit (sort_by newer mine))
      (omega (
        arith,
        v.unique id,
        find_clip-count id user_id c t.clips e n,
        count_p-both (λ (d : Clip). d.id == id) (λ d. d.user_id == user_id) t.clips,
        count_p-drop-le (λ (r : Clip). r.id == id) limit (sort_by newer mine),
        count_p-sort_by (λ (r : Clip). r.id == id) newer mine,
        count_p-filter (λ (r : Clip). r.id == id) (λ c. c.user_id == user_id) t.clips,
        count_p_mono (λ (d : Clip). (d.user_id == user_id) && (d.id == id))
            (λ d. (d.id == id) && (d.user_id == user_id)) t.clips (λ d h. ground arith),
      ))

pub find_clip-delete_beyond :
    (user_id limit id : ℕ) (t : Tables)
    → find_clip id (delete_beyond user_id limit t).1.clips ≡ (
        if any (λ r. r.id == id) (beyond_limit user_id limit t.clips)
        then none
        else find_clip id t.clips)
unfolding delete_beyond
find_clip-delete_beyond user_id limit id t = ground (
  arith,
  find_clip-filter (λ j. not (any (λ r. r.id == j) (beyond_limit user_id limit t.clips))) id
      t.clips,
)

-- The newest row comes first, and is not among those past the limit.
among-created :
    (now limit : ℕ) (clip : Clip) (t : Tables)
    → IsTable t
    → IsPast now t
    → let created = created_row now clip t in
      any (λ r. r.id == t.next_clip) (beyond_limit clip.user_id (suc limit) (created ∷ t.clips))
      ≡ false
unfolding beyond_limit select_by_user
among-created now limit clip t v past =
    let created = created_row now clip t in
    let mine = filter (λ (c : Clip). c.user_id == clip.user_id) t.clips in
    let after =
      count_p-filter-le (λ y. not (newer created y)) (λ c. c.user_id == clip.user_id) t.clips in
    let first : insert_by newer created (sort_by newer mine) ≡ created ∷ sort_by newer mine =
      insert_by-first newer created (sort_by newer mine) (
        omega (
          arith,
          after,
          count_p-sort_by (λ y. not (newer created y)) newer mine,
          count_p-or (λ y. not (newer created y)) (λ (c : Clip). ltb now c.created_at)
              (λ (c : Clip). leb t.next_clip c.id) t.clips (λ c h. ground arith),
          past,
          v.fresh,
        )) in
    let rest =
      any-count_p (λ (r : Clip). r.id == t.next_clip) (drop limit (sort_by newer mine))
        (omega (
          arith,
          v.fresh,
          count_p-drop-le (λ (r : Clip). r.id == t.next_clip) limit (sort_by newer mine),
          count_p-sort_by (λ (r : Clip). r.id == t.next_clip) newer mine,
          count_p-filter-le (λ (r : Clip). r.id == t.next_clip) (λ c. c.user_id == clip.user_id)
              t.clips,
          count_p_mono (λ (r : Clip). r.id == t.next_clip) (λ r. leb t.next_clip r.id) t.clips
              (λ r h. ground arith),
        )) in
    ground (arith, first, rest)

module _ (objects : Objects) where
  -- The tables after an upload that succeeds while the database answers.
  upload-ok :
      (max : ℤ) (uuid : String) (now user_id : ℕ) (content_type : String) (size : ℤ)
      (body : Option ℕ) (w : World objects) (clip : Clip)
      → w.conn.fates ≡ []
      → (upload objects max uuid now user_id content_type size body w).0 ≡ ok clip
      → let new = new_clip objects user_id uuid size in
        ((upload objects max uuid now user_id content_type size body w).1.conn.tables
          ≡ (delete_beyond user_id max_clips_per_user (inserted now new w.conn.tables)).1)
        × (clip ≡ created_row now new w.conn.tables)
  unfolding upload keep evict put_object create insert_clip delete_oldest_beyond_limit statement
      pure raise ◌>>=◌
  upload-ok max uuid now user_id content_type size body w clip quiet e = ground arith

  -- Where the database answers, ids are unique and no row is from later than `now`: an upload that
  -- succeeds leaves the user with ten clips at most, the new one among them, and every other user
  -- with the clips they had.
  pub upload-Bounded :
      (max : ℤ)
      → (uuid : String) (now user_id : ℕ) (content_type : String) (size : ℤ) (body : Option ℕ)
        (w : World objects) (clip : Clip)
      → w.conn.fates ≡ []
      → IsTable w.conn.tables
      → IsPast now w.conn.tables
      → (upload objects max uuid now user_id content_type size body w).0 ≡ ok clip
      → let t = (upload objects max uuid now user_id content_type size body w).1.conn.tables in
        (count_p (λ (c : Clip). c.user_id == user_id) t.clips ≤ max_clips_per_user)
        × (find_clip clip.id t.clips ≡ some clip)
        × (clip.user_id ≡ user_id)
        × ((id : ℕ) (c : Clip)
            → find_clip id w.conn.tables.clips ≡ some c
            → c.user_id ≢ user_id
            → find_clip id t.clips ≡ some c)
  upload-Bounded max uuid now user_id content_type size body w clip quiet v past e =
      let new = new_clip objects user_id uuid size in
      let t = inserted now new w.conn.tables in
      let (after, made) = upload-ok max uuid now user_id content_type size body w clip quiet e in
      rw (after, made)
        (
          delete_beyond-le user_id max_clips_per_user t,
          ground (
            arith,
            find_clip-delete_beyond user_id max_clips_per_user w.conn.tables.next_clip t,
            find_clip-inserted now new w.conn.tables w.conn.tables.next_clip,
            among-created now 9 new w.conn.tables v past,
          ),
          refl,
          λ id c found other. ground (
            arith,
            find_clip-delete_beyond user_id max_clips_per_user id t,
            find_clip-inserted now new w.conn.tables id,
            find_clip-fresh id w.conn.tables v,
            among-other user_id max_clips_per_user c id t
                (inserted-IsTable now new w.conn.tables v),
          ),
        )
