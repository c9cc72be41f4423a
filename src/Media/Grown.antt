-- ===== src/Media/Grown.antt =====
-- What an upload of services/media/internal/api/service/clip_service.go makes of the rows that are
-- there, whatever fails.
use full.Base.{ℕ, ◌≤◌, ◌<◌, ◌≡◌, ◌⊎◌, refl, Option, none, some, List, String, arith, nat_eq}
use full.Base.Int.{ℤ}
use full.Base.Db.{Conn, Result, ok, err, statement}
use full.Base.Db.Keeps.{Keeps, Keeps-pure, Keeps-raise, Keeps-statement, Keeps-bind}
use full.Media.Clip.{Clip, max_clips_per_user}
use full.Media.Objects.{Objects}
use full.Media.Clips.{
  Tables, Fault, duplicate_key, find_clip, insert_clip, create, or_raise, delete_beyond,
  delete_oldest_beyond_limit,
}
use full.Media.Upload.{World, recorded, stored, keep, upload, evict, evicted, put_object, new_clip}
use full.Media.Table.{IsTable, inserted-IsTable, find_clip-inserted, delete_beyond-IsTable}
use full.Media.Evicted.{find_clip-delete_beyond}

-- What an upload makes of the tables `t`: old rows stay as they were, or are evicted.
pub record Grown (t u : Tables) : Type 0 where
  pub table : IsTable u
  pub up : t.next_clip ≤ u.next_clip
  pub old :
      (id : ℕ)
      → id < t.next_clip
      → (find_clip id u.clips ≡ none) ⊎ (find_clip id u.clips ≡ find_clip id t.clips)

insert_clip-Grown :
    (t : Tables) (now : ℕ) (clip : Clip) (u : Tables)
    → Grown t u
    → Grown t (insert_clip now clip u).1
unfolding insert_clip
insert_clip-Grown t now clip u g = record {
  table = ground (arith, inserted-IsTable now clip u g.table, g.table.fresh, g.table.unique);
  up = ground (arith, g.up);
  old = λ id h. ground (arith, g.up, g.old id h, find_clip-inserted now clip u id);
}

next_clip-delete_beyond :
    (user_id limit : ℕ) (t : Tables) → (delete_beyond user_id limit t).1.next_clip ≡ t.next_clip
unfolding delete_beyond
next_clip-delete_beyond user_id limit t = refl

delete_beyond-Grown :
    (t : Tables) (user_id limit : ℕ) (u : Tables)
    → Grown t u
    → Grown t (delete_beyond user_id limit u).1
delete_beyond-Grown t user_id limit u g = record {
  table = delete_beyond-IsTable user_id limit u g.table;
  up = omega (arith, g.up, next_clip-delete_beyond user_id limit u);
  old = λ id h. ground (arith, g.old id h, find_clip-delete_beyond user_id limit id u);
}

module _ (t : Tables) where
  create-Keeps : (now : ℕ) (clip : Clip) → Keeps (Grown t) (create now clip)
  unfolding create
  create-Keeps now clip =
      Keeps-bind (Grown t) (statement (insert_clip now clip)) (or_raise duplicate_key)
        (Keeps-statement (Grown t) (insert_clip now clip) (insert_clip-Grown t now clip)) row_Keeps
    where
      row_Keeps : (row : Option Clip) → Keeps (Grown t) (or_raise duplicate_key row)
      row_Keeps none = Keeps-raise (Grown t) duplicate_key
      row_Keeps (some c) = Keeps-pure (Grown t) c

  delete-Keeps : (user_id limit : ℕ) → Keeps (Grown t) (delete_oldest_beyond_limit user_id limit)
  unfolding delete_oldest_beyond_limit
  delete-Keeps user_id limit =
      Keeps-statement (Grown t) (delete_beyond user_id limit) (delete_beyond-Grown t user_id limit)

  module _ (objects : Objects) where
    -- Of an upload's outcome: the tables have grown, and the jobs are those of `w`.
    abbrev Kept : World objects → World objects → Type 0
    Kept w v = Grown t v.conn.tables × (v.jobs ≡ w.jobs)

    evicted-Kept :
        (w : World objects) (out : Result Fault (List String) × Conn Tables)
        → Grown t out.1.tables
        → Kept w (evicted objects w out)
    evicted-Kept w (err e, c) g = (g, refl)
    evicted-Kept w (ok keys, c) g = (g, refl)

    recorded-Kept :
        (clip : Clip) (w : World objects) (out : Result Fault Clip × Conn Tables)
        → Grown t out.1.tables
        → Kept w (recorded objects clip w out).1
    unfolding evict
    recorded-Kept clip w (err e, c) g = (g, refl)
    recorded-Kept clip w (ok created, c) g =
        let v : World objects = record w { conn = c } in
        evicted-Kept v (delete_oldest_beyond_limit clip.user_id max_clips_per_user c)
          ((delete-Keeps clip.user_id max_clips_per_user).keeps c g)

    stored-Kept :
        (now : ℕ) (clip : Clip) (w : World objects)
        (out : Result Fault (Unit {0}) × Conn objects.Store)
        → Grown t w.conn.tables
        → Kept w (stored objects now clip w out).1
    stored-Kept now clip w (err e, s) g = (g, refl)
    stored-Kept now clip w (ok _, s) g =
        recorded-Kept clip (record w { store = s }) (create now clip w.conn)
          ((create-Keeps now clip).keeps w.conn g)

    pub upload-Kept :
        (max : ℤ) (uuid : String) (now user_id : ℕ) (content_type : String) (size : ℤ)
        (body : Option ℕ) (w : World objects)
        → Grown t w.conn.tables
        → Kept w (upload objects max uuid now user_id content_type size body w).1
    unfolding upload keep
    upload-Kept max uuid now user_id content_type size body w g =
        let clip = new_clip objects user_id uuid size in
        ground (arith, stored-Kept now clip w (put_object objects clip.object_key body w.store) g)
