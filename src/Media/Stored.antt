-- ===== src/Media/Stored.antt =====
-- Each clip's row has its object in the store:
-- services/media/internal/api/service/clip_service.go, Upload and its cleanups.
use full.Base.{
  ℕ, ◌+◌, ◌≤◌, ◌≡◌, ◌≢◌, refl, false, not, Option, none, some, List, [], ◌∷◌, map, String, arith,
  ◌==◌, nat_eq, string_eq, if◌then◌else◌, any, filter, count_p, any-count_p, count_p-filter-le,
}
use full.Base.Int.{ℤ}
use full.Base.Db.{Conn, Result, ok, err, lost, next, raise, pure, statement, ◌>>=◌}
use full.Media.Clip.{Clip, max_clips_per_user, build_object_key}
use full.Media.Objects.{Objects}
use full.Media.Clips.{
  Tables, Fault, among, beyond_limit, insert_clip, create, delete_beyond,
  delete_oldest_beyond_limit,
}
use full.Media.Upload.{
  World, put_object, remove_object, remove_objects, evict, recorded, stored, keep, new_clip, upload,
}
use full.Media.Rows.{count_p-not-among}

-- The rows that name a key.
unfoldable pub naming : String → List Clip → ℕ
naming k clips = count_p (λ c. c.object_key == k) clips

module _ (objects : Objects) where
  -- A key stands in one row at most, and what a row names is in the store.
  pub record IsStored (w : World objects) : Type 0 where
    pub single : (k : String) → naming k w.conn.tables.clips ≤ 1
    pub held :
        (k : String) → 1 ≤ naming k w.conn.tables.clips → objects.read w.store.tables k ≢ none

  remove_object-read :
      (k j : String) (s : Conn objects.Store)
      → (k == j) ≡ false
      → objects.read (remove_object objects k s).1.tables j ≡ objects.read s.tables j
  unfolding remove_object statement
  remove_object-read k j s h = ground (arith, objects.read-remove s.tables k j)

  remove_objects-read :
      (keys : List String) (j : String) (s : Conn objects.Store)
      → any (λ k. k == j) keys ≡ false
      → objects.read (remove_objects objects keys s).tables j ≡ objects.read s.tables j
  unfolding remove_objects
  remove_objects-read [] j s h = refl
  remove_objects-read (k ∷ ks) j s h =
      ground
        (arith, remove_objects-read ks j (remove_object objects k s).1, remove_object-read k j s)

any-keys :
    (k : String) (cs : List Clip)
    → any (λ j. j == k) (map (λ c. c.object_key) cs) ≡ any (λ c. c.object_key == k) cs
any-keys k [] = refl
any-keys k (c ∷ cs) = ground (arith, any-keys k cs)

naming-cons :
    (k : String) (c : Clip) (cs : List Clip)
    → naming k (c ∷ cs) ≡ (if c.object_key == k then 1 else 0) + naming k cs
unfolding naming
naming-cons k c cs = refl

-- A row that is left names no key that was given back.
kept-naming :
    (user_id limit : ℕ) (k : String) (t : Tables)
    → naming k t.clips ≤ 1
    → 1 ≤ naming k (delete_beyond user_id limit t).1.clips
    → any (λ j. j == k) (delete_beyond user_id limit t).0 ≡ false
unfolding naming delete_beyond
kept-naming user_id limit k t single left =
    let rows = beyond_limit user_id limit t.clips in
    let gone = filter (among rows) t.clips in
    rw (any-keys k gone) (
      any-count_p (λ (c : Clip). c.object_key == k) gone
        (omega (arith, count_p-not-among (λ c. c.object_key == k) rows t.clips)))

naming-delete_beyond :
    (user_id limit : ℕ) (k : String) (t : Tables)
    → naming k (delete_beyond user_id limit t).1.clips ≤ naming k t.clips
unfolding naming delete_beyond
naming-delete_beyond user_id limit k t =
    count_p-filter-le (λ (c : Clip). c.object_key == k)
      (λ c. not (among (beyond_limit user_id limit t.clips) c)) t.clips

abbrev body_of : Option ℕ → ℕ
body_of none = 0
body_of (some body) = body

module _ (objects : Objects) where
  evict-IsStored :
      (user_id : ℕ) (w : World objects)
      → IsStored objects w
      → IsStored objects (evict objects user_id w)
  unfolding evict delete_oldest_beyond_limit statement
  evict-IsStored user_id w h = record {
    single = λ k.
        ground (arith, h.single k, naming-delete_beyond user_id max_clips_per_user k w.conn.tables);
    held = λ k left. ground (
      arith,
      h.single k,
      h.held k,
      naming-delete_beyond user_id max_clips_per_user k w.conn.tables,
      kept-naming user_id max_clips_per_user k w.conn.tables,
      remove_objects-read objects (delete_beyond user_id max_clips_per_user w.conn.tables).0 k
          w.store,
    );
  }

  put_object-IsStored :
      (key : String) (body : Option ℕ) (w : World objects)
      → IsStored objects w
      → IsStored objects (record w { store = (put_object objects key body w.store).1 })
  unfolding put_object statement raise
  put_object-IsStored key body w h = record {
    single = h.single;
    held = λ k left.
        ground (arith, h.held k left, objects.read-put w.store.tables key k (body_of body));
  }

  put_object-ok :
      (key : String) (body : Option ℕ) (s : Conn objects.Store)
      → (put_object objects key body s).0 ≡ ok tt
      → objects.read (put_object objects key body s).1.tables key ≢ none
  unfolding put_object statement raise
  put_object-ok key body s e =
      ground (arith, objects.read-put s.tables key key (body_of body), string_eq.same_iff key key)

  -- What create makes of the rows, where no reply is lost and no row names the key.
  abbrev Created : String → List Clip → Result Fault Clip × Conn Tables → Type 0
  Created key cs (err e, c) = c.tables.clips ≡ cs
  Created key cs (ok d, c) = (c.tables.clips ≡ d ∷ cs) × (d.object_key ≡ key)

  create-Created :
      (now : ℕ) (clip : Clip) (c : Conn Tables)
      → naming clip.object_key c.tables.clips ≡ 0
      → next c.fates ≢ lost
      → Created clip.object_key c.tables.clips (create now clip c)
  unfolding create naming insert_clip statement pure raise ◌>>=◌
  create-Created now clip c new kept =
      ground (arith, any-count_p (λ (d : Clip). d.object_key == clip.object_key) c.tables.clips)

  recorded-IsStored :
      (clip : Clip) (w : World objects) (out : Result Fault Clip × Conn Tables)
      → IsStored objects w
      → naming clip.object_key w.conn.tables.clips ≡ 0
      → objects.read w.store.tables clip.object_key ≢ none
      → Created clip.object_key w.conn.tables.clips out
      → IsStored objects (recorded objects clip w out).1
  recorded-IsStored clip w (err e, c) h new there same = record {
    single = λ k. ground (arith, h.single k);
    held = λ k left. ground (
      arith,
      h.held k,
      remove_object-read objects clip.object_key k w.store,
      string_eq.same_iff clip.object_key k,
    );
  }
  recorded-IsStored clip w (ok d, c) h new there (added, key) =
      let v : World objects = record w { conn = c } in
      evict-IsStored clip.user_id v record {
        single = λ k. ground (
          arith,
          h.single k,
          naming-cons k d w.conn.tables.clips,
          string_eq.same_iff d.object_key k,
        );
        held = λ k left. ground (
          arith,
          h.held k,
          naming-cons k d w.conn.tables.clips,
          string_eq.same_iff d.object_key k,
        );
      }

  stored_by :
      (now : ℕ) (clip : Clip) (w : World objects)
      (out : Result Fault (Unit {0}) × Conn objects.Store)
      → IsStored objects (record w { store = out.1 })
      → (out.0 ≡ ok tt → objects.read out.1.tables clip.object_key ≢ none)
      → naming clip.object_key w.conn.tables.clips ≡ 0
      → next w.conn.fates ≢ lost
      → IsStored objects (stored objects now clip w out).1
  stored_by now clip w (err e, s) h there new kept = h
  stored_by now clip w (ok tt, s) h there new kept =
      recorded-IsStored clip (record w { store = s }) (create now clip w.conn) h new (there refl)
        (create-Created now clip w.conn new kept)

  keep-IsStored :
      (now : ℕ) (clip : Clip) (body : Option ℕ) (w : World objects)
      → IsStored objects w
      → naming clip.object_key w.conn.tables.clips ≡ 0
      → next w.conn.fates ≢ lost
      → IsStored objects (keep objects now clip body w).1
  unfolding keep
  keep-IsStored now clip body w h new kept =
      let key = clip.object_key in
      stored_by now clip w (put_object objects key body w.store) (put_object-IsStored key body w h)
        (put_object-ok key body w.store) new kept

  -- Where no reply of the database to the new row is lost, and no row names the new key yet, an
  -- upload keeps the store in step with the table, whether it succeeds or fails, and whatever the
  -- object store refuses: every row's object is there, and no two rows share one.
  pub upload-IsStored :
      (max : ℤ) (uuid : String) (now user_id : ℕ) (content_type : String) (size : ℤ)
      (body : Option ℕ) (w : World objects)
      → IsStored objects w
      → naming (build_object_key user_id uuid) w.conn.tables.clips ≡ 0
      → next w.conn.fates ≢ lost
      → IsStored objects (upload objects max uuid now user_id content_type size body w).1
  unfolding upload
  upload-IsStored max uuid now user_id content_type size body w h new kept =
      ground (arith, keep-IsStored now (new_clip objects user_id uuid size) body w h new kept)
