-- ===== src/Media/Table.antt =====
-- The table clips as services/media/internal/api/repository/clip_repository.go keeps it: unique
-- ids below the next value of the identity column.
use full.Base.{
  ◌∙◌, ℕ, suc, ◌≤◌, ◌≡◌, refl, Bool, not, none, some, List, [], ◌∷◌, String, arith, ltb, leb, ◌==◌,
  nat_eq, string_eq, if◌then◌else◌, count_p, count_p-filter-le, count_p_mono,
}
use full.Media.Clip.{ConversionStatus, Clip, unconverted}
use full.Media.Clips.{set_conversion, Tables, find_clip, among, beyond_limit, delete_beyond}

-- Ids are unique, and below the next value of the identity column.
pub record IsTable (t : Tables) : Type 0 where
  pub fresh : count_p (λ (c : Clip). leb t.next_clip c.id) t.clips ≡ 0
  pub unique : (id : ℕ) → count_p (λ (c : Clip). c.id == id) t.clips ≤ 1

-- No row is from later than `now`.
abbrev pub IsPast : ℕ → Tables → Type 0
IsPast now t = count_p (λ (c : Clip). ltb now c.created_at) t.clips ≡ 0

-- The row that insert_clip adds.
abbrev pub created_row : ℕ → Clip → Tables → Clip
created_row now clip t = record clip {
  id = t.next_clip;
  created_at = now;
  mp4_object_key = "";
  conversion_status = unconverted;
}

pub delete_beyond-IsTable :
    (user_id limit : ℕ) (t : Tables) → IsTable t → IsTable (delete_beyond user_id limit t).1
unfolding delete_beyond
delete_beyond-IsTable user_id limit t v =
    let rows = beyond_limit user_id limit t.clips in
    record {
      fresh = omega (
        arith,
        v.fresh,
        count_p-filter-le (λ (c : Clip). leb t.next_clip c.id) (λ c. not (among rows c)) t.clips,
      );
      unique = λ id. omega (
        arith,
        v.unique id,
        count_p-filter-le (λ (c : Clip). c.id == id) (λ c. not (among rows c)) t.clips,
      );
    }

abbrev pub inserted : ℕ → Clip → Tables → Tables
inserted now clip t = record t {
  clips = created_row now clip t ∷ t.clips;
  next_clip = suc t.next_clip;
}

pub inserted-IsTable :
    (now : ℕ) (clip : Clip) (t : Tables) → IsTable t → IsTable (inserted now clip t)
inserted-IsTable now clip t v = record {
  fresh = ground (
    arith,
    v.fresh,
    count_p_mono (λ (r : Clip). leb (suc t.next_clip) r.id) (λ r. leb t.next_clip r.id) t.clips
        (λ r h. ground arith),
  );
  unique = λ id. ground (
    arith,
    v.fresh,
    v.unique id,
    count_p_mono (λ (r : Clip). r.id == t.next_clip) (λ r. leb t.next_clip r.id) t.clips
        (λ r h. ground arith),
    nat_eq.same_iff t.next_clip id,
  );
}

pub find_clip-inserted :
    (now : ℕ) (clip : Clip) (t : Tables) (id : ℕ)
    → find_clip id (inserted now clip t).clips
      ≡ (if t.next_clip == id then some (created_row now clip t) else find_clip id t.clips)
unfolding find_clip
find_clip-inserted now clip t id = ground arith

-- No clip has an id from the next value on.
missing-id :
    (id next : ℕ) (cs : List Clip)
    → next ≤ id
    → count_p (λ (c : Clip). leb next c.id) cs ≡ 0
    → find_clip id cs ≡ none
unfolding find_clip
missing-id id next [] h e = refl
missing-id id next (c ∷ cs) h e = ground (arith, missing-id id next cs h)

pub find_clip-fresh :
    (id : ℕ) (t : Tables) → IsTable t → t.next_clip ≤ id → find_clip id t.clips ≡ none
find_clip-fresh id t v h = missing-id id t.next_clip t.clips h v.fresh

set_conversion-count :
    (id : ℕ) (key : String) (status : ConversionStatus) (p : ℕ → Bool) (cs : List Clip)
    → count_p (λ (c : Clip). p c.id) (set_conversion id key status cs)
      ≡ count_p (λ (c : Clip). p c.id) cs
unfolding set_conversion
set_conversion-count id key status p [] = refl
set_conversion-count id key status p (c ∷ cs) =
    ground (arith, set_conversion-count id key status p cs)

pub set_conversion-IsTable :
    (id : ℕ) (key : String) (status : ConversionStatus) (t : Tables)
    → IsTable t
    → IsTable (record t { clips = set_conversion id key status t.clips })
set_conversion-IsTable id key status t v = record {
  fresh = set_conversion-count id key status (leb t.next_clip) t.clips ∙ v.fresh;
  unique = λ j. omega (arith, v.unique j, set_conversion-count id key status (λ i. i == j) t.clips);
}
