-- ===== src/Media/Rows.antt =====
-- What the statements of services/media/internal/api/repository/clip_repository.go leave of each
-- row of the table clips.
use full.Base.{
  ℕ, ◌+◌, ◌≤◌, ◌≡◌, refl, Bool, true, not, ◌&&◌, Option, none, some, List, [], ◌∷◌, String, arith,
  ◌==◌, nat_eq, string_eq, if◌then◌else◌, any, filter, count_p, count_p-le, count_p-take-drop,
  count_p-filter, count_p-sort_by, count_p-congr, length-take, take, drop, sort_by,
}
use full.Media.Clip.{Clip, ConversionStatus}
use full.Media.Clips.{
  Tables, newer, find_clip, among, beyond_limit, select_by_user, delete_beyond, set_conversion,
}

-- A row with the new status and key.
abbrev pub converted : String → ConversionStatus → Option Clip → Option Clip
converted mp4_key status none = none
converted mp4_key status (some c) =
    some (record c { mp4_object_key = mp4_key; conversion_status = status })

pub find_clip-set_conversion :
    (id j : ℕ) (key : String) (status : ConversionStatus) (cs : List Clip)
    → find_clip j (set_conversion id key status cs)
      ≡ (if id == j then converted key status (find_clip j cs) else find_clip j cs)
unfolding find_clip set_conversion
find_clip-set_conversion id j key status [] = ground arith
find_clip-set_conversion id j key status (c ∷ cs) =
    ground (arith, find_clip-set_conversion id j key status cs)

pub find_clip-filter :
    (keep : ℕ → Bool) (j : ℕ) (cs : List Clip)
    → find_clip j (filter (λ c. keep c.id) cs) ≡ (if keep j then find_clip j cs else none)
unfolding find_clip
find_clip-filter keep j [] = ground arith
find_clip-filter keep j (c ∷ cs) =
    ground (arith, find_clip-filter keep j cs, nat_eq.same_iff c.id j)

module _ (p : Clip → Bool) where
  pub count_p-not-among :
      (rows : List Clip) (cs : List Clip)
      → count_p p (filter (λ c. not (among rows c)) cs) + count_p p (filter (among rows) cs)
        ≡ count_p p cs
  count_p-not-among rows [] = omega arith
  count_p-not-among rows (c ∷ cs) = ground (arith, count_p-not-among rows cs)

-- No row is left of those that are deleted.
none_left :
    (rows rest : List Clip)
    → ((c : Clip) → any (λ r. r.id == c.id) rest ≡ true → among rows c ≡ true)
    → count_p (λ c. not (among rows c)) rest ≡ 0
none_left rows [] h = refl
none_left rows (r ∷ rest) h =
    ground (arith, h r, none_left rows rest (λ c e. h c (ground (arith, e))))

-- At most `limit` rows of the user are left.
pub delete_beyond-le :
    (user_id limit : ℕ) (t : Tables)
    → count_p (λ c. c.user_id == user_id) (delete_beyond user_id limit t).1.clips ≤ limit
unfolding delete_beyond beyond_limit select_by_user
delete_beyond-le user_id limit t =
    let sorted = sort_by newer (filter (λ c. c.user_id == user_id) t.clips) in
    let rows = drop limit sorted in
    let gone = λ (c : Clip). not (among rows c) in
    omega (
      arith,
      count_p-filter (λ c. c.user_id == user_id) gone t.clips,
      count_p-filter gone (λ c. c.user_id == user_id) t.clips,
      count_p-congr (λ c. gone c && (c.user_id == user_id)) (λ c. (c.user_id == user_id) && gone c)
          t.clips (λ c. ground arith),
      count_p-sort_by gone newer (filter (λ c. c.user_id == user_id) t.clips),
      count_p-take-drop gone limit sorted,
      count_p-le gone (take limit sorted),
      length-take limit sorted,
      none_left rows rows (λ c e. e),
    )
