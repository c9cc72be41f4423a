-- ===== src/Ratings/Pages.antt =====
-- The pages of a player's match history, in
-- services/ratings/internal/api/repository/ratings_repository.go, and the player's rating.
use full.Base.{
  ℕ, zero, suc, ◌+◌, ◌*◌, ◌≤◌, ◌≡◌, refl, sym, ap, ◌∙◌, List, [], ◌∷◌, ◌++◌, map, arith, nat_eq,
  filter, sort_by, insert_by, take, drop, length, length-map, ◌&&◌, Bool, ◌==◌, count_p,
  count_p-sort_by, count_p-filter, Bool-cases, inl, inr,
}
use native.Mathlib.Nat.{zero-add}
use full.Base.Int.{ℤ, ◌+ℤ◌, int_laws}
use full.Base.Db.{Conn, Result, ok, err, statement}
use full.Ratings.Elo.{default_elo}
use full.Ratings.Repository.{MatchRow, Tables, NoRows}
use full.Ratings.History.{history_elo, history_games, row_of, IsConsistent}
use full.Ratings.Matches.{
  MatchHistoryItem, involves, newer, item_of, history, select_history, list_match_history,
}

abbrev pub items_of : Result NoRows (List MatchHistoryItem) → List MatchHistoryItem
items_of (ok items) = items
items_of (err e) = []

-- The elo that starts from the default and adds each delta that was listed.
abbrev pub added_up : List MatchHistoryItem → ℤ
added_up [] = default_elo
added_up (i ∷ is) = added_up is +ℤ i.elo_delta

module _ {A : Type 0} where
  drop_nil : (n : ℕ) → drop {A = A} n [] ≡ []
  drop_nil zero = refl
  drop_nil (suc n) = refl

  take_nil : (n : ℕ) → take {A = A} n [] ≡ []
  take_nil zero = refl
  take_nil (suc n) = refl

  drop_add : (n m : ℕ) (xs : List A) → drop (n + m) xs ≡ drop m (drop n xs)
  drop_add zero m xs = rw zero-add
  drop_add (suc n) m [] = drop_nil (suc n + m) ∙ sym (drop_nil m)
  drop_add (suc n) m (x ∷ xs) =
      let e : suc n + m ≡ suc (n + m) = omega arith in rw e (drop_add n m xs)

  take_add : (n m : ℕ) (xs : List A) → take n xs ++ take m (drop n xs) ≡ take (n + m) xs
  take_add zero m xs = rw zero-add
  take_add (suc n) m [] = take_nil m ∙ sym (take_nil (suc n + m))
  take_add (suc n) m (x ∷ xs) =
      let e : suc n + m ≡ suc (n + m) = omega arith in rw e (ap (λ ys. x ∷ ys) (take_add n m xs))

  take_all : (n : ℕ) (xs : List A) → length xs ≤ n → take n xs ≡ xs
  take_all zero [] h = refl
  take_all zero (x ∷ xs) h = absurd (omega (arith, h))
  take_all (suc n) [] h = refl
  take_all (suc n) (x ∷ xs) h = ap (λ ys. x ∷ ys) (take_all n xs (omega (arith, h)))

map_append : {A B : Type 0} (f : A → B) (xs ys : List A) → map f (xs ++ ys) ≡ map f xs ++ map f ys
map_append f [] ys = refl
map_append f (x ∷ xs) ys = ap (λ ys. f x ∷ ys) (map_append f xs ys)

swapped : (x y z : ℤ) → x +ℤ y +ℤ z ≡ x +ℤ z +ℤ y
swapped x y z = grind int_laws

module _ (created_at : ℕ → ℕ) (user_id : ℕ) where
  delta : MatchRow → ℤ
  delta m = (item_of created_at user_id m).elo_delta

  added_up-insert :
      (ties : ℕ → ℕ) (m : MatchRow) (ms : List MatchRow)
      → added_up (map (item_of created_at user_id) (insert_by (newer created_at user_id ties) m ms))
        ≡ added_up (map (item_of created_at user_id) ms) +ℤ delta m
  unfolding delta
  added_up-insert ties m [] = refl
  added_up-insert ties m (n ∷ ms) = elim (Bool-cases (newer created_at user_id ties m n)) [
    | inl e ↦ rw e refl
    | inr e ↦
        rw (e, added_up-insert ties m ms)
          (swapped (added_up (map (item_of created_at user_id) ms)) (delta m) (delta n))
  ]

  added_up-sort :
      (ties : ℕ → ℕ) (ms : List MatchRow)
      → added_up (map (item_of created_at user_id) (sort_by (newer created_at user_id ties) ms))
        ≡ added_up (map (item_of created_at user_id) ms)
  unfolding delta
  added_up-sort ties [] = refl
  added_up-sort ties (m ∷ ms) =
      added_up-insert ties m (sort_by (newer created_at user_id ties) ms)
      ∙ ap (λ z. z +ℤ delta m) (added_up-sort ties ms)

  added_up-filter :
      (ms : List MatchRow)
      → added_up (map (item_of created_at user_id) (filter (involves created_at user_id) ms))
        ≡ history_elo user_id ms
  unfolding item_of
  added_up-filter [] = refl
  added_up-filter (m ∷ ms) = ground (arith, added_up-filter ms)

  length-insert :
      (ties : ℕ → ℕ) (m : MatchRow) (ms : List MatchRow)
      → length (insert_by (newer created_at user_id ties) m ms) ≡ suc (length ms)
  length-insert ties m [] = refl
  length-insert ties m (n ∷ ms) = ground (arith, length-insert ties m ms)

  length-sort :
      (ties : ℕ → ℕ) (ms : List MatchRow)
      → length (sort_by (newer created_at user_id ties) ms) ≡ length ms
  length-sort ties [] = refl
  length-sort ties (m ∷ ms) = ground (
    arith,
    length-insert ties m (sort_by (newer created_at user_id ties) ms),
    length-sort ties ms,
  )

  count-filter :
      (ms : List MatchRow)
      → length (filter (involves created_at user_id) ms) ≡ history_games user_id ms
  count-filter [] = refl
  count-filter (m ∷ ms) = ground (arith, count-filter ms)

  -- The rows in their order: as many as the player's games, with the same deltas in all.
  history_lem :
      (ties : ℕ → ℕ) (ms : List MatchRow)
      → (added_up (map (item_of created_at user_id) (history created_at user_id ties ms))
          ≡ history_elo user_id ms)
        × (length (history created_at user_id ties ms) ≡ history_games user_id ms)
  unfolding history
  history_lem ties ms = (
    added_up-sort ties (filter (involves created_at user_id) ms) ∙ added_up-filter ms,
    length-sort ties (filter (involves created_at user_id) ms) ∙ count-filter ms,
  )

  abbrev at_time : ℕ → MatchRow → Bool
  at_time time m = created_at m.id == time

  -- No two games of the player have the same time.
  abbrev pub AreApart : List MatchRow → Type 0
  AreApart ms = (time : ℕ) → count_p (λ m. involves created_at user_id m && at_time time m) ms ≤ 1

  insert_by_untied :
      (ties others : ℕ → ℕ) (m : MatchRow) (ms : List MatchRow)
      → count_p (at_time (created_at m.id)) ms ≡ 0
      → insert_by (newer created_at user_id ties) m ms
        ≡ insert_by (newer created_at user_id others) m ms
  insert_by_untied ties others m [] h = refl
  insert_by_untied ties others m (n ∷ ms) h = ground (
    arith,
    insert_by_untied ties others m ms,
    nat_eq.same_iff (created_at m.id) (created_at n.id),
    nat_eq.same_iff (created_at n.id) (created_at m.id),
  )

  sort_by_untied :
      (ties others : ℕ → ℕ) (ms : List MatchRow)
      → ((time : ℕ) → count_p (at_time time) ms ≤ 1)
      → sort_by (newer created_at user_id ties) ms ≡ sort_by (newer created_at user_id others) ms
  sort_by_untied ties others [] h = refl
  sort_by_untied ties others (m ∷ ms) h =
      let rest = sort_by_untied ties others ms (λ time. ground (arith, h time)) in
      let sorted = sort_by (newer created_at user_id others) ms in
      let free : count_p (at_time (created_at m.id)) sorted ≡ 0 = ground (
        arith,
        h (created_at m.id),
        nat_eq.same_iff (created_at m.id) (created_at m.id),
        count_p-sort_by (at_time (created_at m.id)) (newer created_at user_id others) ms,
      ) in
      rw rest (insert_by_untied ties others m sorted free)

  history_untied :
      (ties others : ℕ → ℕ) (ms : List MatchRow)
      → AreApart ms
      → history created_at user_id ties ms ≡ history created_at user_id others ms
  unfolding history
  history_untied ties others ms apart =
      sort_by_untied ties others (filter (involves created_at user_id) ms) (λ time.
        omega (arith, apart time, count_p-filter (at_time time) (involves created_at user_id) ms))

  -- A client reads `n` pages, one after the other; `ties k` ranks the rows for the query before
  -- which k pages are left.
  unfoldable pub read_pages : (ℕ → ℕ → ℕ) → ℕ → ℕ → ℕ → Conn Tables → List MatchHistoryItem
  read_pages ties limit zero offset c = []
  read_pages ties limit (suc n) offset c =
      items_of (list_match_history created_at user_id (ties n) limit offset c).0
      ++ read_pages ties limit n (offset + limit) c

  read_pages_lem :
      (ties : ℕ → ℕ → ℕ) (limit n offset : ℕ) (c : Conn Tables)
      → c.fates ≡ []
      → AreApart c.tables.matches
      → read_pages ties limit n offset c
        ≡ select_history created_at user_id (ties 0) (n * limit) offset c.tables.matches
  unfolding read_pages list_match_history select_history statement
  read_pages_lem ties limit zero offset c quiet apart =
      let e : 0 * limit ≡ 0 = omega arith in rw e refl
  read_pages_lem ties limit (suc n) offset c quiet apart =
      let rows = history created_at user_id (ties 0) c.tables.matches in
      let item = item_of created_at user_id in
      let first = take limit (drop offset rows) in
      let later = take (n * limit) (drop (offset + limit) rows) in
      let here : items_of (list_match_history created_at user_id (ties n) limit offset c).0
          ≡ map item first =
        rw (quiet, history_untied (ties n) (ties 0) c.tables.matches apart) refl in
      let e : suc n * limit ≡ limit + n * limit = omega arith in
      let joined : first ++ later ≡ take (limit + n * limit) (drop offset rows) =
        rw (drop_add offset limit rows) (take_add limit (n * limit) (drop offset rows)) in
      rw
        (
          here,
          read_pages_lem ties limit n (offset + limit) c quiet apart,
          e,
          sym (map_append item first later),
          joined,
        )
        refl

  -- While the database answers, the ratings are those of the matches played, and no two games of
  -- the player have the same time: a client that reads pages until they cover the games of a
  -- player, however long the pages are and in whatever order a query gives rows of the same time,
  -- was shown as many games as the rating counts, and their deltas add up from the default to the
  -- player's elo.
  pub read_pages-rating :
      (ties : ℕ → ℕ → ℕ) (limit n : ℕ) (c : Conn Tables)
      → c.fates ≡ []
      → IsConsistent c.tables
      → AreApart c.tables.matches
      → (row_of c.tables user_id).games_played ≤ n * limit
      → (length (read_pages ties limit n 0 c) ≡ (row_of c.tables user_id).games_played)
        × (added_up (read_pages ties limit n 0 c) ≡ (row_of c.tables user_id).elo)
  unfolding select_history
  read_pages-rating ties limit n c quiet v apart enough =
      let ms = c.tables.matches in
      let item = item_of created_at user_id in
      let (sum, size) = history_lem (ties 0) ms in
      let rows = history created_at user_id (ties 0) ms in
      let whole : read_pages ties limit n 0 c ≡ map item rows =
        read_pages_lem ties limit n 0 c quiet apart
        ∙ ap (map item)
            (take_all (n * limit) rows (omega (arith, size, enough, v.games user_id))) in
      rw (whole, v.games user_id, v.elo user_id) (length-map item rows ∙ size, sum)
