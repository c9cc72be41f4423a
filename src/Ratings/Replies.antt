-- ===== src/Ratings/Replies.antt =====
-- What services/ratings/internal/api/delivery/ratings_handler.go answers.
use full.Base.{
  ℕ, suc, ◌^◌, ◌<◌, ◌≤◌, ◌≡◌, [], arith, ltb, string_eq, if◌then◌else◌, take, length, drop,
  length-take, length-map,
}
use full.Base.Db.{Conn, statement}
use full.Base.Decimal.{parse_int-format_int, format_int-ne}
use full.Base.Http.{json}
use full.Base.Text.{format_int}
use full.Ratings.Repository.{Tables}
use full.Ratings.Matches.{item_of, history, select_history, list_match_history}
use full.Ratings.Handlers.{max_page_limit, page_limit, page_offset, get_match_history}

-- While the database answers, GET /v1/matches/history answers 200 with the page of a positive
-- user id that the limit and the offset name, however the query orders games of the same time,
-- but never with more than fifty games; it changes nothing.
pub get_match_history-page :
    (created_at ties : ℕ → ℕ) (u l o : ℕ) (c : Conn Tables)
    → c.fates ≡ []
    → suc u < 2 ^ 63
    → l < 2 ^ 63
    → o < 2 ^ 63
    → let limit = if ltb max_page_limit l then max_page_limit else l in
      let page = select_history created_at (suc u) ties limit o c.tables.matches in
      let out =
        get_match_history created_at ties (format_int (suc u)) (format_int l) (format_int o) c in
      (out.0 ≡ json 200 page) × (length page ≤ 50) × (out.1.tables ≡ c.tables)
unfolding get_match_history page_limit page_offset list_match_history select_history statement
get_match_history-page created_at ties u l o c quiet small_u small_l small_o =
    let limit = if ltb max_page_limit l then max_page_limit else l in
    ground (
      arith,
      quiet,
      parse_int-format_int (suc u) small_u,
      parse_int-format_int l small_l,
      parse_int-format_int o small_o,
      format_int-ne (suc u),
      format_int-ne l,
      format_int-ne o,
      string_eq.same_iff (format_int (suc u)) "",
      string_eq.same_iff (format_int l) "",
      string_eq.same_iff (format_int o) "",
      length-take limit (drop o (history created_at (suc u) ties c.tables.matches)),
      length-map (item_of created_at (suc u))
          (take limit (drop o (history created_at (suc u) ties c.tables.matches))),
    )
