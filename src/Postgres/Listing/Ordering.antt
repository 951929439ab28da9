-- ===== src/Postgres/Listing/Ordering.antt =====
-- internal/postgres/search.go: the statement that lists the keys in the order of a query.
use usage_viewer.Prelude.{◌==◌, ◌≡◌, ◌++◌, Text, bytes, text_eq, pos, arith, if◌then◌else◌}
use usage_viewer.Creds.DotEnv.{print_int, decimal}
use usage_viewer.Search.{
  Query, mode_browse, page_size, sort_by_today_cost, sort_by_total30d_cost, ascending,
}
use usage_viewer.Postgres.Listing.{
  listing_sql, key_browse_sql_prefix, key_text_sql_prefix, key_browse_by_id_desc_sql,
  key_browse_by_id_asc_sql, key_browse_by_today_cost_desc_sql, key_browse_by_today_cost_asc_sql,
  key_browse_by_total30d_cost_desc_sql, key_browse_by_total30d_cost_asc_sql, key_by_text_sql,
  key_text_by_id_asc_sql, key_text_by_today_cost_desc_sql, key_text_by_today_cost_asc_sql,
  key_text_by_total30d_cost_desc_sql, key_text_by_total30d_cost_asc_sql,
}

-- The order that a query asks for: its column and its direction, equal costs by the id downwards.
abbrev pub order_clause : Query → Text
order_clause q =
    let direction = if text_eq q.sort_direction ascending then bytes "ASC" else bytes "DESC" in
    if text_eq q.sort_by sort_by_today_cost
    then bytes "key_costs.today_cost " ++ (direction ++ bytes ", id DESC")
    else if text_eq q.sort_by sort_by_total30d_cost
    then bytes "key_costs.total_30d_cost " ++ (direction ++ bytes ", id DESC")
    else bytes "id " ++ direction

-- The statement that a query asks for: the listing of its mode in its order, a page long, from an offset
-- on that is the last of the arguments, of which there are four, and a fifth with a text.
abbrev pub listing_of : Query → Text
listing_of q =
    (if q.mode == mode_browse then key_browse_sql_prefix else key_text_sql_prefix)
    ++ (bytes "ORDER BY "
        ++ (order_clause q
            ++ (bytes " LIMIT "
                ++ (print_int (pos page_size)
                    ++ (bytes " OFFSET $"
                        ++ print_int (pos (if q.mode == mode_browse then 4 else 5)))))))

-- `listingSQL` picks the statement that lists the keys of the query's mode, by the column and in the
-- direction of the query, and by the id downwards where these leave two keys equal.
pub listing_sql-listing_of : (q : Query) → listing_sql q ≡ listing_of q
unfolding listing_sql key_browse_by_id_desc_sql key_browse_by_id_asc_sql
    key_browse_by_today_cost_desc_sql key_browse_by_today_cost_asc_sql
    key_browse_by_total30d_cost_desc_sql key_browse_by_total30d_cost_asc_sql key_by_text_sql
    key_text_by_id_asc_sql key_text_by_today_cost_desc_sql key_text_by_today_cost_asc_sql
    key_text_by_total30d_cost_desc_sql key_text_by_total30d_cost_asc_sql print_int decimal
listing_sql-listing_of q = ground arith
