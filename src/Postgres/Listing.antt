-- ===== src/Postgres/Listing.antt =====
-- internal/postgres/search.go: the texts of the statements that count and list the keys, the choice
-- among them, and the quoting of the search text.
pub mod Ordering
pub mod Escaping
use usage_viewer.Prelude.{
  ℕ, ◌==◌, Bool, List, [], ◌∷◌, ◌++◌, Text, bytes, text_eq, ℤ, if◌then◌else◌,
}
use usage_viewer.Postgres.Statements.{sql_lines}
use usage_viewer.Search.{Query, mode_browse, sort_by_today_cost, sort_by_total30d_cost, ascending}

-- keyBrowseSQLPrefix
unfoldable pub key_browse_sql_prefix : Text
key_browse_sql_prefix = sql_lines (
    []
    ∷ bytes "WITH key_costs AS ("
    ∷ bytes "    SELECT"
    ∷ bytes "        api_key.id,"
    ∷ bytes "        api_key.name,"
    ∷ bytes "        COALESCE(grp.name, '') AS group_name,"
    ∷ bytes "        COALESCE(api_key.quota, 0)::text AS quota,"
    ∷ bytes "        COALESCE(api_key.quota_used, 0)::text AS quota_used,"
    ∷ bytes "        COALESCE(api_key.expires_at::text, '') AS expires_at,"
    ∷ bytes "        COALESCE(api_key.last_used_at::text, '') AS last_used_at,"
    ∷ bytes "        api_key.status,"
    ∷ bytes "        api_key.created_at::text AS created_at,"
    ∷ bytes "        COALESCE(("
    ∷ bytes "            SELECT pg_catalog.sum(COALESCE(ul.actual_cost, 0))"
    ∷ bytes "            FROM public.usage_logs AS ul"
    ∷ bytes "            WHERE ul.api_key_id = api_key.id"
    ∷ bytes "              AND ul.created_at >= $1"
    ∷ bytes "              AND ul.created_at < $3"
    ∷ bytes "        ), 0) AS total_30d_cost,"
    ∷ bytes "        COALESCE(("
    ∷ bytes "            SELECT pg_catalog.sum(COALESCE(ul.actual_cost, 0))"
    ∷ bytes "            FROM public.usage_logs AS ul"
    ∷ bytes "            WHERE ul.api_key_id = api_key.id"
    ∷ bytes "              AND ul.created_at >= $2"
    ∷ bytes "        ), 0) AS today_cost"
    ∷ bytes "    FROM public.api_keys AS api_key"
    ∷ bytes "    LEFT JOIN public.groups AS grp ON grp.id = api_key.group_id"
    ∷ bytes "    WHERE api_key.deleted_at IS NULL"
    ∷ bytes ")"
    ∷ bytes
        "SELECT id, name, group_name, quota, quota_used, expires_at, last_used_at, status, created_at,"
    ∷ bytes "       total_30d_cost::text, today_cost::text"
    ∷ bytes "FROM key_costs"
    ∷ [])

-- keyTextSQLPrefix
unfoldable pub key_text_sql_prefix : Text
key_text_sql_prefix = sql_lines (
    []
    ∷ bytes "WITH key_costs AS ("
    ∷ bytes "    SELECT"
    ∷ bytes "        api_key.id,"
    ∷ bytes "        api_key.name,"
    ∷ bytes "        COALESCE(grp.name, '') AS group_name,"
    ∷ bytes "        COALESCE(api_key.quota, 0)::text AS quota,"
    ∷ bytes "        COALESCE(api_key.quota_used, 0)::text AS quota_used,"
    ∷ bytes "        COALESCE(api_key.expires_at::text, '') AS expires_at,"
    ∷ bytes "        COALESCE(api_key.last_used_at::text, '') AS last_used_at,"
    ∷ bytes "        api_key.status,"
    ∷ bytes "        api_key.created_at::text AS created_at,"
    ∷ bytes "        COALESCE(("
    ∷ bytes "            SELECT pg_catalog.sum(COALESCE(ul.actual_cost, 0))"
    ∷ bytes "            FROM public.usage_logs AS ul"
    ∷ bytes "            WHERE ul.api_key_id = api_key.id"
    ∷ bytes "              AND ul.created_at >= $2"
    ∷ bytes "              AND ul.created_at < $4"
    ∷ bytes "        ), 0) AS total_30d_cost,"
    ∷ bytes "        COALESCE(("
    ∷ bytes "            SELECT pg_catalog.sum(COALESCE(ul.actual_cost, 0))"
    ∷ bytes "            FROM public.usage_logs AS ul"
    ∷ bytes "            WHERE ul.api_key_id = api_key.id"
    ∷ bytes "              AND ul.created_at >= $3"
    ∷ bytes "        ), 0) AS today_cost"
    ∷ bytes "    FROM public.api_keys AS api_key"
    ∷ bytes "    LEFT JOIN public.groups AS grp ON grp.id = api_key.group_id"
    ∷ bytes "    WHERE api_key.deleted_at IS NULL"
    ∷ bytes "      AND ("
    ∷ bytes "          api_key.name ILIKE '%' || $1 || '%' ESCAPE '\\'"
    ∷ bytes "          OR api_key.key ILIKE '%' || $1 || '%' ESCAPE '\\'"
    ∷ bytes "      )"
    ∷ bytes ")"
    ∷ bytes
        "SELECT id, name, group_name, quota, quota_used, expires_at, last_used_at, status, created_at,"
    ∷ bytes "       total_30d_cost::text, today_cost::text"
    ∷ bytes "FROM key_costs"
    ∷ [])

-- keyCountBrowseSQL
unfoldable pub key_count_browse_sql : Text
key_count_browse_sql = sql_lines (
    []
    ∷ bytes "SELECT pg_catalog.count(*)"
    ∷ bytes "FROM public.api_keys AS api_key"
    ∷ bytes "WHERE api_key.deleted_at IS NULL"
    ∷ [])

-- keyCountTextSQL
unfoldable pub key_count_text_sql : Text
key_count_text_sql = sql_lines (
    []
    ∷ bytes "SELECT pg_catalog.count(*)"
    ∷ bytes "FROM public.api_keys AS api_key"
    ∷ bytes "WHERE api_key.deleted_at IS NULL"
    ∷ bytes "  AND ("
    ∷ bytes "      api_key.name ILIKE '%' || $1 || '%' ESCAPE '\\'"
    ∷ bytes "      OR api_key.key ILIKE '%' || $1 || '%' ESCAPE '\\'"
    ∷ bytes "  )"
    ∷ [])

unfoldable pub key_browse_by_id_desc_sql : Text
key_browse_by_id_desc_sql = key_browse_sql_prefix ++ bytes "ORDER BY id DESC LIMIT 20 OFFSET $4"

unfoldable pub key_browse_by_id_asc_sql : Text
key_browse_by_id_asc_sql = key_browse_sql_prefix ++ bytes "ORDER BY id ASC LIMIT 20 OFFSET $4"

unfoldable pub key_browse_by_today_cost_desc_sql : Text
key_browse_by_today_cost_desc_sql =
    key_browse_sql_prefix ++ bytes "ORDER BY key_costs.today_cost DESC, id DESC LIMIT 20 OFFSET $4"

unfoldable pub key_browse_by_today_cost_asc_sql : Text
key_browse_by_today_cost_asc_sql =
    key_browse_sql_prefix ++ bytes "ORDER BY key_costs.today_cost ASC, id DESC LIMIT 20 OFFSET $4"

unfoldable pub key_browse_by_total30d_cost_desc_sql : Text
key_browse_by_total30d_cost_desc_sql =
    key_browse_sql_prefix
    ++ bytes "ORDER BY key_costs.total_30d_cost DESC, id DESC LIMIT 20 OFFSET $4"

unfoldable pub key_browse_by_total30d_cost_asc_sql : Text
key_browse_by_total30d_cost_asc_sql =
    key_browse_sql_prefix
    ++ bytes "ORDER BY key_costs.total_30d_cost ASC, id DESC LIMIT 20 OFFSET $4"

unfoldable pub key_by_text_sql : Text
key_by_text_sql = key_text_sql_prefix ++ bytes "ORDER BY id DESC LIMIT 20 OFFSET $5"

unfoldable pub key_text_by_id_asc_sql : Text
key_text_by_id_asc_sql = key_text_sql_prefix ++ bytes "ORDER BY id ASC LIMIT 20 OFFSET $5"

unfoldable pub key_text_by_today_cost_desc_sql : Text
key_text_by_today_cost_desc_sql =
    key_text_sql_prefix ++ bytes "ORDER BY key_costs.today_cost DESC, id DESC LIMIT 20 OFFSET $5"

unfoldable pub key_text_by_today_cost_asc_sql : Text
key_text_by_today_cost_asc_sql =
    key_text_sql_prefix ++ bytes "ORDER BY key_costs.today_cost ASC, id DESC LIMIT 20 OFFSET $5"

unfoldable pub key_text_by_total30d_cost_desc_sql : Text
key_text_by_total30d_cost_desc_sql =
    key_text_sql_prefix
    ++ bytes "ORDER BY key_costs.total_30d_cost DESC, id DESC LIMIT 20 OFFSET $5"

unfoldable pub key_text_by_total30d_cost_asc_sql : Text
key_text_by_total30d_cost_asc_sql =
    key_text_sql_prefix ++ bytes "ORDER BY key_costs.total_30d_cost ASC, id DESC LIMIT 20 OFFSET $5"

-- listingSQL
unfoldable pub listing_sql : Query → Text
listing_sql q =
    let is_ascending = text_eq q.sort_direction ascending in
    if q.mode == mode_browse
    then (if text_eq q.sort_by sort_by_today_cost
        then (if is_ascending
            then key_browse_by_today_cost_asc_sql
            else key_browse_by_today_cost_desc_sql)
        else if text_eq q.sort_by sort_by_total30d_cost
        then (if is_ascending
            then key_browse_by_total30d_cost_asc_sql
            else key_browse_by_total30d_cost_desc_sql)
        else if is_ascending
        then key_browse_by_id_asc_sql
        else key_browse_by_id_desc_sql)
    else if text_eq q.sort_by sort_by_today_cost
    then (if is_ascending then key_text_by_today_cost_asc_sql else key_text_by_today_cost_desc_sql)
    else if text_eq q.sort_by sort_by_total30d_cost
    then (if is_ascending
        then key_text_by_total30d_cost_asc_sql
        else key_text_by_total30d_cost_desc_sql)
    else if is_ascending
    then key_text_by_id_asc_sql
    else key_by_text_sql

-- strings.ReplaceAll for a text of one byte
unfoldable pub replace_all : ℕ → Text → Text → Text
replace_all byte by [] = []
replace_all byte by (c ∷ s) =
    let rest = replace_all byte by s in if c == byte then by ++ rest else c ∷ rest

-- escapeLikeText
unfoldable pub escape_like_text : Text → Text
unfolding replace_all
escape_like_text value =
    replace_all 95 (bytes "\\_")
      (replace_all 37 (bytes "\\%") (replace_all 92 (bytes "\\\\") value))
