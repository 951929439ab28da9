-- ===== src/Postgres/Statements.antt =====
-- internal/postgres/daily.go, leaderboard.go and selflookup.go: the texts of the statements.
use usage_viewer.Prelude.{List, [], ◌∷◌, ◌++◌, Text, bytes}

-- A raw string of several lines.
abbrev pub sql_lines : List Text → Text
sql_lines [] = []
sql_lines (line ∷ rest) = line ++ (10 ∷ sql_lines rest)

-- dailyUsageSQL
unfoldable pub daily_usage_sql : Text
daily_usage_sql = sql_lines (
    []
    ∷ bytes "SELECT"
    ∷ bytes "    TO_CHAR(ul.created_at, 'YYYY-MM-DD') AS usage_date,"
    ∷ bytes "    COALESCE(pg_catalog.sum(ul.actual_cost), 0)::text"
    ∷ bytes "FROM public.usage_logs AS ul"
    ∷ bytes "WHERE ul.api_key_id = $1"
    ∷ bytes "  AND ul.created_at >= $2"
    ∷ bytes "  AND ul.created_at < $3"
    ∷ bytes "GROUP BY usage_date"
    ∷ bytes "ORDER BY usage_date ASC"
    ∷ [])

-- leaderboardSQL
unfoldable pub leaderboard_sql : Text
leaderboard_sql = sql_lines (
    []
    ∷ bytes "WITH key_costs AS MATERIALIZED ("
    ∷ bytes "    SELECT"
    ∷ bytes "        ul.api_key_id,"
    ∷ bytes "        pg_catalog.sum(ul.actual_cost)"
    ∷ bytes "            FILTER (WHERE ul.created_at >= $1) AS cost_1d,"
    ∷ bytes "        pg_catalog.sum(ul.actual_cost)"
    ∷ bytes "            FILTER (WHERE ul.created_at >= $2) AS cost_3d,"
    ∷ bytes "        pg_catalog.sum(ul.actual_cost)"
    ∷ bytes "            FILTER (WHERE ul.created_at >= $3) AS cost_7d,"
    ∷ bytes "        pg_catalog.sum(ul.actual_cost) AS cost_30d"
    ∷ bytes "    FROM public.usage_logs AS ul"
    ∷ bytes "    WHERE ul.created_at >= $4"
    ∷ bytes "    GROUP BY ul.api_key_id"
    ∷ bytes "),"
    ∷ bytes "window_costs AS ("
    ∷ bytes "    SELECT key_costs.api_key_id, costs.window_name, costs.actual_cost"
    ∷ bytes "    FROM key_costs"
    ∷ bytes "    CROSS JOIN LATERAL ("
    ∷ bytes "        VALUES"
    ∷ bytes "            ('1d', key_costs.cost_1d),"
    ∷ bytes "            ('3d', key_costs.cost_3d),"
    ∷ bytes "            ('7d', key_costs.cost_7d),"
    ∷ bytes "            ('30d', key_costs.cost_30d)"
    ∷ bytes "    ) AS costs(window_name, actual_cost)"
    ∷ bytes "    WHERE costs.actual_cost IS NOT NULL"
    ∷ bytes "),"
    ∷ bytes "ranked AS ("
    ∷ bytes "    SELECT"
    ∷ bytes "        window_costs.window_name,"
    ∷ bytes "        api_key.id,"
    ∷ bytes "        api_key.key,"
    ∷ bytes "        api_key.name,"
    ∷ bytes "        COALESCE(grp.name, '')::text AS group_name,"
    ∷ bytes "        window_costs.actual_cost,"
    ∷ bytes "        pg_catalog.row_number() OVER ("
    ∷ bytes "            PARTITION BY window_costs.window_name"
    ∷ bytes "            ORDER BY window_costs.actual_cost DESC, api_key.id DESC"
    ∷ bytes "        ) AS rank"
    ∷ bytes "    FROM window_costs"
    ∷ bytes "    JOIN public.api_keys AS api_key ON api_key.id = window_costs.api_key_id"
    ∷ bytes "    LEFT JOIN public.groups AS grp ON grp.id = api_key.group_id"
    ∷ bytes "    WHERE api_key.deleted_at IS NULL"
    ∷ bytes ")"
    ∷ bytes "SELECT window_name, rank, id, key, name, group_name, actual_cost::text"
    ∷ bytes "FROM ranked"
    ∷ bytes "WHERE rank <= $5"
    ∷ bytes "ORDER BY window_name, rank"
    ∷ [])

-- selfLookupSQL
unfoldable pub self_lookup_sql : Text
self_lookup_sql = sql_lines (
    []
    ∷ bytes "SELECT api_key.id, api_key.key, api_key.name, COALESCE(grp.name, '')::text,"
    ∷ bytes "       COALESCE(api_key.quota, 0)::text, COALESCE(api_key.quota_used, 0)::text,"
    ∷ bytes "       api_key.status, COALESCE(api_key.expires_at::text, '')"
    ∷ bytes "FROM public.api_keys AS api_key"
    ∷ bytes "LEFT JOIN public.groups AS grp ON grp.id = api_key.group_id"
    ∷ bytes "WHERE api_key.deleted_at IS NULL"
    ∷ bytes "  AND (api_key.key = $1 OR api_key.name = $1)"
    ∷ bytes "ORDER BY api_key.id ASC"
    ∷ bytes "LIMIT 1"
    ∷ [])

-- todayCostSQL
unfoldable pub today_cost_sql : Text
today_cost_sql = sql_lines (
    []
    ∷ bytes "SELECT COALESCE(pg_catalog.sum(ul.actual_cost), 0)::text"
    ∷ bytes "FROM public.usage_logs AS ul"
    ∷ bytes "WHERE ul.api_key_id = $1"
    ∷ bytes "  AND ul.created_at >= $2"
    ∷ [])
