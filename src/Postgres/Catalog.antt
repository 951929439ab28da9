-- ===== src/Postgres/Catalog.antt =====
-- internal/postgres/catalog.go and readonly.go: the texts of the statements that ask for the evidence of a
-- connection, and for the setting of a transaction.
pub mod Authority
use usage_viewer.Prelude.{[], ◌∷◌, Text, bytes}
use usage_viewer.Postgres.Statements.{sql_lines}

-- connectivityProbeSQL
unfoldable pub connectivity_probe_sql : Text
connectivity_probe_sql = sql_lines ([] ∷ bytes "SELECT 1" ∷ [])

-- roleEvidenceSQL
unfoldable pub role_evidence_sql : Text
role_evidence_sql = sql_lines (
    []
    ∷ bytes "SELECT"
    ∷ bytes "    CURRENT_USER::text,"
    ∷ bytes "    role.rolcanlogin,"
    ∷ bytes "    role.rolsuper,"
    ∷ bytes "    role.rolinherit,"
    ∷ bytes "    role.rolcreaterole,"
    ∷ bytes "    role.rolcreatedb,"
    ∷ bytes "    role.rolreplication,"
    ∷ bytes "    role.rolbypassrls,"
    ∷ bytes "    pg_catalog.has_database_privilege("
    ∷ bytes "        CURRENT_USER,"
    ∷ bytes "        pg_catalog.current_database(),"
    ∷ bytes "        'CONNECT'"
    ∷ bytes "    ),"
    ∷ bytes "    pg_catalog.has_schema_privilege("
    ∷ bytes "        CURRENT_USER,"
    ∷ bytes "        'public',"
    ∷ bytes "        'USAGE'"
    ∷ bytes "    )"
    ∷ bytes "FROM pg_catalog.pg_roles AS role"
    ∷ bytes "WHERE role.rolname = CURRENT_USER"
    ∷ [])

-- readOnlyEvidenceSQL
unfoldable pub read_only_evidence_sql : Text
read_only_evidence_sql =
    sql_lines (
      [] ∷ bytes "SELECT pg_catalog.current_setting('default_transaction_read_only')::boolean" ∷ [])

-- relationEvidenceSQL
unfoldable pub relation_evidence_sql : Text
relation_evidence_sql = sql_lines (
    []
    ∷ bytes "WITH required_relations(schema_name, relation_name, position) AS ("
    ∷ bytes "    SELECT required.schema_name, required.relation_name, required.position"
    ∷ bytes "    FROM unnest($1::text[], $2::text[])"
    ∷ bytes "      WITH ORDINALITY AS required(schema_name, relation_name, position)"
    ∷ bytes ")"
    ∷ bytes "SELECT"
    ∷ bytes "    required.schema_name,"
    ∷ bytes "    required.relation_name,"
    ∷ bytes "    COALESCE(relation.relkind::text, '')"
    ∷ bytes "FROM required_relations AS required"
    ∷ bytes "LEFT JOIN pg_catalog.pg_namespace AS namespace"
    ∷ bytes "  ON namespace.nspname = required.schema_name"
    ∷ bytes "LEFT JOIN pg_catalog.pg_class AS relation"
    ∷ bytes "  ON relation.relnamespace = namespace.oid"
    ∷ bytes " AND relation.relname = required.relation_name"
    ∷ bytes "ORDER BY required.position"
    ∷ [])

-- columnEvidenceSQL
unfoldable pub column_evidence_sql : Text
column_evidence_sql = sql_lines (
    []
    ∷ bytes "WITH required_columns(schema_name, table_name, column_name, position) AS ("
    ∷ bytes
        "    SELECT required.schema_name, required.table_name, required.column_name, required.position"
    ∷ bytes "    FROM unnest($1::text[], $2::text[], $3::text[])"
    ∷ bytes "      WITH ORDINALITY AS required(schema_name, table_name, column_name, position)"
    ∷ bytes ")"
    ∷ bytes "SELECT"
    ∷ bytes "    required.schema_name,"
    ∷ bytes "    required.table_name,"
    ∷ bytes "    required.column_name,"
    ∷ bytes "    COALESCE(type.typname, ''),"
    ∷ bytes "    NOT COALESCE(attribute.attnotnull, false),"
    ∷ bytes "    COALESCE("
    ∷ bytes "        pg_catalog.has_column_privilege("
    ∷ bytes "            CURRENT_USER,"
    ∷ bytes "            relation.oid,"
    ∷ bytes "            attribute.attnum,"
    ∷ bytes "            'SELECT'"
    ∷ bytes "        ),"
    ∷ bytes "        false"
    ∷ bytes "    )"
    ∷ bytes "FROM required_columns AS required"
    ∷ bytes "LEFT JOIN pg_catalog.pg_namespace AS namespace"
    ∷ bytes "  ON namespace.nspname = required.schema_name"
    ∷ bytes "LEFT JOIN pg_catalog.pg_class AS relation"
    ∷ bytes "  ON relation.relnamespace = namespace.oid"
    ∷ bytes " AND relation.relname = required.table_name"
    ∷ bytes "LEFT JOIN pg_catalog.pg_attribute AS attribute"
    ∷ bytes "  ON attribute.attrelid = relation.oid"
    ∷ bytes " AND attribute.attname = required.column_name"
    ∷ bytes " AND attribute.attnum > 0"
    ∷ bytes " AND NOT attribute.attisdropped"
    ∷ bytes "LEFT JOIN pg_catalog.pg_type AS type"
    ∷ bytes "  ON type.oid = attribute.atttypid"
    ∷ bytes "ORDER BY required.position"
    ∷ [])

-- transactionReadOnlySQL
unfoldable pub transaction_read_only_sql : Text
transaction_read_only_sql =
    sql_lines
      ([] ∷ bytes "SELECT pg_catalog.current_setting('transaction_read_only')::boolean" ∷ [])
