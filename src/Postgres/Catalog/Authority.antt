-- ===== src/Postgres/Catalog/Authority.antt =====
-- internal/postgres/catalog.go: the text of the statement that counts the rights of a role.
use usage_viewer.Prelude.{[], ◌∷◌, Text, bytes}
use usage_viewer.Postgres.Statements.{sql_lines}

-- authorityEvidenceSQL
unfoldable pub authority_evidence_sql : Text
authority_evidence_sql = sql_lines (
    []
    ∷ bytes "WITH RECURSIVE"
    ∷ bytes "self_role AS ("
    ∷ bytes "    SELECT role.oid"
    ∷ bytes "    FROM pg_catalog.pg_roles AS role"
    ∷ bytes "    WHERE role.rolname = CURRENT_USER"
    ∷ bytes "),"
    ∷ bytes "effective_memberships(role_oid) AS ("
    ∷ bytes "    SELECT membership.roleid"
    ∷ bytes "    FROM pg_catalog.pg_auth_members AS membership"
    ∷ bytes "    JOIN self_role ON self_role.oid = membership.member"
    ∷ bytes "    UNION"
    ∷ bytes "    SELECT membership.roleid"
    ∷ bytes "    FROM pg_catalog.pg_auth_members AS membership"
    ∷ bytes "    JOIN effective_memberships"
    ∷ bytes "      ON effective_memberships.role_oid = membership.member"
    ∷ bytes "),"
    ∷ bytes "user_namespaces AS ("
    ∷ bytes "    SELECT namespace.oid, namespace.nspname, namespace.nspowner, namespace.nspacl"
    ∷ bytes "    FROM pg_catalog.pg_namespace AS namespace"
    ∷ bytes "    WHERE namespace.nspname <> 'pg_catalog'"
    ∷ bytes "      AND namespace.nspname <> 'information_schema'"
    ∷ bytes "      AND namespace.nspname NOT LIKE 'pg_toast%'"
    ∷ bytes "      AND namespace.nspname NOT LIKE 'pg_temp_%'"
    ∷ bytes "),"
    ∷ bytes "user_objects AS ("
    ∷ bytes
        "    SELECT relation.oid, relation.relname, relation.relnamespace, relation.relowner, relation.relkind"
    ∷ bytes "    FROM pg_catalog.pg_class AS relation"
    ∷ bytes "    JOIN user_namespaces ON user_namespaces.oid = relation.relnamespace"
    ∷ bytes "),"
    ∷ bytes "user_relations AS ("
    ∷ bytes
        "    SELECT user_objects.oid, user_objects.relname, user_objects.relnamespace, user_objects.relowner, user_objects.relkind"
    ∷ bytes "    FROM user_objects"
    ∷ bytes "    WHERE user_objects.relkind IN ('r', 'p', 'v', 'm', 'f')"
    ∷ bytes "),"
    ∷ bytes "user_sequences AS ("
    ∷ bytes "    SELECT user_objects.oid, user_objects.relowner"
    ∷ bytes "    FROM user_objects"
    ∷ bytes "    WHERE user_objects.relkind = 'S'"
    ∷ bytes "),"
    ∷ bytes "required_columns(schema_name, table_name, column_name) AS ("
    ∷ bytes "    SELECT required.schema_name, required.table_name, required.column_name"
    ∷ bytes "    FROM unnest($1::text[], $2::text[], $3::text[])"
    ∷ bytes "      AS required(schema_name, table_name, column_name)"
    ∷ bytes ")"
    ∷ bytes "SELECT"
    ∷ bytes "    ("
    ∷ bytes "        SELECT pg_catalog.count(*)::bigint"
    ∷ bytes "        FROM pg_catalog.pg_roles AS candidate"
    ∷ bytes "        CROSS JOIN self_role"
    ∷ bytes "        WHERE candidate.oid <> self_role.oid"
    ∷ bytes "          AND ("
    ∷ bytes "              candidate.oid IN (SELECT role_oid FROM effective_memberships)"
    ∷ bytes "              OR pg_catalog.pg_has_role(CURRENT_USER, candidate.oid, 'MEMBER')"
    ∷ bytes "          )"
    ∷ bytes "    ),"
    ∷ bytes "    ("
    ∷ bytes "        SELECT pg_catalog.count(*)::bigint"
    ∷ bytes "        FROM pg_catalog.pg_database AS database"
    ∷ bytes "        CROSS JOIN self_role"
    ∷ bytes "        WHERE database.datname = pg_catalog.current_database()"
    ∷ bytes "          AND ("
    ∷ bytes "              database.datdba = self_role.oid"
    ∷ bytes "              OR pg_catalog.pg_has_role(CURRENT_USER, database.datdba, 'MEMBER')"
    ∷ bytes "          )"
    ∷ bytes "    ),"
    ∷ bytes "    ("
    ∷ bytes "        SELECT pg_catalog.count(*)::bigint"
    ∷ bytes "        FROM user_namespaces AS namespace"
    ∷ bytes "        CROSS JOIN self_role"
    ∷ bytes "        WHERE namespace.nspowner = self_role.oid"
    ∷ bytes "           OR pg_catalog.pg_has_role(CURRENT_USER, namespace.nspowner, 'MEMBER')"
    ∷ bytes "    ),"
    ∷ bytes "    ("
    ∷ bytes "        SELECT pg_catalog.count(*)::bigint"
    ∷ bytes "        FROM user_objects AS owned_relation"
    ∷ bytes "        CROSS JOIN self_role"
    ∷ bytes "        WHERE owned_relation.relowner = self_role.oid"
    ∷ bytes "           OR pg_catalog.pg_has_role(CURRENT_USER, owned_relation.relowner, 'MEMBER')"
    ∷ bytes "    ),"
    ∷ bytes "    ("
    ∷ bytes "        SELECT ("
    ∷ bytes "            CASE WHEN pg_catalog.has_database_privilege("
    ∷ bytes "                CURRENT_USER,"
    ∷ bytes "                pg_catalog.current_database(),"
    ∷ bytes "                'CREATE'"
    ∷ bytes "            ) THEN 1 ELSE 0 END"
    ∷ bytes "            +"
    ∷ bytes "            CASE WHEN pg_catalog.has_database_privilege("
    ∷ bytes "                CURRENT_USER,"
    ∷ bytes "                pg_catalog.current_database(),"
    ∷ bytes "                'TEMP'"
    ∷ bytes "            ) THEN 1 ELSE 0 END"
    ∷ bytes "        )::bigint"
    ∷ bytes "    ),"
    ∷ bytes "    ("
    ∷ bytes "        SELECT pg_catalog.count(*)::bigint"
    ∷ bytes "        FROM user_namespaces AS namespace"
    ∷ bytes "        WHERE pg_catalog.has_schema_privilege("
    ∷ bytes "            CURRENT_USER,"
    ∷ bytes "            namespace.oid,"
    ∷ bytes "            'CREATE'"
    ∷ bytes "        )"
    ∷ bytes "    ),"
    ∷ bytes "    ("
    ∷ bytes "        ("
    ∷ bytes "            SELECT pg_catalog.count(*)::bigint"
    ∷ bytes "            FROM user_relations AS relation"
    ∷ bytes "            WHERE pg_catalog.has_table_privilege(CURRENT_USER, relation.oid, 'INSERT')"
    ∷ bytes "               OR pg_catalog.has_table_privilege(CURRENT_USER, relation.oid, 'UPDATE')"
    ∷ bytes "               OR pg_catalog.has_table_privilege(CURRENT_USER, relation.oid, 'DELETE')"
    ∷ bytes
        "               OR pg_catalog.has_table_privilege(CURRENT_USER, relation.oid, 'TRUNCATE')"
    ∷ bytes
        "               OR pg_catalog.has_table_privilege(CURRENT_USER, relation.oid, 'REFERENCES')"
    ∷ bytes
        "               OR pg_catalog.has_table_privilege(CURRENT_USER, relation.oid, 'TRIGGER')"
    ∷ bytes "        )"
    ∷ bytes "        +"
    ∷ bytes "        ("
    ∷ bytes "            SELECT pg_catalog.count(*)::bigint"
    ∷ bytes "            FROM user_relations AS relation"
    ∷ bytes "            JOIN pg_catalog.pg_attribute AS attribute"
    ∷ bytes "              ON attribute.attrelid = relation.oid"
    ∷ bytes "             AND attribute.attnum > 0"
    ∷ bytes "             AND NOT attribute.attisdropped"
    ∷ bytes
        "            WHERE pg_catalog.has_column_privilege(CURRENT_USER, relation.oid, attribute.attnum, 'INSERT')"
    ∷ bytes
        "               OR pg_catalog.has_column_privilege(CURRENT_USER, relation.oid, attribute.attnum, 'UPDATE')"
    ∷ bytes
        "               OR pg_catalog.has_column_privilege(CURRENT_USER, relation.oid, attribute.attnum, 'REFERENCES')"
    ∷ bytes "        )"
    ∷ bytes "    ),"
    ∷ bytes "    ("
    ∷ bytes "        SELECT pg_catalog.count(*)::bigint"
    ∷ bytes "        FROM user_sequences AS sequence"
    ∷ bytes "        WHERE pg_catalog.has_sequence_privilege(CURRENT_USER, sequence.oid, 'SELECT')"
    ∷ bytes "           OR pg_catalog.has_sequence_privilege(CURRENT_USER, sequence.oid, 'USAGE')"
    ∷ bytes "           OR pg_catalog.has_sequence_privilege(CURRENT_USER, sequence.oid, 'UPDATE')"
    ∷ bytes "    ),"
    ∷ bytes "    ("
    ∷ bytes "        ("
    ∷ bytes "            SELECT pg_catalog.count(*)::bigint"
    ∷ bytes "            FROM pg_catalog.pg_database AS database"
    ∷ bytes "            CROSS JOIN LATERAL pg_catalog.aclexplode("
    ∷ bytes "                COALESCE(database.datacl, pg_catalog.acldefault('d', database.datdba))"
    ∷ bytes "            ) AS privilege"
    ∷ bytes "            WHERE database.datname = pg_catalog.current_database()"
    ∷ bytes "              AND privilege.privilege_type = 'CONNECT'"
    ∷ bytes "              AND privilege.is_grantable"
    ∷ bytes "              AND CASE"
    ∷ bytes "                    WHEN privilege.grantee = 0 THEN true"
    ∷ bytes
        "                    ELSE pg_catalog.pg_has_role(CURRENT_USER, privilege.grantee, 'MEMBER')"
    ∷ bytes "                  END"
    ∷ bytes "        )"
    ∷ bytes "        +"
    ∷ bytes "        ("
    ∷ bytes "            SELECT pg_catalog.count(*)::bigint"
    ∷ bytes "            FROM user_namespaces AS namespace"
    ∷ bytes "            CROSS JOIN LATERAL pg_catalog.aclexplode("
    ∷ bytes
        "                COALESCE(namespace.nspacl, pg_catalog.acldefault('n', namespace.nspowner))"
    ∷ bytes "            ) AS privilege"
    ∷ bytes "            WHERE namespace.nspname = 'public'"
    ∷ bytes "              AND privilege.privilege_type = 'USAGE'"
    ∷ bytes "              AND privilege.is_grantable"
    ∷ bytes "              AND CASE"
    ∷ bytes "                    WHEN privilege.grantee = 0 THEN true"
    ∷ bytes
        "                    ELSE pg_catalog.pg_has_role(CURRENT_USER, privilege.grantee, 'MEMBER')"
    ∷ bytes "                  END"
    ∷ bytes "        )"
    ∷ bytes "        +"
    ∷ bytes "        ("
    ∷ bytes "            SELECT pg_catalog.count(*)::bigint"
    ∷ bytes "            FROM required_columns AS required"
    ∷ bytes "            JOIN pg_catalog.pg_namespace AS namespace"
    ∷ bytes "              ON namespace.nspname = required.schema_name"
    ∷ bytes "            JOIN pg_catalog.pg_class AS relation"
    ∷ bytes "              ON relation.relnamespace = namespace.oid"
    ∷ bytes "             AND relation.relname = required.table_name"
    ∷ bytes "            JOIN pg_catalog.pg_attribute AS attribute"
    ∷ bytes "              ON attribute.attrelid = relation.oid"
    ∷ bytes "             AND attribute.attname = required.column_name"
    ∷ bytes "             AND attribute.attnum > 0"
    ∷ bytes "             AND NOT attribute.attisdropped"
    ∷ bytes "            CROSS JOIN LATERAL pg_catalog.aclexplode(attribute.attacl) AS privilege"
    ∷ bytes "            WHERE privilege.privilege_type = 'SELECT'"
    ∷ bytes "              AND privilege.is_grantable"
    ∷ bytes "              AND CASE"
    ∷ bytes "                    WHEN privilege.grantee = 0 THEN true"
    ∷ bytes
        "                    ELSE pg_catalog.pg_has_role(CURRENT_USER, privilege.grantee, 'MEMBER')"
    ∷ bytes "                  END"
    ∷ bytes "        )"
    ∷ bytes "    ),"
    ∷ bytes "    ("
    ∷ bytes "        SELECT pg_catalog.count(*)::bigint"
    ∷ bytes "        FROM pg_catalog.pg_proc AS routine"
    ∷ bytes "        JOIN user_namespaces AS namespace ON namespace.oid = routine.pronamespace"
    ∷ bytes "        WHERE routine.prosecdef"
    ∷ bytes "          AND pg_catalog.has_function_privilege(CURRENT_USER, routine.oid, 'EXECUTE')"
    ∷ bytes "    ),"
    ∷ bytes "    ("
    ∷ bytes "        SELECT pg_catalog.count(*)::bigint"
    ∷ bytes "        FROM pg_catalog.pg_largeobject_metadata AS large_object"
    ∷ bytes "        CROSS JOIN self_role"
    ∷ bytes "        WHERE large_object.lomowner = self_role.oid"
    ∷ bytes "           OR pg_catalog.pg_has_role(CURRENT_USER, large_object.lomowner, 'MEMBER')"
    ∷ bytes "           OR EXISTS ("
    ∷ bytes "                SELECT 1"
    ∷ bytes "                FROM pg_catalog.aclexplode(large_object.lomacl) AS privilege"
    ∷ bytes "                WHERE privilege.privilege_type = 'UPDATE'"
    ∷ bytes "                  AND CASE"
    ∷ bytes "                        WHEN privilege.grantee = 0 THEN true"
    ∷ bytes
        "                        ELSE pg_catalog.pg_has_role(CURRENT_USER, privilege.grantee, 'MEMBER')"
    ∷ bytes "                      END"
    ∷ bytes "           )"
    ∷ bytes "    ),"
    ∷ bytes "    ("
    ∷ bytes "        SELECT pg_catalog.count(*)::bigint"
    ∷ bytes "        FROM pg_catalog.pg_proc AS routine"
    ∷ bytes "        JOIN user_namespaces AS namespace ON namespace.oid = routine.pronamespace"
    ∷ bytes "        CROSS JOIN self_role"
    ∷ bytes "        WHERE routine.proowner = self_role.oid"
    ∷ bytes "           OR pg_catalog.pg_has_role(CURRENT_USER, routine.proowner, 'MEMBER')"
    ∷ bytes "    ),"
    ∷ bytes "    ("
    ∷ bytes "        SELECT pg_catalog.count(*)::bigint"
    ∷ bytes "        FROM user_relations AS relation"
    ∷ bytes "        WHERE pg_catalog.has_table_privilege(CURRENT_USER, relation.oid, 'SELECT')"
    ∷ bytes "    ),"
    ∷ bytes "    ("
    ∷ bytes "        SELECT pg_catalog.count(*)::bigint"
    ∷ bytes "        FROM user_relations AS relation"
    ∷ bytes "        JOIN user_namespaces AS namespace ON namespace.oid = relation.relnamespace"
    ∷ bytes "        JOIN pg_catalog.pg_attribute AS attribute"
    ∷ bytes "          ON attribute.attrelid = relation.oid"
    ∷ bytes "         AND attribute.attnum > 0"
    ∷ bytes "         AND NOT attribute.attisdropped"
    ∷ bytes "        WHERE pg_catalog.has_column_privilege("
    ∷ bytes "            CURRENT_USER,"
    ∷ bytes "            relation.oid,"
    ∷ bytes "            attribute.attnum,"
    ∷ bytes "            'SELECT'"
    ∷ bytes "        )"
    ∷ bytes "          AND NOT EXISTS ("
    ∷ bytes "              SELECT 1"
    ∷ bytes "              FROM required_columns AS required"
    ∷ bytes "              WHERE required.schema_name = namespace.nspname"
    ∷ bytes "                AND required.table_name = relation.relname"
    ∷ bytes "                AND required.column_name = attribute.attname"
    ∷ bytes "          )"
    ∷ bytes "    )"
    ∷ [])
