-- ===== src/Tests/Database.antt =====
-- internal/postgres: the decision on a role, at concrete snapshots.
use usage_viewer.Prelude.{refl, true, false, [], ◌∷◌, Text, bytes, text_eq, trim_space, ℤ, pos}
use usage_viewer.Postgres.Contract.{Contract}
use usage_viewer.Postgres.Matching.{matches, collect, scan, find}
use usage_viewer.Postgres.Admission.{
  role_refused, has_forbidden_authority, relation_well_formed, relation_agrees, column_well_formed,
  column_agrees, selectable, ObservedColumn, ObservedRelation, Snapshot, exact_relation_match,
  exact_schema_match, validate_admission,
}
use usage_viewer.Postgres.Admission.Decision.{Admitted, validate_admission_iff}

abbrev small_contract : Contract
small_contract = record {
  relations = record { schema = bytes "public"; name = bytes "groups"; relkind = bytes "r" } ∷ [];
  columns =
      record {
        schema = bytes "public";
        table = bytes "groups";
        column = bytes "id";
        udt_name = bytes "int8";
        nullable = false;
      }
      ∷ [];
}

abbrev groups_relation : ObservedRelation
groups_relation = record { schema = bytes "public"; name = bytes "groups"; relkind = bytes "r" }

abbrev id_column : ObservedColumn
id_column = record {
  schema = bytes "public";
  table = bytes "groups";
  column = bytes "id";
  udt_name = bytes "int8";
  nullable = false;
  selectable = true;
}

abbrev reader : Text
reader = bytes "viewer"

abbrev snapshot_with : ℤ → Snapshot
snapshot_with memberships = record {
  current_role = reader;
  role_can_login = true;
  role_super = false;
  role_inherit = false;
  role_create_role = false;
  role_create_db = false;
  role_replication = false;
  role_bypass_rls = false;
  default_transaction_read_only = true;
  database_connect = true;
  public_schema_usage = true;
  membership_count = memberships;
  owned_database_count = pos 0;
  owned_schema_count = pos 0;
  owned_relation_count = pos 0;
  database_create_or_temp_count = pos 0;
  schema_create_count = pos 0;
  table_write_privilege_count = pos 0;
  sequence_privilege_count = pos 0;
  grant_option_count = pos 0;
  security_definer_execute_count = pos 0;
  large_object_write_count = pos 0;
  owned_routine_count = pos 0;
  broad_select_privilege_count = pos 0;
  unexpected_select_privilege_count = pos 0;
  required_relations = groups_relation ∷ [];
  required_columns = id_column ∷ [];
}

validate_admission_iff_example : Admitted reader small_contract (snapshot_with (pos 0))
unfolding validate_admission role_refused has_forbidden_authority exact_relation_match
    exact_schema_match matches collect scan find relation_well_formed relation_agrees
    column_well_formed column_agrees selectable text_eq trim_space
validate_admission_iff_example =
    (validate_admission_iff reader small_contract (snapshot_with (pos 0))).0 refl
