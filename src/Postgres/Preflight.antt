-- ===== src/Postgres/Preflight.antt =====
-- internal/postgres/preflight.go: the evidence that a connection gives, collected into a snapshot,
-- and the admission of the connection. The answers of the database are parameters.
pub mod Scans
pub mod Evidence
use usage_viewer.Prelude.{
  Bool, true, false, not, List, [], ◌∷◌, ◌++◌, map, Option, none, some, Result, ok, err, ◌>>=◌,
  Text, bytes, ℤ, pos, eqb_ℤ, if◌then◌else◌,
}
use usage_viewer.Diagnostics.{GoError, Diagnostic, plain, diagnosed}
use usage_viewer.Postgres.Catalog.{
  connectivity_probe_sql, role_evidence_sql, read_only_evidence_sql, relation_evidence_sql,
  column_evidence_sql,
}
use usage_viewer.Postgres.Catalog.Authority.{authority_evidence_sql}
use usage_viewer.Postgres.Stages.{Stage, connectivity, role, read_only, authority, schema, at_stage}
use usage_viewer.Postgres.Contract.{RelationContract, ColumnContract, Contract, current_contract}
use usage_viewer.Postgres.Admission.{
  ObservedRelation, ObservedColumn, Snapshot, exact_relation_match, validate_admission,
  schema_diagnostic,
}

-- What the scan of roleEvidenceSQL fills in.
pub record RoleEvidence : Type 0 where
  pub current_role : Text
  pub role_can_login : Bool
  pub role_super : Bool
  pub role_inherit : Bool
  pub role_create_role : Bool
  pub role_create_db : Bool
  pub role_replication : Bool
  pub role_bypass_rls : Bool
  pub database_connect : Bool
  pub public_schema_usage : Bool

-- What the scan of authorityEvidenceSQL fills in.
pub record AuthorityEvidence : Type 0 where
  pub membership_count : ℤ
  pub owned_database_count : ℤ
  pub owned_schema_count : ℤ
  pub owned_relation_count : ℤ
  pub database_create_or_temp_count : ℤ
  pub schema_create_count : ℤ
  pub table_write_privilege_count : ℤ
  pub sequence_privilege_count : ℤ
  pub grant_option_count : ℤ
  pub security_definer_execute_count : ℤ
  pub large_object_write_count : ℤ
  pub owned_routine_count : ℤ
  pub broad_select_privilege_count : ℤ
  pub unexpected_select_privilege_count : ℤ

-- The answer to a query of several rows: what each `Scan` gives, and `rows.Err()` behind them.
pub record Rows (A : Type 0) : Type 0 where
  pub scans : List (Result GoError A)
  pub failure : Option GoError

-- A connection, by its answers to a statement and its arguments, for each kind of row that is scanned.
pub record Connection : Type 0 where
  pub int_row : Text → Result GoError ℤ
  pub bool_row : Text → Result GoError Bool
  pub role_row : Text → Result GoError RoleEvidence
  pub authority_row : Text → (schemas tables columns : List Text) → Result GoError AuthorityEvidence
  pub relation_rows :
      Text → (schemas relations : List Text) → Result GoError (Rows ObservedRelation)
  pub column_rows :
      Text → (schemas tables columns : List Text) → Result GoError (Rows ObservedColumn)

-- `if err != nil { return diagnosticForStage(stage, err) }`
abbrev pub or_stage {ℓ} : {A : Type ℓ} → Stage → Result GoError A → Result GoError A
or_stage stage (ok a) = ok a
or_stage stage (err e) = err (at_stage stage e)

-- The loop over `rows.Next()`: the first scan that fails ends it.
unfoldable pub scan_rows : {A : Type 0} → List (Result GoError A) → List A → Result GoError (List A)
scan_rows [] observed = ok observed
scan_rows (ok a ∷ rest) observed = scan_rows rest (observed ++ a ∷ [])
scan_rows (err e ∷ rest) observed = err e

-- `rows.Err()` behind a loop
abbrev pub rows_failure : {A : Type 0} → Option GoError → A → Result GoError A
rows_failure none observed = ok observed
rows_failure (some e) observed = err e

-- collectRelationEvidence and collectColumnEvidence, which differ in the statement.
unfoldable pub collect_rows : {A : Type 0} → Result GoError (Rows A) → Result GoError (List A)
collect_rows answer = do
  rows ← or_stage schema answer
  observed ← or_stage schema (scan_rows rows.scans [])
  or_stage schema (rows_failure rows.failure observed)

-- contractArguments
abbrev pub contract_schemas : Contract → List Text
contract_schemas c = map (λ x. x.schema) c.columns

abbrev pub contract_tables : Contract → List Text
contract_tables c = map (λ x. x.table) c.columns

abbrev pub contract_columns : Contract → List Text
contract_columns c = map (λ x. x.column) c.columns

-- relationContractArguments
abbrev pub relation_schemas : Contract → List Text
relation_schemas c = map (λ x. x.schema) c.relations

abbrev pub relation_names : Contract → List Text
relation_names c = map (λ x. x.name) c.relations

abbrev pub snapshot_of :
    RoleEvidence → Bool → AuthorityEvidence → List ObservedRelation → List ObservedColumn → Snapshot
snapshot_of r w a relations columns = record {
  current_role = r.current_role;
  role_can_login = r.role_can_login;
  role_super = r.role_super;
  role_inherit = r.role_inherit;
  role_create_role = r.role_create_role;
  role_create_db = r.role_create_db;
  role_replication = r.role_replication;
  role_bypass_rls = r.role_bypass_rls;
  default_transaction_read_only = w;
  database_connect = r.database_connect;
  public_schema_usage = r.public_schema_usage;
  membership_count = a.membership_count;
  owned_database_count = a.owned_database_count;
  owned_schema_count = a.owned_schema_count;
  owned_relation_count = a.owned_relation_count;
  database_create_or_temp_count = a.database_create_or_temp_count;
  schema_create_count = a.schema_create_count;
  table_write_privilege_count = a.table_write_privilege_count;
  sequence_privilege_count = a.sequence_privilege_count;
  grant_option_count = a.grant_option_count;
  security_definer_execute_count = a.security_definer_execute_count;
  large_object_write_count = a.large_object_write_count;
  owned_routine_count = a.owned_routine_count;
  broad_select_privilege_count = a.broad_select_privilege_count;
  unexpected_select_privilege_count = a.unexpected_select_privilege_count;
  required_relations = relations;
  required_columns = columns;
}

-- collectAdmissionSnapshot
unfoldable pub collect_snapshot : Connection → Contract → Result GoError Snapshot
collect_snapshot conn contract = do
  r ← or_stage role (conn.role_row role_evidence_sql)
  w ← or_stage read_only (conn.bool_row read_only_evidence_sql)
  a ← or_stage authority (
      conn.authority_row authority_evidence_sql (contract_schemas contract)
        (contract_tables contract) (contract_columns contract))
  relations ← collect_rows (
      conn.relation_rows relation_evidence_sql (relation_schemas contract)
        (relation_names contract))
  if not (exact_relation_match contract relations) then err (diagnosed schema_diagnostic) else do
    columns ← collect_rows (
        conn.column_rows column_evidence_sql (contract_schemas contract) (contract_tables contract)
          (contract_columns contract))
    ok (snapshot_of r w a relations columns)

-- CheckLightAdmission. `none` is a nil context or connection.
unfoldable pub check_light_admission : Option Connection → Result GoError (Unit {0})
check_light_admission none =
    err (at_stage connectivity (plain (bytes "preflight dependency unavailable")))
check_light_admission (some conn) = elim (conn.int_row connectivity_probe_sql) [
  | err e ↦ err (at_stage connectivity e)
  | ok probe ↦
      if eqb_ℤ probe (pos 1)
      then ok tt
      else err
          (at_stage connectivity (plain (bytes "connectivity probe returned unexpected evidence")))
]

abbrev pub as_error : Result Diagnostic (Unit {0}) → Result GoError (Unit {0})
as_error (ok a) = ok a
as_error (err d) = err (diagnosed d)

-- CheckConnectionAdmission, whose connectivity probe is that of the light admission.
unfoldable pub check_connection_admission : Option Connection → Text → Result GoError (Unit {0})
check_connection_admission none expected =
    err (at_stage connectivity (plain (bytes "preflight dependency unavailable")))
check_connection_admission (some conn) expected = elim (check_light_admission (some conn)) [
  | err e ↦ err e
  | ok _ ↦ elim (collect_snapshot conn current_contract) [
    | err e ↦ err e
    | ok snapshot ↦ as_error (validate_admission expected current_contract snapshot)
  ]
]
