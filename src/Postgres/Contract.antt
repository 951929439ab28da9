-- ===== src/Postgres/Contract.antt =====
-- internal/postgres/contract.go: the relations and the columns that the viewer reads.
use usage_viewer.Prelude.{Bool, true, false, List, [], ◌∷◌, Text, bytes}

pub record RelationContract : Type 0 where
  pub schema : Text
  pub name : Text
  pub relkind : Text

pub record ColumnContract : Type 0 where
  pub schema : Text
  pub table : Text
  pub column : Text
  pub udt_name : Text
  pub nullable : Bool

pub record Contract : Type 0 where
  pub relations : List RelationContract
  pub columns : List ColumnContract

abbrev public_schema : Text
public_schema = bytes "public"

abbrev api_keys : Text
api_keys = bytes "api_keys"

abbrev groups : Text
groups = bytes "groups"

abbrev usage_logs : Text
usage_logs = bytes "usage_logs"

abbrev relation : Text → RelationContract
relation name = record { schema = public_schema; name = name; relkind = bytes "r" }

abbrev required : Text → Text → Text → ColumnContract
required table column udt = record {
  schema = public_schema;
  table = table;
  column = column;
  udt_name = udt;
  nullable = false;
}

abbrev nullable : Text → Text → Text → ColumnContract
nullable table column udt = record {
  schema = public_schema;
  table = table;
  column = column;
  udt_name = udt;
  nullable = true;
}

-- CurrentContract
unfoldable pub current_contract : Contract
current_contract = record {
  relations = relation api_keys ∷ relation groups ∷ relation usage_logs ∷ [];
  columns =
      required api_keys (bytes "id") (bytes "int8")
      ∷ required api_keys (bytes "key") (bytes "varchar")
      ∷ required api_keys (bytes "name") (bytes "varchar")
      ∷ nullable api_keys (bytes "group_id") (bytes "int8")
      ∷ required api_keys (bytes "quota") (bytes "numeric")
      ∷ required api_keys (bytes "quota_used") (bytes "numeric")
      ∷ nullable api_keys (bytes "last_used_at") (bytes "timestamptz")
      ∷ nullable api_keys (bytes "expires_at") (bytes "timestamptz")
      ∷ required api_keys (bytes "status") (bytes "varchar")
      ∷ required api_keys (bytes "created_at") (bytes "timestamptz")
      ∷ nullable api_keys (bytes "deleted_at") (bytes "timestamptz")
      ∷ required groups (bytes "id") (bytes "int8")
      ∷ required groups (bytes "name") (bytes "varchar")
      ∷ required usage_logs (bytes "id") (bytes "int8")
      ∷ nullable usage_logs (bytes "api_key_id") (bytes "int8")
      ∷ required usage_logs (bytes "actual_cost") (bytes "numeric")
      ∷ required usage_logs (bytes "created_at") (bytes "timestamptz")
      ∷ [];
}
