-- ===== src/Postgres/Stages.antt =====
-- internal/postgres/preflight.go: `diagnosticForStage`. Its causes are errors of Go.
use usage_viewer.Diagnostics.{
  GoError, Diagnostic, diagnosed, caused_by, wrap, code_database_connectivity,
  code_database_privilege, code_database_read_only, code_schema_compatibility,
  category_database_connectivity, category_database_privilege, category_database_read_only,
  category_schema_compatibility, message_database_connectivity, message_database_privilege,
  message_database_read_only, message_schema_compatibility,
}

-- diagnosticStage
pub data Stage : Type 0 where
  connectivity role read_only authority schema : Stage

-- diagnosticForStage
unfoldable pub diagnostic_for_stage : Stage → GoError → Diagnostic
diagnostic_for_stage connectivity cause =
    wrap code_database_connectivity category_database_connectivity message_database_connectivity
      (caused_by cause)
diagnostic_for_stage role cause =
    wrap code_database_privilege category_database_privilege message_database_privilege
      (caused_by cause)
diagnostic_for_stage authority cause =
    wrap code_database_privilege category_database_privilege message_database_privilege
      (caused_by cause)
diagnostic_for_stage read_only cause =
    wrap code_database_read_only category_database_read_only message_database_read_only
      (caused_by cause)
diagnostic_for_stage schema cause =
    wrap code_schema_compatibility category_schema_compatibility message_schema_compatibility
      (caused_by cause)

abbrev pub at_stage : Stage → GoError → GoError
at_stage stage cause = diagnosed (diagnostic_for_stage stage cause)
