-- ===== src/App/Lifecycle.antt =====
-- internal/app/app.go: `Run` and `RunCredentialMode`. What happens while the server runs is an
-- argument: whether `Serve` ends first or the context. cmd/viewer/main.go: the exit codes.
pub mod Exits
pub mod Endings
pub mod Starting
use usage_viewer.Prelude.{
  ℕ, Bool, true, false, not, ◌||◌, List, [], ◌∷◌, ◌++◌, map, Option, none, some, Text, text_eq,
  Result, ok, err, if◌then◌else◌,
}
use usage_viewer.Diagnostics.{
  GoError, Code, Diagnostic, Cause, no_cause, caused_by, diagnosed, wrap, new, as_diagnostic,
  code_of, code_server, category_server, message_server, code_configuration, code_unsafe_bind,
  code_database_connectivity, code_database_privilege, code_database_read_only,
  code_schema_compatibility,
}
use usage_viewer.Creds.{Source, source_env, source_config, source_saved, source_manual, System}
use usage_viewer.App.{Dependencies, PoolAction, pool_closed, Established, establish_pool}

pub data Action : Type 0 where
  on_pool : PoolAction → Action
  listened : Action
  logged_ready : Action
  started_serving : Action
  logged_stopping : Action
  called_shutdown : Action
  listener_closed : Action

-- How serving ends: `Serve` returns first, or the context is done, and then `Shutdown` and `Serve`
-- return. `none` stands for nil, and for ErrServerClosed as the result of `Serve`.
pub data Ending : Type 0 where
  serve_ended : Option GoError → Ending
  context_done : (shutdown served : Option GoError) → Ending

-- What the process meets; `done_before` and `done_after` say that the context is done at the
-- start, and once there is a pool, and `done_in_mode` at the start of the credential mode.
pub record Host : Type 0 where
  pub available : Bool
  pub done_before : Bool
  pub done_after : Bool
  pub done_in_mode : Bool
  pub has_handler : Bool
  pub has_credential_handler : Bool
  pub listen : Option GoError
  pub serve_closes_listener : Bool
  pub ending : Ending

pub record RunResult : Type 0 where
  pub actions : List Action
  pub failure : Option GoError

-- serverDiagnostic
unfoldable pub server_diagnostic : Option GoError → GoError
server_diagnostic none = diagnosed (wrap code_server category_server message_server no_cause)
server_diagnostic (some e) =
    diagnosed (wrap code_server category_server message_server (caused_by e))

-- admittedDiagnostic
unfoldable pub admitted_diagnostic : GoError → GoError
admitted_diagnostic e = elim (as_diagnostic e) [
  | some d ↦ diagnosed d
  | none ↦ server_diagnostic (some e)
]

-- onceListener.Close: whether it was called before, and what reaches the listener.
unfoldable pub close_once : Bool → List Action
close_once true = []
close_once false = listener_closed ∷ []

abbrev failing : Option GoError → Option GoError
failing none = none
failing (some e) = some (server_diagnostic (some e))

-- The select of both servers, up to the deferred Close of the listener.
unfoldable pub finish : Bool → Ending → RunResult
finish closed (serve_ended served) = record {
  actions = close_once closed;
  failure = failing served;
}
finish closed (context_done shutdown served) = record {
  actions = logged_stopping ∷ called_shutdown ∷ (close_once closed ++ close_once true);
  failure = elim shutdown [ some e ↦ some (server_diagnostic (some e)) | none ↦ failing served ];
}

-- From the listener on, as `Run` and `RunCredentialMode` both do it.
unfoldable pub serve_http : Host → Bool → RunResult
serve_http host has_handler =
    if not has_handler
    then record { actions = []; failure = some (server_diagnostic none) }
    else elim host.listen [
      | some e ↦ record { actions = []; failure = some (server_diagnostic (some e)) }
      | none ↦
          let ended = finish host.serve_closes_listener host.ending in
          record {
            actions =
                listened
                ∷ logged_ready
                ∷ started_serving
                ∷ ((if host.serve_closes_listener then close_once false else []) ++ ended.actions);
            failure = ended.failure;
          }
    ]

-- RunCredentialMode
unfoldable pub run_credential_mode : Host → RunResult
run_credential_mode host =
    if not host.available
    then record { actions = []; failure = some (server_diagnostic none) }
    else if host.done_in_mode
    then record { actions = []; failure = none }
    else serve_http host host.has_credential_handler

abbrev is_explicit : Option Source → Bool
is_explicit none = true
is_explicit (some source_env) = true
is_explicit (some source_config) = false
is_explicit (some source_saved) = false
is_explicit (some source_manual) = false

-- handleDBError; `none` is the empty source.
unfoldable pub handle_db_error : Host → GoError → Option Source → RunResult
handle_db_error host cause source =
    if is_explicit source
    then record { actions = []; failure = some (admitted_diagnostic cause) }
    else run_credential_mode host

abbrev behind : List PoolAction → RunResult → RunResult
behind actions r = record { actions = map on_pool actions ++ r.actions; failure = r.failure }

-- `Run` with a pool, whose closing is deferred.
unfoldable pub run_with_pool : Host → ℕ → RunResult
run_with_pool host pool =
    let served : RunResult =
      if host.done_after
      then record { actions = []; failure = none }
      else serve_http host host.has_handler in
    record { actions = served.actions ++ on_pool (pool_closed pool) ∷ []; failure = served.failure }

-- Run behind establishPool
unfoldable pub run_established : Host → Established → RunResult
run_established host e = elim e.attempt.failure [
  | some cause ↦ behind e.attempt.actions (handle_db_error host cause e.source)
  | none ↦ elim e.attempt.pool [
    | none ↦ behind e.attempt.actions (run_credential_mode host)
    | some pool ↦ behind e.attempt.actions (run_with_pool host pool)
  ]
]

-- Run
unfoldable pub run_application :
    System → Dependencies → Host → Text → Text → Option Source → RunResult
run_application sys deps host database_url data_dir source =
    if not host.available
    then record { actions = []; failure = some (server_diagnostic none) }
    else if host.done_before
    then record { actions = []; failure = none }
    else run_established host (establish_pool sys deps database_url data_dir source)

-- exitCode, for the code of its error.
unfoldable pub exit_code_of : Code → ℕ
exit_code_of code =
    if text_eq code code_configuration || text_eq code code_unsafe_bind
    then 2
    else if text_eq code code_database_connectivity
    then 3
    else if text_eq code code_database_privilege
    then 4
    else if text_eq code code_database_read_only
    then 5
    else if text_eq code code_schema_compatibility
    then 6
    else 7

-- exitCode
unfoldable pub exit_code : GoError → ℕ
exit_code e = exit_code_of (code_of e)

-- publicDiagnostic and serverFailure
unfoldable pub public_diagnostic : GoError → GoError
public_diagnostic e = elim (as_diagnostic e) [
  | some d ↦ diagnosed d
  | none ↦ diagnosed (new code_server category_server message_server)
]

-- runWith, behind the loading of the configuration and the run of the application
unfoldable pub run_with : Result GoError RunResult → ℕ
run_with (err e) = exit_code (public_diagnostic e)
run_with (ok result) = elim result.failure [ none ↦ 0 | some e ↦ exit_code (public_diagnostic e) ]
