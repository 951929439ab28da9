-- ===== src/App/Logging.antt =====
-- cmd/viewer/main.go, internal/app/app.go, internal/security/logger.go: what a run of the program logs.
use usage_viewer.Prelude.{
  ◌≡◌, refl, Bool, true, false, List, [], ◌∷◌, ◌++◌, Option, none, some, Result, ok, err, Text,
  bytes, text_eq, ℤ, pos, All, All-append, if◌then◌else◌,
}
use usage_viewer.Diagnostics.{
  Code, Category, GoError, Diagnostic, canonical_values, as_diagnostic, new, code_server,
  category_server, message_server,
}
use usage_viewer.Diagnostics.Canonical.{IsPublic, diagnostic_shows_canonical}
use usage_viewer.Security.{
  Value, time_value, Attribute, Line, string_attribute, log_line, replace_attribute, ready,
  stopping, failure, valid_address_class, address_class_loopback,
  address_class_acknowledged_non_loopback,
}
use usage_viewer.App.Lifecycle.{
  Action, on_pool, listened, logged_ready, started_serving, logged_stopping, called_shutdown,
  listener_closed, RunResult,
}

-- addressClass
unfoldable pub address_class : Bool → Text
address_class acknowledge_non_loopback =
    if acknowledge_non_loopback
    then address_class_acknowledged_non_loopback
    else address_class_loopback

-- The lines of the actions of a run, at one time for all of them.
unfoldable pub lines_of : Value → Bool → List Action → List Line
lines_of now acknowledged [] = []
lines_of now acknowledged (logged_ready ∷ rest) =
    ready true now (address_class acknowledged) ++ lines_of now acknowledged rest
lines_of now acknowledged (logged_stopping ∷ rest) =
    stopping true now ++ lines_of now acknowledged rest
lines_of now acknowledged (on_pool a ∷ rest) = lines_of now acknowledged rest
lines_of now acknowledged (listened ∷ rest) = lines_of now acknowledged rest
lines_of now acknowledged (started_serving ∷ rest) = lines_of now acknowledged rest
lines_of now acknowledged (called_shutdown ∷ rest) = lines_of now acknowledged rest
lines_of now acknowledged (listener_closed ∷ rest) = lines_of now acknowledged rest

-- publicDiagnostic, as the diagnostic that it is
unfoldable pub public_one : GoError → Diagnostic
public_one e = elim (as_diagnostic e) [
  | some d ↦ d
  | none ↦ new code_server category_server message_server
]

-- What runWith logs, behind the loading of the configuration and the run of the application.
unfoldable pub run_with_lines : Value → Bool → Result GoError RunResult → List Line
run_with_lines now acknowledged (err e) = failure true now (some (public_one e))
run_with_lines now acknowledged (ok result) =
    lines_of now acknowledged result.actions
    ++ elim result.failure [ none ↦ [] | some e ↦ failure true now (some (public_one e)) ]

abbrev event_line : Value → Text → Text → List Attribute → Line
event_line now level event attributes =
    record { key = bytes "timestamp"; value = now }
    ∷ string_attribute (bytes "level") level
    ∷ string_attribute (bytes "event") event
    ∷ attributes

-- The lines that the log may hold: ready with one of two address classes, stopping, and a failure with a
-- public code and its canonical category and message.
pub data Allowed : Line → Type 0 where
  ready_allowed :
      {instant : ℤ} {c : Text}
      → valid_address_class c ≡ true
      → Allowed (
          event_line
            (time_value instant (pos 0))
            (bytes "INFO")
            (bytes "ready")
            (string_attribute (bytes "address_class") c ∷ []))
  stopping_allowed :
      {instant : ℤ}
      → Allowed (event_line (time_value instant (pos 0)) (bytes "INFO") (bytes "stopping") [])
  failure_allowed :
      {instant : ℤ} {code : Code} {category : Category} {message : Text}
      → IsPublic code
      → canonical_values code ≡ (code, category, message)
      → Allowed (
          event_line (time_value instant (pos 0)) (bytes "ERROR") (bytes "failure") (
            string_attribute (bytes "code") code
            ∷ string_attribute (bytes "category") category
            ∷ string_attribute (bytes "message") message
            ∷ []))

module _ (instant offset : ℤ) where
  abbrev clock_time : Value
  clock_time = time_value instant offset

  ready-Allowed :
      (acknowledged : Bool) → All Allowed (ready true clock_time (address_class acknowledged))
  unfolding ready log_line replace_attribute address_class text_eq valid_address_class
  ready-Allowed true = (ready_allowed {c = address_class_acknowledged_non_loopback} refl, tt)
  ready-Allowed false = (ready_allowed {c = address_class_loopback} refl, tt)

  stopping-Allowed : All Allowed (stopping true clock_time)
  unfolding stopping log_line replace_attribute text_eq
  stopping-Allowed = (stopping_allowed, tt)

  failure-Allowed : (d : Diagnostic) → All Allowed (failure true clock_time (some d))
  unfolding failure log_line replace_attribute text_eq
  failure-Allowed d =
      let shown = diagnostic_shows_canonical (some d) in (failure_allowed shown.0 shown.1, tt)

  lines_of-Allowed :
      (acknowledged : Bool) (actions : List Action)
      → All Allowed (lines_of clock_time acknowledged actions)
  unfolding lines_of
  lines_of-Allowed a [] = tt
  lines_of-Allowed a (logged_ready ∷ rest) =
      All-append Allowed (ready true clock_time (address_class a)) _ (ready-Allowed a)
        (lines_of-Allowed a rest)
  lines_of-Allowed a (logged_stopping ∷ rest) =
      All-append Allowed (stopping true clock_time) _ stopping-Allowed (lines_of-Allowed a rest)
  lines_of-Allowed a (on_pool p ∷ rest) = lines_of-Allowed a rest
  lines_of-Allowed a (listened ∷ rest) = lines_of-Allowed a rest
  lines_of-Allowed a (started_serving ∷ rest) = lines_of-Allowed a rest
  lines_of-Allowed a (called_shutdown ∷ rest) = lines_of-Allowed a rest
  lines_of-Allowed a (listener_closed ∷ rest) = lines_of-Allowed a rest

  failure-result :
      (failed : Option GoError)
      → All Allowed
          (elim failed [ none ↦ [] | some e ↦ failure true clock_time (some (public_one e)) ])
  failure-result none = tt
  failure-result (some e) = failure-Allowed (public_one e)

  -- Whatever a run of the program does, its log holds only lines of the closed vocabulary, with their times
  -- in UTC: ready with one of two address classes, stopping, and failure with a public code and the category
  -- and the message of that code. No text of an error, an address or a credential gets there.
  pub run_with_lines-Allowed :
      (acknowledged : Bool) (run : Result GoError RunResult)
      → All Allowed (run_with_lines clock_time acknowledged run)
  unfolding run_with_lines
  run_with_lines-Allowed acknowledged (err e) = failure-Allowed (public_one e)
  run_with_lines-Allowed acknowledged (ok result) =
      All-append Allowed (lines_of clock_time acknowledged result.actions) _
        (lines_of-Allowed acknowledged result.actions) (failure-result result.failure)
