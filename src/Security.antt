-- ===== src/Security.antt =====
-- internal/security/logger.go: the lines of the event log. What `slog.NewJSONHandler` writes for a record is
-- its attributes, each passed through ReplaceAttr: the time, the level, the message and those of the call.
use usage_viewer.Prelude.{
  Bool, not, ◌||◌, List, [], ◌∷◌, map, Option, none, some, Text, bytes, text_eq, ℤ, pos,
  if◌then◌else◌,
}
use usage_viewer.Diagnostics.{
  Diagnostic, new, code_server, category_server, code_of_diagnostic, category_of_diagnostic,
  message_of_diagnostic,
}

-- AddressClassLoopback and AddressClassAcknowledgedNonLoopback
abbrev pub address_class_loopback : Text
address_class_loopback = bytes "loopback"

abbrev pub address_class_acknowledged_non_loopback : Text
address_class_acknowledged_non_loopback = bytes "acknowledged_non_loopback"

-- An instant, and the offset of the zone in which it is printed, in seconds.
pub data Value : Type 0 where
  text_value : Text → Value
  time_value : (instant offset : ℤ) → Value

pub record Attribute : Type 0 where
  pub key : Text
  pub value : Value

-- A line of the log, by its attributes.
abbrev pub Line : Type 0
Line = List Attribute

-- slog.TimeKey, slog.LevelKey and slog.MessageKey
abbrev pub time_key : Text
time_key = bytes "time"

abbrev pub level_key : Text
level_key = bytes "level"

abbrev pub message_key : Text
message_key = bytes "msg"

abbrev pub string_attribute : Text → Text → Attribute
string_attribute key value = record { key = key; value = text_value value }

abbrev to_utc : Value → Value
to_utc (text_value t) = text_value t
to_utc (time_value instant offset) = time_value instant (pos 0)

-- replaceAttribute
unfoldable pub replace_attribute : Attribute → Attribute
replace_attribute a =
    if text_eq a.key time_key
    then record { key = bytes "timestamp"; value = to_utc a.value }
    else if text_eq a.key message_key
    then record { key = bytes "event"; value = a.value }
    else a

-- What the handler of NewLogger writes for a call at a time.
unfoldable pub log_line : Value → Text → Text → List Attribute → Line
log_line now level message attributes = map replace_attribute (
    record { key = time_key; value = now }
    ∷ string_attribute level_key level
    ∷ string_attribute message_key message
    ∷ attributes)

-- validAddressClass
unfoldable pub valid_address_class : Text → Bool
valid_address_class address_class =
    text_eq address_class address_class_loopback
    || text_eq address_class address_class_acknowledged_non_loopback

-- Ready; `false` is a nil logger, which writes nothing.
unfoldable pub ready : Bool → Value → Text → List Line
ready present now address_class =
    if not present || not (valid_address_class address_class)
    then []
    else log_line now (bytes "INFO") (bytes "ready")
        (string_attribute (bytes "address_class") address_class ∷ [])
      ∷ []

-- Stopping
unfoldable pub stopping : Bool → Value → List Line
stopping present now =
    if not present then [] else log_line now (bytes "INFO") (bytes "stopping") [] ∷ []

abbrev or_server : Option Diagnostic → Option Diagnostic
or_server none = some (new code_server category_server [])
or_server (some d) = some d

-- Failure; `none` is a nil diagnostic.
unfoldable pub failure : Bool → Value → Option Diagnostic → List Line
failure present now diagnostic =
    let d = or_server diagnostic in
    if not present
    then []
    else log_line now (bytes "ERROR") (bytes "failure") (
        string_attribute (bytes "code") (code_of_diagnostic d)
        ∷ string_attribute (bytes "category") (category_of_diagnostic d)
        ∷ string_attribute (bytes "message") (message_of_diagnostic d)
        ∷ [])
      ∷ []
