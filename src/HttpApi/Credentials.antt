-- ===== src/HttpApi/Credentials.antt =====
-- internal/httpapi/credential.go: the form that collects credentials, and what it does to pools, to the
-- configuration and to the store file. What the database and the disk answer is a parameter.
pub mod Connecting
pub mod Storing
pub mod Serving
use usage_viewer.Prelude.{
  ℕ, ltb, Bool, true, false, not, ◌||◌, List, [], ◌∷◌, ◌++◌, Option, none, some, Result, ok, err,
  Text, bytes, text_eq, ℤ, pos, leb_ℤ, ltb_ℤ, is_nil, length, take, map, if◌then◌else◌,
}
use usage_viewer.Creds.{Entry, System, load_saved, parse_database_url, or_default}
use usage_viewer.Creds.DotEnv.{connection_candidates, dsn}
use usage_viewer.Creds.Saving.{Disk, Written, save}
use usage_viewer.Web.{asset_content_type}
use usage_viewer.HttpApi.Messages.{
  HttpRequest, Platform, Stream, Decoder, Response, Content, CredsStatus, write_json, write_error,
  write_header, set_header, same_origin, get, post, allow_header, content_type_header,
}
use usage_viewer.HttpApi.Router.{redirect, not_found, send_asset, security_headers}

-- The configuration that the form reads and that the saving changes.
pub record Form : Type 0 where
  pub data_dir : Text
  pub credential_source : Text
  pub database_url : Text

-- The answer of OpenLightPool
pub data LightPool : Type 0 where
  light_error : LightPool
  light_nil : LightPool
  light_pool : LightPool

-- What the form takes from outside: the pools and their preflight for a database URL, whether it
-- fails, the disk, and the decoder of the payload.
pub record World : Type 0 where
  pub system : System
  pub disk : Disk
  pub open_light_pool : Text → LightPool
  pub light_preflight_fails : Text → Bool
  pub decode_connect : Decoder Entry

pub data FormEvent : Type 0 where
  pool_opened : Text → FormEvent
  pool_checked : Text → FormEvent
  pool_closed : Text → FormEvent
  wrote : (path content : Text) → FormEvent

pub record FormReply : Type 0 where
  pub response : Response
  pub form : Form
  pub events : List FormEvent

abbrev pub quiet_reply : Form → Response → FormReply
quiet_reply form response = record { response = response; form = form; events = [] }

-- tryConnect: whether it succeeds, and what it does to the pool.
unfoldable pub try_connect : World → Entry → Bool × List FormEvent
try_connect world e = elim (world.open_light_pool (dsn e)) [
  | light_error ↦ (false, [])
  | light_nil ↦ (false, [])
  | light_pool ↦ (
    not (world.light_preflight_fails (dsn e)),
    pool_opened (dsn e) ∷ pool_checked (dsn e) ∷ pool_closed (dsn e) ∷ [],
  )
]

abbrev pub wrote_all : Written → List FormEvent
wrote_all [] = []
wrote_all ((path, content) ∷ rest) = wrote path content ∷ wrote_all rest

-- The callback of RunCredentialMode: it changes the configuration, and then saves.
unfoldable pub save_creds : World → Form → Entry → Option Text × Form × Written
save_creds world form e =
    let (failure, written) = save world.system world.disk form.data_dir e in
    (
      failure,
      record {
        data_dir = form.data_dir;
        credential_source = form.credential_source;
        database_url = dsn e;
      },
      written,
    )

abbrev pub connect_answer : Bool → Text → Response
connect_answer success message = write_json 200 (Content.connect_result success message)

-- The answer once a candidate is connected and saved.
unfoldable pub saved_reply : World → Form → Entry → FormReply
saved_reply world form e =
    let (failure, changed, written) = save_creds world form e in
    record {
      response = elim failure [
        | none ↦ connect_answer true (bytes "Connected and saved.")
        | some cause ↦ connect_answer false (bytes "Failed to save credentials: " ++ cause)
      ];
      form = changed;
      events = wrote_all written;
    }

-- The error text of the last candidate that was tried
abbrev pub last_error : Option Text → Text
last_error none = bytes "connection failed"
last_error (some host) = bytes "connection failed for " ++ host

-- The loop of serveConnect over the candidates; `last` is the host of the last one that failed.
unfoldable pub try_each : World → Form → Option Text → List Entry → FormReply
try_each world form last [] =
    quiet_reply form (connect_answer false (bytes "Connection failed: " ++ last_error last))
try_each world form last (candidate ∷ rest) =
    let later = try_each world form (some candidate.host) rest in
    let saved = saved_reply world form candidate in
    let (connected, events) = try_connect world candidate in
    let reply = if connected then saved else later in
    record { response = reply.response; form = reply.form; events = events ++ reply.events }

-- http.MaxBytesReader with the limit of the form
unfoldable pub connect_reader : Text → Stream
connect_reader body = record { readable = take 2048 body; cut = ltb 2048 (length body) }

-- The entry of a payload, with the defaults of its port and its SSL mode.
unfoldable pub connect_entry : Entry → Entry
connect_entry payload = record {
  host = payload.host;
  port =
      if leb_ℤ payload.port (pos 0) || ltb_ℤ (pos 65535) payload.port
      then pos 5432
      else payload.port;
  user = payload.user;
  password = payload.password;
  db_name = payload.db_name;
  ssl_mode = or_default (bytes "disable") payload.ssl_mode;
}

-- The checks of serveConnect, up to the entry; the payload is decoded once.
unfoldable pub connect_payload : World → Platform → HttpRequest → Result Response Entry
connect_payload world p r =
    if not (text_eq r.method post)
    then err (
        set_header allow_header post
          (write_error 405 (bytes "METHOD_NOT_ALLOWED") (bytes "Use POST.")))
    else if not (same_origin p r)
    then err
        (write_error 403 (bytes "ORIGIN_REJECTED") (bytes "The request origin is not allowed."))
    else elim (world.decode_connect (connect_reader r.body)) [
      | none ↦ err (write_error 400 (bytes "INVALID_REQUEST") (bytes "Invalid request body."))
      | some (payload, rest) ↦
          if is_nil payload.host || is_nil payload.user || is_nil payload.db_name
          then err (
              write_error 400 (bytes "INVALID_REQUEST")
                (bytes "Host, user, and dbname are required."))
          else ok (connect_entry payload)
    ]

-- serveConnect
unfoldable pub serve_connect : World → Platform → Form → HttpRequest → FormReply
serve_connect world p form r = elim (connect_payload world p r) [
  | err response ↦ quiet_reply form response
  | ok entry ↦ try_each world form none (connection_candidates world.system entry)
]
