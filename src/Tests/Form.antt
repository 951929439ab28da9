-- ===== src/Tests/Form.antt =====
-- internal/httpapi/credential.go and internal/app: the form, and the start of the program after it, at concrete
-- answers.
use mathlib.Core.Path.{subst}
use usage_viewer.Prelude.{
  valid_utf8, Bool, ◌&&◌, eqb_ℤ, eqb_ℤ→eq, text_eq→eq, ap, sym, ◌≡◌, refl, true, false, [], ◌++◌,
  none, some, ok, err, Text, bytes, text_eq, trim_space, Bool-cases, inl, inr, pos, arith,
  if◌then◌else◌,
}
use usage_viewer.Creds.{Entry, System, load_saved, or_default}
use usage_viewer.Creds.DotEnv.{connection_candidates, is_service_name, dsn}
use usage_viewer.Creds.Saving.{Storable, IsUtf8, Disk, save, after_writing}
use usage_viewer.HttpApi.Messages.{Stream, HttpRequest, Platform, Content, same_origin, post}
use usage_viewer.HttpApi.Credentials.{
  Form, World, light_pool, connect_payload, connect_entry, connect_reader, try_connect,
  serve_connect,
}
use usage_viewer.HttpApi.Credentials.Serving.{serve_form}
use usage_viewer.HttpApi.Credentials.Connecting.{First, serve_connect_iff}
use usage_viewer.HttpApi.Credentials.Storing.{
  settled, written_by, serve_form-settled, serve_connect-stores,
}
use usage_viewer.App.Connecting.{Reachable}
use usage_viewer.App.Lifecycle.{run_application}
use usage_viewer.App.Lifecycle.Starting.{Starts, serves_with_pool, serve_connect-serves}
use usage_viewer.Tests.Program.{stopped_host, welcoming, welcoming-Reachable}

abbrev local_entry : Entry
local_entry = record {
  host = bytes "127.0.0.1";
  port = pos 5432;
  user = bytes "viewer";
  password = bytes "secret";
  db_name = bytes "sub2api";
  ssl_mode = bytes "disable";
}

abbrev same_entry : Entry → Entry → Bool
same_entry a b =
    text_eq a.host b.host
    && eqb_ℤ a.port b.port
    && text_eq a.user b.user
    && text_eq a.password b.password
    && text_eq a.db_name b.db_name
    && text_eq a.ssl_mode b.ssl_mode

same_entry→eq : (a b : Entry) → same_entry a b ≡ true → a ≡ b
same_entry→eq a b h = ground (
  arith,
  text_eq→eq a.host b.host,
  eqb_ℤ→eq a.port b.port,
  text_eq→eq a.user b.user,
  text_eq→eq a.password b.password,
  text_eq→eq a.db_name b.db_name,
  text_eq→eq a.ssl_mode b.ssl_mode,
)

abbrev machine : System
machine = record {
  lookup_env = λ name. none;
  read_file = λ path. none;
  join = λ a b. a ++ bytes "/" ++ b;
  parse_url = λ url. none;
  is_ip = λ host. true;
  to_lower = λ t. t;
  decode_yaml = λ t. none;
  decode_json = λ t. some local_entry;
}

abbrev disk : Disk
disk = record {
  mkdir_all = λ dir. none;
  marshal = λ e. if same_entry e local_entry then ok (bytes "{}") else err (bytes "unexpected");
  write_file = λ path content. none;
}

-- A database that accepts every connection.
abbrev reachable : World
reachable = record {
  system = machine;
  disk = disk;
  open_light_pool = λ url. light_pool;
  light_preflight_fails = λ url. false;
  decode_connect = λ s. some (local_entry, []);
}

abbrev empty_form : Form
empty_form = record { data_dir = bytes "data"; credential_source = []; database_url = [] }

abbrev pub plain_platform : Platform
plain_platform = record {
  parse_url = λ t. none;
  parse_media_type = λ t. some t;
  equal_fold = text_eq;
  mux_redirect = λ r. none;
  decode_search = λ s. none;
  decode_daily_usage = λ s. none;
  decode_leaderboard = λ s. some (pos 10, []);
  decode_self_lookup = λ s. some (s.readable, []);
  decode_login = λ s. none;
}

abbrev connect_request : HttpRequest
connect_request = record {
  method = post;
  path = bytes "/api/connect";
  host = bytes "viewer";
  origin = [];
  tls = false;
  forwarded_proto = [];
  content_type = bytes "application/json";
  cookie = none;
  body = bytes "{}";
}

serve_form-settled_example :
    settled (serve_form reachable plain_platform empty_form connect_request).events ≡ true
serve_form-settled_example = serve_form-settled reachable empty_form plain_platform connect_request

connect_request_payload : connect_payload reachable plain_platform connect_request ≡ ok local_entry
unfolding connect_payload connect_entry connect_reader same_origin or_default text_eq trim_space
connect_request_payload = refl

local_entry-First : First reachable (connection_candidates machine local_entry) local_entry
unfolding connection_candidates is_service_name try_connect text_eq trim_space
local_entry-First = record {
  before = [];
  after = [];
  among = refl;
  fail = tt;
  connects = (refl, refl);
}

local_saved : (save machine disk (bytes "data") local_entry).0 ≡ none
unfolding save text_eq
local_saved = refl

serve_connect_iff_example :
    (serve_connect reachable plain_platform empty_form connect_request).response.content
    ≡ Content.connect_result true (bytes "Connected and saved.")
serve_connect_iff_example =
    (serve_connect_iff reachable empty_form plain_platform connect_request
        (bytes "Connected and saved.")).1
      (local_entry, local_entry, connect_request_payload, local_entry-First, local_saved, refl)

disk_reads :
    (e : Entry) (content : Text)
    → Storable e
    → IsUtf8 e
    → disk.marshal e ≡ ok content
    → machine.decode_json content ≡ some e
disk_reads e content s u h = elim (Bool-cases (same_entry e local_entry)) [
  | inl same ↦ ap some (sym (same_entry→eq e local_entry same))
  | inr other ↦ absurd (ground arith)
]

local_entry-IsUtf8 : IsUtf8 local_entry
unfolding valid_utf8
local_entry-IsUtf8 = (refl, refl, refl, refl, refl)

reachable_decoded :
    (s : Stream) (payload : Entry) (rest : Text)
    → reachable.decode_connect s ≡ some (payload, rest)
    → IsUtf8 payload
reachable_decoded s payload rest h =
    let same : local_entry ≡ payload = ground arith in subst IsUtf8 same local_entry-IsUtf8

serve_connect-stores_example :
    let reply = serve_connect reachable plain_platform empty_form connect_request in
    (e : Entry) × ((try_connect reachable e).0 ≡ true)
    × (reply.form.database_url ≡ dsn e)
    × (load_saved (after_writing (written_by reply.events) machine) (bytes "data") ≡ some e)
serve_connect-stores_example =
    serve_connect-stores reachable empty_form plain_platform connect_request
      (bytes "Connected and saved.") reachable_decoded disk_reads serve_connect_iff_example

-- Whatever the form could connect to is reached.
machine-Reachable : (e : Entry) → (try_connect reachable e).0 ≡ true → Reachable welcoming (dsn e)
machine-Reachable e h = welcoming-Reachable (dsn e)

stopped_host-Starts : Starts stopped_host
stopped_host-Starts = record {
  available = refl;
  goes_on = refl;
  goes_on_after = refl;
  has_handler = refl;
  listens = refl;
}

serve_connect-serves_example :
    let files =
      written_by (serve_connect reachable plain_platform empty_form connect_request).events in
    serves_with_pool
      (run_application
        (after_writing files machine)
        welcoming
        stopped_host
        []
        (bytes "data")
        none).actions
    ≡ true
serve_connect-serves_example =
    serve_connect-serves reachable empty_form plain_platform connect_request
      (bytes "Connected and saved.") welcoming stopped_host none reachable_decoded disk_reads
      machine-Reachable stopped_host-Starts serve_connect_iff_example
