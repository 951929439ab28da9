-- ===== src/HttpApi/Credentials/Serving.antt =====
-- internal/httpapi/credential.go: the status, the pages and the routes of the form.
use usage_viewer.Prelude.{
  Bool, true, false, not, ◌||◌, [], ◌++◌, Option, none, some, Text, bytes, text_eq, pos, is_nil,
  if◌then◌else◌,
}
use usage_viewer.Creds.{Entry, load_saved, parse_database_url}
use usage_viewer.Web.{asset_content_type}
use usage_viewer.HttpApi.Messages.{
  HttpRequest, Platform, Content, CredsStatus, write_json, write_error, write_header, set_header,
  get, allow_header,
}
use usage_viewer.HttpApi.Router.{redirect, not_found, send_asset, security_headers}
use usage_viewer.HttpApi.Credentials.{Form, World, FormReply, quiet_reply, serve_connect}

-- The fields of an entry that the status shows, all but the password.
unfoldable pub status_of : Bool → Text → Entry → CredsStatus
status_of saved source e = record {
  has_saved_creds = saved;
  source = source;
  host = e.host;
  port = e.port;
  user = e.user;
  db_name = e.db_name;
  ssl_mode = e.ssl_mode;
}

abbrev no_entry : Entry
no_entry = record { host = []; port = pos 0; user = []; password = []; db_name = []; ssl_mode = [] }

-- The status: of the saved entry, else of the database URL, else without an entry.
unfoldable pub creds_status_of : World → Form → CredsStatus
creds_status_of world form = elim (load_saved world.system form.data_dir) [
  | some e ↦ status_of true form.credential_source e
  | none ↦
      if is_nil form.database_url
      then status_of false form.credential_source no_entry
      else elim (parse_database_url world.system form.database_url) [
        | some e ↦ status_of false form.credential_source e
        | none ↦ status_of false form.credential_source no_entry
      ]
]

-- serveCredsStatus
unfoldable pub serve_creds_status : World → Form → HttpRequest → FormReply
serve_creds_status world form r =
    if not (text_eq r.method get)
    then quiet_reply form (
        set_header allow_header get
          (write_error 405 (bytes "METHOD_NOT_ALLOWED") (bytes "Use GET.")))
    else quiet_reply form (write_json 200 (Content.creds_status (creds_status_of world form)))

-- The file of a path of the form
unfoldable pub form_asset_name : Text → Option Text
form_asset_name path =
    if text_eq path (bytes "/") || text_eq path (bytes "/credentials.html")
    then some (bytes "credentials.html")
    else if text_eq path (bytes "/credentials.css")
    then some (bytes "credentials.css")
    else if text_eq path (bytes "/credentials.js")
    then some (bytes "credentials.js")
    else none

-- serveCredentialAsset; a root without its page falls back to index.html.
unfoldable pub serve_credential_asset : Form → HttpRequest → FormReply
serve_credential_asset form r = elim (form_asset_name r.path) [
  | none ↦ quiet_reply form not_found
  | some name ↦
      if not (text_eq r.method get)
      then quiet_reply form (set_header allow_header get (write_header 405))
      else elim (asset_content_type name) [
        | some type ↦ quiet_reply form (send_asset name)
        | none ↦
            if text_eq r.path (bytes "/")
            then quiet_reply form (send_asset (bytes "index.html"))
            else quiet_reply form not_found
      ]
]

-- The mux of NewCredentialHandler
unfoldable pub route_form : World → Platform → Form → HttpRequest → FormReply
route_form world p form r = elim (p.mux_redirect r) [
  | some location ↦ quiet_reply form (redirect 301 location)
  | none ↦
      if text_eq r.path (bytes "/api/connect")
      then serve_connect world p form r
      else if text_eq r.path (bytes "/api/creds/status")
      then serve_creds_status world form r
      else serve_credential_asset form r
]

-- NewCredentialHandler: the mux behind the security headers.
unfoldable pub serve_form : World → Platform → Form → HttpRequest → FormReply
serve_form world p form r =
    let reply = route_form world p form r in
    record {
      response = record {
        status = reply.response.status;
        headers = security_headers ++ reply.response.headers;
        cookies = reply.response.cookies;
        content = reply.response.content;
      };
      form = reply.form;
      events = reply.events;
    }
