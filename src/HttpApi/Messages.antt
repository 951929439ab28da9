-- ===== src/HttpApi/Messages.antt =====
-- internal/httpapi: requests and responses, and the guards that the JSON routes share, from
-- handler.go, daily.go, leaderboard.go, selflookup.go and auth.go, which each spell them out.
-- `url.Parse`, `mime.ParseMediaType`, `strings.EqualFold`, the redirects of `http.ServeMux` and the
-- JSON decoder are the fields of `Platform`.
pub mod Guards
use usage_viewer.Prelude.{
  ℕ, ltb, leb, ◌==◌, ◌/◌, ◌%◌, ◌+◌, Bool, true, false, not, ◌&&◌, ◌||◌, List, [], ◌∷◌, ◌++◌, Option,
  none, some, Result, ok, err, Text, bytes, text_eq, trim_space, ℤ, is_nil, length, take, all_of,
  if◌then◌else◌, ◌>>=◌,
}
use usage_viewer.Search.{Window}
use usage_viewer.Search.Results.{KeyResult, DailyUsagePoint, LeaderboardEntry, SelfResult}

-- The parts of an `http.Request` that the handlers read; an absent header is the empty text.
pub record HttpRequest : Type 0 where
  pub method : Text
  pub path : Text
  pub host : Text
  pub origin : Text
  pub tls : Bool
  pub forwarded_proto : Text
  pub content_type : Text
  pub cookie : Option Text
  pub body : Text

-- The parts of a `url.URL` that `sameOrigin` reads.
pub record Url : Type 0 where
  pub scheme : Text
  pub host : Text
  pub has_user : Bool
  pub raw_query : Text
  pub fragment : Text
  pub path : Text

-- What `http.MaxBytesReader` lets the decoder read, and whether it then fails.
pub record Stream : Type 0 where
  pub readable : Text
  pub cut : Bool

-- searchRequest
pub record SearchPayload : Type 0 where
  pub target_type : Text
  pub query : Text
  pub page : Option ℤ
  pub sort_by : Option Text
  pub sort_direction : Option Text

-- dailyUsageRequest
pub record DailyUsagePayload : Type 0 where
  pub key_id : ℤ
  pub days : ℤ

-- loginRequest
pub record LoginPayload : Type 0 where
  pub username : Text
  pub password : Text

-- A decoder of the payload `P`, which returns what it has not read, or fails.
abbrev pub Decoder : Type 0 → Type 0
Decoder P = Stream → Option (P × Text)

pub record Platform : Type 0 where
  pub parse_url : Text → Option Url
  pub parse_media_type : Text → Option Text
  pub equal_fold : Text → Text → Bool
  pub mux_redirect : HttpRequest → Option Text
  pub decode_search : Decoder SearchPayload
  pub decode_daily_usage : Decoder DailyUsagePayload
  pub decode_leaderboard : Decoder ℤ
  pub decode_self_lookup : Decoder Text
  pub decode_login : Decoder LoginPayload

-- credsStatusResponse
pub record CredsStatus : Type 0 where
  pub has_saved_creds : Bool
  pub source : Text
  pub host : Text
  pub port : ℤ
  pub user : Text
  pub db_name : Text
  pub ssl_mode : Text

-- What a handler writes as the body.
pub data Content : Type 0 where
  no_content : Content
  plain : Text → Content
  raw_json : Text → Content
  error_envelope : (code message : Text) → Content
  key_results : (target_type : Text) → List KeyResult → (page page_size total : ℤ) → Content
  daily_usage : List DailyUsagePoint → (days : ℤ) → Content
  leaderboard : (limit : ℤ) → List (Window × List LeaderboardEntry) → Content
  self_result : SelfResult → Content
  flag : (name : Text) → Bool → Content
  asset : (name : Text) → Content
  connect_result : (success : Bool) (message : Text) → Content
  creds_status : CredsStatus → Content

-- The session cookie that a handler sets: a token, or the order to forget it (MaxAge -1).
pub data SetCookie : Type 0 where
  remember : Text → SetCookie
  forget : SetCookie

-- A response; `headers` are the calls of `Header().Set` in their order.
pub record Response : Type 0 where
  pub status : ℕ
  pub headers : List (Text × Text)
  pub cookies : Option SetCookie
  pub content : Content

abbrev pub get : Text
get = bytes "GET"

abbrev pub post : Text
post = bytes "POST"

abbrev pub content_type_header : Text
content_type_header = bytes "Content-Type"

abbrev pub allow_header : Text
allow_header = bytes "Allow"

-- writeJSON
unfoldable pub write_json : ℕ → Content → Response
write_json status content = record {
  status = status;
  headers = (content_type_header, bytes "application/json") ∷ [];
  cookies = none;
  content = content;
}

-- writeError
unfoldable pub write_error : ℕ → Text → Text → Response
write_error status code message = write_json status (error_envelope code message)

-- Header().Set before the response is written
unfoldable pub set_header : Text → Text → Response → Response
set_header name value r = record {
  status = r.status;
  headers = (name, value) ∷ r.headers;
  cookies = r.cookies;
  content = r.content;
}

-- WriteHeader without a body
unfoldable pub write_header : ℕ → Response
write_header status = record { status = status; headers = []; cookies = none; content = no_content }

-- sameOrigin
unfoldable pub same_origin : Platform → HttpRequest → Bool
same_origin p r =
    let origin = trim_space r.origin in
    let expected_scheme =
      if is_nil r.forwarded_proto
      then (if r.tls then bytes "https" else bytes "http")
      else r.forwarded_proto in
    if is_nil origin then true else elim (p.parse_url origin) [
      | none ↦ false
      | some u ↦
          if u.has_user
            || not (is_nil u.raw_query)
            || not (is_nil u.fragment)
            || not (is_nil u.path) && not (text_eq u.path (bytes "/"))
          then false
          else p.equal_fold u.scheme expected_scheme && p.equal_fold u.host r.host
    ]

-- maximumSearchBodyBytes
abbrev pub maximum_search_body_bytes : ℕ
maximum_search_body_bytes = 1024

-- http.MaxBytesReader
unfoldable pub max_bytes_reader : Text → Stream
max_bytes_reader body = record {
  readable = take maximum_search_body_bytes body;
  cut = ltb maximum_search_body_bytes (length body);
}

abbrev pub json_space : ℕ → Bool
json_space c = c == 32 || c == 9 || c == 10 || c == 13

-- Whether the second `Decode` returns io.EOF: only white space is left, and the reader does not fail.
unfoldable pub at_eof : Stream → Text → Bool
at_eof s rest = not s.cut && all_of json_space rest

-- The texts in which the JSON routes differ.
pub record Labels : Type 0 where
  pub use_post : Text
  pub use_json : Text
  pub invalid : Text

-- The two calls of `Decode`, with the reader's limit before them.
unfoldable pub decode_body : {P : Type 0} → Decoder P → Labels → Text → Result Response P
decode_body decode labels body =
    let stream = max_bytes_reader body in
    elim (decode stream) [
      | none ↦ err (write_error 400 (bytes "INVALID_REQUEST") labels.invalid)
      | some (payload, rest) ↦
          if at_eof stream rest
          then ok payload
          else err (write_error 400 (bytes "INVALID_REQUEST") labels.invalid)
    ]

-- The method, the origin and the media type, then the body.
unfoldable pub post_json :
    {P : Type 0} → Platform → Decoder P → Labels → HttpRequest → Result Response P
post_json p decode labels r =
    let rejected_type = write_error 415 (bytes "CONTENT_TYPE_REQUIRED") labels.use_json in
    if not (text_eq r.method post)
    then err (
        set_header allow_header post (write_error 405 (bytes "METHOD_NOT_ALLOWED") labels.use_post))
    else if not (same_origin p r)
    then err
        (write_error 403 (bytes "ORIGIN_REJECTED") (bytes "The request origin is not allowed."))
    else elim (p.parse_media_type r.content_type) [
      | none ↦ err rejected_type
      | some media ↦
          if not (text_eq media (bytes "application/json"))
          then err rejected_type
          else decode_body decode labels r.body
    ]
