-- ===== src/HttpApi/Accounts.antt =====
-- internal/httpapi/selflookup.go, auth.go: the handlers that need no session.
pub mod Answers
use usage_viewer.Prelude.{
  Result, true, not, ◌||◌, List, [], ◌∷◌, Option, none, some, ok, err, Text, bytes, text_eq, ℤ, pos,
  if◌then◌else◌,
}
use usage_viewer.Diagnostics.{GoError}
use usage_viewer.Search.Results.{DailyUsagePoint, SelfResult}
use usage_viewer.HttpApi.Sessions.{Store, create, revoke}
use usage_viewer.HttpApi.Messages.{
  HttpRequest, Platform, Response, Content, SetCookie, write_json, write_error, write_header,
  set_header, same_origin, post_json, get, post, allow_header, content_type_header, remember,
  forget,
}
use usage_viewer.HttpApi.Handlers.{
  Services, Call, called_daily_usage, called_self_lookup, Account, Moment, Reply, answer,
  is_authenticated, self_labels, login_labels, self_lookup_unavailable,
}

-- selfLookupDailyUsageDays
abbrev pub self_lookup_days : ℤ
self_lookup_days = pos 30

unfoldable pub with_daily_usage : List DailyUsagePoint → SelfResult → SelfResult
with_daily_usage points s = record {
  key_masked = s.key_masked;
  name = s.name;
  group_name = s.group_name;
  quota = s.quota;
  quota_used = s.quota_used;
  status = s.status;
  expires_at = s.expires_at;
  today_cost = s.today_cost;
  daily_usage = points;
}

-- The chart of a key: empty where its service is absent or fails.
unfoldable pub attach_daily_usage :
    Option (ℤ → ℤ → Option (List DailyUsagePoint)) → SelfResult → ℤ → SelfResult × List Call
attach_daily_usage none result id = (with_daily_usage [] result, [])
attach_daily_usage (some usage) result id = elim (usage id self_lookup_days) [
  | none ↦ (with_daily_usage [] result, called_daily_usage id self_lookup_days ∷ [])
  | some points ↦ (with_daily_usage points result, called_daily_usage id self_lookup_days ∷ [])
]

-- `serveSelfLookup` behind the decoding
unfoldable pub run_self_lookup :
    Option (Text → Result GoError (Option (SelfResult × ℤ)))
    → Option (ℤ → ℤ → Option (List DailyUsagePoint))
    → Text
    → Store
    → Reply
run_self_lookup none usage credential store = answer self_lookup_unavailable [] store
run_self_lookup (some lookup) usage credential store = elim (lookup credential) [
  | err e ↦ answer self_lookup_unavailable (called_self_lookup credential ∷ []) store
  | ok none ↦
      answer (write_error 404 (bytes "NOT_FOUND") (bytes "No key matched the provided credential."))
        (called_self_lookup credential ∷ []) store
  | ok (some (result, id)) ↦
      let attached = attach_daily_usage usage result id in
      answer (write_json 200 (Content.self_result attached.0))
        (called_self_lookup credential ∷ attached.1) store
]

-- serveSelfLookup
unfoldable pub serve_self_lookup : Platform → Services → HttpRequest → Store → Reply
serve_self_lookup p services r store = elim (post_json p p.decode_self_lookup self_labels r) [
  | err response ↦ answer response [] store
  | ok credential ↦ run_self_lookup services.self_lookup services.daily_usage credential store
]

-- http.SetCookie before the response is written
unfoldable pub set_cookie : SetCookie → Response → Response
set_cookie cookie r = record {
  status = r.status;
  headers = r.headers;
  cookies = some cookie;
  content = r.content;
}

abbrev pub ok_flag : Response
ok_flag = write_json 200 (Content.flag (bytes "ok") true)

-- serveLogin
unfoldable pub serve_login : Platform → Account → Moment → HttpRequest → Store → Reply
serve_login p account moment r store = elim (post_json p p.decode_login login_labels r) [
  | err response ↦ answer response [] store
  | ok payload ↦
      if not (text_eq payload.username account.username)
        || not (text_eq payload.password account.password)
      then answer
          (write_error 401 (bytes "INVALID_CREDENTIALS")
            (bytes "Username or password is incorrect."))
          [] store
      else let (created, kept) = create moment.random moment.now store in
        elim created [
          | none ↦
              answer
                (write_error 503 (bytes "LOGIN_UNAVAILABLE")
                  (bytes "Login is temporarily unavailable."))
                [] kept
          | some token ↦ answer (set_cookie (remember token) ok_flag) [] kept
        ]
]

abbrev pub method_refused : Text → Text → Response
method_refused allowed message =
    set_header allow_header allowed (write_error 405 (bytes "METHOD_NOT_ALLOWED") message)

-- serveLogout
unfoldable pub serve_logout : Platform → HttpRequest → Store → Reply
serve_logout p r store =
    if not (text_eq r.method post)
    then answer (method_refused post (bytes "Use POST for logout requests.")) [] store
    else if not (same_origin p r)
    then answer
        (write_error 403 (bytes "ORIGIN_REJECTED") (bytes "The request origin is not allowed.")) []
        store
    else elim r.cookie [
      | none ↦ answer (set_cookie forget ok_flag) [] store
      | some token ↦ answer (set_cookie forget ok_flag) [] (revoke token store)
    ]

-- serveAuthStatus
unfoldable pub serve_auth_status : Moment → HttpRequest → Store → Reply
serve_auth_status moment r store =
    if not (text_eq r.method get)
    then answer (method_refused get (bytes "Use GET for auth status requests.")) [] store
    else let (b, kept) = is_authenticated r moment.now store in
      answer (write_json 200 (Content.flag (bytes "authenticated") b)) [] kept

-- serveHealth
unfoldable pub serve_health : HttpRequest → Store → Reply
serve_health r store =
    if not (text_eq r.method get)
    then answer (set_header allow_header get (write_header 405)) [] store
    else answer
        (record {
          status = 200;
          headers =
              (content_type_header, bytes "application/json")
              ∷ (bytes "Cache-Control", bytes "no-store")
              ∷ [];
          cookies = none;
          content = Content.raw_json (bytes "{\"status\":\"ok\"}");
        })
        [] store
