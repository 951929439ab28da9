-- ===== src/HttpApi/Handlers.antt =====
-- internal/httpapi: the handlers. A request is served against the session store, at a time, with the
-- random bytes that it may draw; the services' answers to the request are functions, the calls of
-- them are recorded.
use usage_viewer.Prelude.{
  Result, ℕ, Bool, false, not, List, [], ◌∷◌, Option, none, some, ok, err, Text, bytes, trim_space,
  ℤ, pos, ltb_ℤ, leb_ℤ, is_nil, if◌then◌else◌,
}
use usage_viewer.Diagnostics.{GoError}
use usage_viewer.Search.{
  Request, Query, Window, validate, validate_days, validate_limit, page_size, target_key,
}
use usage_viewer.Search.Results.{Results, DailyUsagePoint, LeaderboardEntry, SelfResult}
use usage_viewer.HttpApi.Sessions.{Store, valid}
use usage_viewer.HttpApi.Messages.{
  HttpRequest, Platform, Labels, Response, Content, SearchPayload, write_json, write_error,
  post_json,
}

-- The services: nil, or a function; `none` in a result stands for any error.
pub record Services : Type 0 where
  pub search : Option (Query → Option Results)
  pub daily_usage : Option (ℤ → ℤ → Option (List DailyUsagePoint))
  pub leaderboard : Option (ℤ → Option (List (Window × List LeaderboardEntry)))
  pub self_lookup : Option (Text → Result GoError (Option (SelfResult × ℤ)))

pub data Call : Type 0 where
  called_search : Query → Call
  called_daily_usage : (key days : ℤ) → Call
  called_leaderboard : ℤ → Call
  called_self_lookup : Text → Call

-- The account of ConfigureAuth
pub record Account : Type 0 where
  pub username : Text
  pub password : Text

abbrev pub default_account : Account
default_account = record { username = bytes "admin"; password = bytes "usage-viewer-2026" }

-- ConfigureAuth
unfoldable pub configure_auth : Text → Text → Account → Account
configure_auth username password a = record {
  username = if not (is_nil (trim_space username)) then username else a.username;
  password = if not (is_nil password) then password else a.password;
}

-- What the process draws from outside while it serves a request.
pub record Moment : Type 0 where
  pub now : ℕ
  pub random : Option Text

pub record Reply : Type 0 where
  pub response : Response
  pub store : Store
  pub calls : List Call

-- A reply that leaves the sessions alone.
abbrev pub answer : Response → List Call → Store → Reply
answer response calls store = record { response = response; store = store; calls = calls }

-- isAuthenticated
unfoldable pub is_authenticated : HttpRequest → ℕ → Store → Bool × Store
is_authenticated r now store = elim r.cookie [
  | none ↦ (false, store)
  | some token ↦ valid token now store
]

abbrev pub search_labels : Labels
search_labels = record {
  use_post = bytes "Use POST for search requests.";
  use_json = bytes "Use application/json for search requests.";
  invalid = bytes "The search request is invalid.";
}

abbrev pub daily_labels : Labels
daily_labels = record {
  use_post = bytes "Use POST for daily usage requests.";
  use_json = bytes "Use application/json for daily usage requests.";
  invalid = bytes "The request is invalid.";
}

abbrev pub leaderboard_labels : Labels
leaderboard_labels = record {
  use_post = bytes "Use POST for leaderboard requests.";
  use_json = bytes "Use application/json for leaderboard requests.";
  invalid = bytes "The request is invalid.";
}

abbrev pub self_labels : Labels
self_labels = record {
  use_post = bytes "Use POST for self-lookup requests.";
  use_json = bytes "Use application/json for self-lookup requests.";
  invalid = bytes "The request is invalid.";
}

abbrev pub login_labels : Labels
login_labels = record {
  use_post = bytes "Use POST for login requests.";
  use_json = bytes "Use application/json for login requests.";
  invalid = bytes "The login request is invalid.";
}

abbrev pub invalid_search : Response
invalid_search = write_error 400 (bytes "INVALID_SEARCH") (bytes "The search criteria are invalid.")

abbrev pub search_unavailable : Response
search_unavailable =
    write_error 503 (bytes "SEARCH_UNAVAILABLE") (bytes "Search is temporarily unavailable.")

abbrev pub daily_usage_unavailable : Response
daily_usage_unavailable =
    write_error 503 (bytes "DAILY_USAGE_UNAVAILABLE")
      (bytes "Daily usage is temporarily unavailable.")

abbrev pub leaderboard_unavailable : Response
leaderboard_unavailable =
    write_error 503 (bytes "LEADERBOARD_UNAVAILABLE")
      (bytes "Leaderboard is temporarily unavailable.")

abbrev pub self_lookup_unavailable : Response
self_lookup_unavailable =
    write_error 503 (bytes "SELF_LOOKUP_UNAVAILABLE")
      (bytes "Self-lookup is temporarily unavailable.")

abbrev pub or_else : Option Text → Text
or_else none = []
or_else (some t) = t

-- The request for the search that the payload describes; absent fields keep Go's zero values.
unfoldable pub search_request : SearchPayload → Request
search_request payload = record {
  target_type = payload.target_type;
  query = payload.query;
  page = elim payload.page [ none ↦ pos 0 | some page ↦ page ];
  sort_by = or_else payload.sort_by;
  sort_direction = or_else payload.sort_direction;
}

-- Whether a page is given and below 1.
unfoldable pub page_refused : SearchPayload → Bool
page_refused payload = elim payload.page [ none ↦ false | some page ↦ ltb_ℤ page (pos 1) ]

-- `serveSearch` behind the validation
unfoldable pub run_search : Option (Query → Option Results) → Query → Store → Reply
run_search none query store = answer search_unavailable [] store
run_search (some search) query store = elim (search query) [
  | none ↦ answer search_unavailable (called_search query ∷ []) store
  | some results ↦
      answer
        (write_json 200
          (Content.key_results target_key results.keys query.page (pos page_size) results.total))
        (called_search query ∷ []) store
]

-- serveSearch
unfoldable pub serve_search : Platform → Services → HttpRequest → Store → Reply
serve_search p services r store = elim (post_json p p.decode_search search_labels r) [
  | err response ↦ answer response [] store
  | ok payload ↦
      if page_refused payload
      then answer invalid_search [] store
      else elim (validate (search_request payload)) [
        | err e ↦ answer invalid_search [] store
        | ok query ↦ run_search services.search query store
      ]
]

-- `serveDailyUsage` behind the checks
unfoldable pub run_daily_usage :
    Option (ℤ → ℤ → Option (List DailyUsagePoint)) → ℤ → ℤ → Store → Reply
run_daily_usage none key days store = answer daily_usage_unavailable [] store
run_daily_usage (some usage) key days store = elim (usage key days) [
  | none ↦ answer daily_usage_unavailable (called_daily_usage key days ∷ []) store
  | some items ↦
      answer (write_json 200 (Content.daily_usage items days)) (called_daily_usage key days ∷ [])
        store
]

-- serveDailyUsage
unfoldable pub serve_daily_usage : Platform → Services → HttpRequest → Store → Reply
serve_daily_usage p services r store = elim (post_json p p.decode_daily_usage daily_labels r) [
  | err response ↦ answer response [] store
  | ok payload ↦
      if leb_ℤ payload.key_id (pos 0)
      then answer
          (write_error 400 (bytes "INVALID_REQUEST") (bytes "A positive keyId is required.")) []
          store
      else elim (validate_days payload.days) [
        | err e ↦
            answer (write_error 400 (bytes "INVALID_DAYS") (bytes "Days must be between 1 and 90."))
              [] store
        | ok days ↦ run_daily_usage services.daily_usage payload.key_id days store
      ]
]

-- `serveLeaderboard` behind the checks
unfoldable pub run_leaderboard :
    Option (ℤ → Option (List (Window × List LeaderboardEntry))) → ℤ → Store → Reply
run_leaderboard none limit store = answer leaderboard_unavailable [] store
run_leaderboard (some top) limit store = elim (top limit) [
  | none ↦ answer leaderboard_unavailable (called_leaderboard limit ∷ []) store
  | some windows ↦
      answer (write_json 200 (Content.leaderboard limit windows)) (called_leaderboard limit ∷ [])
        store
]

-- serveLeaderboard
unfoldable pub serve_leaderboard : Platform → Services → HttpRequest → Store → Reply
serve_leaderboard p services r store =
    elim (post_json p p.decode_leaderboard leaderboard_labels r) [
      | err response ↦ answer response [] store
      | ok requested ↦ elim (validate_limit requested) [
        | err e ↦
            answer (write_error 400 (bytes "INVALID_LIMIT") (bytes "Limit must be 10, 20, or 50."))
              [] store
        | ok limit ↦ run_leaderboard services.leaderboard limit store
      ]
    ]
