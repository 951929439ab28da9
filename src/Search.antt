-- ===== src/Search.antt =====
-- internal/search: the validation of search requests, of day counts, of leaderboard limits and of
-- self-lookup credentials, and the masking of keys. A Go string is its bytes; an `int` is an
-- integer, and the bounds say what fits 64 bits.
pub mod Queries
pub mod Reports
pub mod Masking
pub mod Results
use usage_viewer.Prelude.{
  ℕ, suc, ◌+◌, ◌-◌, ◌*◌, ◌/◌, Bool, true, false, not, ◌&&◌, ◌||◌, List, [], ◌∷◌, ◌++◌, Result, ok,
  err, Text, bytes, text_eq, trim_space, valid_utf8, rune_count, ℤ, pos, negsuc, ltb_ℤ, eqb_ℤ,
  max_int64, ltb, leb, ◌==◌, is_nil, length, take, drop, if◌then◌else◌,
}

-- MinimumTextRunes, MaximumTextRunes and PageSize
abbrev pub minimum_text_runes : ℕ
minimum_text_runes = 2

abbrev pub maximum_text_runes : ℕ
maximum_text_runes = 100

abbrev pub page_size : ℕ
page_size = 20

-- The sentinel errors of search.go.
pub data SearchError : Type 0 where
  unsupported_target invalid_text text_too_short text_too_long : SearchError
  invalid_page invalid_sort_by invalid_sort_order : SearchError

abbrev pub target_key : Text
target_key = bytes "key"

abbrev pub sort_by_id : Text
sort_by_id = bytes "id"

abbrev pub sort_by_today_cost : Text
sort_by_today_cost = bytes "todayCost"

abbrev pub sort_by_total30d_cost : Text
sort_by_total30d_cost = bytes "total30dCost"

abbrev pub ascending : Text
ascending = bytes "asc"

abbrev pub descending : Text
descending = bytes "desc"

-- QueryModeText and QueryModeBrowse
abbrev pub mode_text : ℕ
mode_text = 1

abbrev pub mode_browse : ℕ
mode_browse = 2

pub record Request : Type 0 where
  pub target_type : Text
  pub query : Text
  pub page : ℤ
  pub sort_by : Text
  pub sort_direction : Text

pub record Query : Type 0 where
  pub target_type : Text
  pub mode : ℕ
  pub text : Text
  pub page : ℤ
  pub sort_by : Text
  pub sort_direction : Text

-- maximumPage
abbrev pub maximum_page : ℕ
maximum_page = max_int64 / page_size + 1

unfoldable pub page_in_range : ℤ → Bool
page_in_range page = not (ltb_ℤ page (pos 1) || ltb_ℤ (pos maximum_page) page)

unfoldable pub known_sort_by : Text → Bool
known_sort_by s =
    text_eq s sort_by_id || text_eq s sort_by_today_cost || text_eq s sort_by_total30d_cost

unfoldable pub known_direction : Text → Bool
known_direction s = text_eq s ascending || text_eq s descending

unfoldable pub default_page : ℤ → ℤ
default_page page = if eqb_ℤ page (pos 0) then pos 1 else page

unfoldable pub default_sort_by : Text → Text
default_sort_by s = if is_nil s then sort_by_id else s

unfoldable pub default_direction : Text → Text
default_direction s = if is_nil s then descending else s

-- The part of `Validate` behind the sort direction: the text decides the mode.
unfoldable pub validate_text : Text → ℤ → Text → Text → Result SearchError Query
validate_text value page sort_by direction =
    if is_nil value
    then ok (record {
      target_type = target_key;
      mode = mode_browse;
      text = [];
      page = page;
      sort_by = sort_by;
      sort_direction = direction;
    })
    else if not (valid_utf8 value)
    then err invalid_text
    else if ltb (rune_count value) minimum_text_runes
    then err text_too_short
    else if ltb maximum_text_runes (rune_count value)
    then err text_too_long
    else ok (record {
      target_type = target_key;
      mode = mode_text;
      text = value;
      page = page;
      sort_by = sort_by;
      sort_direction = direction;
    })

-- Validate
unfoldable pub validate : Request → Result SearchError Query
validate r =
    if not (text_eq r.target_type target_key)
    then err unsupported_target
    else if not (page_in_range (default_page r.page))
    then err invalid_page
    else if not (known_sort_by (default_sort_by r.sort_by))
    then err invalid_sort_by
    else if not (known_direction (default_direction r.sort_direction))
    then err invalid_sort_order
    else validate_text (trim_space r.query) (default_page r.page) (default_sort_by r.sort_by)
        (default_direction r.sort_direction)

-- validBoundedText
unfoldable pub valid_bounded_text : Text → Bool
valid_bounded_text value =
    if not (text_eq value (trim_space value)) || not (valid_utf8 value)
    then false
    else leb minimum_text_runes (rune_count value) && leb (rune_count value) maximum_text_runes

-- The switch of `Query.Valid` on the mode.
unfoldable pub valid_mode : Query → Bool
valid_mode q =
    if q.mode == mode_browse
    then is_nil q.text
    else if q.mode == mode_text
    then valid_bounded_text q.text
    else false

-- Query.Valid
unfoldable pub is_valid : Query → Bool
is_valid q =
    if not (text_eq q.target_type target_key)
      || not (page_in_range q.page)
      || not (known_sort_by q.sort_by)
      || not (known_direction q.sort_direction)
    then false
    else valid_mode q

pub data ReportError : Type 0 where
  invalid_days invalid_limit invalid_credential : ReportError

-- ValidateDays
unfoldable pub validate_days : ℤ → Result ReportError ℤ
validate_days days = if ltb_ℤ days (pos 1) || ltb_ℤ (pos 90) days then err invalid_days else ok days

-- ValidateLimit
unfoldable pub validate_limit : ℤ → Result ReportError ℤ
validate_limit limit =
    if eqb_ℤ limit (pos 0)
    then ok (pos 10)
    else if not (eqb_ℤ limit (pos 10) || eqb_ℤ limit (pos 20) || eqb_ℤ limit (pos 50))
    then err invalid_limit
    else ok limit

-- ValidateCredential
unfoldable pub validate_credential : Text → Result ReportError Text
validate_credential input =
    let value = trim_space input in
    if not (valid_utf8 value)
    then err invalid_credential
    else if ltb (rune_count value) minimum_text_runes || ltb maximum_text_runes (rune_count value)
    then err invalid_credential
    else ok value

-- LeaderboardWindow, whose values are texts.
abbrev pub Window : Type 0
Window = Text

abbrev pub window_1_day : Window
window_1_day = bytes "1d"

abbrev pub window_3_day : Window
window_3_day = bytes "3d"

abbrev pub window_7_day : Window
window_7_day = bytes "7d"

abbrev pub window_30_day : Window
window_30_day = bytes "30d"

-- AllLeaderboardWindows
abbrev pub all_windows : List Window
all_windows = window_1_day ∷ window_3_day ∷ window_7_day ∷ window_30_day ∷ []

-- WindowDays
unfoldable pub window_days : Window → ℕ
window_days w =
    if text_eq w window_1_day
    then 1
    else if text_eq w window_3_day
    then 3
    else if text_eq w window_7_day
    then 7
    else if text_eq w window_30_day
    then 30
    else 0

-- MaskKey
unfoldable pub mask_key : Text → Text
mask_key key =
    if leb (length key) 12
    then bytes "***"
    else take 6 key ++ bytes "***" ++ drop (length key - 6) key
