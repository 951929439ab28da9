-- ===== src/Search/Queries.antt =====
-- internal/search/search.go: `Validate` builds only queries that `Query.Valid` accepts, and all of
-- them.
use usage_viewer.Prelude.{
  ℕ, ◌-◌, ◌*◌, ◌≤◌, ◌≡◌, ◌≢◌, refl, true, false, [], ok, Text, text_eq, text_eq→eq, text_eq_refl,
  trim_space, trim_space_idem, trim_space-nil, valid_utf8, rune_count, rune_count-nil,
  rune_count_bounds, ℤ, pos, negsuc, max_int64, length, arith,
}
use usage_viewer.Search.{
  Request, Query, SearchError, validate, validate_text, is_valid, valid_mode, valid_bounded_text,
  page_in_range, known_sort_by, known_direction, default_page, default_sort_by, default_direction,
  target_key, page_size, unsupported_target, invalid_page, invalid_sort_by, invalid_sort_order,
  invalid_text, text_too_short, text_too_long,
}

-- What a validated query holds, field by field.
pub record Accepted (r : Request) (q : Query) : Type 0 where
  pub target : q.target_type ≡ target_key
  pub requested_target : r.target_type ≡ target_key
  pub page_is : q.page ≡ default_page r.page
  pub sort_by_is : q.sort_by ≡ default_sort_by r.sort_by
  pub direction_is : q.sort_direction ≡ default_direction r.sort_direction
  pub text_is : q.text ≡ trim_space r.query
  pub page_ok : page_in_range q.page ≡ true
  pub sort_by_ok : known_sort_by q.sort_by ≡ true
  pub direction_ok : known_direction q.sort_direction ≡ true
  pub mode_ok : valid_mode q ≡ true

validate_text-mode :
    (v : Text) (page : ℤ) (s d : Text) {q : Query}
    → trim_space v ≡ v
    → validate_text v page s d ≡ ok q
    → (valid_mode q ≡ true)
      × (q.text ≡ v)
      × (q.page ≡ page)
      × (q.sort_by ≡ s)
      × (q.sort_direction ≡ d)
      × (q.target_type ≡ target_key)
unfolding validate_text valid_mode valid_bounded_text
validate_text-mode v page s d e h = ground (arith, text_eq_refl v)

validate-Accepted : (r : Request) (q : Query) → validate r ≡ ok q → Accepted r q
unfolding validate
validate-Accepted r q h = ground (
  arith,
  text_eq→eq r.target_type target_key,
  validate_text-mode (trim_space r.query) (default_page r.page) (default_sort_by r.sort_by)
      (default_direction r.sort_direction) {q = q} (trim_space_idem r.query),
)

-- Every query that `Validate` returns passes `Valid`, and its fields are those of the request: the
-- page, the sort field and the direction with their defaults put in, and the trimmed text.
pub validate-is_valid :
    (r : Request) (q : Query)
    → validate r ≡ ok q
    → (is_valid q ≡ true)
      × (q.page ≡ default_page r.page)
      × (q.sort_by ≡ default_sort_by r.sort_by)
      × (q.sort_direction ≡ default_direction r.sort_direction)
      × (q.text ≡ trim_space r.query)
unfolding is_valid
validate-is_valid r q h =
    let a = validate-Accepted r q h in
    ground (
      arith,
      text_eq_refl target_key,
      a.target,
      a.page_is,
      a.sort_by_is,
      a.direction_is,
      a.text_is,
      a.page_ok,
      a.sort_by_ok,
      a.direction_ok,
      a.mode_ok,
    )

-- The request that asks for a query again.
abbrev pub request_of : Query → Request
request_of q = record {
  target_type = q.target_type;
  query = q.text;
  page = q.page;
  sort_by = q.sort_by;
  sort_direction = q.sort_direction;
}

default_page_keeps : (p : ℤ) → page_in_range p ≡ true → default_page p ≡ p
unfolding page_in_range default_page
default_page_keeps p h = ground arith

default_sort_by_keeps : (s : Text) → known_sort_by s ≡ true → default_sort_by s ≡ s
unfolding known_sort_by default_sort_by text_eq
default_sort_by_keeps s h = ground arith

default_direction_keeps : (s : Text) → known_direction s ≡ true → default_direction s ≡ s
unfolding known_direction default_direction text_eq
default_direction_keeps s h = ground arith

validate_text_keeps :
    (q : Query)
    → q.target_type ≡ target_key
    → valid_mode q ≡ true
    → validate_text (trim_space q.text) q.page q.sort_by q.sort_direction ≡ ok q
unfolding validate_text valid_mode valid_bounded_text
validate_text_keeps q e h =
    ground (arith, trim_space-nil, rune_count-nil, text_eq→eq q.text (trim_space q.text))

-- Conversely, a query that passes `Valid` is what `Validate` returns for the request with its
-- fields, so validating twice changes nothing and no valid query is out of reach.
validate-request_of : (q : Query) → is_valid q ≡ true → validate (request_of q) ≡ ok q
unfolding validate is_valid
validate-request_of q h = ground (
  arith,
  text_eq→eq q.target_type target_key,
  default_page_keeps q.page,
  default_sort_by_keeps q.sort_by,
  default_direction_keeps q.sort_direction,
  validate_text_keeps q,
)

page_in_range-bounds :
    (p : ℤ)
    → page_in_range p ≡ true
    → (n : ℕ) × (p ≡ pos n) × (1 ≤ n) × ((n - 1) * page_size ≤ max_int64)
unfolding page_in_range
page_in_range-bounds (pos n) h = (n, refl, ground arith, ground arith)
page_in_range-bounds (negsuc n) h = absurd (ground arith)

valid_mode-bounds : (q : Query) → valid_mode q ≡ true → length q.text ≤ 400
unfolding valid_mode valid_bounded_text
valid_mode-bounds q h = ground (arith, rune_count_bounds q.text)

-- A valid query asks for a page from 1 on whose offset, 20 rows for each page before it, fits an
-- `int64`, and its text is at most 400 bytes long.
pub is_valid-bounds :
    (q : Query)
    → is_valid q ≡ true
    → ((n : ℕ) × (q.page ≡ pos n) × (1 ≤ n) × ((n - 1) * page_size ≤ max_int64))
      × (length q.text ≤ 400)
unfolding is_valid
is_valid-bounds q h =
    (page_in_range-bounds q.page (ground arith), valid_mode-bounds q (ground arith))

-- What is wrong with a request that is answered by an error.
abbrev pub Defect : Request → SearchError → Type 0
Defect r unsupported_target = r.target_type ≢ target_key
Defect r invalid_page =
    ((n : ℕ) → default_page r.page ≡ pos n → 1 ≤ n → ¬ ((n - 1) * page_size ≤ max_int64))
Defect r invalid_sort_by = known_sort_by (default_sort_by r.sort_by) ≡ false
Defect r invalid_sort_order = known_direction (default_direction r.sort_direction) ≡ false
Defect r invalid_text = valid_utf8 (trim_space r.query) ≡ false
Defect r text_too_short = (trim_space r.query ≢ []) × (rune_count (trim_space r.query) ≤ 1)
Defect r text_too_long = 101 ≤ rune_count (trim_space r.query)
