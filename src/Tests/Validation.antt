-- ===== src/Tests/Validation.antt =====
-- internal/diagnostics, internal/search: the theorems at concrete inputs.
use usage_viewer.Prelude.{
  ◌≡◌, refl, true, [], bytes, text_eq, trim_space, valid_utf8, rune_count, pos,
}
use usage_viewer.Search.{
  Request, Query, validate, is_valid, default_page, default_sort_by, default_direction,
  validate_text, page_in_range, known_sort_by, known_direction, target_key, sort_by_id, descending,
  mode_text,
}
use usage_viewer.Search.Queries.{validate-is_valid}

abbrev spaced_request : Request
spaced_request = record {
  target_type = target_key;
  query = bytes "  alpha ";
  page = pos 0;
  sort_by = [];
  sort_direction = [];
}

abbrev alpha_query : Query
alpha_query = record {
  target_type = target_key;
  mode = mode_text;
  text = bytes "alpha";
  page = pos 1;
  sort_by = sort_by_id;
  sort_direction = descending;
}

validate-is_valid_example :
    (is_valid alpha_query ≡ true)
    × (pos 1 ≡ default_page (pos 0))
    × (sort_by_id ≡ default_sort_by [])
    × (descending ≡ default_direction [])
    × (bytes "alpha" ≡ trim_space (bytes "  alpha "))
unfolding validate validate_text default_page default_sort_by default_direction page_in_range
    known_sort_by known_direction text_eq valid_utf8 rune_count trim_space
validate-is_valid_example = validate-is_valid spaced_request alpha_query refl

abbrev short_request : Request
short_request = record {
  target_type = target_key;
  query = bytes " a ";
  page = pos 2;
  sort_by = sort_by_id;
  sort_direction = descending;
}
