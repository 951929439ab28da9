-- ===== src/Search/Reports.antt =====
-- internal/search/daily.go, leaderboard.go, selflookup.go: what the validators of the reports let
-- through.
use usage_viewer.Prelude.{
  ℕ, ◌≤◌, ◌≡◌, ◌≢◌, ◌↔◌, refl, ◌⊎◌, true, ok, Text, text_eq, trim_space, trim_space_idem,
  valid_utf8, rune_count, rune_count_bounds, ℤ, pos, negsuc, length, arith,
}
use usage_viewer.Search.{
  Window, validate_days, validate_limit, validate_credential, window_days, window_1_day,
  window_3_day, window_7_day, window_30_day,
}

-- `ValidateDays` accepts a day count exactly when it lies between 1 and 90, and returns it as it
-- is.
pub validate_days_iff :
    (days d : ℤ)
    → (validate_days days ≡ ok d) ↔ ((d ≡ days) × (n : ℕ) × (days ≡ pos n) × (1 ≤ n) × (n ≤ 90))
unfolding validate_days
validate_days_iff (pos n) d =
    (λ h. (ground arith, n, refl, ground arith, ground arith), λ p. ground arith)
validate_days_iff (negsuc n) d = (λ h. absurd (ground arith), λ p. ground arith)

-- `ValidateLimit` returns 10 for 0, returns 10, 20 and 50 as they are, and refuses every other
-- number.
validate_limit_iff :
    (limit l : ℤ)
    → (validate_limit limit ≡ ok l) ↔ (
        ((limit ≡ pos 0) × (l ≡ pos 10))
        ⊎ ((l ≡ limit) × ((limit ≡ pos 10) ⊎ (limit ≡ pos 20) ⊎ (limit ≡ pos 50))))
unfolding validate_limit
validate_limit_iff (pos n) l = (λ h. ground arith, λ p. ground arith)
validate_limit_iff (negsuc n) l = (λ h. absurd (ground arith), λ p. ground arith)

-- A credential that passes is trimmed, valid UTF-8 of 2 to 100 runes, so at most 400 bytes long,
-- and passes again unchanged.
validate_credential-bounds :
    (input value : Text)
    → validate_credential input ≡ ok value
    → (value ≡ trim_space input)
      × (valid_utf8 value ≡ true)
      × (2 ≤ rune_count value)
      × (length value ≤ 400)
      × (validate_credential value ≡ ok value)
unfolding validate_credential
validate_credential-bounds input value h =
    ground (arith, trim_space_idem input, rune_count_bounds (trim_space input))

-- A window has days exactly when it is one of the four windows of the leaderboard.
pub window_days_iff :
    (w : Window)
    → (window_days w ≢ 0)
      ↔ ((w ≡ window_1_day) ⊎ (w ≡ window_3_day) ⊎ (w ≡ window_7_day) ⊎ (w ≡ window_30_day))
unfolding window_days text_eq
window_days_iff w = (λ h. ground arith, λ p. ground arith)
