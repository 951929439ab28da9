-- ===== src/HttpApi/Contract.antt =====
-- internal/httpapi: what the handlers may rely on in their services, SearchService,
-- DailyUsageService, LeaderboardService and SelfLookupService: an interface that the repositories fill.
pub mod Presenting
pub mod Serving
use usage_viewer.Prelude.{
  Result, err, ℕ, ◌≡◌, ok, true, false, Bool, List, [], ◌∷◌, map, Option, none, some, Text, ℤ, pos,
  ◌≤ℤ◌, All,
}
use usage_viewer.Diagnostics.{GoError}
use usage_viewer.Search.{
  Query, Window, is_valid, page_size, validate_days, validate_limit, validate_credential,
  all_windows, mask_key, target_key,
}
use usage_viewer.Search.Results.{KeyResult, Results, DailyUsagePoint, LeaderboardEntry, SelfResult}
use usage_viewer.HttpApi.Handlers.{Services}

-- A text that is a masked key.
abbrev pub Masked : Text → Type 0
Masked t = (raw : Text) × (t ≡ mask_key raw)

abbrev pub ShownEntry : ℤ → LeaderboardEntry → Type 0
ShownEntry limit e = (pos 1 ≤ℤ e.rank) × (e.rank ≤ℤ limit) × Masked e.key_masked

-- The four windows in their order, whose entries are masked and ranked from 1 to the limit.
abbrev pub ShownRankings : ℤ → List (Window × List LeaderboardEntry) → Type 0
ShownRankings limit windows =
    (map (λ (w : Window × List LeaderboardEntry). w.0) windows ≡ all_windows)
    × All (λ (w : Window × List LeaderboardEntry). All (ShownEntry limit) w.1) windows

abbrev pub KeptResults : Query → Option Results → Type 0
KeptResults q none = Unit
KeptResults q (some r) = (is_valid q ≡ true) × (r.page ≡ q.page) × (r.page_size ≡ pos page_size)

abbrev pub KeptPoints : ℤ → ℤ → Option (List DailyUsagePoint) → Type 0
KeptPoints key days none = Unit
KeptPoints key days (some points) = (pos 1 ≤ℤ key) × (validate_days days ≡ ok days)

abbrev pub KeptRankings : ℤ → Option (List (Window × List LeaderboardEntry)) → Type 0
KeptRankings limit none = Unit
KeptRankings limit (some windows) =
    (l : ℤ) × (validate_limit limit ≡ ok l) × ShownRankings l windows

abbrev pub KeptLookup : Text → Result GoError (Option (SelfResult × ℤ)) → Type 0
KeptLookup credential (err e) = Unit
KeptLookup credential (ok none) = Unit
KeptLookup credential (ok (some (result, id))) =
    (value : Text) × (validate_credential credential ≡ ok value) × Masked result.key_masked

abbrev pub OverSearch : Option (Query → Option Results) → Type 0
OverSearch none = Unit
OverSearch (some f) = (q : Query) → KeptResults q (f q)

abbrev pub OverDailyUsage : Option (ℤ → ℤ → Option (List DailyUsagePoint)) → Type 0
OverDailyUsage none = Unit
OverDailyUsage (some f) = (key days : ℤ) → KeptPoints key days (f key days)

abbrev pub OverLeaderboard : Option (ℤ → Option (List (Window × List LeaderboardEntry))) → Type 0
OverLeaderboard none = Unit
OverLeaderboard (some f) = (limit : ℤ) → KeptRankings limit (f limit)

abbrev pub OverSelfLookup : Option (Text → Result GoError (Option (SelfResult × ℤ))) → Type 0
OverSelfLookup none = Unit
OverSelfLookup (some f) = (credential : Text) → KeptLookup credential (f credential)

-- The contract of the services: whatever they are asked, an answer is valid for the question, and every key
-- in it is masked.
pub record Contract (s : Services) : Type 0 where
  pub searches : OverSearch s.search
  pub daily_usages : OverDailyUsage s.daily_usage
  pub leaderboards : OverLeaderboard s.leaderboard
  pub self_lookups : OverSelfLookup s.self_lookup
