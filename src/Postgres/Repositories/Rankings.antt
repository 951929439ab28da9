-- ===== src/Postgres/Repositories/Rankings.antt =====
-- internal/postgres/leaderboard.go: the leaderboard that `queryLeaderboard` builds from the rows.
use mathlib.Core.List.{append_assoc, append-nil}
use usage_viewer.Prelude.{
  ◌≡◌, ◌↔◌, ◌⊎◌, inl, inr, refl, sym, ap, ◌∙◌, false, List, [], ◌∷◌, ◌++◌, map, none, Result, ok,
  err, ◌>>=◌, text_eq, ℤ, pos, ◌≤ℤ◌, All, Bool-cases, Option-cases, Result-cases, arith,
  if◌then◌else◌,
}
use usage_viewer.Diagnostics.{GoError}
use usage_viewer.Search.{
  Window, all_windows, window_1_day, window_3_day, window_7_day, window_30_day,
}
use usage_viewer.Search.Results.{LeaderboardEntry}
use usage_viewer.Search.Reports.{window_days_iff}
use usage_viewer.Postgres.Preflight.{Rows, rows_failure}
use usage_viewer.Postgres.Repositories.{RankRow, Transaction}
use usage_viewer.Postgres.Repositories.Reporting.{
  Rankings, empty_rankings, append_entry, entry_of, row_refused, rank_rows, query_leaderboard,
  leaderboard_arguments,
}
use usage_viewer.Postgres.Statements.{leaderboard_sql}

-- The specification: each window with its rows, in the order of the rows.
abbrev pub entries_in : Window → List RankRow → List LeaderboardEntry
entries_in w [] = []
entries_in w (r ∷ rows) =
    if text_eq w r.window_text then entry_of r ∷ entries_in w rows else entries_in w rows

abbrev pub rankings_of : List Window → List RankRow → Rankings
rankings_of [] rows = []
rankings_of (w ∷ ws) rows = (w, entries_in w rows) ∷ rankings_of ws rows

-- A row of a window of the leaderboard, whose rank lies between 1 and the limit.
pub record Ranked (limit : ℤ) (r : RankRow) : Type 0 where
  pub in_window :
      (r.window_text ≡ window_1_day)
      ⊎ (r.window_text ≡ window_3_day)
      ⊎ (r.window_text ≡ window_7_day)
      ⊎ (r.window_text ≡ window_30_day)
  pub positive : pos 1 ≤ℤ r.rank
  pub within : r.rank ≤ℤ limit

row_refused_iff : (limit : ℤ) (r : RankRow) → (row_refused limit r ≡ false) ↔ Ranked limit r
unfolding row_refused
row_refused_iff limit r = (
  λ h. record {
    in_window = (window_days_iff r.window_text).0 (ground arith);
    positive = ground arith;
    within = ground arith;
  },
  λ k. ground (arith, (window_days_iff r.window_text).1 k.in_window, k.positive, k.within),
)

entries_in-append :
    (w : Window) (seen : List RankRow) (r : RankRow)
    → entries_in w (seen ++ r ∷ [])
      ≡ entries_in w seen ++ (if text_eq w r.window_text then entry_of r ∷ [] else [])
entries_in-append w [] r = ground arith
entries_in-append w (s ∷ seen) r = ground (arith, entries_in-append w seen r)

append_entry-rankings_of :
    (limit : ℤ) (seen : List RankRow) (r : RankRow)
    → Ranked limit r
    → append_entry r.window_text (entry_of r) (rankings_of all_windows seen)
      ≡ rankings_of all_windows (seen ++ r ∷ [])
unfolding append_entry text_eq
append_entry-rankings_of limit seen r k =
    let at = λ (w : Window). entries_in-append w seen r in
    let nil = λ (w : Window). append-nil (entries_in w seen) in
    ground (
      arith,
      k.in_window,
      at window_1_day,
      at window_3_day,
      at window_7_day,
      at window_30_day,
      nil window_1_day,
      nil window_3_day,
      nil window_7_day,
      nil window_30_day,
    )

-- What the rows of the answer have to be for a leaderboard `out` behind the rows that were seen.
abbrev Reads : ℤ → List (Result GoError RankRow) → List RankRow → Rankings → Type 0
Reads limit scans seen out =
    (rows : List RankRow) × (scans ≡ map ok rows)
    × All (Ranked limit) rows
    × (out ≡ rankings_of all_windows (seen ++ rows))

rank_rows-Reads :
    (limit : ℤ) (scans : List (Result GoError RankRow)) (seen : List RankRow) (out : Rankings)
    → rank_rows limit scans (rankings_of all_windows seen) ≡ ok out
    → Reads limit scans seen out
unfolding rank_rows
rank_rows-Reads limit [] seen out h = ([], refl, tt, ground (arith, append-nil seen))
rank_rows-Reads limit (err e ∷ scans) seen out h = absurd (ground arith)
rank_rows-Reads limit (ok r ∷ scans) seen out h = elim (Bool-cases (row_refused limit r)) [
  | inl refused ↦ absurd (ground arith)
  | inr fine ↦
      let k = (row_refused_iff limit r).0 fine in
      let step = append_entry-rankings_of limit seen r k in
      let (rows, e, all, o) =
        rank_rows-Reads limit scans (seen ++ r ∷ []) out
          (ap (rank_rows limit scans) (sym step) ∙ ground arith) in
      (r ∷ rows, ap (λ x. ok r ∷ x) e, (k, all), ground (arith, append_assoc seen (r ∷ []) rows))
]

rank_rows_built :
    (limit : ℤ) (rows seen : List RankRow)
    → All (Ranked limit) rows
    → rank_rows limit (map ok rows) (rankings_of all_windows seen)
      ≡ ok (rankings_of all_windows (seen ++ rows))
unfolding rank_rows
rank_rows_built limit [] seen all = ground (arith, append-nil seen)
rank_rows_built limit (r ∷ rows) seen (k, all) = ground (
  arith,
  (row_refused_iff limit r).1 k,
  append_entry-rankings_of limit seen r k,
  rank_rows_built limit rows (seen ++ r ∷ []) all,
  append_assoc seen (r ∷ []) rows,
)

start : empty_rankings all_windows ≡ rankings_of all_windows []
unfolding empty_rankings
start = refl

-- The rows that a leaderboard is built from.
pub record Answered (tx : Transaction) (now limit : ℤ) (rows : List RankRow) : Type 0 where
  pub answer : Rows RankRow
  pub queried : tx.rank_rows leaderboard_sql (leaderboard_arguments now limit) ≡ ok answer
  pub scanned : answer.scans ≡ map ok rows
  pub complete : answer.failure ≡ none
  pub ranked : All (Ranked limit) rows

-- `queryLeaderboard` behind the query
abbrev read_answer : ℤ → Result GoError (Rows RankRow) → Result GoError Rankings
read_answer limit answer = do
  rows ← answer
  rankings ← rank_rows limit rows.scans (empty_rankings all_windows)
  rows_failure rows.failure rankings

read_answer-Reads :
    (limit : ℤ) (answer : Rows RankRow) (out : Rankings)
    → read_answer limit (ok answer) ≡ ok out
    → Reads limit answer.scans [] out × (answer.failure ≡ none)
read_answer-Reads limit answer out h =
    elim (Result-cases (rank_rows limit answer.scans (empty_rankings all_windows))) [
      | inr (e, q) ↦ absurd (ground arith)
      | inl (rankings, q) ↦ elim (Option-cases answer.failure) [
        | inr (e, f) ↦ absurd (ground arith)
        | inl f ↦ (
          rank_rows-Reads limit answer.scans [] out
              (ap (rank_rows limit answer.scans) (sym start) ∙ ground arith),
          f,
        )
      ]
    ]

module _ (tx : Transaction) (now limit : ℤ) where
  query_step :
      (answer : Result GoError (Rows RankRow)) (out : Rankings)
      → tx.rank_rows leaderboard_sql (leaderboard_arguments now limit) ≡ answer
      → read_answer limit answer ≡ ok out
      → (rows : List RankRow) × Answered tx now limit rows × (out ≡ rankings_of all_windows rows)
  query_step (err e) out q h = absurd (ground arith)
  query_step (ok answer) out q h =
      let ((rows, e, all, o), f) = read_answer-Reads limit answer out h in
      (rows, record { answer = answer; queried = q; scanned = e; complete = f; ranked = all }, o)

  -- `queryLeaderboard` returns a leaderboard exactly when the query and the scans of all its rows succeed,
  -- and each row names one of the four windows and a rank from 1 to the limit. The leaderboard then holds,
  -- for each of the four windows in turn, the entries of its rows in the order of the rows, keys masked.
  pub query_leaderboard_iff :
      (out : Rankings)
      → (query_leaderboard now limit tx ≡ ok out) ↔ (
          (rows : List RankRow) × Answered tx now limit rows × (out ≡ rankings_of all_windows rows))
  unfolding query_leaderboard
  query_leaderboard_iff out = (
    λ h. query_step (tx.rank_rows leaderboard_sql (leaderboard_arguments now limit)) out refl h,
    λ (rows, a, o).
        ground
          (arith, a.queried, a.scanned, a.complete, start, rank_rows_built limit rows [] a.ranked),
  )
