-- ===== src/Postgres/Preflight/Scans.antt =====
-- internal/postgres/preflight.go: the loops over the rows of an answer.
use mathlib.Core.List.{append_assoc, append-nil}
use usage_viewer.Prelude.{
  ◌≡◌, ◌↔◌, refl, sym, ap, ◌∙◌, inl, inr, List, [], ◌∷◌, ◌++◌, map, none, Result, ok, err,
  Result-cases, arith,
}
use usage_viewer.Diagnostics.{GoError}
use usage_viewer.Postgres.Preflight.{Rows, scan_rows, collect_rows}

module _ {A : Type 0} where
  pub scan_rows_all : (xs acc : List A) → scan_rows (map ok xs) acc ≡ ok (acc ++ xs)
  unfolding scan_rows
  scan_rows_all [] acc = ap ok (sym (append-nil acc))
  scan_rows_all (x ∷ xs) acc =
      scan_rows_all xs (acc ++ x ∷ []) ∙ ap ok (append_assoc acc (x ∷ []) xs)

  pub scan_rows-ok :
      (scans : List (Result GoError A)) (acc ys : List A)
      → scan_rows scans acc ≡ ok ys
      → (xs : List A) × (scans ≡ map ok xs) × (ys ≡ acc ++ xs)
  unfolding scan_rows
  scan_rows-ok [] acc ys h = ([], refl, ground (arith, append-nil acc))
  scan_rows-ok (err e ∷ rest) acc ys h = absurd (ground arith)
  scan_rows-ok (ok a ∷ rest) acc ys h =
      let (xs, e, q) = scan_rows-ok rest (acc ++ a ∷ []) ys h in
      (a ∷ xs, ap (◌∷◌ (ok a)) e, q ∙ append_assoc acc (a ∷ []) xs)

  -- The rows of a query are collected exactly when the query succeeds, every row is scanned and the
  -- iteration ends with no error; then they are all there, in the order of the database.
  collect_rows_iff :
      (answer : Result GoError (Rows A)) (xs : List A)
      → (collect_rows answer ≡ ok xs) ↔ (answer ≡ ok (record { scans = map ok xs; failure = none }))
  unfolding collect_rows
  collect_rows_iff answer xs = (forth answer, λ h. rw h (rw (scan_rows_all xs [])))
    where
      forth :
          (answer : Result GoError (Rows A))
          → collect_rows answer ≡ ok xs
          → answer ≡ ok (record { scans = map ok xs; failure = none })
      forth (err e) h = absurd (ground arith)
      forth (ok rows) h = elim (Result-cases (scan_rows rows.scans [])) [
        | inl (ys, q) ↦
            let (zs, e, p) = scan_rows-ok rows.scans [] ys q in
            let f : rows.failure ≡ none = ground arith in
            let y : ys ≡ xs = ground arith in ground (arith, e, p, y, f)
        | inr (e, q) ↦ absurd (ground arith)
      ]
