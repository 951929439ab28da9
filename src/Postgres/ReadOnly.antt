-- ===== src/Postgres/ReadOnly.antt =====
-- internal/postgres/readonly.go: transactions that only read. The driver's answers are parameters;
-- what the code does to the driver is a trace of events. A body returns, fails or panics.
pub mod Cleanup
use usage_viewer.Prelude.{
  ℕ, Bool, true, false, not, ◌&&◌, ◌||◌, List, [], ◌∷◌, ◌++◌, Option, none, some, Result, ok, err,
  Text, bytes, text_eq, ℤ, pos, ltb_ℤ, leb_ℤ, if◌then◌else◌,
}
use usage_viewer.Postgres.Catalog.{transaction_read_only_sql}
use usage_viewer.Diagnostics.{GoError, plain, diagnosed}
use usage_viewer.Postgres.Stages.{connectivity, read_only, at_stage}

pub data Outcome (A : Type 0) : Type 0 where
  returns : A → Outcome A
  fails : GoError → Outcome A
  panics : Text → Outcome A

-- pgx.TxIsoLevel and pgx.TxAccessMode
abbrev pub read_committed : Text
read_committed = bytes "read committed"

abbrev pub repeatable_read : Text
repeatable_read = bytes "repeatable read"

abbrev pub access_read_only : Text
access_read_only = bytes "read only"

pub record TxOptions : Type 0 where
  pub iso_level : Text
  pub access_mode : Text

-- The calls that reach the driver. A rollback has its own time limit, in nanoseconds.
pub data Event : Type 0 where
  begun : TxOptions → Event
  asked_setting : Event
  ran_body : Event
  commit_called : Event
  rolled_back : ℤ → Event

-- The driver's answers: the state of the query's context, `BeginTx`, the statement that asks for a
-- setting of the transaction, and `Commit`.
pub record Driver : Type 0 where
  pub context_error : Option GoError
  pub begin_tx : TxOptions → Option GoError
  pub setting : Text → Result GoError Bool
  pub commit : Option GoError

pub record Run (A : Type 0) : Type 0 where
  pub trace : List Event
  pub outcome : Outcome A

-- cleanupTimeout; a second is 10⁹ nanoseconds.
unfoldable pub cleanup_timeout : ℤ → ℤ
cleanup_timeout timeout = if ltb_ℤ timeout (pos 1000000000) then timeout else pos 1000000000

refuse : {A : Type 0} → Text → Run A
refuse reason = record { trace = []; outcome = fails (at_stage connectivity (plain reason)) }

module _ {A : Type 0} where
  -- What the body and the commit do to a transaction whose setting is read only; whether it is
  -- committed comes first.
  unfoldable pub in_transaction : Driver → Outcome A → Bool × Run A
  in_transaction driver (panics p) = (false, record { trace = ran_body ∷ []; outcome = panics p })
  in_transaction driver (fails e) =
      (false, record { trace = ran_body ∷ []; outcome = fails (at_stage connectivity e) })
  in_transaction driver (returns a) = elim driver.commit [
    | none ↦ (true, record { trace = ran_body ∷ commit_called ∷ []; outcome = returns a })
    | some e ↦ (
      false,
      record { trace = ran_body ∷ commit_called ∷ []; outcome = fails (at_stage connectivity e) },
    )
  ]

  -- From the query of the setting on.
  unfoldable pub guarded : Driver → Outcome A → Bool × Run A
  unfolding in_transaction
  guarded driver body = elim (driver.setting transaction_read_only_sql) [
    | err e ↦ (false, record { trace = []; outcome = fails (at_stage read_only e) })
    | ok false ↦ (
      false,
      record {
        trace = [];
        outcome = fails (at_stage read_only (plain (bytes "transaction is not read only")));
      },
    )
    | ok true ↦ in_transaction driver body
  ]

  -- The deferred function: it rolls back unless the transaction is committed, and goes on with a
  -- panic.
  unfoldable pub deferred : TxOptions → ℤ → Bool × Run A → Run A
  deferred options timeout (committed, run) = record {
    trace =
        begun options
        ∷ asked_setting
        ∷ (run.trace ++ (if committed then [] else rolled_back (cleanup_timeout timeout) ∷ []));
    outcome = run.outcome;
  }

  -- runReadOnlyTransactionAtIsolation; `available` says that context, beginner and body are there.
  unfoldable pub run_read_only : Bool → Driver → ℤ → Text → Outcome A → Run A
  unfolding refuse guarded deferred
  run_read_only available driver timeout isolation body =
      if not available || leb_ℤ timeout (pos 0)
      then refuse (bytes "read-only transaction configuration invalid")
      else if not (text_eq isolation read_committed) && not (text_eq isolation repeatable_read)
      then refuse (bytes "read-only transaction isolation invalid")
      else elim driver.context_error [
        | some e ↦ record { trace = []; outcome = fails (at_stage connectivity e) }
        | none ↦
            let options : TxOptions = record {
              iso_level = isolation;
              access_mode = access_read_only;
            } in
            elim (driver.begin_tx options) [
              | some e ↦ record { trace = []; outcome = fails (at_stage connectivity e) }
              | none ↦ deferred options timeout (guarded driver body)
            ]
      ]

  -- withReadOnlyTx and withRepeatableReadOnlyTx, by the isolation; `none` is a nil pool.
  unfoldable pub with_read_only_tx : Option Driver → ℤ → Text → Outcome A → Run A
  unfolding run_read_only
  with_read_only_tx none timeout isolation body =
      refuse (bytes "read-only transaction dependency unavailable")
  with_read_only_tx (some driver) timeout isolation body =
      run_read_only true driver timeout isolation body
