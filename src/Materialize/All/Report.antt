-- ===== src/Materialize/All/Report.antt =====
-- The report of `RunAll` of internal/materialize/materialize.go.
use replenishment_system.Common.{
  ℕ, ◌+◌, ◌≡◌, refl, sym, ap, ◌∙◌, arith, Option, none, some, List, [], ◌∷◌,
}
use replenishment_system.Common.Lists.{length}
use replenishment_system.Calendar.{Date}
use replenishment_system.Domain.Types.{
  Schedule, Error, not_found, no_transaction, duplicate_occurrence, duplicate_schedule, transition,
  invalid, Result, ok, err,
}
use replenishment_system.Store.Db.{Db, in_transaction, pool, in_tx, commit_or_rollback, >>=-runs}
use replenishment_system.Store.Schedules.{
  get_schedule, get_schedule_for_update, list_active_schedules,
}
use replenishment_system.Materialize.{Materializer, run}
use replenishment_system.Materialize.All.{
  run_found, tally_found, run_locked, tally_locked, MaterializeResult, first_error, no_results,
  run_each, run_all_schedules,
}
use replenishment_system.Materialize.All.Kept.{rows, run_counts}

committed :
    {A : Type 0} (db : Db) (r : Result A × Db) (a : A)
    → (commit_or_rollback db r).0 ≡ ok a
    → (r.0 ≡ ok a) × ((commit_or_rollback db r).1 ≡ r.1)
committed db (ok x, d) a h = (h, refl)
committed db (err e, d) a h = absurd cc

module _ (m : Materializer) (today : Date) where
  found_counts :
      (res : Result Schedule) (db : Db)
      → (run_found m today (res, db)).0 ≡ ok tt
      → rows (run_found m today (res, db)).1 ≡ rows db + (tally_found m today (res, db)).0
  found_counts (ok current) db h =
      let (c, ran, whole) = >>=-runs (run m current today) (λ counts d. (ok tt, d)) db tt h in
      let (tallied, grown) = run_counts m current today db c ran in
      ap (λ (x : Result (Unit {0}) × Db). rows x.1) whole
      ∙ grown
      ∙ ap (λ (n : ℕ × ℕ). rows db + n.0) (sym tallied)
  found_counts (err not_found) db h = omega arith
  found_counts (err no_transaction) db h = absurd cc
  found_counts (err duplicate_occurrence) db h = absurd cc
  found_counts (err duplicate_schedule) db h = absurd cc
  found_counts (err (transition a s x)) db h = absurd cc
  found_counts (err (invalid x)) db h = absurd cc

  locked_counts :
      (s : Schedule) (db : Db)
      → (in_tx pool (run_locked m today s) db).0 ≡ ok tt
      → rows (in_tx pool (run_locked m today s) db).1
        ≡ rows db + (tally_locked m today s in_transaction db).0
  unfolding in_tx run_locked tally_locked get_schedule_for_update get_schedule
  locked_counts s db h =
      let (went, same) = committed db (run_locked m today s in_transaction db) tt h in
      ap rows same ∙ found_counts _ db went

  no_error :
      (e : Option Error) (r : Result (Unit {0})) → first_error e r ≡ none → (e ≡ none) × (r ≡ ok tt)
  no_error none (ok u) h = (refl, refl)
  no_error none (err x) h = absurd cc
  no_error (some x) r h = absurd cc

  no_error_before :
      (rest : List Schedule) (sum : MaterializeResult × Option Error) (db : Db)
      → (run_each m today rest sum db).0.1 ≡ none
      → sum.1 ≡ none
  unfolding run_each
  no_error_before [] sum db h = h
  no_error_before (s ∷ rest) sum db h =
      (no_error sum.1 (in_tx pool (run_locked m today s) db).0 (no_error_before rest _ _ h)).0

  each_counts :
      (rest : List Schedule) (sum : MaterializeResult × Option Error) (db : Db)
      → (run_each m today rest sum db).0.1 ≡ none
      → rows (run_each m today rest sum db).1 + sum.0.occurrences_created
        ≡ rows db + (run_each m today rest sum db).0.0.occurrences_created
  unfolding run_each
  each_counts [] sum db h = refl
  each_counts (s ∷ rest) sum db h =
      let one = in_tx pool (run_locked m today s) db in
      let went = (no_error sum.1 one.0 (no_error_before rest _ one.1 h)).1 in
      omega (arith, each_counts rest _ one.1 h, locked_counts s db went)

  -- When the nightly run reports no error, the number of created occurrences that it reports is the
  -- number of rows that it has added to the table.
  pub run_all_schedules_created :
      (db : Db)
      → (run_all_schedules m today db).0.1 ≡ none
      → length (run_all_schedules m today db).1.occurrences
        ≡ length db.occurrences + (run_all_schedules m today db).0.0.occurrences_created
  unfolding run_all_schedules list_active_schedules
  run_all_schedules_created db h = omega (arith, each_counts _ (no_results, none) db h)
