-- ===== src/Service/Picks.antt =====
-- The order that a transition of internal/schedule/service.go picks (`nextOccurrence`).
use replenishment_system.Common.{
  ◌≡◌, refl, Bool, true, Option, none, some, and_left, and_right, ◌∙◌, String,
}
use replenishment_system.Common.Text.{Text, text_eq_sound}
use replenishment_system.Domain.Types.{
  ScheduleStatus, OccurrenceStatus, Action, Schedule, Occurrence, not_found, Result, ok, err,
  Outcome,
}
use replenishment_system.Domain.Transitions.{validate_occurrence_action}
use replenishment_system.Store.Rows.{In}
use replenishment_system.Store.Rows.Laws.{first_row-order_by}
use replenishment_system.Store.Db.{Db, lift, pure, continue_with, ◌>>=◌, >>=-eq-ok}
use replenishment_system.Store.Occurrences.{
  of_schedule, is_open, or_not_found, query_one_occurrence, next_actionable_occurrence,
}
use replenishment_system.Store.Steps.Reads.{next_actionable_occurrence_same}
use replenishment_system.Service.{refuse_if_none, next_occurrence}

-- A row of the table that belongs to the schedule and has a status of the kind.
pub record Target (id : Text) (test : OccurrenceStatus → Bool) (db : Db) (o : Occurrence)
    : Type 0 where
  pub there : In o db.occurrences
  pub own : o.schedule_id ≡ id
  pub kind : test o.status ≡ true

or_not_found-eq-ok : (r : Option Occurrence) (o : Occurrence) → or_not_found r ≡ ok o → r ≡ some o
or_not_found-eq-ok none o e = cc
or_not_found-eq-ok (some x) o e = cc

pub query_one_occurrence-Target :
    (less : Occurrence → Occurrence → Bool) (id : Text) (test : OccurrenceStatus → Bool) (db : Db)
    (o : Occurrence)
    → (query_one_occurrence less (of_schedule id test) db).0 ≡ ok o
    → Target id test db o
unfolding query_one_occurrence
query_one_occurrence-Target less id test db o e =
    let found =
      first_row-order_by less (of_schedule id test) o db.occurrences (or_not_found-eq-ok _ o e) in
    record {
      there = found.0;
      own = text_eq_sound o.schedule_id id (and_left _ _ found.1);
      kind = and_right _ _ found.1;
    }

module _ (a : Action) (status : ScheduleStatus) (message : String) where
  pub refuse_if_none-ok :
      (r : Result Occurrence × Db) (o : Occurrence)
      → (refuse_if_none a status message r).0 ≡ ok o
      → r.0 ≡ ok o
  refuse_if_none-ok (ok x, db) o e = e
  refuse_if_none-ok (err not_found, db) o e = cc
  refuse_if_none-ok (err _, db) o e = cc

  pub refuse_if_none_same :
      (r : Result Occurrence × Db) (db : Db) → r.1 ≡ db → (refuse_if_none a status message r).1 ≡ db
  refuse_if_none_same (ok x, db') db e = e
  refuse_if_none_same (err not_found, db') db e = e
  refuse_if_none_same (err _, db') db e = e

module _ (s : Schedule) (a : Action) (message : String) where
  pub next_occurrence_same : (db : Db) → (next_occurrence s a message db).1 ≡ db
  unfolding next_occurrence
  next_occurrence_same db =
      go (refuse_if_none a s.status message (next_actionable_occurrence s.id db))
        (refuse_if_none_same a s.status message _ db (next_actionable_occurrence_same s.id db))
    where
      guarded : (u : Outcome) (o : Occurrence) (d : Db) → ((lift u >>= λ _. pure o) d).1 ≡ d
      guarded (ok v) o d = refl
      guarded (err x) o d = refl

      go :
          (r : Result Occurrence × Db)
          → r.1 ≡ db
          → (continue_with r (λ o. lift (validate_occurrence_action o a) >>= λ _. pure o)).1 ≡ db
      go (ok o, d) e = guarded (validate_occurrence_action o a) o d ∙ e
      go (err x, d) e = e

  pub next_occurrence-Target :
      (db : Db) (o : Occurrence)
      → (next_occurrence s a message db).0 ≡ ok o
      → Target s.id is_open db o
  unfolding next_occurrence next_actionable_occurrence
  next_occurrence-Target db o e =
      let (x, found, rest) =
        >>=-eq-ok (λ d. refuse_if_none a s.status message (next_actionable_occurrence s.id d)) _ db
          o e in
      let (u, allowed, last) =
        >>=-eq-ok (lift (validate_occurrence_action x a)) (λ _. pure x) _ o rest in
      let same : x ≡ o = cc last in
      query_one_occurrence-Target _ s.id is_open db o
        (rw same at (refuse_if_none-ok a s.status message _ x found))
