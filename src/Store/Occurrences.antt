-- ===== src/Store/Occurrences.antt =====
-- The statements on the table `occurrences` (internal/store/store.go).
use replenishment_system.Common.{
  ℕ, Bool, true, false, ◌&&◌, ◌||◌, Option, none, some, List, [], ◌∷◌, ◌++◌, ltb, ◌==◌,
  if◌then◌else◌, max,
}
use replenishment_system.Common.Text.{Text, text_eq}
use replenishment_system.Calendar.{Date, before, after}
use replenishment_system.Domain.Types.{
  OccurrenceStatus, Occurrence, not_found, duplicate_occurrence, invalid, Result, ok, err,
}
use replenishment_system.Store.Rows.{
  select, count_rows, update_rows, exists_row, first_row, order_by,
}
use replenishment_system.Store.Db.{Store, gets}
use replenishment_system.Store.Scope.{Scope, filter_via}

-- status = 'planned', and status IN ('planned','pending')
abbrev pub is_planned : OccurrenceStatus → Bool
is_planned OccurrenceStatus.planned = true
is_planned _ = false

abbrev pub is_open : OccurrenceStatus → Bool
is_open OccurrenceStatus.planned = true
is_open OccurrenceStatus.pending = true
is_open _ = false

abbrev pub is_placed : OccurrenceStatus → Bool
is_placed OccurrenceStatus.placed = true
is_placed _ = false

abbrev pub lacks_order : Option Text → Bool
lacks_order none = true
lacks_order (some order) = false

-- WHERE schedule_id = $1 AND a test on the status
abbrev pub of_schedule : Text → (OccurrenceStatus → Bool) → Occurrence → Bool
of_schedule schedule_id test o = text_eq o.schedule_id schedule_id && test o.status

abbrev any_status : OccurrenceStatus → Bool
any_status _ = true

-- ORDER BY sequence_no; scheduled_for, sequence_no; scheduled_for DESC, sequence_no DESC
abbrev pub by_sequence : Occurrence → Occurrence → Bool
by_sequence a b = ltb a.sequence_no b.sequence_no

unfoldable pub sooner : Occurrence → Occurrence → Bool
sooner a b =
    if before a.scheduled_for b.scheduled_for
    then true
    else if before b.scheduled_for a.scheduled_for
    then false
    else ltb a.sequence_no b.sequence_no

abbrev later : Occurrence → Occurrence → Bool
later a b = sooner b a

abbrev pub or_not_found {ℓ} : {A : Type ℓ} → Option A → Result A
or_not_found none = err not_found
or_not_found (some a) = ok a

-- INSERT, with occurrences_idempotency_key_unique, occurrences_sequence_unique, the primary key
-- and occurrences_sequence_no_positive.
abbrev pub conflicts_with : Occurrence → Occurrence → Bool
conflicts_with o row =
    text_eq row.idempotency_key o.idempotency_key
    || (text_eq row.schedule_id o.schedule_id && (row.sequence_no == o.sequence_no))

abbrev pub same_primary_key : Occurrence → Occurrence → Bool
same_primary_key o row = text_eq row.id o.id

unfoldable pub create_occurrence : Occurrence → Store (Unit {0})
create_occurrence o db =
    if exists_row (conflicts_with o) db.occurrences
    then (err duplicate_occurrence, db)
    else if exists_row (same_primary_key o) db.occurrences || (o.sequence_no == 0)
    then (err (invalid "insert occurrence"), db)
    else (ok tt, record db { occurrences = db.occurrences ++ o ∷ [] })

unfoldable pub list_occurrences : Text → Scope → Store (List Occurrence)
list_occurrences schedule_id scope = gets λ db. order_by by_sequence (
    select
      (λ (o : Occurrence). text_eq o.schedule_id schedule_id && filter_via scope db o.schedule_id)
      db.occurrences)

unfoldable pub list_planned_occurrences : Text → Store (List Occurrence)
list_planned_occurrences schedule_id =
    gets λ db. order_by by_sequence (select (of_schedule schedule_id is_planned) db.occurrences)

abbrev pub planned_after : Text → Date → Occurrence → Bool
planned_after schedule_id limit o =
    of_schedule schedule_id is_planned o && after o.scheduled_for limit

unfoldable pub count_future_planned_occurrences : Text → Date → Store ℕ
count_future_planned_occurrences schedule_id limit =
    gets λ db. count_rows (planned_after schedule_id limit) db.occurrences

-- max(sequence_no), and 0 where there is no row
unfoldable pub max_sequence : Text → List Occurrence → ℕ
max_sequence schedule_id [] = 0
max_sequence schedule_id (o ∷ rest) =
    let m = max_sequence schedule_id rest in
    if text_eq o.schedule_id schedule_id then max o.sequence_no m else m

unfoldable pub max_sequence_no : Text → Store ℕ
max_sequence_no schedule_id = gets λ db. max_sequence schedule_id db.occurrences

-- UPDATE … WHERE a test on the row, with `checkAffected`.
unfoldable pub update_occurrences :
    (Occurrence → Bool) → (Occurrence → Occurrence) → Store (Unit {0})
update_occurrences p f db =
    if exists_row p db.occurrences
    then (ok tt, record db { occurrences = update_rows p f db.occurrences })
    else (err not_found, db)

abbrev pub status_target : Text → Occurrence → Bool
status_target id o = text_eq o.id id && lacks_order o.order_id

abbrev pub with_status : OccurrenceStatus → Occurrence → Occurrence
with_status status o = record o { status = status }

unfoldable pub update_occurrence_status : Text → OccurrenceStatus → Store (Unit {0})
update_occurrence_status id status = update_occurrences (status_target id) (with_status status)

abbrev pub date_target : Text → Occurrence → Bool
date_target id o = text_eq o.id id && is_open o.status

abbrev pub with_date : Date → Occurrence → Occurrence
with_date scheduled_for o = record o { scheduled_for = scheduled_for }

unfoldable pub update_occurrence_date : Text → Date → Store (Unit {0})
update_occurrence_date id scheduled_for =
    update_occurrences (date_target id) (with_date scheduled_for)

abbrev pub cancels : Text → (OccurrenceStatus → Bool) → Occurrence → Bool
cancels schedule_id test o = of_schedule schedule_id test o && lacks_order o.order_id

abbrev pub mark_canceled : Occurrence → Occurrence
mark_canceled o = record o { status = OccurrenceStatus.canceled }

-- Answers with the number of rows affected.
unfoldable pub cancel_occurrences : Text → (OccurrenceStatus → Bool) → Store ℕ
cancel_occurrences schedule_id test db = (
  ok (count_rows (cancels schedule_id test) db.occurrences),
  record db { occurrences = update_rows (cancels schedule_id test) mark_canceled db.occurrences },
)

unfoldable pub cancel_unexecuted_occurrences : Text → Store ℕ
cancel_unexecuted_occurrences schedule_id = cancel_occurrences schedule_id is_open

unfoldable pub cancel_planned_occurrences : Text → Store ℕ
cancel_planned_occurrences schedule_id = cancel_occurrences schedule_id is_planned

-- `queryOneOccurrence`
unfoldable pub query_one_occurrence :
    (Occurrence → Occurrence → Bool) → (Occurrence → Bool) → Store Occurrence
query_one_occurrence less p db =
    (or_not_found (first_row (order_by less (select p db.occurrences))), db)

unfoldable pub next_actionable_occurrence : Text → Store Occurrence
next_actionable_occurrence schedule_id =
    query_one_occurrence sooner (of_schedule schedule_id is_open)

unfoldable pub next_planned_occurrence : Text → Store Occurrence
next_planned_occurrence schedule_id =
    query_one_occurrence sooner (of_schedule schedule_id is_planned)

unfoldable pub get_occurrence_by_sequence : Text → ℕ → Store Occurrence
get_occurrence_by_sequence schedule_id sequence_no =
    query_one_occurrence (λ a b. false)
      (λ o. text_eq o.schedule_id schedule_id && (o.sequence_no == sequence_no))

unfoldable pub last_placed_occurrence : Text → Store Occurrence
last_placed_occurrence schedule_id = query_one_occurrence later (of_schedule schedule_id is_placed)

-- max(scheduled_for)
abbrev pub later_date : Date → Option Date → Date
later_date d none = d
later_date d (some e) = if before d e then e else d

unfoldable pub latest_date : List Occurrence → Option Date
latest_date [] = none
latest_date (o ∷ rest) = some (later_date o.scheduled_for (latest_date rest))

unfoldable pub latest_scheduled_date : Text → Store (Option Date)
latest_scheduled_date schedule_id =
    gets λ db. latest_date (select (of_schedule schedule_id is_open) db.occurrences)
