-- ===== src/Service/Stopping.antt =====
-- The statements that `Pause` and `Cancel` of internal/schedule/service.go have in common.
use replenishment_system.Common.{
  ℕ, suc, ◌≡◌, refl, arith, true, false, not, ◌&&◌, Option, none, List, [], ◌∷◌, ◌++◌, Bool-cases,
  inl, inr, and_right,
}
use replenishment_system.Common.Lists.{All}
use replenishment_system.Common.Text.{Text, text_eq}
use replenishment_system.Calendar.{Date}
use replenishment_system.Domain.Types.{
  ScheduleStatus, OccurrenceStatus, Schedule, Occurrence, ScheduleEvent, ok,
}
use replenishment_system.Store.Rows.{update_rows, count_rows}
use replenishment_system.Store.Db.{Db, Store, ◌>>=◌, ◌>>◌}
use replenishment_system.Store.Scope.{Scope}
use replenishment_system.Store.Schedules.{
  get_schedule, update_schedule_status, update_schedule_next_run, status_is_paused, is_some,
  with_id,
}
use replenishment_system.Store.Occurrences.{
  of_schedule, is_open, lacks_order, cancels, mark_canceled, cancel_occurrences,
  cancel_unexecuted_occurrences,
}
use replenishment_system.Store.Events.{append_event}
use replenishment_system.Store.Integrity.{OccurrenceOk}
use replenishment_system.Store.Found.{update_schedule_found, get_schedule-update_schedule}

-- Every open row of the schedule lacks an order, so it is canceled.
pub none_open_left :
    (id : Text) (rows : List Occurrence)
    → All OccurrenceOk rows
    → count_rows (of_schedule id is_open) (update_rows (cancels id is_open) mark_canceled rows) ≡ 0
unfolding count_rows update_rows
none_open_left id [] h = refl
none_open_left id (o ∷ rest) h = elim (Bool-cases (cancels id is_open o)) [
  | inl hit ↦ rw (hit, shut) (none_open_left id rest h.1)
  | inr miss ↦ rw (miss, closed miss) (none_open_left id rest h.1)
]
  where
    shut : of_schedule id is_open (mark_canceled o) ≡ false
    shut = ground arith

    open_lacks :
        (st : OccurrenceStatus)
        → is_open st ≡ true
        → (lacks_order o.order_id ≡ false → st ≡ OccurrenceStatus.placed)
        → lacks_order o.order_id ≡ true
    open_lacks OccurrenceStatus.planned k p = elim (Bool-cases (lacks_order o.order_id)) [
      | inl e ↦ e
      | inr e ↦ cc (p e)
    ]
    open_lacks OccurrenceStatus.pending k p = elim (Bool-cases (lacks_order o.order_id)) [
      | inl e ↦ e
      | inr e ↦ cc (p e)
    ]
    open_lacks OccurrenceStatus.placed k p = cc
    open_lacks OccurrenceStatus.skipped k p = cc
    open_lacks OccurrenceStatus.failed k p = cc
    open_lacks OccurrenceStatus.canceled k p = cc

    closed : cancels id is_open o ≡ false → of_schedule id is_open o ≡ false
    closed miss = elim (Bool-cases (of_schedule id is_open o)) [
      | inr e ↦ e
      | inl e ↦ cc (
        miss,
        e,
        open_lacks o.status (and_right (text_eq o.schedule_id id) (is_open o.status) e)
            h.0.order_placed,
      )
    ]

module _ (id : Text) (scope : Scope) (status : ScheduleStatus) (until : Option Date)
    (log : ℕ → ScheduleEvent) (allowed : not (status_is_paused status) && is_some until ≡ false)
    (keyless : (n : ℕ) → (log n).idempotency_key ≡ none) where
  abbrev pub stop : Store (Unit {0})
  stop = do
    update_schedule_status id status until
    canceled ← cancel_unexecuted_occurrences id
    update_schedule_next_run id none
    append_event (log canceled)

  abbrev pub stopped : Schedule → Schedule
  stopped s = record s { status = status; paused_until = until; next_run_date = none }

  abbrev with_status_until : Schedule → Schedule
  with_status_until s = record s { status = status; paused_until = until }

  abbrev without_run : Schedule → Schedule
  without_run s = record s { next_run_date = none }

  abbrev pub stopped_db : Db → Db
  stopped_db db = record db {
    schedules =
        update_rows (with_id id) without_run
          (update_rows (with_id id) with_status_until db.schedules);
    occurrences = update_rows (cancels id is_open) mark_canceled db.occurrences;
    events =
        db.events
        ++ record (log (count_rows (cancels id is_open) db.occurrences)) { id = db.next_event_id }
          ∷ [];
    next_event_id = suc db.next_event_id;
  }

  module _ (db : Db) (s : Schedule) (found : (get_schedule id scope db).0 ≡ ok s) where
    first_update :
        update_schedule_status id status until db
        ≡ (ok tt, record db { schedules = update_rows (with_id id) with_status_until db.schedules })
    unfolding update_schedule_status
    first_update = rw (allowed, update_schedule_found id scope with_status_until db s found) refl

    abbrev middle : Db
    middle = record db {
      schedules = update_rows (with_id id) with_status_until db.schedules;
      occurrences = update_rows (cancels id is_open) mark_canceled db.occurrences;
    }

    found_middle : (get_schedule id scope middle).0 ≡ ok (with_status_until s)
    unfolding get_schedule
    found_middle =
        rw (update_schedule_found id scope with_status_until db s found) at (
          get_schedule-update_schedule id scope with_status_until db s (λ x. refl) (λ x. refl)
            found)

    second_update : update_schedule_next_run id none middle ≡ (
      ok tt,
      record middle { schedules = update_rows (with_id id) without_run middle.schedules },
    )
    unfolding update_schedule_next_run
    second_update =
        update_schedule_found id scope without_run middle (with_status_until s) found_middle

    pub stop-eq : stop db ≡ (ok tt, stopped_db db)
    unfolding cancel_unexecuted_occurrences cancel_occurrences append_event
    stop-eq =
        rw (first_update, second_update, keyless (count_rows (cancels id is_open) db.occurrences))
          refl

    pub found_stopped : (get_schedule id scope (stopped_db db)).0 ≡ ok (stopped s)
    unfolding get_schedule
    found_stopped =
        rw (update_schedule_found id scope without_run middle (with_status_until s) found_middle) at
          (get_schedule-update_schedule id scope without_run middle (with_status_until s)
            (λ x. refl) (λ x. refl) found_middle)
