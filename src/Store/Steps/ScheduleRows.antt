-- ===== src/Store/Steps/ScheduleRows.antt =====
-- The statements on `schedules` and `schedule_events` (internal/store/store.go), as steps on
-- behalf of one schedule.
use replenishment_system.Common.{
  ◌≡◌, refl, ap, inl, inr, arith, true, false, not, ◌&&◌, [], ◌∷◌, Option, Bool-cases,
}
use replenishment_system.Common.Int.{ℤ}
use replenishment_system.Common.Text.{Text, text_eq}
use replenishment_system.Calendar.{Date}
use replenishment_system.Calendar.Days.{IsValid}
use replenishment_system.Domain.Types.{ScheduleStatus, Schedule, ScheduleEvent, ok}
use replenishment_system.Domain.Cadence.{validate_interval}
use replenishment_system.Store.Rows.{exists_row}
use replenishment_system.Store.Rows.Laws.{
  select-update_rows_apart, All-update_rows, In-All, All-map, exists_row-update_rows,
}
use replenishment_system.Store.Rows.Unique.{Unique-update_rows}
use replenishment_system.Store.Steps.EventRows.{append_event-EventsOk}
use replenishment_system.Store.Db.{raise}
use replenishment_system.Store.Schedules.{
  with_id, is_some, status_is_paused, update_schedule, update_schedule_next_run,
  update_schedule_status, update_schedule_cadence,
}
use replenishment_system.Store.Events.{append_event, key_taken}
use replenishment_system.Store.Integrity.{ScheduleOk, SchedulesApart, other_schedule}
use replenishment_system.Store.Steps.{
  Step-refl, Step-rows, Step-if, Does, Does-same, Does-bind-lift,
}

module _ (id : Text) where
  pub update_schedule-Does :
      (f : Schedule → Schedule)
      → ((s : Schedule) → (f s).id ≡ s.id)
      → ((s : Schedule) → (f s).origin_order_id ≡ s.origin_order_id)
      → ((s : Schedule) → ScheduleOk s → ScheduleOk (f s))
      → Does id (update_schedule id f)
  unfolding update_schedule
  update_schedule-Does f same_id same_origin keeps = record {
    at = λ db w.
        Step-if id db (exists_row (with_id id) db.schedules) _ _
          (λ there.
            Step-rows id db _
              (record {
                schedules_ok =
                    All-update_rows ScheduleOk (with_id id) f db.schedules w.schedules_ok
                      (In-All _ db.schedules (λ s i h. keeps s));
                schedules_unique =
                    Unique-update_rows SchedulesApart (with_id id) f apart_left apart_right
                      db.schedules w.schedules_unique;
                items_ok = record {
                  each_ok = w.items_ok.each_ok;
                  items_unique = w.items_ok.items_unique;
                  owned =
                      All-map _ _ db.items
                        (λ it there.
                          exists_row-update_rows (with_id it.schedule_id) (with_id id) f
                            db.schedules (λ s. ap (λ t. text_eq t it.schedule_id) (same_id s))
                            there)
                        w.items_ok.owned;
                };
                rows_ok = w.rows_ok;
                rows_unique = w.rows_unique;
                events_ok = w.events_ok;
              })
              (select-update_rows_apart (other_schedule id) (with_id id) f db.schedules
                (In-All _ db.schedules (λ s i. hidden s)))
              refl refl refl)
          (λ gone. Step-refl id db w);
  }
    where
      hidden :
          (s : Schedule)
          → with_id id s ≡ true
          → (other_schedule id s ≡ false) × (other_schedule id (f s) ≡ false)
      hidden s h = (rw h refl, rw (same_id s, h) refl)

      apart_left : (x y : Schedule) → SchedulesApart x y → SchedulesApart (f x) y
      apart_left x y a = (λ e. a.0 (cc (e, same_id x)), λ e. a.1 (cc (e, same_origin x)))

      apart_right : (x y : Schedule) → SchedulesApart x y → SchedulesApart x (f y)
      apart_right x y a = (λ e. a.0 (cc (e, same_id y)), λ e. a.1 (cc (e, same_origin y)))

  pub update_schedule_next_run-Does :
      (next : Option Date) → Does id (update_schedule_next_run id next)
  unfolding update_schedule_next_run
  update_schedule_next_run-Does next =
      update_schedule-Does _ (λ s. refl) (λ s. refl)
        (λ s k. record {
          interval_ok = k.interval_ok;
          discount_ok = k.discount_ok;
          anchor_ok = k.anchor_ok;
          pause_ok = k.pause_ok;
        })

  paused_only :
      (status : ScheduleStatus) (until : Option Date)
      → not (status_is_paused status) && is_some until ≡ false
      → is_some until ≡ true
      → status ≡ ScheduleStatus.paused
  paused_only status until h k = ground arith

  pub update_schedule_status-Does :
      (status : ScheduleStatus) (until : Option Date)
      → Does id (update_schedule_status id status until)
  unfolding update_schedule_status
  update_schedule_status-Does status until =
      elim (Bool-cases (not (status_is_paused status) && is_some until)) [
        | inl refused ↦ rw refused (Does-same id (raise _) (λ db. refl))
        | inr allowed ↦ rw allowed (
            update_schedule-Does _ (λ s. refl) (λ s. refl)
              (λ s k. record {
                interval_ok = k.interval_ok;
                discount_ok = k.discount_ok;
                anchor_ok = k.anchor_ok;
                pause_ok = paused_only status until allowed;
              }))
      ]

  pub update_schedule_cadence-Does :
      (interval_days : ℤ) (anchor : Date)
      → IsValid anchor
      → Does id (update_schedule_cadence id interval_days anchor)
  unfolding update_schedule_cadence
  update_schedule_cadence-Does interval_days anchor v =
      Does-bind-lift id (validate_interval interval_days) _ (λ u valid.
        update_schedule-Does _ (λ s. refl) (λ s. refl)
          (λ s k. record {
            interval_ok = subst_unit u valid;
            discount_ok = k.discount_ok;
            anchor_ok = v;
            pause_ok = k.pause_ok;
          }))
    where
      subst_unit :
          (u : Unit {0})
          → validate_interval interval_days ≡ ok u
          → validate_interval interval_days ≡ ok tt
      subst_unit u e = e

  pub append_event-Does : (e : ScheduleEvent) → e.schedule_id ≡ id → Does id (append_event e)
  unfolding append_event
  append_event-Does e own = record {
    at = λ db w.
        Step-if id db (key_taken e e.idempotency_key db.events) _ _ (λ taken. Step-refl id db w)
          (λ free. record {
            well_formed = record {
              schedules_ok = w.schedules_ok;
              rows_ok = w.rows_ok;
              rows_unique = w.rows_unique;
              schedules_unique = w.schedules_unique;
              items_ok = w.items_ok;
              events_ok = append_event-EventsOk e db.next_event_id db.events w.events_ok free;
            };
            frame = record {
              schedules_kept = refl;
              occurrences_kept = refl;
              items_kept = refl;
              logged = record e { id = db.next_event_id } ∷ [];
              events_are = refl;
              logged_own = (own, tt);
            };
          });
  }
