-- ===== src/Store/Steps/EventRows.antt =====
-- `AppendEvent` of internal/store/store.go keeps the constraints of the log.
use replenishment_system.Common.{
  ℕ, suc, ◌≡◌, ◌≢◌, refl, sym, ap, ◌∙◌, arith, true, false, Option, none, some, List, [], ◌∷◌, ◌++◌,
}
use replenishment_system.Common.Text.{Text, text_eq_refl}
use replenishment_system.Domain.Types.{EventType, ScheduleEvent, same_event}
use replenishment_system.Store.Rows.{In}
use replenishment_system.Store.Rows.Laws.{In-All, All-In, All-map, All-append_row, exists_row-false}
use replenishment_system.Store.Rows.Unique.{Unique-append_row}
use replenishment_system.Store.Events.{carries_key, key_taken}
use replenishment_system.Store.Integrity.{EventsApart, EventsOk}

same_event_refl : (t : EventType) → same_event t t ≡ true
unfolding same_event
same_event_refl t = ground arith

carries_own_key :
    (a b : ScheduleEvent) (key : Text)
    → a.schedule_id ≡ b.schedule_id
    → a.event_type ≡ b.event_type
    → a.idempotency_key ≡ some key
    → carries_key b.schedule_id b.event_type key a ≡ true
carries_own_key a b key s t k =
    rw (s, t, k, text_eq_refl b.schedule_id, same_event_refl b.event_type, text_eq_refl key) refl

-- An event whose key is free shares it with none of the log.
free_key :
    (e : ScheduleEvent) (events : List ScheduleEvent) (taken : Option Text)
    → e.idempotency_key ≡ taken
    → key_taken e taken events ≡ false
    → (a : ScheduleEvent) → In a events
    → (key : Text) → a.schedule_id ≡ e.schedule_id
    → a.event_type ≡ e.event_type
    → a.idempotency_key ≡ some key
    → e.idempotency_key ≢ some key
free_key e events none is free a i key s t k own = absurd cc
free_key e events (some own_key) is free a i key s t k own =
    let same : own_key ≡ key = cc (is, own) in
    let no = All-In _ a events (exists_row-false _ events free) i in
    let yes = carries_own_key a e own_key s t (k ∙ ap some (sym same)) in absurd cc

pub append_event-EventsOk :
    (e : ScheduleEvent) (next : ℕ) (events : List ScheduleEvent)
    → EventsOk next events
    → key_taken e e.idempotency_key events ≡ false
    → EventsOk (suc next) (events ++ record e { id = next } ∷ [])
append_event-EventsOk e next events k free = record {
  numbered =
      All-append_row _ events _ (All-map _ _ events (λ a low. omega (arith, low)) k.numbered)
        (omega arith);
  events_unique = Unique-append_row EventsApart events _ k.events_unique (
      In-All _ events λ a i. (
        λ same. absurd (omega (arith, same, All-In _ a events k.numbered i)),
        free_key e events e.idempotency_key refl free a i,
      ));
}
