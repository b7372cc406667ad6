-- ===== src/Sweep/Due.antt =====
-- Schedules that a pass of internal/sweep/sweep.go has no reason to touch.
use replenishment_system.Common.{
  ◌≡◌, refl, sym, subst, ap, ◌∙◌, arith, Bool, true, false, not, ◌&&◌, List, [], ◌∷◌, ◌++◌,
  Bool-cases, inl, inr, and_left,
}
use replenishment_system.Common.Lists.{All}
use replenishment_system.Common.Text.{Text, text_eq, text_eq_sound, text_eq_refl}
use replenishment_system.Domain.Types.{Schedule, Occurrence, ScheduleEvent}
use replenishment_system.Store.Rows.{In, select, exists_row}
use replenishment_system.Store.Rows.Laws.{In-All, All-In, exists_row-false, In-order_by, In-select}
use replenishment_system.Store.Db.{Db}
use replenishment_system.Store.Integrity.{WellFormed, other_schedule, other_occurrence}
use replenishment_system.Store.Steps.{Step}
use replenishment_system.Store.Schedules.{
  with_id, status_is_paused, due_by, list_schedules_due_to_resume,
}
use replenishment_system.Common.Int.{pos}
use replenishment_system.Calendar.{add_days}
use replenishment_system.Service.Frame.{ClockOk}
use replenishment_system.Sweep.{Sweeper, today_for, still_paused, resume_one, resume_due}
use replenishment_system.Sweep.Passes.{pass-keeps}
use replenishment_system.Sweep.Kept.{resume_one-Step}

-- The rows, occurrences and events of schedule `id` are those of before.
pub record Untouched (id : Text) (db db' : Db) : Type 0 where
  pub schedules_kept : select (with_id id) db'.schedules ≡ select (with_id id) db.schedules
  pub occurrences_kept :
      select (λ (o : Occurrence). text_eq o.schedule_id id) db'.occurrences
      ≡ select (λ (o : Occurrence). text_eq o.schedule_id id) db.occurrences
  pub events_kept :
      select (λ (e : ScheduleEvent). text_eq e.schedule_id id) db'.events
      ≡ select (λ (e : ScheduleEvent). text_eq e.schedule_id id) db.events

Untouched-trans : (id : Text) (a b c : Db) → Untouched id a b → Untouched id b c → Untouched id a c
Untouched-trans id a b c u v = record {
  schedules_kept = v.schedules_kept ∙ u.schedules_kept;
  occurrences_kept = v.occurrences_kept ∙ u.occurrences_kept;
  events_kept = v.events_kept ∙ u.events_kept;
}

module _ {A : Type 0} (p q : A → Bool) where
  select-within :
      ((x : A) → p x ≡ true → q x ≡ true) → (xs : List A) → select p (select q xs) ≡ select p xs
  unfolding select
  select-within k [] = refl
  select-within k (x ∷ xs) = ground (arith, select-within k xs, k x)

  select-only :
      ((x : A) → p x ≡ true → q x ≡ true)
      → (xs ys : List A) → select q ys ≡ select q xs
      → select p ys ≡ select p xs
  select-only k xs ys e = sym (select-within k ys) ∙ ap (select p) e ∙ select-within k xs

select-logged :
    (p : ScheduleEvent → Bool) (xs logged : List ScheduleEvent)
    → All (λ e. p e ≡ false) logged
    → select p (xs ++ logged) ≡ select p xs
unfolding select
select-logged p [] [] h = refl
select-logged p [] (e ∷ logged) h = ground (arith, h.0, select-logged p [] logged h.1)
select-logged p (x ∷ xs) logged h = ground (arith, select-logged p xs logged h)

apart_key :
    (id other key : Text)
    → text_eq other id ≡ false
    → text_eq key id ≡ true
    → not (text_eq key other) ≡ true
apart_key id other key e k = elim (Bool-cases (text_eq key other)) [
  | inl same ↦
      let a = text_eq_sound key id k in
      let b = text_eq_sound key other same in
      absurd (let bad : text_eq other id ≡ true = rw (sym b ∙ a) (text_eq_refl id) in cc)
  | inr apart ↦ rw apart refl
]

Step-Untouched :
    (id other : Text) (db db' : Db)
    → text_eq other id ≡ false
    → Step other db db'
    → Untouched id db db'
Step-Untouched id other db db' e s = record {
  schedules_kept =
      select-only (with_id id) (other_schedule other) (λ x. apart_key id other x.id e) _ _
        s.frame.schedules_kept;
  occurrences_kept =
      select-only (λ (o : Occurrence). text_eq o.schedule_id id) (other_occurrence other)
        (λ o. apart_key id other o.schedule_id e) _ _ s.frame.occurrences_kept;
  events_kept =
      ap (select (λ (x : ScheduleEvent). text_eq x.schedule_id id)) s.frame.events_are
      ∙ select-logged (λ (x : ScheduleEvent). text_eq x.schedule_id id) db.events s.frame.logged
          (In-All _ s.frame.logged λ x i.
            ap (λ t. text_eq t id)
              (All-In (λ (y : ScheduleEvent). y.schedule_id ≡ other) x s.frame.logged
                s.frame.logged_own i)
            ∙ e);
}

-- A timed pause that has come due in the schedule's own time zone.
abbrev pub has_come_due : Sweeper → Schedule → Bool
has_come_due sw s = status_is_paused s.status && not (still_paused s.paused_until (today_for sw s))

not_due_same :
    (sw : Sweeper) (s : Schedule) (db : Db)
    → still_paused s.paused_until (today_for sw s) ≡ true
    → (resume_one sw s db).1 ≡ db
unfolding resume_one
not_due_same sw s db e = rw e refl

paused_not_due :
    (id : Text) (sw : Sweeper) (s : Schedule)
    → with_id id s && has_come_due sw s ≡ false
    → with_id id s ≡ true
    → status_is_paused s.status ≡ true
    → still_paused s.paused_until (today_for sw s) ≡ true
paused_not_due id sw s e k p = ground arith

-- The pass that ends pauses touches nothing of a schedule that is not a timed pause come due in the schedule's own time
-- zone: in a well-formed database without such a row under `id`, be it active, canceled, paused
-- without an end or paused until a later day, the rows, occurrences and events of `id` stay as they are. The dates of
-- the service's clock have to be dates of the calendar.
pub resume_due-Untouched :
    (sw : Sweeper) (id : Text) (db : Db)
    → ClockOk sw.svc.clock
    → WellFormed db
    → exists_row (λ (s : Schedule). with_id id s && has_come_due sw s) db.schedules ≡ false
    → Untouched id db (resume_due sw db).1
unfolding resume_due list_schedules_due_to_resume
resume_due-Untouched sw id db clock w none_due =
    (pass-keeps (resume_one sw) (λ d. WellFormed d × Untouched id db d) _ _ db
      (In-All _ _ λ s i d k. (
        (resume_one-Step sw s d clock k.0).well_formed,
        Untouched-trans id db d (resume_one sw s d).1 k.1
            (one s (In-select _ s db.schedules (In-order_by _ s _ i)) d k.0),
      ))
      (w, record { schedules_kept = refl; occurrences_kept = refl; events_kept = refl })).1
  where
    one :
        (s : Schedule)
        → (In s db.schedules
            × (status_is_paused s.status
                  && due_by (add_days sw.clock.utc_date (pos 1)) s.paused_until
                ≡ true))
        → (d : Db) → WellFormed d
        → Untouched id d (resume_one sw s d).1
    one s (i, listed) d v = elim (Bool-cases (text_eq s.id id)) [
      | inl own ↦
          let quiet =
            All-In (λ (x : Schedule). with_id id x && has_come_due sw x ≡ false) s db.schedules
              (exists_row-false _ db.schedules none_due) i in
          let same = not_due_same sw s d (paused_not_due id sw s quiet own (and_left _ _ listed)) in
          subst (λ x. Untouched id d x) (sym same)
            (record { schedules_kept = refl; occurrences_kept = refl; events_kept = refl })
      | inr apart ↦ Step-Untouched id s.id d _ apart (resume_one-Step sw s d clock v)
    ]
