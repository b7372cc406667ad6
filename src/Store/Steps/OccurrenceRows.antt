-- ===== src/Store/Steps/OccurrenceRows.antt =====
-- The statements on `occurrences` (internal/store/store.go), as steps on behalf of one schedule.
use replenishment_system.Common.{
  ◌≡◌, refl, ap, ◌∙◌, arith, inl, inr, Bool, true, false, ◌||◌, List, [], ◌∷◌, ◌==◌, and_left,
  and_right, or_left_false,
}
use replenishment_system.Common.Text.{Text, text_eq, text_eq_sound, text_eq_refl, text_eq_ne}
use replenishment_system.Calendar.{Date}
use replenishment_system.Calendar.Days.{IsValid}
use replenishment_system.Domain.Types.{OccurrenceStatus, Occurrence}
use replenishment_system.Store.Rows.{In, update_rows, exists_row}
use replenishment_system.Store.Rows.Laws.{
  select-update_rows_apart, select-append_apart, exists_row-false, All-update_rows, All-append_row,
  In-All, All-In,
}
use replenishment_system.Store.Db.{Db}
use replenishment_system.Store.Occurrences.{
  lacks_order, cancels, mark_canceled, status_target, with_status, date_target, with_date,
  conflicts_with, same_primary_key, create_occurrence, update_occurrences, update_occurrence_status,
  update_occurrence_date, cancel_occurrences,
}
use replenishment_system.Store.Rows.Unique.{Unique, Unique-append_row, Unique-update_rows}
use replenishment_system.Store.Integrity.{OccurrenceOk, Apart, WellFormed, other_occurrence}
use replenishment_system.Store.Steps.{Step, Step-refl, Step-rows, Step-if, Does}

-- Rows with the same primary key are one row.
pub Unique-eq :
    (x y : Occurrence) (rows : List Occurrence)
    → Unique Apart rows
    → In x rows
    → In y rows
    → x.id ≡ y.id
    → x ≡ y
Unique-eq x y [] u i j e = absurd i
Unique-eq x y (z ∷ zs) u (inl p) (inl q) e = cc
Unique-eq x y (z ∷ zs) u (inl p) (inr j) e =
    absurd ((All-In (Apart z) y zs u.0 j).0 (cc (ap (λ (o : Occurrence). o.id) p, e)))
Unique-eq x y (z ∷ zs) u (inr i) (inl q) e =
    absurd ((All-In (Apart z) x zs u.0 i).0 (cc (ap (λ (o : Occurrence). o.id) q, e)))
Unique-eq x y (z ∷ zs) u (inr i) (inr j) e = Unique-eq x y zs u.1 i j e

module _ (id : Text) where
  -- An UPDATE of rows of the schedule that keeps ids, keys, and the rows' constraints.
  pub rows-Step :
      (p : Occurrence → Bool) (f : Occurrence → Occurrence) (db : Db)
      → WellFormed db
      → ((o : Occurrence) → (f o).id ≡ o.id)
      → ((o : Occurrence) → (f o).idempotency_key ≡ o.idempotency_key)
      → ((o : Occurrence) → (f o).schedule_id ≡ o.schedule_id)
      → ((o : Occurrence) → In o db.occurrences → p o ≡ true → o.schedule_id ≡ id)
      → ((o : Occurrence) → p o ≡ true → OccurrenceOk o → OccurrenceOk (f o))
      → Step id db (record db { occurrences = update_rows p f db.occurrences })
  rows-Step p f db w same_id same_key same_schedule own keeps =
      Step-rows id db _
        (record {
          schedules_ok = w.schedules_ok;
          schedules_unique = w.schedules_unique;
          items_ok = w.items_ok;
          events_ok = w.events_ok;
          rows_ok =
              All-update_rows OccurrenceOk p f db.occurrences w.rows_ok
                (In-All _ db.occurrences (λ o i h. keeps o h));
          rows_unique =
              Unique-update_rows Apart p f
                (λ x y a. (λ e. a.0 (cc (e, same_id x)), λ e. a.1 (cc (e, same_key x))))
                (λ x y a. (λ e. a.0 (cc (e, same_id y)), λ e. a.1 (cc (e, same_key y))))
                db.occurrences w.rows_unique;
        })
        refl
        (select-update_rows_apart (other_occurrence id) p f db.occurrences
          (In-All _ db.occurrences (λ o i h. hidden o (own o i h))))
        refl refl
    where
      hidden :
          (o : Occurrence)
          → o.schedule_id ≡ id
          → (other_occurrence id o ≡ false) × (other_occurrence id (f o) ≡ false)
      hidden o e = (rw (e, text_eq_refl id) refl, rw (same_schedule o, e, text_eq_refl id) refl)

  -- A settled row with an order stays placed; a row without one may take any status.
  status_ok :
      (o : Occurrence) (status : OccurrenceStatus)
      → lacks_order o.order_id ≡ true
      → OccurrenceOk o
      → OccurrenceOk (record o { status = status })
  status_ok o status free k = record {
    key_is = k.key_is;
    date_ok = k.date_ok;
    number_ok = k.number_ok;
    order_placed = λ h. absurd (clash h);
  }
    where
      clash : lacks_order o.order_id ≡ false → ⊥
      clash h = ground arith

  pub cancel_occurrences-Does :
      (test : OccurrenceStatus → Bool) → Does id (cancel_occurrences id test)
  unfolding cancel_occurrences
  cancel_occurrences-Does test = record {
    at = λ db w.
        rows-Step (cancels id test) mark_canceled db w (λ o. refl) (λ o. refl) (λ o. refl)
          (λ o i h. text_eq_sound o.schedule_id id (and_left _ _ (and_left _ _ h)))
          (λ o h k. status_ok o OccurrenceStatus.canceled (and_right _ _ h) k);
  }

  module _ (target : Occurrence) (db : Db) (w : WellFormed db) (there : In target db.occurrences)
      (own : target.schedule_id ≡ id) where
    same_row :
        (o : Occurrence) → In o db.occurrences → text_eq o.id target.id ≡ true → o.schedule_id ≡ id
    same_row o i h =
        ap (λ (x : Occurrence). x.schedule_id)
          (Unique-eq o target db.occurrences w.rows_unique i there (text_eq_sound o.id target.id h))
        ∙ own

    pub update_occurrence_status-Step :
        (status : OccurrenceStatus) → Step id db (update_occurrence_status target.id status db).1
    unfolding update_occurrence_status update_occurrences
    update_occurrence_status-Step status =
        Step-if id db _ _ _
          (λ found.
            rows-Step (status_target target.id) (with_status status) db w (λ o. refl) (λ o. refl)
              (λ o. refl) (λ o i h. same_row o i (and_left _ _ h))
              (λ o h k. status_ok o status (and_right _ _ h) k))
          (λ gone. Step-refl id db w)

    pub update_occurrence_date-Step :
        (date : Date) → IsValid date → Step id db (update_occurrence_date target.id date db).1
    unfolding update_occurrence_date update_occurrences
    update_occurrence_date-Step date v =
        Step-if id db _ _ _
          (λ found.
            rows-Step (date_target target.id) (with_date date) db w (λ o. refl) (λ o. refl)
              (λ o. refl) (λ o i h. same_row o i (and_left _ _ h))
              (λ o h k. record {
                key_is = k.key_is;
                date_ok = v;
                number_ok = k.number_ok;
                order_placed = k.order_placed;
              }))
          (λ gone. Step-refl id db w)

  -- A row that passes the INSERT's tests is apart from the others.
  create-Apart :
      (o x : Occurrence) → conflicts_with o x ≡ false → same_primary_key o x ≡ false → Apart x o
  create-Apart o x h k =
      (text_eq_ne x.id o.id k, text_eq_ne x.idempotency_key o.idempotency_key (or_left_false _ _ h))

  pub create_occurrence-Step :
      (o : Occurrence) (db : Db)
      → WellFormed db
      → o.schedule_id ≡ id
      → OccurrenceOk o
      → Step id db (create_occurrence o db).1
  unfolding create_occurrence
  create_occurrence-Step o db w own k =
      Step-if id db (exists_row (conflicts_with o) db.occurrences) _ _ (λ taken. Step-refl id db w)
        (λ free.
          Step-if id db (exists_row (same_primary_key o) db.occurrences || (o.sequence_no == 0)) _ _
            (λ refused. Step-refl id db w)
            (λ fresh.
              Step-rows id db _
                (record {
                  schedules_ok = w.schedules_ok;
                  schedules_unique = w.schedules_unique;
                  items_ok = w.items_ok;
                  events_ok = w.events_ok;
                  rows_ok = All-append_row OccurrenceOk db.occurrences o w.rows_ok k;
                  rows_unique = Unique-append_row Apart db.occurrences o w.rows_unique (
                      In-All _ db.occurrences (λ x i.
                        create-Apart o x
                          (All-In _ x db.occurrences (exists_row-false _ db.occurrences free) i)
                          (All-In _ x db.occurrences
                            (exists_row-false _ db.occurrences (or_left_false _ _ fresh)) i)));
                })
                refl
                (select-append_apart (other_occurrence id) db.occurrences o
                  (rw (own, text_eq_refl id) refl))
                refl refl))
