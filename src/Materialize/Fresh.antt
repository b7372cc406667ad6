-- ===== src/Materialize/Fresh.antt =====
-- The INSERT of the occurrence that internal/materialize plans next.
use replenishment_system.Common.{
  ℕ, suc, ◌+◌, ◌≤◌, ◌≡◌, refl, sym, ap, ◌∙◌, arith, true, false, ◌&&◌, List, [], ◌∷◌, ◌++◌,
  Bool-cases, inl, inr, ◌==◌,
}
use replenishment_system.Common.Lists.{All}
use replenishment_system.Common.Text.{Text, text_eq, text_eq_refl, text_eq_sound}
use replenishment_system.Calendar.{Date}
use replenishment_system.Domain.Types.{Schedule, Occurrence, ok}
use replenishment_system.Domain.Cadence.{idempotency_key}
use replenishment_system.Domain.Cadence.Keys.{idempotency_key_inj}
use replenishment_system.Store.Rows.{In, exists_row}
use replenishment_system.Store.Rows.Laws.{exists_row-none, In-All, All-In}
use replenishment_system.Store.Db.{Db}
use replenishment_system.Store.Occurrences.{conflicts_with, create_occurrence, max_sequence}
use replenishment_system.Store.Events.{append_event}
use replenishment_system.Store.Integrity.{OccurrenceOk}
use replenishment_system.Materialize.{
  Materializer, planned_occurrence, materialized_event, plan_one,
}

-- `uuid.NewString` gives an identifier that no row of the table has.
pub record FreshIds (m : Materializer) : Type 0 where
  pub fresh :
      (rows : List Occurrence)
      → exists_row (λ (row : Occurrence). text_eq row.id (m.new_id rows)) rows ≡ false

-- Every row of the schedule is counted by the maximum.
max_sequence-above :
    (id : Text) (x : Occurrence) (rows : List Occurrence)
    → In x rows
    → x.schedule_id ≡ id
    → x.sequence_no ≤ max_sequence id rows
unfolding max_sequence
max_sequence-above id x [] i e = absurd i
max_sequence-above id x (y ∷ ys) (inl same) e =
    let hit : text_eq y.schedule_id id ≡ true =
      rw (sym (ap (λ (o : Occurrence). o.schedule_id) same), e) (text_eq_refl id) in
    let number : x.sequence_no ≡ y.sequence_no = ap (λ (o : Occurrence). o.sequence_no) same in
    ground (arith, hit, number)
max_sequence-above id x (y ∷ ys) (inr i) e = ground (arith, max_sequence-above id x ys i e)

pub max_sequence-append :
    (id : Text) (rows : List Occurrence) (o : Occurrence) (n : ℕ)
    → max_sequence id rows ≤ n
    → o.sequence_no ≤ n
    → max_sequence id (rows ++ o ∷ []) ≤ n
unfolding max_sequence
max_sequence-append id [] o n h k = ground arith
max_sequence-append id (x ∷ xs) o n h k = ground (arith, max_sequence-append id xs o n)

module _ (m : Materializer) (s : Schedule) where
  -- The database after one more planned occurrence and its event.
  abbrev pub planted : ℕ → Date → Db → Db
  planted seq date db = record db {
    occurrences = db.occurrences ++ planned_occurrence m s seq date db.occurrences ∷ [];
    events = db.events ++ record (materialized_event s seq date) { id = db.next_event_id } ∷ [];
    next_event_id = suc db.next_event_id;
  }

  no_conflict :
      (seq : ℕ) (date : Date) (rows : List Occurrence) (x : Occurrence)
      → OccurrenceOk x
      → In x rows
      → max_sequence s.id rows ≤ seq
      → conflicts_with (planned_occurrence m s (seq + 1) date rows) x ≡ false
  no_conflict seq date rows x k i h =
      let low : x.schedule_id ≡ s.id → x.sequence_no ≤ seq =
        λ e. omega (arith, max_sequence-above s.id x rows i e) in
      rw (other_key low, other_number low) refl
    where
      other_key :
          (x.schedule_id ≡ s.id → x.sequence_no ≤ seq)
          → text_eq x.idempotency_key (idempotency_key s.id (seq + 1)) ≡ false
      other_key low =
          elim (Bool-cases (text_eq x.idempotency_key (idempotency_key s.id (seq + 1)))) [
            | inr e ↦ e
            | inl e ↦
                let same =
                  idempotency_key_inj x.schedule_id s.id x.sequence_no (seq + 1)
                    (sym k.key_is ∙ text_eq_sound _ _ e) in
                absurd (omega (arith, low same.0, same.1))
          ]

      other_number :
          (x.schedule_id ≡ s.id → x.sequence_no ≤ seq)
          → text_eq x.schedule_id s.id && (x.sequence_no == (seq + 1)) ≡ false
      other_number low = elim (Bool-cases (text_eq x.schedule_id s.id)) [
        | inr e ↦ rw e refl
        | inl e ↦ ground (arith, low (text_eq_sound x.schedule_id s.id e))
      ]

  pub plan_one-eq :
      (seq : ℕ) (date : Date) (db : Db)
      → FreshIds m
      → All OccurrenceOk db.occurrences
      → max_sequence s.id db.occurrences ≤ seq
      → plan_one m s (seq + 1) date db ≡ (ok true, planted (seq + 1) date db)
  unfolding plan_one create_occurrence append_event
  plan_one-eq seq date db f k h =
      let free = exists_row-none _ db.occurrences (
        In-All
          (λ x. conflicts_with (planned_occurrence m s (seq + 1) date db.occurrences) x ≡ false)
          db.occurrences
          (λ x i.
            no_conflict seq date db.occurrences x (All-In OccurrenceOk x db.occurrences k i) i
              h)) in
      let positive : ((seq + 1) == 0) ≡ false = ground arith in
      rw (free, f.fresh db.occurrences, positive) refl
