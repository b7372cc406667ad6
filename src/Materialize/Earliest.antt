-- ===== src/Materialize/Earliest.antt =====
-- `RefreshNextRunDate` of internal/materialize.
use replenishment_system.Common.{
  ◌≡◌, ◌⊎◌, inl, inr, refl, ap, arith, Bool, true, false, not, Option, none, some, List, [], ◌∷◌,
  Bool-cases, if◌then◌else◌,
}
use replenishment_system.Common.Lists.{All}
use replenishment_system.Calendar.{Date, before, after}
use replenishment_system.Domain.Types.{Schedule, Occurrence, Outcome, ok}
use replenishment_system.Store.Rows.{In, select, place_row, order_by}
use replenishment_system.Store.Db.{Db}
use replenishment_system.Store.Scope.{Scope}
use replenishment_system.Store.Schedules.{get_schedule, update_schedule_next_run}
use replenishment_system.Store.Occurrences.{
  is_planned, of_schedule, by_sequence, list_planned_occurrences,
}
use replenishment_system.Store.Rows.Laws.{In-order_by, In-All}
use replenishment_system.Store.Found.{update_schedule_found, get_schedule-update_schedule}
use replenishment_system.Materialize.{earlier, earliest_after, refresh_next_run_date}

before_trans : (a b c : Date) → before a b ≡ true → before b c ≡ true → before a c ≡ true
unfolding before
before_trans a b c h k = ground arith

before_irrefl : (a : Date) → before a a ≡ false
unfolding before
before_irrefl a = ground arith

before_false_trans : (x d e : Date) → before x e ≡ false → before d e ≡ true → before x d ≡ false
before_false_trans x d e h k = elim (Bool-cases (before x d)) [
  | inr f ↦ f
  | inl t ↦ cc (before_trans x d e t k, h)
]

-- A date that is not after `today`, or that is no earlier than the best one.
abbrev pub Unbeaten : Date → Date → Option Date → Type 0
Unbeaten today x none = before today x ≡ false
Unbeaten today x (some d) = (before today x ≡ false) ⊎ (before x d ≡ false)

module _ (today : Date) where
  abbrev pub consider : Date → Option Date → Option Date
  consider d next = if not (before today d) then next else earlier d next

  consider-keeps :
      (d : Date) (next : Option Date) (x : Date)
      → Unbeaten today x next
      → Unbeaten today x (consider d next)
  consider-keeps d none x h = elim (Bool-cases (before today d)) [
    | inl late ↦ rw late (inl h)
    | inr early ↦ rw early h
  ]
  consider-keeps d (some e) x h = elim (Bool-cases (before today d)) [
    | inr early ↦ rw early h
    | inl late ↦ elim (Bool-cases (before d e)) [
      | inr ge ↦ rw (late, ge) h
      | inl lt ↦
          rw (late, lt)
            (elim h [ inl past ↦ inl past | inr ok_e ↦ inr (before_false_trans x d e ok_e lt) ])
    ]
  ]

  consider_own : (d : Date) (next : Option Date) → Unbeaten today d (consider d next)
  consider_own d next = elim (Bool-cases (before today d)) [
    | inr early ↦ rw early (past next early)
    | inl late ↦ rw late (best next)
  ]
    where
      past : (o : Option Date) → before today d ≡ false → Unbeaten today d o
      past none e = e
      past (some b) e = inl e

      best : (o : Option Date) → Unbeaten today d (earlier d o)
      best none = inr (before_irrefl d)
      best (some e) = elim (Bool-cases (before d e)) [
        | inl lt ↦ rw lt (inr (before_irrefl d))
        | inr ge ↦ rw ge (inr ge)
      ]

  earliest_after-keeps :
      (rows : List Occurrence) (next : Option Date) (x : Date)
      → Unbeaten today x next
      → Unbeaten today x (earliest_after today next rows)
  unfolding earliest_after after
  earliest_after-keeps [] next x h = h
  earliest_after-keeps (o ∷ rest) next x h =
      earliest_after-keeps rest (consider o.scheduled_for next) x
        (consider-keeps o.scheduled_for next x h)

  earliest_after-Unbeaten :
      (rows : List Occurrence) (next : Option Date) (x : Occurrence)
      → In x rows
      → Unbeaten today x.scheduled_for (earliest_after today next rows)
  unfolding earliest_after after
  earliest_after-Unbeaten [] next x i = absurd i
  earliest_after-Unbeaten (o ∷ rest) next x (inl e) = rw e (
      earliest_after-keeps rest (consider o.scheduled_for next) o.scheduled_for
        (consider_own o.scheduled_for next))
  earliest_after-Unbeaten (o ∷ rest) next x (inr i) =
      earliest_after-Unbeaten rest (consider o.scheduled_for next) x i

  -- A date that comes out is the first candidate, or that of a row after today.
  earliest_after-In :
      (rows : List Occurrence) (next : Option Date) (d : Date)
      → earliest_after today next rows ≡ some d
      → (next ≡ some d)
        ⊎ ((o : Occurrence) × In o rows × (o.scheduled_for ≡ d) × (before today d ≡ true))
  unfolding earliest_after after
  earliest_after-In [] next d e = inl e
  earliest_after-In (o ∷ rest) next d e =
      elim (earliest_after-In rest (consider o.scheduled_for next) d e) [
        | inr (x, i, same, late) ↦ inr (x, inr i, same, late)
        | inl now ↦ from_head next now
      ]
    where
      from_head :
          (n : Option Date)
          → consider o.scheduled_for n ≡ some d
          → (n ≡ some d)
            ⊎ ((x : Occurrence) × In x (o ∷ rest) × (x.scheduled_for ≡ d) × (before today d ≡ true))
      from_head n e = elim (Bool-cases (before today o.scheduled_for)) [
        | inr early ↦ inl (rw early at e)
        | inl late ↦ taken n late (rw late at e)
      ]
        where
          taken :
              (n : Option Date)
              → before today o.scheduled_for ≡ true
              → earlier o.scheduled_for n ≡ some d
              → (n ≡ some d)
                ⊎ ((x : Occurrence) × In x (o ∷ rest)
                    × (x.scheduled_for ≡ d)
                    × (before today d ≡ true))
          taken none late e =
              let same : o.scheduled_for ≡ d = cc e in inr (o, inl refl, same, rw same at late)
          taken (some b) late e = elim (Bool-cases (before o.scheduled_for b)) [
            | inr ge ↦ inl (rw ge at e)
            | inl lt ↦
                let same : o.scheduled_for ≡ d = cc (rw lt at e) in
                inr (o, inl refl, same, rw same at late)
          ]

module _ {A : Type 0} where
  place_row-In :
      (less : A → A → Bool) (x y : A) (ys : List A) → (x ≡ y) ⊎ In x ys → In x (place_row less y ys)
  unfolding place_row
  place_row-In less x y [] i = i
  place_row-In less x y (z ∷ zs) i = ground (arith, place_row-In less x y zs)

  order_by-In : (less : A → A → Bool) (x : A) (xs : List A) → In x xs → In x (order_by less xs)
  unfolding order_by
  order_by-In less x [] i = i
  order_by-In less x (y ∷ ys) (inl e) = place_row-In less x y (order_by less ys) (inl e)
  order_by-In less x (y ∷ ys) (inr i) =
      place_row-In less x y (order_by less ys) (inr (order_by-In less x ys i))

-- The date of one of the rows, after `today`; or none.
abbrev pub Attained : Date → List Occurrence → Option Date → Type 0
Attained today rows none = Unit {0}
Attained today rows (some d) =
    (o : Occurrence) × In o rows × (o.scheduled_for ≡ d) × (before today d ≡ true)

-- The schedule that a caller finds afterwards has as its next run the earliest date after `today` of
-- its planned orders, or none where no planned order is after `today`.
pub record NextRun (today : Date) (scope : Scope) (s : Schedule) (planned : List Occurrence)
    (r : Outcome × Db) : Type 0 where
  pub next : Option Date
  pub answered : r.0 ≡ ok tt
  pub found : (get_schedule s.id scope r.1).0 ≡ ok (record s { next_run_date = next })
  pub earliest : All (λ (o : Occurrence). Unbeaten today o.scheduled_for next) planned
  pub attained : Attained today planned next

-- For a schedule that the caller finds, the refresh of `next_run_date` succeeds, and sets it to the
-- earliest date after today among the schedule's planned orders, or to none where there is no such
-- date; nothing else of the schedule changes.
pub refresh_next_run_date-NextRun :
    (scope : Scope) (s : Schedule) (today : Date) (db : Db)
    → (get_schedule s.id scope db).0 ≡ ok s
    → NextRun today scope s
        (select (of_schedule s.id is_planned) db.occurrences)
        (refresh_next_run_date s today db)
unfolding refresh_next_run_date list_planned_occurrences update_schedule_next_run
refresh_next_run_date-NextRun scope s today db found = record {
  next = date;
  answered =
      ap (λ r. r.0)
        (update_schedule_found s.id scope (λ x. record x { next_run_date = date }) db s found);
  found =
      get_schedule-update_schedule s.id scope (λ x. record x { next_run_date = date }) db s
        (λ x. refl) (λ x. refl) found;
  earliest =
      In-All (λ (o : Occurrence). Unbeaten today o.scheduled_for date) rows
        (λ o i. earliest_after-Unbeaten today ordered none o (order_by-In sooner_number o rows i));
  attained = reached date refl;
}
  where
    rows : List Occurrence
    rows = select (of_schedule s.id is_planned) db.occurrences

    sooner_number : Occurrence → Occurrence → Bool
    sooner_number = by_sequence

    ordered : List Occurrence
    ordered = order_by sooner_number rows

    date : Option Date
    date = earliest_after today none ordered

    reached : (o : Option Date) → date ≡ o → Attained today rows o
    reached none e = tt
    reached (some d) e = elim (earliest_after-In today ordered none d e) [
      | inl h ↦ cc h
      | inr (o, i, same, late) ↦ (o, In-order_by sooner_number o rows i, same, late)
    ]
