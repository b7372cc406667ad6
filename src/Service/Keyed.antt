-- ===== src/Service/Keyed.antt =====
-- The events with a key that `SkipNext` and `Defer` of internal/schedule/service.go log.
use replenishment_system.Common.{
  ◌≡◌, refl, sym, ap, subst, ◌∙◌, arith, Bool, true, some, List, [], ◌∷◌, ◌++◌, Bool-cases, inl,
  inr,
}
use replenishment_system.Common.Text.{Text, text_eq_refl}
use replenishment_system.Domain.Types.{EventType, same_event, Occurrence, ScheduleEvent, ok}
use replenishment_system.Store.Rows.{exists_row}
use replenishment_system.Store.Db.{Db, Store, ◌>>=◌, ◌>>◌, >>=-runs}
use replenishment_system.Store.Events.{carries_key, append_event, key_taken}
use replenishment_system.Store.Integrity.{WellFormed}
use replenishment_system.Store.Steps.{Step, Does}
use replenishment_system.Store.Steps.ScheduleRows.{append_event-Does}

module _ {A : Type 0} (p : A → Bool) where
  exists_row-append : (xs ys : List A) → exists_row p xs ≡ true → exists_row p (xs ++ ys) ≡ true
  unfolding exists_row
  exists_row-append [] ys h = cc
  exists_row-append (x ∷ xs) ys h = ground (arith, exists_row-append xs ys)

  exists_row-last : (xs : List A) (y : A) → p y ≡ true → exists_row p (xs ++ y ∷ []) ≡ true
  unfolding exists_row
  exists_row-last [] y h = rw h refl
  exists_row-last (x ∷ xs) y h = ground (arith, exists_row-last xs y h)

same_event_refl : (t : EventType) → same_event t t ≡ true
unfolding same_event
same_event_refl t = ground arith

-- The log has an event of the schedule, of the type, with the key.
abbrev pub HasKey : Text → EventType → Text → Db → Type 0
HasKey id t key db = exists_row (carries_key id t key) db.events ≡ true

module _ (id : Text) (t : EventType) (key : Text) where
  Step-HasKey : (db db' : Db) → Step id db db' → HasKey id t key db → HasKey id t key db'
  Step-HasKey db db' s h = rw (s.frame.events_are) (exists_row-append _ db.events s.frame.logged h)

  append_event-HasKey :
      (e : ScheduleEvent) (db : Db)
      → e.schedule_id ≡ id
      → e.event_type ≡ t
      → e.idempotency_key ≡ some key
      → (append_event e db).0 ≡ ok tt
      → HasKey id t key (append_event e db).1
  unfolding append_event
  append_event-HasKey e db own typed keyed h =
      elim (Bool-cases (key_taken e e.idempotency_key db.events)) [
        | inl taken ↦ cc (rw taken at h)
        | inr free ↦ rw free (
            exists_row-last (carries_key id t key) db.events _
              (rw (own, typed, keyed, text_eq_refl id, same_event_refl t, text_eq_refl key) refl))
      ]

  -- An order is found and changed, the change is logged with the key, and something more is done.
  module _ (find : Store Occurrence) (change : Occurrence → Store (Unit {0}))
      (log : Occurrence → ScheduleEvent) (rest : Store (Unit {0}))
      (same : (db : Db) → (find db).1 ≡ db)
      (step : (db : Db) (o : Occurrence)
        → WellFormed db
        → (find db).0 ≡ ok o
        → Step id db (change o db).1)
      (own : (o : Occurrence) → (log o).schedule_id ≡ id)
      (typed : (o : Occurrence) → (log o).event_type ≡ t)
      (keyed : (o : Occurrence) → (log o).idempotency_key ≡ some key) (more : Does id rest) where
    abbrev logged_rest : Occurrence → Store (Unit {0})
    logged_rest o = append_event (log o) >> rest

    abbrev changed_rest : Occurrence → Store (Unit {0})
    changed_rest o = change o >> logged_rest o

    pub keyed-HasKey :
        (db : Db)
        → WellFormed db
        → ((find >>= changed_rest) db).0 ≡ ok tt
        → HasKey id t key ((find >>= changed_rest) db).1
    keyed-HasKey db w e =
        let (o, found, first) = >>=-runs find changed_rest db tt e in
        let start : (find >>= changed_rest) db ≡ changed_rest o db =
          first ∙ ap (changed_rest o) (same db) in
        let e1 : (changed_rest o db).0 ≡ ok tt = sym (ap (λ r. r.0) start) ∙ e in
        let (u, done, second) = >>=-runs (change o) (λ _. logged_rest o) db tt e1 in
        let d2 : Db = (change o db).1 in
        let w2 : WellFormed d2 = (step db o w found).well_formed in
        let e2 : (logged_rest o d2).0 ≡ ok tt = sym (ap (λ r. r.0) second) ∙ e1 in
        let (v, logged, third) = >>=-runs (append_event (log o)) (λ _. rest) d2 tt e2 in
        let d3 : Db = (append_event (log o) d2).1 in
        let w3 : WellFormed d3 = ((append_event-Does id (log o) (own o)).at d2 w2).well_formed in
        let has : HasKey id t key d3 =
          append_event-HasKey (log o) d2 (own o) (typed o) (keyed o) logged in
        subst (λ d. HasKey id t key d)
          (sym (ap (λ r. r.1) start ∙ ap (λ r. r.1) second ∙ ap (λ r. r.1) third))
          (Step-HasKey d3 _ (more.at d3 w3) has)
