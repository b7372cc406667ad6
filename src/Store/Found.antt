-- ===== src/Store/Found.antt =====
-- A schedule that a caller of internal/store/store.go finds is found again, changed, after an
-- UPDATE by its id.
use replenishment_system.Common.{
  ◌≡◌, refl, arith, Bool, true, ◌&&◌, Option, none, some, Bool-cases, inl, inr, List, [], ◌∷◌,
}
use replenishment_system.Common.Text.{Text}
use replenishment_system.Domain.Types.{Schedule, not_found, ok, err}
use replenishment_system.Store.Rows.{select, update_rows, exists_row, first_row}
use replenishment_system.Store.Db.{Db}
use replenishment_system.Store.Scope.{Scope, filter_own}
use replenishment_system.Store.Schedules.{get_schedule, with_id, update_schedule}

module _ {A : Type 0} (p q : A → Bool) (f : A → A) where
  first_row-update_rows :
      (xs : List A) (x : A)
      → ((y : A) → q (f y) ≡ q y)
      → ((y : A) → q y ≡ true → p y ≡ true)
      → first_row (select q xs) ≡ some x
      → first_row (select q (update_rows p f xs)) ≡ some (f x)
  unfolding first_row select update_rows
  first_row-update_rows [] x same hit e = cc
  first_row-update_rows (y ∷ ys) x same hit e = elim (Bool-cases (q y)) [
    | inl seen_it ↦ rw (hit y seen_it, same y, seen_it) (cc (rw seen_it at e))
    | inr unseen ↦ elim (Bool-cases (p y)) [
      | inl changed ↦
          rw (changed, same y, unseen) (first_row-update_rows ys x same hit (rw unseen at e))
      | inr kept ↦ rw (kept, unseen) (first_row-update_rows ys x same hit (rw unseen at e))
    ]
  ]

  exists_row-select :
      (xs : List A) (x : A)
      → ((y : A) → q y ≡ true → p y ≡ true)
      → first_row (select q xs) ≡ some x
      → exists_row p xs ≡ true
  unfolding first_row select exists_row
  exists_row-select [] x hit e = cc
  exists_row-select (y ∷ ys) x hit e = elim (Bool-cases (q y)) [
    | inl seen_it ↦ rw (hit y seen_it) refl
    | inr unseen ↦ elim (Bool-cases (p y)) [
      | inl here ↦ rw here refl
      | inr elsewhere ↦ rw elsewhere (exists_row-select ys x hit (rw unseen at e))
    ]
  ]

module _ (id : Text) (scope : Scope) where
  seen : Schedule → Bool
  seen s = with_id id s && filter_own scope s

  or_not_found-some :
      (o : Option Schedule) (s : Schedule)
      → elim o [ none ↦ err not_found | some a ↦ ok a ] ≡ ok s
      → o ≡ some s
  or_not_found-some none s e = cc
  or_not_found-some (some x) s e = cc

  seen-with_id : (s : Schedule) → seen s ≡ true → with_id id s ≡ true
  unfolding seen
  seen-with_id s h = ground arith

  -- The UPDATE is carried out.
  pub update_schedule_found :
      (f : Schedule → Schedule) (db : Db) (s : Schedule)
      → (get_schedule id scope db).0 ≡ ok s
      → update_schedule id f db
        ≡ (ok tt, record db { schedules = update_rows (with_id id) f db.schedules })
  unfolding get_schedule update_schedule seen
  update_schedule_found f db s e =
      rw
        (exists_row-select (with_id id) seen f db.schedules s seen-with_id
          (or_not_found-some _ s e))
        refl

  -- Afterwards the caller finds the changed row, where the change keeps id and customer.
  pub get_schedule-update_schedule :
      (f : Schedule → Schedule) (db : Db) (s : Schedule)
      → ((x : Schedule) → (f x).id ≡ x.id)
      → ((x : Schedule) → (f x).customer_id ≡ x.customer_id)
      → (get_schedule id scope db).0 ≡ ok s
      → (get_schedule id scope (update_schedule id f db).1).0 ≡ ok (f s)
  unfolding get_schedule seen filter_own
  get_schedule-update_schedule f db s same_id same_customer e =
      rw (update_schedule_found f db s e) (found e)
    where
      stays : (x : Schedule) → seen (f x) ≡ seen x
      stays x = rw (same_id x, same_customer x) refl

      found :
          (get_schedule id scope db).0 ≡ ok s
          → (get_schedule id scope
              (record db { schedules = update_rows (with_id id) f db.schedules })).0
            ≡ ok (f s)
      found h =
          rw
            (first_row-update_rows (with_id id) seen f db.schedules s stays seen-with_id
              (or_not_found-some _ s h))
            refl
