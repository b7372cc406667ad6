-- ===== src/Http/Create/Again.antt =====
-- `Create` of internal/httpapi/schedules.go for a checkout that is sent again.
use mathlib.Core.List.{Perm}
use replenishment_system.Common.{
  false, map, ℕ, suc, ◌≡◌, ◌≢◌, refl, sym, ap, subst, ◌∙◌, arith, ◌||◌, List, [], ◌∷◌, Bool-cases,
  inl, inr,
}
use replenishment_system.Common.Int.{ltb_ℤ, pos, pos_part}
use replenishment_system.Calendar.{Date}
use replenishment_system.Common.Text.{Text, text_eq}
use replenishment_system.Domain.Types.{
  Schedule, ScheduleItem, not_found, no_transaction, duplicate_occurrence, duplicate_schedule,
  transition, invalid, Result, ok, err,
}
use replenishment_system.Store.Db.{Db, pool, in_transaction, in_tx, commit_or_rollback}
use replenishment_system.Store.Schedules.{
  items_of, get_schedule_by_origin_order_id, list_schedule_items,
}
use replenishment_system.Store.Scope.{system_scope}
use replenishment_system.Store.Integrity.{WellFormed}
use replenishment_system.Http.{
  Response, ScheduleResponse, reply, one_schedule, Incoming, decode_json, item_response,
  to_response,
}
use replenishment_system.Http.Create.{
  Checkout, CreateRequest, ItemRequest, checked_request, validated, checked_items, with_item,
  new_schedule, create_steps, created_reply, existing_reply, existing_items, create_validated,
  create_decoded, create_handler,
}
use replenishment_system.Http.Create.Filed.{listed-Perm}
use replenishment_system.Http.Create.Inserted.{
  Created, create_steps-Created, stored, second_refused, found_again,
}
use replenishment_system.Http.Create.Valid.{validated-Checks}

-- The checks on the items do not depend on the fresh identifiers.
checked_items_again :
    (f g : ℕ → Text) (id again : Text) (n : ℕ) (its : List ItemRequest) (items : List ScheduleItem)
    → checked_items f id n its ≡ ok items
    → (others : List ScheduleItem) × (checked_items g again n its ≡ ok others)
unfolding checked_items
checked_items_again f g id again n [] items e = ([], refl)
checked_items_again f g id again n (it ∷ its) items e =
    elim (Bool-cases (text_eq it.sku [] || ltb_ℤ it.quantity (pos 1))) [
      | inl bad ↦ absurd (
          let no : err (invalid "each item needs a sku and a quantity of at least 1") ≡ ok items =
            rw bad at e in
          cc)
      | inr good ↦
          let (rest, listed) =
            with_item_ok _ (checked_items f id (suc n) its) items (rw good at e) in
          let (others, found) = checked_items_again f g id again (suc n) its rest listed in
          let now : ScheduleItem = record {
            id = g n;
            schedule_id = again;
            sku = it.sku;
            quantity = pos_part it.quantity;
          } in
          (now ∷ others, rw (good, found) refl)
    ]
  where
    with_item_ok :
        (x : ScheduleItem) (r : Result (List ScheduleItem)) (ys : List ScheduleItem)
        → with_item x r ≡ ok ys
        → (xs : List ScheduleItem) × (r ≡ ok xs)
    with_item_ok x (ok xs) ys e = (xs, refl)
    with_item_ok x (err y) ys e = absurd cc

validated_again :
    (h : Checkout) (rows others : List Schedule) (req : CreateRequest) (anchor : Date)
    (discount : ℕ) (items : List ScheduleItem)
    → checked_request h req ≡ ok (anchor, discount)
    → checked_items (h.new_item_id rows) (h.new_schedule_id rows) 0 req.items ≡ ok items
    → (more : List ScheduleItem) × (validated h others req
        ≡ ok (new_schedule req (h.new_schedule_id others) anchor discount, more))
unfolding validated
validated_again h rows others req anchor discount items e f =
    let (more, g) =
      checked_items_again (h.new_item_id rows) (h.new_item_id others) (h.new_schedule_id rows)
        (h.new_schedule_id others) 0 req.items items f in
    (more, rw (e, g) refl)

-- The second of two answers shows the schedule of the first, with status 200 and in the same
-- database; its items are the same ones, but may stand in another order.
pub record Recognised (first second : Response × Db) : Type 0 where
  pub unchanged : second.1 ≡ first.1
  pub code_is : second.0.code ≡ 200
  pub created : ScheduleResponse
  pub again : ScheduleResponse
  pub created_shown : first.0.body ≡ one_schedule created
  pub again_shown : second.0.body ≡ one_schedule again
  pub same : record again { items = created.items } ≡ created
  pub items_same : Perm again.items created.items

existing_reply-Recognised :
    (h : Checkout) (s : Schedule) (n : ℕ) (items : List ScheduleItem) (db : Db)
    → h.item_reads.breaks s.id db ≡ false
    → Perm
        (map item_response (items_of h.item_reads s.id system_scope db))
        (map item_response items)
    → Recognised
        (reply 201 (one_schedule (to_response s items)), db)
        (existing_reply h (ok (record s { created_at = n }), db))
unfolding list_schedule_items to_response
existing_reply-Recognised h s n items db whole perm = rw whole (record {
  unchanged = refl;
  code_is = refl;
  created = to_response s items;
  again = to_response (record s { created_at = n }) (items_of h.item_reads s.id system_scope db);
  created_shown = refl;
  again_shown = refl;
  same = refl;
  items_same = perm;
})

refused_reply :
    (h : Checkout) (origin : Text) (s : Schedule) (items : List ScheduleItem) (db : Db)
    (r : Result (Unit {0}) × Db)
    → r.0 ≡ err duplicate_schedule
    → created_reply h origin s items (commit_or_rollback db r)
      ≡ existing_reply h (get_schedule_by_origin_order_id origin db)
refused_reply h origin s items db (ok u, d) e = absurd cc
refused_reply h origin s items db (err x, d) e =
    let same : x ≡ duplicate_schedule = cc e in rw same refl

existing_items-code :
    (s : Schedule) (r : Result (List ScheduleItem) × Db) → (existing_items s r).0.code ≢ 201
existing_items-code s (ok items, d) e = absurd (omega (arith, e))
existing_items-code s (err x, d) e = absurd (omega (arith, e))

existing_reply-code : (h : Checkout) (r : Result Schedule × Db) → (existing_reply h r).0.code ≢ 201
existing_reply-code h (ok s, d) = existing_items-code s _
existing_reply-code h (err x, d) = λ e. absurd (omega (arith, e))

module _ (h : Checkout) (req : CreateRequest) (id again : Text) (anchor : Date) (discount : ℕ)
    (items more : List ScheduleItem) (db : Db) where
  abbrev first_reply : Result (Unit {0}) × Db → Response × Db
  first_reply r =
      created_reply h req.origin_order_id (new_schedule req id anchor discount) items
        (commit_or_rollback db r)

  abbrev second_reply : Db → Response × Db
  second_reply d =
      created_reply h req.origin_order_id (new_schedule req again anchor discount) more
        (in_tx pool (create_steps h (new_schedule req again anchor discount) more) d)

  second_reply_is :
      (d : Db)
      → Created h (new_schedule req id anchor discount) items db d
      → second_reply d ≡ existing_reply h (ok (stored req id anchor discount db), d)
  unfolding in_tx
  second_reply_is d c =
      refused_reply h req.origin_order_id (new_schedule req again anchor discount) more d
        (create_steps h (new_schedule req again anchor discount) more in_transaction d)
        (second_refused h req id again anchor discount items db d c more)
      ∙ ap (existing_reply h) (found_again h req id again anchor discount items db d c)

  first_reply-Recognised :
      (r : Result (Unit {0}) × Db)
      → WellFormed db
      → ((s : Text) (d : Db) → h.item_reads.breaks s d ≡ false)
      → create_steps h (new_schedule req id anchor discount) items in_transaction db ≡ r
      → (first_reply r).0.code ≡ 201
      → Recognised (first_reply r) (second_reply (first_reply r).1)
  first_reply-Recognised (ok u, d) w whole e code =
      let c : Created h (new_schedule req id anchor discount) items db d =
        subst
          (λ (r : Result (Unit {0}) × Db).
            Created h (new_schedule req id anchor discount) items db r.1)
          e
          (create_steps-Created h (new_schedule req id anchor discount) items db
            (ap (λ (r : Result (Unit {0}) × Db). r.0) e)) in
      subst (Recognised (first_reply (ok u, d))) (sym (second_reply_is d c)) (
        existing_reply-Recognised h (new_schedule req id anchor discount) db.clock items d
          (whole id d) (listed-Perm h.item_reads id items db d w c.inserted.new c.items_are))
  first_reply-Recognised (err not_found, d) w whole e code = absurd (omega (arith, code))
  first_reply-Recognised (err no_transaction, d) w whole e code = absurd (omega (arith, code))
  first_reply-Recognised (err duplicate_occurrence, d) w whole e code = absurd (omega (arith, code))
  first_reply-Recognised (err duplicate_schedule, d) w whole e code =
      absurd (existing_reply-code h (get_schedule_by_origin_order_id req.origin_order_id db) code)
  first_reply-Recognised (err (transition a s m), d) w whole e code = absurd (omega (arith, code))
  first_reply-Recognised (err (invalid m), d) w whole e code = absurd (omega (arith, code))

passed-Recognised :
    (h : Checkout) (req : CreateRequest) (db : Db) (anchor : Date) (discount : ℕ)
    (items : List ScheduleItem)
    → WellFormed db
    → ((s : Text) (d : Db) → h.item_reads.breaks s d ≡ false)
    → checked_request h req ≡ ok (anchor, discount)
    → checked_items (h.new_item_id db.schedules) (h.new_schedule_id db.schedules) 0 req.items
      ≡ ok items
    → (first : Response × Db)
    → first_reply h req (h.new_schedule_id db.schedules) [] anchor discount items [] db (
        create_steps h
          (new_schedule req (h.new_schedule_id db.schedules) anchor discount)
          items
          in_transaction
          db)
      ≡ first
    → first.0.code ≡ 201
    → Recognised first (create_decoded h (ok req) first.1)
passed-Recognised h req db anchor discount items w whole passed listed first e code =
    let id = h.new_schedule_id db.schedules in
    let (more, g) =
      validated_again h db.schedules first.1.schedules req anchor discount items passed listed in
    subst
      (λ (r : Result (Schedule × List ScheduleItem)).
        Recognised first (create_validated h req.origin_order_id r first.1))
      (sym g)
      (subst
        (λ (x : Response × Db).
          x.0.code ≡ 201
          → Recognised x (
              second_reply h req id (h.new_schedule_id first.1.schedules) anchor discount items more
                db x.1))
        e
        (first_reply-Recognised h req id (h.new_schedule_id first.1.schedules) anchor discount items
          more db _ w whole refl)
        code)

create_validated-Recognised :
    (h : Checkout) (req : CreateRequest) (db : Db) (r : Result (Schedule × List ScheduleItem))
    → WellFormed db
    → ((s : Text) (d : Db) → h.item_reads.breaks s d ≡ false)
    → validated h db.schedules req ≡ r
    → (create_validated h req.origin_order_id r db).0.code ≡ 201
    → Recognised
        (create_validated h req.origin_order_id r db)
        (create_decoded h (ok req) (create_validated h req.origin_order_id r db).1)
unfolding in_tx
create_validated-Recognised h req db (err x) w whole e code = absurd (omega (arith, code))
create_validated-Recognised h req db (ok (s, items)) w whole e code =
    let c = validated-Checks h db.schedules req s items e in
    passed-Recognised h req db c.anchor c.discount items w whole c.passed c.items_listed
      (create_validated h req.origin_order_id (ok (s, items)) db)
      (ap (λ (x : Schedule). create_validated h req.origin_order_id (ok (x, items)) db)
        (sym c.schedule_is))
      code

-- A checkout that was answered with 201 and is sent again, with no other request in between, is
-- answered with 200 and the schedule that it created, with the same items in some order, and changes
-- nothing in the database. The database has to be well-formed, and no read of items to fail.
pub create_handler_again :
    (h : Checkout) (body : Incoming CreateRequest) (db : Db)
    → WellFormed db
    → ((s : Text) (d : Db) → h.item_reads.breaks s d ≡ false)
    → (create_handler h body db).0.code ≡ 201
    → Recognised (create_handler h body db) (create_handler h body (create_handler h body db).1)
unfolding create_handler
create_handler_again h body db w whole code = go (decode_json body) code
  where
    go :
        (r : Result CreateRequest)
        → (create_decoded h r db).0.code ≡ 201
        → Recognised (create_decoded h r db) (create_decoded h r (create_decoded h r db).1)
    go (err x) code = absurd (omega (arith, code))
    go (ok req) code =
        create_validated-Recognised h req db (validated h db.schedules req) w whole refl code
