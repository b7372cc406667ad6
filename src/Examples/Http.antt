-- ===== src/Examples/Http.antt =====
-- Requests to the routes of internal/httpapi on the small database.
use replenishment_system.Common.{
  ◌≢◌, sym, ◌∙◌, ◌<◌, ◌≡◌, ◌↔◌, refl, arith, true, false, some, none, [], ◌∷◌,
}
use replenishment_system.Common.Int.{pos}
use replenishment_system.Common.Text.{Text, text, text_eq}
use replenishment_system.Calendar.{is_leap, month_len}
use replenishment_system.Calendar.Days.{IsValid}
use replenishment_system.Domain.Types.{ok}
use replenishment_system.Domain.Cadence.{validate_interval}
use replenishment_system.Domain.DateText.{
  date_string, parse_date, read_digits, read_dash, checked_date,
}
use replenishment_system.Domain.DateText.Laws.{parse_date-date_string, parse_date_shown}
use replenishment_system.Domain.Transitions.{validate_email}
use replenishment_system.Store.Rows.{select, exists_row, first_row}
use replenishment_system.Store.Db.{in_tx}
use replenishment_system.Store.Scope.{filter_own}
use replenishment_system.Store.Schedules.{
  get_schedule, create_schedule, insert_schedule, insert_items, insert_item, item_refused,
}
use replenishment_system.Store.Events.{append_event}
use replenishment_system.Store.Integrity.{WellFormed}
use replenishment_system.Auth.{
  Principal, kind_customer, kind_service, new_service_key_verifier, verify_service_key,
  verify_token, authenticate, parse_bearer, strip_scheme, trim_space, trim_start, leading_space,
  trailing_space, drop_bytes, reversed,
}
use replenishment_system.Auth.Laws.{verify_service_key_iff}
use replenishment_system.Http.{error, Incoming, end_of_file, decode_json, scope_for}
use replenishment_system.Http.Schedules.{get_handler}
use replenishment_system.Http.Create.{
  Checkout, CreateRequest, create_handler, validated, checked_request, checked_items, create_steps,
}
use replenishment_system.Http.Create.Again.{Recognised, create_handler_again}
use replenishment_system.Http.Router.{
  Server, Endpoint, serve, get_route, change_route, skip_route, require_customer, guarded,
}
use replenishment_system.Http.Router.Unchanged.{items_lost, serve_unchanged}
use replenishment_system.Http.Router.Own.{serve-Shows}
use replenishment_system.Http.Router.Shown.{Shows}
use replenishment_system.Http.Router.Kept.{serve-WellFormed, Touches, serve-Touches}
use replenishment_system.Examples.Data.{
  shop, shop-WellFormed, service, service-ClockOk, order_date, order_date-IsValid,
}

abbrev checkout : Checkout
checkout = record {
  zone_exists = λ zone. true;
  parses = λ email. true;
  normalize_discount_pct = λ bits. ok 0;
  new_schedule_id = λ rows. text "s3";
  new_item_id = λ rows n. text "i1";
  item_reads = record { text_less = λ a b. false; breaks = λ id db. false };
}

-- A token is the identifier of its customer, and a digest is the text itself.
abbrev server : Server
server = record {
  checkout = checkout;
  transitions = record {
    service = service;
    item_reads = record { text_less = λ a b. false; breaks = λ id db. false };
  };
  middleware = record {
    tokens = record { parse = λ t. some (record { valid = true; subject = t }) };
    service_key = new_service_key_verifier (λ t. t) (text "key");
  };
}

abbrev owner_header : Text
owner_header = text "Bearer c1"

abbrev owner_principal : Principal
owner_principal = record { kind = kind_customer; customer_id = text "c1" }

owner_token :
    authenticate (verify_token server.middleware.tokens) owner_header ≡ some owner_principal
unfolding authenticate parse_bearer strip_scheme trim_space trim_start leading_space trailing_space
    drop_bytes reversed verify_token text_eq
owner_token = refl

owner_no_key : authenticate (verify_service_key server.middleware.service_key) owner_header ≡ none
unfolding authenticate parse_bearer strip_scheme trim_space trim_start leading_space trailing_space
    drop_bytes reversed verify_service_key new_service_key_verifier text_eq
owner_no_key = refl

abbrev skip_endpoint : Endpoint
skip_endpoint = change_route (text "s1") (
    skip_route (record {
      content_length = pos 9;
      first = some (record { idempotency_key = text "k1" });
      trailing = end_of_file;
    }))

serve-Shows_example :
    Shows
      (text "c1")
      (serve server owner_header skip_endpoint shop).1
      (serve server owner_header skip_endpoint shop).0.body
serve-Shows_example =
    serve-Shows server owner_header owner_principal skip_endpoint shop owner_token owner_no_key

serve-Touches_example : Touches (text "c1") shop (serve server owner_header skip_endpoint shop).1
serve-Touches_example =
    serve-Touches server owner_header owner_principal skip_endpoint shop service-ClockOk
      shop-WellFormed owner_token owner_no_key

serve-WellFormed_example : WellFormed (serve server owner_header skip_endpoint shop).1
serve-WellFormed_example =
    serve-WellFormed server owner_header skip_endpoint shop service-ClockOk shop-WellFormed

missing_code : (serve server owner_header (get_route (text "s9")) shop).0.code ≡ 404
unfolding serve require_customer guarded authenticate parse_bearer strip_scheme trim_space
    trim_start leading_space trailing_space drop_bytes reversed verify_token text_eq get_handler
    scope_for get_schedule select first_row filter_own
missing_code = refl

missing_body :
    (serve server owner_header (get_route (text "s9")) shop).0.body ≡ error "schedule not found"
unfolding serve require_customer guarded authenticate parse_bearer strip_scheme trim_space
    trim_start leading_space trailing_space drop_bytes reversed verify_token text_eq get_handler
    scope_for get_schedule select first_row filter_own
missing_body = refl

missing_readable : (serve server owner_header (get_route (text "s9")) shop).0.body ≢ items_lost
missing_readable e =
    let bad : error "schedule not found" ≡ items_lost = sym missing_body ∙ e in absurd cc

serve_unchanged_example : (serve server owner_header (get_route (text "s9")) shop).1 ≡ shop
serve_unchanged_example =
    serve_unchanged server owner_header (get_route (text "s9")) shop (omega (arith, missing_code))
      missing_readable

abbrev order_request : CreateRequest
order_request = record {
  customer_id = text "c2";
  customer_email = text "c2@example.com";
  origin_order_id = text "w7";
  interval_days = pos 30;
  anchor_date = text "2026-03-01";
  timezone = text "UTC";
  payment_token_ref = [];
  shipping_address_id = [];
  discount_pct = 0;
  items = record { sku = text "x"; quantity = pos 2 } ∷ [];
}

abbrev order_body : Incoming CreateRequest
order_body = record { content_length = pos 99; first = some order_request; trailing = end_of_file }

created_code : (create_handler checkout order_body shop).0.code ≡ 201
unfolding create_handler decode_json validated checked_request validate_email validate_interval
    parse_date read_digits read_dash checked_date month_len is_leap checked_items create_steps in_tx
    create_schedule insert_schedule insert_items insert_item item_refused append_event exists_row
    text_eq
created_code = refl

create_handler_again_example :
    Recognised
      (create_handler checkout order_body shop)
      (create_handler checkout order_body (create_handler checkout order_body shop).1)
create_handler_again_example =
    create_handler_again checkout order_body shop shop-WellFormed (λ id db. refl) created_code

verify_service_key_iff_example :
    (verify_service_key (new_service_key_verifier (λ t. t) (text "key")) (text "c1")
      ≡ some (record { kind = kind_service; customer_id = [] }))
    ↔ (text "c1" ≡ text "key")
verify_service_key_iff_example = verify_service_key_iff (λ t. t) (text "key") (text "c1")

parse_date-date_string_example : parse_date (date_string order_date) ≡ some order_date
parse_date-date_string_example = parse_date-date_string order_date order_date-IsValid (omega arith)

parse_date_shown_example :
    IsValid order_date
    × (order_date.year < 10000)
    × (date_string order_date ≡ date_string order_date)
parse_date_shown_example =
    parse_date_shown (date_string order_date) order_date parse_date-date_string_example
