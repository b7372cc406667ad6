-- ===== src/Store/Scope.antt =====
-- internal/store/scope.go: which rows a caller may see. A predicate of SQL is a test on the row.
use replenishment_system.Common.{Bool, true, false, not, ◌&&◌, [], if◌then◌else◌}
use replenishment_system.Common.Text.{Text, text_eq}
use replenishment_system.Domain.Types.{Schedule}
use replenishment_system.Store.Rows.{exists_row}
use replenishment_system.Store.Db.{Db}

pub record Scope : Type 0 where
  pub restricted : Bool
  pub customer_id : Text

abbrev pub system_scope : Scope
system_scope = record { restricted = false; customer_id = [] }

abbrev pub customer_scope : Text → Scope
customer_scope customer_id = record { restricted = true; customer_id = customer_id }

unfoldable pub filter_own : Scope → Schedule → Bool
filter_own scope s =
    if not scope.restricted
    then true
    else if text_eq scope.customer_id []
    then false
    else text_eq s.customer_id scope.customer_id

-- For a row that reaches its customer through `schedule_id`.
unfoldable pub filter_via : Scope → Db → Text → Bool
filter_via scope db schedule_id =
    if not scope.restricted
    then true
    else if text_eq scope.customer_id []
    then false
    else exists_row
        (λ (s : Schedule). text_eq s.id schedule_id && text_eq s.customer_id scope.customer_id)
        db.schedules
