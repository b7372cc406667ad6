-- ===== src/Config.antt =====
-- internal/config/config.go. The environment is a function that answers with the empty text for a
-- variable that is not set, as `os.Getenv` does. Of a message the fixed part is kept.
pub mod Boot
use replenishment_system.Common.{
  ℕ, ◌+◌, ◌*◌, ◌-◌, Bool, true, false, not, ◌&&◌, ◌||◌, ◌==◌, Option, none, some, [], ◌∷◌, leb, ltb,
  String, if◌then◌else◌,
}
use replenishment_system.Common.Int.{ℤ, pos, negsuc, ltb_ℤ}
use replenishment_system.Common.Lists.{length}
use replenishment_system.Common.Text.{Text, text}
use replenishment_system.Domain.Types.{Result, ok, err, invalid, Outcome, ◌>>=◌, ◌>>◌}

pub record Config : Type 0 where
  pub database_url : Text
  pub port : ℤ
  pub build_sha : Text
  pub materialize_horizon : ℤ
  pub portal_jwt_secret : Text
  pub portal_jwt_issuer : Text
  pub portal_jwt_audience : Text
  pub service_api_key : Text
  pub postmark_api_key : Text
  pub notification_from_address : Text
  pub notification_support_contact : Text

abbrev pub min_secret_length : ℕ
min_secret_length = 32

abbrev pub is_empty : Text → Bool
is_empty [] = true
is_empty (c ∷ s) = false

unfoldable pub env_or : (Text → Text) → Text → Text → Text
env_or getenv key fallback = if is_empty (getenv key) then fallback else getenv key

abbrev is_digit : ℕ → Bool
is_digit c = leb 48 c && leb c 57

-- The number that digits stand for, with `n` before them.
unfoldable pub digits_value : ℕ → Text → Option ℕ
digits_value n [] = some n
digits_value n (c ∷ s) =
    let more = digits_value (n * 10 + (c - 48)) s in if is_digit c then more else none

abbrev magnitude : Text → Option ℕ
magnitude s = if is_empty s then none else digits_value 0 s

-- Go's `int` has 64 bits: the bound is 2 ^ 63.
abbrev positive : Option ℕ → Option ℤ
positive none = none
positive (some n) = if ltb n 9223372036854775808 then some (pos n) else none

abbrev opposite : ℕ → ℤ
opposite n = if leb n 0 then pos 0 else negsuc (n - 1)

abbrev negative : Option ℕ → Option ℤ
negative none = none
negative (some n) = if leb n 9223372036854775808 then some (opposite n) else none

-- `strconv.Atoi`: a sign if there is one, and at least one digit.
unfoldable pub atoi : Text → Option ℤ
atoi [] = none
atoi (c ∷ s) =
    if c == 43
    then positive (magnitude s)
    else if c == 45
    then negative (magnitude s)
    else positive (magnitude (c ∷ s))

abbrev pub checked_port : Option ℤ → Result ℤ
checked_port none = err (invalid "PORT must be a number")
checked_port (some p) =
    if ltb_ℤ p (pos 1) || ltb_ℤ (pos 65535) p then err (invalid "PORT out of range") else ok p

abbrev pub checked_horizon : Option ℤ → Result ℤ
checked_horizon none = err (invalid "MATERIALIZE_HORIZON must be a number")
checked_horizon (some h) =
    if ltb_ℤ h (pos 1) then err (invalid "MATERIALIZE_HORIZON must be at least 1") else ok h

-- A number of the environment, or the default where the variable is empty.
abbrev pub number_or : ℤ → (Option ℤ → Result ℤ) → Text → Result ℤ
number_or default check v = if is_empty v then ok default else check (atoi v)

abbrev pub config_of : (Text → Text) → ℤ → ℤ → Config
config_of getenv port horizon = record {
  database_url = getenv (text "DATABASE_URL");
  port = port;
  build_sha = env_or getenv (text "BUILD_SHA") (text "unknown");
  materialize_horizon = horizon;
  portal_jwt_secret = getenv (text "PORTAL_JWT_SECRET");
  portal_jwt_issuer = env_or getenv (text "PORTAL_JWT_ISSUER") (text "cadenceos-portal");
  portal_jwt_audience = env_or getenv (text "PORTAL_JWT_AUDIENCE") (text "cadenceos");
  service_api_key = getenv (text "SERVICE_API_KEY");
  postmark_api_key = getenv (text "POSTMARK_API_KEY");
  notification_from_address = getenv (text "NOTIFICATION_FROM_ADDRESS");
  notification_support_contact = getenv (text "NOTIFICATION_SUPPORT_CONTACT");
}

unfoldable pub load : (Text → Text) → Result Config
load getenv =
    if is_empty (getenv (text "DATABASE_URL")) then err (invalid "DATABASE_URL is required") else do
      port ← number_or (pos 8080) checked_port (getenv (text "PORT"))
      horizon ← number_or (pos 3) checked_horizon (getenv (text "MATERIALIZE_HORIZON"))
      ok (config_of getenv port horizon)

-- The argument that names the variable for the message is left out.
unfoldable pub require_secret : Text → Outcome
require_secret value =
    if is_empty value
    then err (invalid "is required")
    else if ltb (length value) min_secret_length
    then err (invalid "must be at least 32 characters")
    else ok tt

unfoldable pub require_auth : Config → Outcome
require_auth c = require_secret c.portal_jwt_secret >> require_secret c.service_api_key

-- The argument is `mail.ParseAddress`, as far as it accepts.
unfoldable pub require_notifications : (Text → Bool) → Config → Outcome
require_notifications is_address c =
    if is_empty c.postmark_api_key
    then err (invalid "POSTMARK_API_KEY is required")
    else if not (is_address c.notification_from_address)
    then err (invalid "NOTIFICATION_FROM_ADDRESS is not a valid address")
    else if is_empty c.notification_support_contact
    then err (invalid "NOTIFICATION_SUPPORT_CONTACT is required")
    else ok tt
