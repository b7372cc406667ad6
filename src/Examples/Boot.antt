-- ===== src/Examples/Boot.antt =====
-- An environment that internal/config accepts.
use replenishment_system.Common.{◌≡◌, refl, if◌then◌else◌}
use replenishment_system.Common.Int.{pos}
use replenishment_system.Common.Text.{Text, text, text_eq}
use replenishment_system.Domain.Types.{ok}
use replenishment_system.Config.{
  Config, config_of, load, require_secret, require_auth, atoi, digits_value,
}
use replenishment_system.Config.Boot.{Bootable, load-Bootable}

abbrev environment : Text → Text
environment key =
    if text_eq key (text "DATABASE_URL")
    then text "postgres://db/orders"
    else if text_eq key (text "PORT")
    then text "9000"
    else if text_eq key (text "MATERIALIZE_HORIZON")
    then text "+2"
    else if text_eq key (text "PORTAL_JWT_SECRET")
    then text "0123456789abcdef0123456789abcdef"
    else if text_eq key (text "SERVICE_API_KEY")
    then text "fedcba9876543210fedcba9876543210"
    else text ""

abbrev loaded : Config
loaded = config_of environment (pos 9000) (pos 2)

loads : load environment ≡ ok loaded
unfolding load text_eq atoi digits_value
loads = refl

authenticates : require_auth loaded ≡ ok tt
unfolding require_auth require_secret text_eq
authenticates = refl

load-Bootable_example : Bootable loaded
load-Bootable_example = load-Bootable environment loaded loads authenticates
