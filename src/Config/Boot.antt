-- ===== src/Config/Boot.antt =====
-- What a process can count on after it has read its configuration with internal/config/config.go.
use replenishment_system.Common.{
  ℕ, ◌≤◌, ◌≡◌, refl, subst, arith, ltb, Bool, true, false, ◌||◌, Option, none, some, [], ◌∷◌,
  if◌then◌else◌,
}
use replenishment_system.Common.Int.{ℤ, pos, negsuc, ltb_ℤ}
use replenishment_system.Common.Lists.{length}
use replenishment_system.Common.Text.{Text, text}
use replenishment_system.Domain.Types.{Error, invalid, Result, ok, err, ◌>>=◌}
use replenishment_system.Config.{
  Config, config_of, is_empty, atoi, checked_port, checked_horizon, number_or, load, require_secret,
  require_auth,
}

abbrev pub Within : ℕ → ℕ → ℤ → Type 0
Within low high z = (n : ℕ) × (z ≡ pos n) × (low ≤ n) × (n ≤ high)

abbrev pub Positive : ℤ → Type 0
Positive z = (n : ℕ) × (z ≡ pos n) × (1 ≤ n)

-- The test of a guard that has let something pass was false.
passed :
    {A : Type 0} (b : Bool) (e : Error) (r : Result A) (a : A)
    → (if b then err e else r) ≡ ok a
    → (b ≡ false) × (r ≡ ok a)
passed true e r a h = absurd cc
passed false e r a h = (refl, h)

port-Within : (p : Option ℤ) (z : ℤ) → checked_port p ≡ ok z → Within 1 65535 z
port-Within none z h = absurd cc
port-Within (some (pos n)) z h =
    let (inside, same) =
      passed (ltb_ℤ (pos n) (pos 1) || ltb_ℤ (pos 65535) (pos n)) (invalid "PORT out of range")
        (ok (pos n)) z h in
    (n, cc same, ground (arith, inside), ground (arith, inside))
port-Within (some (negsuc n)) z h = absurd (ground arith)

horizon-Positive : (p : Option ℤ) (z : ℤ) → checked_horizon p ≡ ok z → Positive z
horizon-Positive none z h = absurd cc
horizon-Positive (some (pos n)) z h =
    let (inside, same) =
      passed (ltb_ℤ (pos n) (pos 1)) (invalid "MATERIALIZE_HORIZON must be at least 1") (ok (pos n))
        z h in
    (n, cc same, ground (arith, inside))
horizon-Positive (some (negsuc n)) z h = absurd (ground arith)

secret-Long : (s : Text) → require_secret s ≡ ok tt → 32 ≤ length s
unfolding require_secret
secret-Long s h =
    let (given, rest) =
      passed (is_empty s) (invalid "is required")
        (if ltb (length s) 32 then err (invalid "must be at least 32 characters") else ok tt) tt
        h in
    let (long, done) =
      passed (ltb (length s) 32) (invalid "must be at least 32 characters") (ok tt) tt rest in
    ground (arith, long)

module _ (default : ℤ) (check : Option ℤ → Result ℤ) (P : ℤ → Type 0) where
  number_or-kept :
      (v : Text) (z : ℤ)
      → P default
      → ((p : Option ℤ) (z : ℤ) → check p ≡ ok z → P z)
      → number_or default check v ≡ ok z
      → P z
  number_or-kept [] z d c h = let same : default ≡ z = cc h in subst P same d
  number_or-kept (x ∷ v) z d c h = c (atoi (x ∷ v)) z h

sequence :
    {A B : Type 0} (r : Result A) (next : A → Result B) (b : B)
    → (r >>= next) ≡ ok b
    → (a : A) × (r ≡ ok a) × (next a ≡ ok b)
sequence (err e) next b h = absurd cc
sequence (ok a) next b h = (a, refl, h)

-- What the service relies on: a database, a port, a horizon of one order or more, and keys of 32
-- bytes or more.
pub record Bootable (c : Config) : Type 0 where
  pub database_given : is_empty c.database_url ≡ false
  pub port_in : Within 1 65535 c.port
  pub horizon_in : Positive c.materialize_horizon
  pub token_key_long : 32 ≤ length c.portal_jwt_secret
  pub service_key_long : 32 ≤ length c.service_api_key

-- A configuration that Load returns and RequireAuth accepts names a database, a port from 1 to
-- 65535, a horizon of at least one order, and two keys of at least 32 bytes.
pub load-Bootable :
    (getenv : Text → Text) (c : Config) → load getenv ≡ ok c → require_auth c ≡ ok tt → Bootable c
unfolding load require_auth
load-Bootable getenv c h k =
    let (given, rest) =
      passed (is_empty (getenv (text "DATABASE_URL"))) (invalid "DATABASE_URL is required") _ c h in
    let (port, port_is, after_port) =
      sequence (number_or (pos 8080) checked_port (getenv (text "PORT"))) _ c rest in
    let (horizon, horizon_is, after_horizon) =
      sequence (number_or (pos 3) checked_horizon (getenv (text "MATERIALIZE_HORIZON")))
        (λ horizon. ok (config_of getenv port horizon)) c after_port in
    let same : config_of getenv port horizon ≡ c = cc after_horizon in
    let (first, token_is, second) =
      sequence (require_secret c.portal_jwt_secret) (λ u. require_secret c.service_api_key) tt k in
    subst
      (λ (d : Config). 32 ≤ length d.portal_jwt_secret → 32 ≤ length d.service_api_key → Bootable d)
      same
      (λ long_token long_service. record {
        database_given = given;
        port_in =
            number_or-kept (pos 8080) checked_port (Within 1 65535) (getenv (text "PORT")) port
              (8080, refl, omega arith, omega arith) port-Within port_is;
        horizon_in =
            number_or-kept (pos 3) checked_horizon Positive (getenv (text "MATERIALIZE_HORIZON"))
              horizon (3, refl, omega arith) horizon-Positive horizon_is;
        token_key_long = long_token;
        service_key_long = long_service;
      })
      (secret-Long c.portal_jwt_secret (cc token_is)) (secret-Long c.service_api_key second)
