-- ===== src/Auth/Laws.antt =====
-- Principals of internal/auth: what a verified credential stands for.
use replenishment_system.Common.{
  ◌≡◌, ◌≢◌, ◌↔◌, refl, subst, Bool, true, false, not, Option, none, some, [], Bool-cases, inl, inr,
  and_right, if◌then◌else◌,
}
use replenishment_system.Common.Text.{Text, text_eq, text_eq_sound, text_eq_ne}
use replenishment_system.Auth.{
  kind_customer, kind_service, Principal, new_service_key_verifier, verify_service_key, Token,
  TokenVerifier, accept_token, verify_token, verified_by, authenticate, parse_bearer, owns_customer,
  owns_as,
}

-- A principal of a customer who is named.
pub record IsCustomer (p : Principal) : Type 0 where
  pub kind_is : p.kind ≡ kind_customer
  pub named : p.customer_id ≢ []

accepted-IsCustomer :
    (valid blank : Bool) (subject : Text) (p : Principal)
    → text_eq subject [] ≡ blank
    → (if not valid
        then none
        else if blank
        then none
        else some (record { kind = kind_customer; customer_id = subject }))
      ≡ some p
    → IsCustomer p
accepted-IsCustomer false blank subject p b e = absurd cc
accepted-IsCustomer true true subject p b e = absurd cc
accepted-IsCustomer true false subject p b e =
    let same : record { kind = kind_customer; customer_id = subject } ≡ p = cc e in
    subst IsCustomer same (record { kind_is = refl; named = text_eq_ne subject [] b })

accept_token-IsCustomer :
    (o : Option Token) (p : Principal) → accept_token o ≡ some p → IsCustomer p
accept_token-IsCustomer none p e = absurd cc
accept_token-IsCustomer (some t) p e =
    accepted-IsCustomer t.valid (text_eq t.subject []) t.subject p refl e

verified_by-IsCustomer :
    (v : TokenVerifier) (o : Option Text) (p : Principal)
    → verified_by (verify_token v) o ≡ some p
    → IsCustomer p
unfolding verify_token
verified_by-IsCustomer v none p e = absurd cc
verified_by-IsCustomer v (some c) p e = accept_token-IsCustomer (v.parse c) p e

-- The principal that a customer's token names is a customer, and never a blank one.
pub authenticate-IsCustomer :
    (v : TokenVerifier) (header : Text) (p : Principal)
    → authenticate (verify_token v) header ≡ some p
    → IsCustomer p
unfolding authenticate
authenticate-IsCustomer v header p e = verified_by-IsCustomer v (parse_bearer header) p e

-- A service credential is accepted exactly when its digest is that of the configured key.
pub verify_service_key_iff :
    (sha256 : Text → Text) (key presented : Text)
    → (verify_service_key (new_service_key_verifier sha256 key) presented
        ≡ some (record { kind = kind_service; customer_id = [] }))
      ↔ (sha256 presented ≡ sha256 key)
unfolding verify_service_key new_service_key_verifier
verify_service_key_iff sha256 key presented =
    elim (Bool-cases (text_eq (sha256 presented) (sha256 key))) [
      | inl same ↦ rw same (λ e. text_eq_sound _ _ same, λ e. refl)
      | inr apart ↦ rw apart (λ e. absurd cc, λ e. absurd (text_eq_ne _ _ apart e))
    ]

owns_as_sound : (own asked : Text) → owns_as kind_customer own asked ≡ true → own ≡ asked
owns_as_sound own asked e = text_eq_sound own asked (and_right _ _ e)

pub owns_customer_sound :
    (p : Principal) (customer_id : Text)
    → IsCustomer p
    → owns_customer p customer_id ≡ true
    → p.customer_id ≡ customer_id
unfolding owns_customer
owns_customer_sound p customer_id c e =
    owns_as_sound p.customer_id customer_id
      (subst (λ k. owns_as k p.customer_id customer_id ≡ true) c.kind_is e)
