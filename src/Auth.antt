-- ===== src/Auth.antt =====
-- internal/auth: who calls. SHA-256 and the JWT library are arguments of the verifiers: `parse` is
-- what `ParseWithClaims` answers under the parser's options, `none` for an error.
pub mod Laws
use replenishment_system.Common.{
  ℕ, zero, suc, ◌+◌, ◌-◌, Bool, true, false, not, ◌&&◌, ◌||◌, Option, none, some, List, [], ◌∷◌,
  ◌++◌, leb, ltb, ◌==◌, if◌then◌else◌,
}
use replenishment_system.Common.Lists.{length}
use replenishment_system.Common.Text.{Text, text, text_eq}
use replenishment_system.Domain.Types.{EventActor}

-- `kind_other` is any string that is not one of the two constants.
pub data Kind : Type 0 where
  kind_customer kind_service : Kind
  kind_other : Text → Kind

pub record Principal : Type 0 where
  pub kind : Kind
  pub customer_id : Text

abbrev actor_of_kind : Kind → EventActor
actor_of_kind kind_customer = EventActor.customer
actor_of_kind _ = EventActor.system

unfoldable pub principal_actor : Principal → EventActor
principal_actor p = actor_of_kind p.kind

abbrev owns_as : Kind → Text → Text → Bool
owns_as kind_service own asked = true
owns_as kind_customer own asked = not (text_eq own []) && text_eq own asked
owns_as (kind_other k) own asked = false

unfoldable pub owns_customer : Principal → Text → Bool
owns_customer p customer_id = owns_as p.kind p.customer_id customer_id

pub record ServiceKeyVerifier : Type 0 where
  pub sha256 : Text → Text
  pub digest : Text

unfoldable pub new_service_key_verifier : (Text → Text) → Text → ServiceKeyVerifier
new_service_key_verifier sha256 key = record { sha256 = sha256; digest = sha256 key }

-- Every failure is ErrUnauthenticated, which `none` stands for.
unfoldable pub verify_service_key : ServiceKeyVerifier → Text → Option Principal
verify_service_key v presented =
    if not (text_eq (v.sha256 presented) v.digest)
    then none
    else some (record { kind = kind_service; customer_id = [] })

-- A parsed token and the subject of its claims.
pub record Token : Type 0 where
  pub valid : Bool
  pub subject : Text

pub record TokenVerifier : Type 0 where
  pub parse : Text → Option Token

abbrev accept_token : Option Token → Option Principal
accept_token none = none
accept_token (some t) =
    if not t.valid
    then none
    else if text_eq t.subject []
    then none
    else some (record { kind = kind_customer; customer_id = t.subject })

unfoldable pub verify_token : TokenVerifier → Text → Option Principal
verify_token v token = accept_token (v.parse token)

abbrev pub lower : ℕ → ℕ
lower c = if leb 65 c && leb c 90 then c + 32 else c

-- `EqualFold(header[:7], "bearer ")`: what follows the scheme, where the header starts with it. No
-- byte of the scheme has a case variant outside ASCII.
unfoldable pub strip_scheme : Text → Text → Option Text
strip_scheme [] header = some header
strip_scheme (c ∷ scheme) [] = none
strip_scheme (c ∷ scheme) (d ∷ header) =
    let rest = strip_scheme scheme header in if lower d == c then rest else none

-- The white space of package unicode in UTF-8, one, two or three bytes long.
abbrev space_one : ℕ → Bool
space_one a = leb 9 a && leb a 13 || (a == 32)

abbrev space_two : ℕ → ℕ → Bool
space_two a b = (a == 194) && ((b == 133) || (b == 160))

abbrev space_three : ℕ → ℕ → ℕ → Bool
space_three a b c =
    (a == 225) && (b == 154) && (c == 128)
    || ((a == 226)
        && ((b == 128) && (leb 128 c && leb c 138 || (c == 168) || (c == 169) || (c == 175))
            || (b == 129) && (c == 159)))
    || ((a == 227) && (b == 128) && (c == 128))

-- The length of the white space at the start of a text; 0 where there is none.
unfoldable pub leading_space : Text → ℕ
leading_space [] = 0
leading_space (a ∷ []) = if space_one a then 1 else 0
leading_space (a ∷ b ∷ []) = if space_one a then 1 else if space_two a b then 2 else 0
leading_space (a ∷ b ∷ c ∷ t) =
    if space_one a then 1 else if space_two a b then 2 else if space_three a b c then 3 else 0

-- The same at the end, of a text that is given from its end on.
unfoldable pub trailing_space : Text → ℕ
trailing_space [] = 0
trailing_space (a ∷ []) = if space_one a then 1 else 0
trailing_space (b ∷ a ∷ []) = if space_one b then 1 else if space_two a b then 2 else 0
trailing_space (c ∷ b ∷ a ∷ t) =
    if space_one c then 1 else if space_two b c then 2 else if space_three a b c then 3 else 0

unfoldable pub drop_bytes : ℕ → Text → Text
drop_bytes zero t = t
drop_bytes (suc n) [] = []
drop_bytes (suc n) (c ∷ t) = drop_bytes n t

-- Each step drops a byte or more, so as many steps as bytes are enough.
unfoldable pub trim_start : (Text → ℕ) → ℕ → Text → Text
trim_start measure zero t = t
trim_start measure (suc fuel) t =
    let rest = trim_start measure fuel (drop_bytes (measure t) t) in
    if measure t == 0 then t else rest

unfoldable pub reversed : Text → Text → Text
reversed [] acc = acc
reversed (c ∷ t) acc = reversed t (c ∷ acc)

unfoldable pub trim_space : Text → Text
trim_space t =
    let front = trim_start leading_space (length t) t in
    reversed (trim_start trailing_space (length front) (reversed front [])) []

abbrev credential_of : Option Text → Option Text
credential_of none = none
credential_of (some rest) = if text_eq (trim_space rest) [] then none else some (trim_space rest)

unfoldable pub parse_bearer : Text → Option Text
parse_bearer header = credential_of (strip_scheme (text "bearer ") header)

abbrev pub verified_by : (Text → Option Principal) → Option Text → Option Principal
verified_by verify none = none
verified_by verify (some credential) = verify credential

-- The principal that `authenticate` of internal/httpapi/middleware.go passes on; `none` where it
-- answers 401.
unfoldable pub authenticate : (Text → Option Principal) → Text → Option Principal
authenticate verify header = verified_by verify (parse_bearer header)
