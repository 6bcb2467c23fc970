-- ===== src/Rbac.antt =====
-- rbac.py: roles, the mapping of the claims of a token onto them, and the role checks. A set of roles is a list.
pub mod Reasons
pub mod Granted
use governed_autonomy_substr.Base.{
  Bool, Dict, List, Option, Outcome, String, [], any, eq_text, false, if◌then◌else◌, insert,
  is_blank, lookup, map, none, not, ok, or_raise, permission_error, raise_if, set_default, some,
  sorted, unique, value_error, ◌++◌, ◌>>=◌, ◌>>◌, ◌||◌, ◌∷◌, ◌⧺◌,
}
use governed_autonomy_substr.Jobs.History.{call}
use governed_autonomy_substr.Platform.{Platform}
use governed_autonomy_substr.Value.{
  Value, array, as_text, elements, get, items, text, texts, truthy,
}

-- What Python's `str` says of characters: the tables of Unicode are not modelled.
pub record Unicode : Type 0 where
  -- `"".join(c.lower() for c in value if c.isalnum())`.
  pub lower_alnum : String → String
  -- `value.split()`.
  pub split : String → List String

pub data Role : Type 0 where
  platform_admin policy_admin operator auditor approver_role service_principal_role : Role

abbrev pub role_value : Role → String
role_value platform_admin = "platform_admin"
role_value policy_admin = "policy_admin"
role_value operator = "operator"
role_value auditor = "auditor"
role_value approver_role = "approver"
role_value service_principal_role = "service_principal"

abbrev pub role_name : Role → String
role_name platform_admin = "PLATFORM_ADMIN"
role_name policy_admin = "POLICY_ADMIN"
role_name operator = "OPERATOR"
role_name auditor = "AUDITOR"
role_name approver_role = "APPROVER"
role_name service_principal_role = "SERVICE_PRINCIPAL"

-- The roles in the order of the class.
abbrev pub all_roles : List Role
all_roles =
    platform_admin ∷ policy_admin ∷ operator ∷ auditor ∷ approver_role ∷ service_principal_role ∷ []

abbrev pub eq_role : Role → Role → Bool
eq_role r s = eq_text (role_value r) (role_value s)

-- `role in roles`.
abbrev pub has_role : Role → List Role → Bool
has_role r [] = false
has_role r (s ∷ ss) = eq_role r s || has_role r ss

pub record ClaimsIdentity : Type 0 where
  pub subject : String
  pub tenant_id : Option String
  pub service_id : Option String
  pub email : Option String
  pub roles : List Role
  pub groups : List String
  pub issuer : Option String
  pub service_principal : Bool

-- `[item for item in value if isinstance(item, str)]`.
abbrev pub texts_of : List Value → List String
texts_of [] = []
texts_of (text s ∷ vs) = s ∷ texts_of vs
texts_of (_ ∷ vs) = texts_of vs

unfoldable pub as_texts : ⦃u : Unicode⦄ → Value → List String
as_texts ⦃u⦄ (text s) = u.split s
as_texts (array vs) = texts_of (elements vs)
as_texts _ = []

pub record ClaimsMapper : Type 0 where
  pub role_mapping : Dict Role
  pub normalized_role_mapping : Dict Role

-- `{normalize(item): role for item, role in mapping.items()}`: a later entry wins.
abbrev pub normalize_keys : ⦃u : Unicode⦄ → Dict Role → Dict Role → Dict Role
normalize_keys [] d = d
normalize_keys ⦃u⦄ ((item, r) ∷ es) d = normalize_keys es (insert (u.lower_alnum item) r d)

unfoldable pub claims_mapper : ⦃u : Unicode⦄ → Dict Role → String → String → ClaimsMapper
claims_mapper mapping legacy_admin_role legacy_admin_scope =
    let mapping' =
      set_default legacy_admin_scope operator (set_default legacy_admin_role operator mapping) in
    record { role_mapping = mapping'; normalized_role_mapping = normalize_keys mapping' [] }

-- The first role of the class whose value or name normalizes to the text.
abbrev pub named_role : ⦃u : Unicode⦄ → String → List Role → Option Role
named_role normalized [] = none
named_role ⦃u⦄ normalized (r ∷ rs) =
    let rest = named_role normalized rs in
    if eq_text normalized (u.lower_alnum (role_value r))
      || eq_text normalized (u.lower_alnum (role_name r))
    then some r
    else rest

-- The role that one candidate of the token grants.
unfoldable pub role_of : ⦃u : Unicode⦄ → ClaimsMapper → String → Option Role
role_of ⦃u⦄ m item = elim (lookup item m.role_mapping) [
  | some r ↦ some r
  | none ↦ elim (lookup (u.lower_alnum item) m.normalized_role_mapping) [
    | some r ↦ some r
    | none ↦ named_role (u.lower_alnum item) all_roles
  ]
]

abbrev pub add_role : Option Role → List Role → List Role
add_role none rs = rs
add_role (some r) rs = r ∷ rs

unfoldable pub roles_of : ⦃u : Unicode⦄ → ClaimsMapper → List String → List Role
roles_of m [] = []
roles_of m (item ∷ items) = add_role (role_of m item) (roles_of m items)

-- `a or b`.
abbrev pub or_else : Value → Value → Value
or_else a b = if truthy a then a else b

unfoldable pub candidates : ⦃u : Unicode⦄ → Dict Value → List String
candidates token =
    as_texts (get "roles" token)
    ++ (as_texts (get "scope" token)
        ++ (as_texts (get "scp" token) ++ as_texts (get "groups" token)))

-- `token.get("idtyp") == "app"`.
abbrev pub is_app : Dict Value → Bool
is_app token = elim (as_text (get "idtyp" token)) [ none ↦ false | some s ↦ eq_text s "app" ]

-- The identity of claims with a subject.
unfoldable pub identity_for : ⦃u : Unicode⦄ → ClaimsMapper → Dict Value → String → ClaimsIdentity
identity_for m token found = record {
  subject = found;
  tenant_id = as_text (or_else (get "tid" token) (get "tenant_id" token));
  service_id =
      as_text (or_else (or_else (get "appid" token) (get "azp" token)) (get "client_id" token));
  email = as_text (or_else (get "email" token) (get "upn" token));
  roles =
      add_role (if is_app token then some service_principal_role else none)
        (roles_of m (candidates token));
  groups = as_texts (get "groups" token);
  issuer = as_text (get "iss" token);
  service_principal = is_app token;
}

unfoldable pub map_to_identity : ⦃u : Unicode⦄ → ClaimsMapper → Dict Value → Outcome ClaimsIdentity
map_to_identity m token = do
  found ←
      or_raise (as_text (or_else (get "oid" token) (get "sub" token)))
        (value_error "claims are missing oid or sub")
  raise_if (is_blank found) (value_error "claims are missing oid or sub")
  ok (identity_for m token found)

-- `Role.PLATFORM_ADMIN in identity.roles or identity.roles & needed`.
unfoldable pub has_permission : ClaimsIdentity → List Role → Bool
has_permission identity required =
    has_role platform_admin identity.roles || any (λ (r : Role). has_role r identity.roles) required

-- `sorted(r.value for r in needed)`, as `repr` prints it.
unfoldable pub require_roles : ⦃p : Platform⦄ → ClaimsIdentity → List Role → Outcome (Unit {0})
require_roles ⦃p⦄ identity required =
    raise_if
      (not (
        has_role platform_admin identity.roles
        || any (λ (r : Role). has_role r identity.roles) required))
      (permission_error (
        "access denied; required roles: "
        ⧺ p.repr (texts (sorted (unique (map role_value required))))))

-- `authorize(*required)`: the guarded function runs for an identity with a required role.
unfoldable pub guarded {ℓ} :
    ⦃p : Platform⦄ {A : Type ℓ} → List Role → Option ClaimsIdentity → Outcome A → Outcome A
guarded required identity call = do
  caller ← or_raise identity (permission_error "an authenticated identity is required")
  require_roles caller required
  call
