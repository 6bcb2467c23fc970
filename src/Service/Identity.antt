-- ===== src/Service/Identity.antt =====
-- `RuntimeIdentity` and `ServicePrincipal` of platform.py.
use governed_autonomy_substr.Base.{
  Bool, Dict, List, Option, Outcome, String, [], contains, eq_text, false, get_or, insert, is_empty,
  is_in, is_some, keep, keys, lookup, none, not, or_raise, raise_if, some, true, value_error, ◌&&◌,
  ◌>>=◌, ◌>>◌, ◌∷◌, ◌⧺◌,
}
use governed_autonomy_substr.Platform.{Platform}
use governed_autonomy_substr.Value.{Value, boolean, dict, null, text, texts}

pub record RuntimeIdentity : Type 0 where
  pub service : String
  pub environment : String
  pub tenant_id : Option String
  pub actor_id : Option String
  pub request_id : Option String
  pub source : Option String
  pub principal_id : Option String
  pub roles : List String
  pub scope : Dict Value
  pub subject : Option String
  pub name : Option String
  pub email : Option String
  pub groups : List String
  pub issuer : Option String
  pub identity_source : Option String
  pub service_principal : Bool
  pub identity_type : String

-- `if value is not None: context[key] = value`.
abbrev pub put_text : String → Option String → Dict Value → Dict Value
put_text key none d = d
put_text key (some s) d = insert key (text s) d

-- `if values: context[key] = list(values)`.
abbrev pub put_texts : String → List String → Dict Value → Dict Value
put_texts key [] d = d
put_texts key (x ∷ xs) d = insert key (texts (x ∷ xs)) d

abbrev pub put_if : Bool → String → Value → Dict Value → Dict Value
put_if false key v d = d
put_if true key v d = insert key v d

unfoldable pub identity_context : RuntimeIdentity → Dict Value
identity_context i =
    let tenant = put_text "tenant_id" i.tenant_id i.scope in
    let actor = put_text "actor_id" i.actor_id tenant in
    let place = put_text "environment" (some i.environment) actor in
    let origin = put_text "source" i.source (put_text "request_id" i.request_id place) in
    let principal = put_texts "roles" i.roles (put_text "principal_id" i.principal_id origin) in
    let person = put_text "name" i.name (put_text "subject" i.subject principal) in
    let member = put_texts "groups" i.groups (put_text "email" i.email person) in
    let issued_by =
      put_text "identity_source" i.identity_source (put_text "issuer" i.issuer member) in
    put_if (not (eq_text i.identity_type "human")) "identity_type" (text i.identity_type)
      (put_if i.service_principal "service_principal" (boolean true) issued_by)

abbrev pub or_empty : Option String → String
or_empty none = ""
or_empty (some s) = s

unfoldable pub to_identity_dict : RuntimeIdentity → Value
to_identity_dict i = dict (
    ("subject", text (or_empty i.subject))
    ∷ ("tenant", text (or_empty i.tenant_id))
    ∷ ("groups", texts i.groups)
    ∷ ("roles", texts i.roles)
    ∷ ("issuer", text (or_empty i.issuer))
    ∷ ("service_principal", boolean i.service_principal)
    ∷ ("identity_type", text i.identity_type)
    ∷ [])

pub record ServicePrincipal : Type 0 where
  pub principal_id : String
  pub tenant_id : Option String
  pub roles : List String
  pub allowed_actions : List String
  pub allowed_environments : List String
  pub allowed_sources : List String
  pub scope : Dict Value

abbrev pub or_null : Option String → Value
or_null none = null
or_null (some s) = text s

-- `value in names`, of a JSON value.
abbrev pub is_one_of : Value → List String → Bool
is_one_of (text s) xs = is_in s xs
is_one_of _ xs = false

abbrev pub is_null : Value → Bool
is_null null = true
is_null _ = false

-- The tenants of a principal and of the identity that claims it.
abbrev pub tenant_mismatch : Option String → Option String → Bool
tenant_mismatch (some t) (some u) = not (eq_text t u)
tenant_mismatch _ _ = false

module _ ⦃p : Platform⦄ where
  unfoldable pub get_principal : String → Dict ServicePrincipal → Outcome ServicePrincipal
  get_principal principal_id registry =
      or_raise (lookup principal_id registry)
        (value_error ("unknown service principal: " ⧺ p.repr (text principal_id)))

  -- `ServicePrincipalRegistry.validate_runtime`.
  unfoldable pub validate_principal :
      Dict ServicePrincipal → RuntimeIdentity → Value → Dict Value → Outcome (Unit {0})
  unfolding get_principal
  validate_principal registry identity action context = do
    principal_id ←
        or_raise identity.principal_id
          (value_error "principal_id is required when a service-principal registry is configured")
    principal ← get_principal principal_id registry
    let named_principal = p.repr (text principal_id)
    raise_if (tenant_mismatch principal.tenant_id identity.tenant_id) (
        value_error (
          "principal tenant mismatch for principal "
          ⧺ named_principal
          ⧺ ": "
          ⧺ p.repr (or_null principal.tenant_id)
          ⧺ " != "
          ⧺ p.repr (or_null identity.tenant_id)))
    raise_if (is_some principal.tenant_id && not (is_some identity.tenant_id))
        (value_error "runtime identity is missing tenant_id for this service principal")
    raise_if
        (not (is_empty principal.allowed_actions)
          && not (is_null action)
          && not (is_one_of action principal.allowed_actions))
        (value_error
          ("action " ⧺ p.repr action ⧺ " is not allowed for principal " ⧺ named_principal))
    let environment = get_or "environment" (text identity.environment) context
    raise_if
        (not (is_empty principal.allowed_environments)
          && not (is_one_of environment principal.allowed_environments))
        (value_error (
          "environment "
          ⧺ p.repr environment
          ⧺ " is not permitted for principal "
          ⧺ named_principal))
    let source = get_or "source" (or_null identity.source) context
    raise_if
        (not (is_empty principal.allowed_sources)
          && not (is_null source)
          && not (is_one_of source principal.allowed_sources))
        (value_error
          ("source " ⧺ p.repr source ⧺ " is not permitted for principal " ⧺ named_principal))
    let missing = keep (λ (k : String). not (contains k context)) (keys principal.scope)
    raise_if (not (is_empty missing))
        (value_error ("service principal requires scope keys: " ⧺ p.repr (texts missing)))
