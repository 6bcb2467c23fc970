-- ===== src/Service/Guardrails.antt =====
-- `PlatformDeploymentPolicy` of platform.py.
use governed_autonomy_substr.Base.{
  Bool, Dict, List, Outcome, String, [], any, eq_text, err, false, get_or, if◌then◌else◌, is_empty,
  is_in, join, keep, leb, length, ltb, map, not, ok, raise_if, true, type_error, value_error, ℕ,
  ◌&&◌, ◌>>=◌, ◌>>◌, ◌||◌, ◌∷◌, ◌⧺◌,
}
use governed_autonomy_substr.Base.Int.{ltb_ℤ, pos, ℤ}
use governed_autonomy_substr.Mesh.{GovernanceInput}
use governed_autonomy_substr.Platform.{Platform}
use governed_autonomy_substr.Service.Identity.{RuntimeIdentity, is_one_of, or_null}
use governed_autonomy_substr.Value.{Value, null, text, texts, truthy}

pub record DeploymentPolicy : Type 0 where
  pub allowed_environments : List String
  pub allowed_sources : List String
  pub require_request_id : Bool
  pub require_actor_id : Bool
  pub require_tenant : Bool
  pub required_roles : List String
  pub max_context_entries : ℤ
  pub mesh_required_actions : List String
  pub mesh_required_environments : List String
  pub mesh_required_sources : List String
  pub min_mesh_inputs : ℕ

abbrev pub default_deployment : DeploymentPolicy
default_deployment = record {
  allowed_environments = "dev" ∷ "staging" ∷ "prod" ∷ [];
  allowed_sources = "internal" ∷ "api" ∷ "worker" ∷ "scheduled" ∷ "manual" ∷ [];
  require_request_id = true;
  require_actor_id = false;
  require_tenant = false;
  required_roles = [];
  max_context_entries = pos 32;
  mesh_required_actions = [];
  mesh_required_environments = [];
  mesh_required_sources = [];
  min_mesh_inputs = 0;
}

-- `s.startswith(prefix)`.
unfoldable pub starts_with : String → String → Bool
starts_with s String.[] = true
starts_with String.[] (String.◌∷◌ c prefix) = false
starts_with (String.◌∷◌ d s) (String.◌∷◌ c prefix) =
    let rest = starts_with s prefix in eq_text (String.◌∷◌ d "") (String.◌∷◌ c "") && rest

-- The test of a source: `any(source == allowed or source.startswith(f"{allowed}-") ...)`. A source that is
-- no text raises AttributeError if there is any source to compare it with.
abbrev pub source_allowed : List String → String → Bool
source_allowed sources s = any (λ (a : String). eq_text s a || starts_with s (a ⧺ "-")) sources

unfoldable pub check_source : List String → Value → Outcome Bool
check_source sources null = ok true
check_source sources (text s) = ok (source_allowed sources s)
check_source [] v = ok false
check_source (a ∷ sources) v = err (type_error "object has no attribute 'startswith'")

-- `not mesh_inputs or len(mesh_inputs) < max(1, self.min_mesh_inputs)`.
abbrev pub lacks_inputs : ℕ → List GovernanceInput → Bool
lacks_inputs least inputs =
    is_empty inputs || ltb (length inputs) (if leb 1 least then least else 1)

module _ ⦃p : Platform⦄ where
  unfoldable pub validate_deployment :
      DeploymentPolicy
      → RuntimeIdentity
      → Dict Value
      → Value
      → List GovernanceInput
      → Outcome (Unit {0})
  unfolding check_source
  validate_deployment d identity context action inputs = do
    let environment = get_or "environment" (text identity.environment) context
    raise_if (not (is_one_of environment d.allowed_environments))
        (value_error ("environment is not allowed for this runtime: " ⧺ p.repr environment))
    raise_if
        (d.require_tenant && not (truthy (get_or "tenant_id" (or_null identity.tenant_id) context)))
        (value_error "tenant_id is required for this runtime configuration")
    raise_if
        (d.require_actor_id && not (truthy (get_or "actor_id" (or_null identity.actor_id) context)))
        (value_error "actor_id is required for this runtime configuration")
    raise_if
        (d.require_request_id
          && not (truthy (get_or "request_id" (or_null identity.request_id) context)))
        (value_error "request_id is required for this runtime configuration")
    let source = get_or "source" (or_null identity.source) context
    source_ok ← check_source d.allowed_sources source
    raise_if (not source_ok)
        (value_error ("source is not allowed for this runtime: " ⧺ p.repr source))
    let missing_roles = keep (λ (r : String). not (is_in r identity.roles)) d.required_roles
    raise_if (not (is_empty missing_roles))
        (value_error ("identity is missing required roles: " ⧺ p.repr (texts missing_roles)))
    raise_if (is_one_of action d.mesh_required_actions && lacks_inputs d.min_mesh_inputs inputs)
        (value_error ("mesh_inputs are required for action " ⧺ p.repr action))
    raise_if
        (is_one_of environment d.mesh_required_environments
          && lacks_inputs d.min_mesh_inputs inputs)
        (value_error ("mesh_inputs are required in environment " ⧺ p.repr environment))
    let provided = map (λ (i : GovernanceInput). i.source_id) inputs
    let missing = keep (λ (s : String). not (is_in s provided)) d.mesh_required_sources
    raise_if (not (is_empty missing))
        (value_error ("mesh source requirements are not satisfied: " ⧺ join ", " missing))
    raise_if (ltb_ℤ d.max_context_entries (pos (length context)))
        (value_error "runtime context exceeds the allowed size")
