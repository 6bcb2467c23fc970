-- ===== src/Examples/Services.antt =====
-- The theorems of the roles, the delegated tasks and the platform at concrete inputs.
use governed_autonomy_substr.Agents.{Guard, TaskDelegation, receive_and_execute}
use governed_autonomy_substr.Agents.Delegated.{IsDelegated, receive_and_execute-IsDelegated}
use governed_autonomy_substr.Base.{
  Dict, Error, String, String-discrete, [], err, false, insert, is_blank, lookup, none, ok, refl,
  some, true, ◌∷◌, ◌≡◌, ◌⊎◌,
}
use governed_autonomy_substr.Base.Int.{pos, ◌+ℤ◌}
use governed_autonomy_substr.Engine.{ActionEnd, run_action}
use governed_autonomy_substr.Engine.Barrier.{Admissible}
use governed_autonomy_substr.Engine.Execution.{claimed}
use governed_autonomy_substr.Examples.Calls.{artifact, boundary, issued_log, issuer}
use governed_autonomy_substr.Examples.Policies.{decision, policy}
use governed_autonomy_substr.Examples.World.{dump, toy}
use governed_autonomy_substr.Issuer.{
  arbitrate, authorize, conclude, effective_request, issued_event, mesh_decision, mesh_evidence,
  mesh_refusal, unsigned_artifact,
}
use governed_autonomy_substr.Models.{Artifact, artifact_payload, issue_artifact}
use governed_autonomy_substr.Policy.{
  approval_count, collect, decide, exceeded_limits, is_allowed, listed_approvals,
  mismatched_context, mismatched_fields, missing_context, missing_fields, policy_digest,
  policy_to_dict, quorum_violations, request_size, stated_count, violations,
}
use governed_autonomy_substr.Rbac.{
  ClaimsIdentity, ClaimsMapper, Role, Unicode, claims_mapper, has_role, identity_for,
  map_to_identity, service_principal_role,
}
use governed_autonomy_substr.Rbac.Granted.{map_to_identity-roles}
use governed_autonomy_substr.Rbac.Reasons.{Claimed, Grants}
use governed_autonomy_substr.Replay.{ReplayLog, append, empty_log}
use governed_autonomy_substr.Service.Bound.{Binds, platform_authorize-Binds}
use governed_autonomy_substr.Service.Governed.{
  GovernancePlatform, RuntimeMetrics, check_runtime, effective_context, overwrite,
  platform_authorize, platform_request, record_authorized, service_authorize, update,
}
use governed_autonomy_substr.Service.Guardrails.{
  check_source, default_deployment, starts_with, validate_deployment,
}
use governed_autonomy_substr.Service.Identity.{RuntimeIdentity, identity_context}
use governed_autonomy_substr.Value.{Value, as_text, dict, get, text, texts}

instance abbrev plain_text : Unicode
plain_text = record { lower_alnum = λ s. s; split = λ s. s ∷ [] }

abbrev mapper : ClaimsMapper
mapper = claims_mapper [] "gas-admin" "gas.admin"

abbrev token : Dict Value
token = ("sub", text "u") ∷ ("roles", texts ("auditor" ∷ "unknown" ∷ [])) ∷ []

abbrev caller : ClaimsIdentity
caller = identity_for mapper token "u"

mapped : map_to_identity mapper token ≡ ok caller
unfolding map_to_identity lookup String-discrete
mapped = refl

map_to_identity-roles_example :
    (is_blank caller.subject ≡ false)
    × ((r : Role)
        → has_role r caller.roles ≡ true
        → ((as_text (get "idtyp" token) ≡ some "app") × (r ≡ service_principal_role))
          ⊎ ((item : String) × Claimed token item × Grants mapper item r))
    × ((item : String) (r : Role)
        → Claimed token item
        → lookup item mapper.role_mapping ≡ some r
        → has_role r caller.roles ≡ true)
map_to_identity-roles_example = map_to_identity-roles mapper token caller mapped

abbrev guard : Guard
guard = record {
  recipient_id = "agent-b";
  trust_store = record { known = ("issuer", "key") ∷ []; revoked = [] };
  boundary = boundary;
}

abbrev task : TaskDelegation
task = record {
  delegator_id = "issuer";
  recipient_id = "agent-b";
  task_id = "t";
  action = "deploy";
  payload = [];
  gaa = artifact;
  signature = "signed";
}

receive_and_execute-IsDelegated_example :
    ((e : Error) × ((handler : Dict Value → ActionEnd)
        → receive_and_execute ⦃p = toy⦄ guard (pos 9) task handler issued_log
          ≡ (err e, issued_log)))
    ⊎ (IsDelegated ⦃p = toy⦄ guard task
        × Admissible ⦃p = toy⦄ boundary (pos 9) artifact issued_log
        × ((handler : Dict Value → ActionEnd)
            → receive_and_execute ⦃p = toy⦄ guard (pos 9) task handler issued_log
              ≡ run_action ⦃p = toy⦄ artifact handler (claimed ⦃p = toy⦄ "n" issued_log)))
receive_and_execute-IsDelegated_example =
    receive_and_execute-IsDelegated ⦃p = toy⦄ guard (pos 9) task issued_log

abbrev identity : RuntimeIdentity
identity = record {
  service = "svc";
  environment = "dev";
  tenant_id = some "tenant-a";
  actor_id = none;
  request_id = some "r";
  source = some "api-1";
  principal_id = none;
  roles = [];
  scope = [];
  subject = none;
  name = none;
  email = none;
  groups = [];
  issuer = none;
  identity_source = none;
  service_principal = false;
  identity_type = "human";
}

abbrev platform : GovernancePlatform
platform = record {
  service = record {
    issuer = issuer;
    boundary = boundary;
    policies = record {
      policies = ("p", policy) ∷ [];
      versions = ("p", pos 1) ∷ [];
      signed_manifests = [];
      trust_store = none;
    };
    actions = [];
    mesh_source_registry = none;
  };
  identity = identity;
  deployment_policy = default_deployment;
  principal_registry = none;
}

-- The caller claims another tenant.
abbrev forged : Dict Value
forged = ("action", text "deploy") ∷ ("context", dict (("tenant_id", text "tenant-b") ∷ [])) ∷ []

abbrev counts : RuntimeMetrics
counts = record {
  total_authorizations = 0;
  successful_authorizations = 0;
  denied_authorizations = 0;
  total_executions = 0;
  successful_executions = 0;
  failed_executions = 0;
}

abbrev bound_request : Dict Value
bound_request =
    ("action", text "deploy")
    ∷ (
      "context",
      dict (
          ("tenant_id", text "tenant-a")
          ∷ ("environment", text "dev")
          ∷ ("request_id", text "r")
          ∷ ("source", text "api-1")
          ∷ []),
    )
    ∷ []

abbrev bound_artifact : Artifact
bound_artifact = record (unsigned_artifact issuer bound_request decision (pos 15) "n") {
  signature = "signed";
}

abbrev bound_log : ReplayLog
bound_log =
    append ⦃p = toy⦄ "authorization:n"
      (issued_event "n"
        (artifact_payload ⦃p = toy⦄ (unsigned_artifact issuer bound_request decision (pos 15) "n"))
        decision [])
      empty_log

bound :
    platform_authorize ⦃p = toy⦄ platform forged "p"
      (pos 10)
      none
      []
      []
      (pos 5)
      "n"
      empty_log
      counts
    ≡ ((ok bound_artifact, bound_log), record_authorized counts)
unfolding platform_authorize platform_request check_runtime service_authorize validate_deployment
    effective_context identity_context update overwrite check_source starts_with insert authorize
    effective_request arbitrate mesh_refusal mesh_decision mesh_evidence conclude issue_artifact
    decide violations missing_fields mismatched_fields exceeded_limits missing_context
    mismatched_context quorum_violations request_size is_allowed approval_count stated_count collect
    listed_approvals policy_digest policy_to_dict String-discrete lookup dump ◌+ℤ◌
bound = refl

platform_authorize-Binds_example :
    Binds ⦃p = toy⦄ identity bound_artifact.action_request
    × (record_authorized counts ≡ record_authorized counts)
platform_authorize-Binds_example =
    platform_authorize-Binds ⦃p = toy⦄ platform forged "p" (pos 10) none [] [] (pos 5) "n" empty_log
      bound_log counts (record_authorized counts) bound_artifact bound
