-- ===== src/Service/Governed.antt =====
-- `GovernedService.authorize` and `execute`, and `GovernancePlatform.authorize` and `execute` around them.
use governed_autonomy_substr.Base.{
  Bool, Dict, List, Option, Outcome, String, [], authorization_error, contains, err, false, get_or,
  insert, keep, lookup, none, not, ok, or_raise, some, suc, true, type_error, ℕ, ◌++◌, ◌>>=◌, ◌>>◌,
  ◌∷◌, ◌⧺◌,
}
use governed_autonomy_substr.Base.Int.{ℤ}
use governed_autonomy_substr.Engine.{ActionEnd, ActionResult, ExecutionBoundary, execute}
use governed_autonomy_substr.Issuer.{
  ApprovalArgument, AuthorizationIssuer, Logged, action_name, authorize,
}
use governed_autonomy_substr.Mesh.{GovernanceInput, SourceRegistry}
use governed_autonomy_substr.Models.{Artifact}
use governed_autonomy_substr.Platform.{Platform}
use governed_autonomy_substr.Policy.{PolicyRegistry}
use governed_autonomy_substr.Replay.{ReplayLog}
use governed_autonomy_substr.Service.Guardrails.{DeploymentPolicy, validate_deployment}
use governed_autonomy_substr.Service.Identity.{
  RuntimeIdentity, ServicePrincipal, identity_context, validate_principal,
}
use governed_autonomy_substr.Value.{Value, as_dict, as_text, dict, entries, get, object}

pub record GovernedService : Type 0 where
  pub issuer : AuthorizationIssuer
  pub boundary : ExecutionBoundary
  pub policies : PolicyRegistry
  pub actions : Dict (Dict Value → ActionEnd)
  pub mesh_source_registry : Option SourceRegistry

-- `RuntimeMetrics`, without the time of the last update.
pub record RuntimeMetrics : Type 0 where
  pub total_authorizations : ℕ
  pub successful_authorizations : ℕ
  pub denied_authorizations : ℕ
  pub total_executions : ℕ
  pub successful_executions : ℕ
  pub failed_executions : ℕ

abbrev pub record_authorized : RuntimeMetrics → RuntimeMetrics
record_authorized m = record m {
  total_authorizations = suc m.total_authorizations;
  successful_authorizations = suc m.successful_authorizations;
}

abbrev pub record_denied : RuntimeMetrics → RuntimeMetrics
record_denied m = record m {
  total_authorizations = suc m.total_authorizations;
  denied_authorizations = suc m.denied_authorizations;
}

abbrev pub record_execution : Bool → RuntimeMetrics → RuntimeMetrics
record_execution true m = record m {
  total_executions = suc m.total_executions;
  successful_executions = suc m.successful_executions;
}
record_execution false m = record m {
  total_executions = suc m.total_executions;
  failed_executions = suc m.failed_executions;
}

pub record GovernancePlatform : Type 0 where
  pub service : GovernedService
  pub identity : RuntimeIdentity
  pub deployment_policy : DeploymentPolicy
  pub principal_registry : Option (Dict ServicePrincipal)

-- `d.update(e)`: a known key keeps its place, and new keys come after.
unfoldable pub overwrite : Dict Value → Dict Value → Dict Value
overwrite e [] = []
overwrite e ((k, v) ∷ d) = (k, get_or k v e) ∷ overwrite e d

unfoldable pub update : Dict Value → Dict Value → Dict Value
unfolding overwrite
update e d = overwrite e d ++ keep (λ (x : String × Value). not (contains x.0 d)) e

-- The issuer takes the service's source registry if it has none.
abbrev pub issuer_of : GovernedService → AuthorizationIssuer
issuer_of s = elim (s.issuer.mesh_source_registry) [
  | some sources ↦ s.issuer
  | none ↦ record (s.issuer) { mesh_source_registry = s.mesh_source_registry }
]

-- The context of the request, then of the call, and then of the runtime identity, which wins.
unfoldable pub effective_context : RuntimeIdentity → Dict Value → Dict Value → Dict Value
unfolding update identity_context
effective_context identity requested given =
    update (identity_context identity) (update given requested)

-- The request that the platform hands on; its context has to be a dict.
unfoldable pub platform_request : RuntimeIdentity → Dict Value → Dict Value → Outcome (Dict Value)
unfolding effective_context
platform_request identity request given = do
  requested ←
      or_raise (as_dict (get_or "context" (dict []) request))
        (type_error "request context must be an object")
  ok (insert "context" (dict (effective_context identity requested given)) request)

abbrev pub dict_or_empty : Value → Dict Value
dict_or_empty (object fs) = entries fs
dict_or_empty _ = []

abbrev pub metrics_after : Outcome Artifact → RuntimeMetrics → RuntimeMetrics
metrics_after (ok a) m = record_authorized m
metrics_after (err e) m = record_denied m

abbrev pub has_returned : Outcome ActionResult → Bool
has_returned (ok r) = true
has_returned (err e) = false

module _ ⦃p : Platform⦄ where
  unfoldable pub service_authorize :
      GovernedService
      → Dict Value
      → String
      → ℤ
      → Option (List ApprovalArgument)
      → List GovernanceInput
      → ℤ
      → String
      → ReplayLog
      → Logged Artifact
  service_authorize s request policy_id ttl_seconds approvals inputs now nonce log =
      elim (lookup policy_id s.policies.policies) [
        | none ↦ (err (authorization_error ("unknown policy: " ⧺ policy_id)), log)
        | some policy ↦
            authorize (issuer_of s) request policy ttl_seconds approvals inputs now nonce log
      ]

  unfoldable pub service_execute :
      GovernedService → ℤ → Artifact → ReplayLog → Outcome ActionResult × ReplayLog
  service_execute s now artifact log = elim (as_text (get "action" artifact.action_request)) [
    | none ↦ (err (authorization_error "unknown executable action: None"), log)
    | some action_name ↦ elim (lookup action_name s.actions) [
      | none ↦ (err (authorization_error ("unknown executable action: " ⧺ action_name)), log)
      | some action ↦ execute s.boundary now artifact action log
    ]
  ]

  abbrev pub check_principal :
      Option (Dict ServicePrincipal) → RuntimeIdentity → Value → Dict Value → Outcome (Unit {0})
  check_principal none identity action context = ok tt
  check_principal (some registry) identity action context =
      validate_principal registry identity action context

  -- The tests of the principal registry and of the deployment policy.
  unfoldable pub check_runtime :
      GovernancePlatform → Dict Value → List GovernanceInput → Outcome (Unit {0})
  check_runtime g request inputs = do
    let context = dict_or_empty (get "context" request)
    let action = get "action" request
    check_principal g.principal_registry g.identity action context
    validate_deployment g.deployment_policy g.identity context action inputs

  abbrev pub counted : RuntimeMetrics → Logged Artifact → Logged Artifact × RuntimeMetrics
  counted m o = (o, metrics_after o.0 m)

  unfoldable pub platform_authorize :
      GovernancePlatform
      → Dict Value
      → String
      → ℤ
      → Option (List ApprovalArgument)
      → Dict Value
      → List GovernanceInput
      → ℤ
      → String
      → ReplayLog
      → RuntimeMetrics
      → Logged Artifact × RuntimeMetrics
  unfolding platform_request check_runtime service_authorize
  platform_authorize g request policy_id ttl_seconds approvals given inputs now nonce log m =
      elim (platform_request g.identity request given) [
        | err e ↦ ((err e, log), m)
        | ok effective ↦ elim (check_runtime g effective inputs) [
          | err e ↦ ((err e, log), m)
          | ok _ ↦ counted m (
              service_authorize g.service effective policy_id ttl_seconds approvals inputs now nonce
                log)
        ]
      ]

  unfoldable pub platform_execute :
      GovernancePlatform
      → ℤ
      → Artifact
      → ReplayLog
      → RuntimeMetrics
      → Outcome ActionResult × ReplayLog × RuntimeMetrics
  unfolding service_execute
  platform_execute g now artifact log m =
      let result = service_execute g.service now artifact log in
      (result.0, result.1, record_execution (has_returned result.0) m)
