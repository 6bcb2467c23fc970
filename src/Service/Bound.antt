-- ===== src/Service/Bound.antt =====
-- What the platform authorizes is bound to the runtime identity.
use governed_autonomy_substr.Base.{
  Decision, Dict, List, Option, Option-cases, Outcome-cases, String, String-discrete, [], arith,
  get_or, inl, inr, insert, lookup, lookup-insert, lookup-insert_self, none, ok, refl, some, ◌++◌,
  ◌∙◌, ◌≡◌,
}
use governed_autonomy_substr.Base.Int.{ℤ, ◌+ℤ◌}
use governed_autonomy_substr.Engine.{registered}
use governed_autonomy_substr.Issuer.{
  ApprovalArgument, AuthorizationIssuer, add_approvals, arbitrate, authorize, combine, conclude,
  effective_request, mesh_decision, mesh_evidence, mesh_refusal, serialize, unsigned_artifact,
}
use governed_autonomy_substr.Mesh.{GovernanceInput}
use governed_autonomy_substr.Models.{Artifact, artifact_payload, issue_artifact}
use governed_autonomy_substr.Platform.{Platform}
use governed_autonomy_substr.Policy.{Policy, decide}
use governed_autonomy_substr.Replay.{ReplayLog}
use governed_autonomy_substr.Service.Context.{
  identity_context-actor, identity_context-environment, identity_context-tenant, lookup-update,
}
use governed_autonomy_substr.Service.Governed.{
  GovernancePlatform, RuntimeMetrics, check_runtime, effective_context, issuer_of,
  platform_authorize, platform_request, record_authorized, service_authorize, update,
}
use governed_autonomy_substr.Service.Identity.{RuntimeIdentity, identity_context}
use governed_autonomy_substr.Value.{
  Value, array, as_dict, boolean, dict, elements, float, get, integer, items, null, object, text,
}

lookup-insert_approvals :
    (w : Value) (request : Dict Value)
    → lookup "context" (insert "approvals" w request) ≡ lookup "context" request
unfolding String-discrete
lookup-insert_approvals w request = lookup-insert "approvals" "context" w request

module _ ⦃p : Platform⦄ where
  conclude-request :
      (issuer : AuthorizationIssuer) (request : Dict Value) (verdict : Decision)
      (evidence : Dict Value) (expires_at : ℤ) (nonce : String) (log log' : ReplayLog)
      (a : Artifact)
      → conclude issuer request verdict evidence expires_at nonce log ≡ (ok a, log')
      → a.action_request ≡ request
  unfolding conclude issue_artifact
  conclude-request issuer request verdict evidence expires_at nonce log log' a e =
      let unsigned = unsigned_artifact issuer request verdict expires_at nonce in
      elim (Outcome-cases (issuer.signer.sign (artifact_payload unsigned))) [
        | inr (failure, no_signature) ↦ absurd (ground arith)
        | inl (signature, made) ↦ ground arith
      ]

  arbitrate-request :
      (issuer : AuthorizationIssuer) (request : Dict Value) (policy : Policy)
      (inputs : List GovernanceInput) (expires_at : ℤ) (nonce : String) (log log' : ReplayLog)
      (a : Artifact)
      → arbitrate issuer request policy inputs expires_at nonce log ≡ (ok a, log')
      → a.action_request ≡ request
  unfolding arbitrate
  arbitrate-request issuer request policy inputs expires_at nonce log log' a e =
      elim (Outcome-cases (decide issuer.arbiter request policy)) [
        | inr (failure, undecided) ↦ absurd (ground arith)
        | inl (verdict, decided) ↦ elim (Option-cases (mesh_refusal request policy inputs)) [
          | inr (refusal, lacking) ↦ absurd (ground arith)
          | inl enough ↦ elim (Outcome-cases (mesh_decision issuer request inputs log)) [
            | inr (failure, no_verdict) ↦ absurd (ground arith)
            | inl (mesh_verdict, given) ↦
                conclude-request issuer request (combine verdict mesh_verdict.0)
                  (mesh_evidence request inputs mesh_verdict.0) expires_at nonce mesh_verdict.1 log'
                  a (ground arith)
          ]
        ]
      ]

  -- The artifact is for the effective request: the request with the approvals of the call.
  authorize-request :
      (issuer : AuthorizationIssuer) (request : Dict Value) (policy : Policy) (ttl_seconds : ℤ)
      (approvals : Option (List ApprovalArgument)) (inputs : List GovernanceInput) (now : ℤ)
      (nonce : String) (log log' : ReplayLog) (a : Artifact)
      → authorize issuer request policy ttl_seconds approvals inputs now nonce log ≡ (ok a, log')
      → effective_request request approvals ≡ ok (a.action_request)
  unfolding authorize
  authorize-request issuer request policy ttl_seconds approvals inputs now nonce log log' a e =
      elim (Outcome-cases (effective_request request approvals)) [
        | inr (failure, no_request) ↦ absurd (ground arith)
        | inl (effective, made) ↦
            let same : a.action_request ≡ effective =
              arbitrate-request issuer effective policy inputs (now +ℤ ttl_seconds) nonce log log' a
                (ground arith) in
            rw same made
      ]

  -- The value under the key decides whether approvals can be added.
  add_approvals-value :
      (request effective : Dict Value) (serialized : List Value) (v : Value)
      → get "approvals" request ≡ v
      → add_approvals request serialized ≡ ok effective
      → (w : Value) × (effective ≡ insert "approvals" w request)
  unfolding add_approvals
  add_approvals-value request effective serialized null v_is e =
      (array (items serialized), ground arith)
  add_approvals-value request effective serialized (array vs) v_is e =
      (array (items (elements vs ++ serialized)), ground arith)
  add_approvals-value request effective serialized (object fs) v_is e = absurd (ground arith)
  add_approvals-value request effective serialized (text s) v_is e = absurd (ground arith)
  add_approvals-value request effective serialized (integer n) v_is e = absurd (ground arith)
  add_approvals-value request effective serialized (float x) v_is e = absurd (ground arith)
  add_approvals-value request effective serialized (boolean b) v_is e = absurd (ground arith)

  -- Approvals do not touch the context.
  effective_request-context :
      (request effective : Dict Value) (approvals : Option (List ApprovalArgument))
      → effective_request request approvals ≡ ok effective
      → lookup "context" effective ≡ lookup "context" request
  unfolding effective_request String-discrete
  effective_request-context request effective none e = ground arith
  effective_request-context request effective (some approvals) e =
      elim (Outcome-cases (serialize approvals)) [
        | inr (failure, no_list) ↦ absurd (ground arith)
        | inl (serialized, done) ↦
            let (w, made) =
              add_approvals-value request effective serialized (get "approvals" request) refl
                (ground arith) in
            rw made (lookup-insert_approvals w request)
      ]

  -- The context that the claims of an identity stand in.
  pub record Binds (i : RuntimeIdentity) (request : Dict Value) : Type 0 where
    pub context : Dict Value
    pub in_request : lookup "context" request ≡ some (dict context)
    pub tenant : (t : String) → i.tenant_id ≡ some t → lookup "tenant_id" context ≡ some (text t)
    pub actor : (t : String) → i.actor_id ≡ some t → lookup "actor_id" context ≡ some (text t)
    pub environment : lookup "environment" context ≡ some (text i.environment)

  platform_request-Binds :
      (i : RuntimeIdentity) (request given effective : Dict Value)
      → platform_request i request given ≡ ok effective
      → Binds i effective
  unfolding platform_request effective_context
  platform_request-Binds i request given effective e =
      elim (Option-cases (as_dict (get_or "context" (dict []) request))) [
        | inl no_dict ↦ absurd (ground arith)
        | inr (requested, is_object) ↦
            let context = effective_context i requested given in
            let made : effective ≡ insert "context" (dict context) request = ground arith in
            let over = update given requested in
            record {
              context = context;
              in_request = rw made (lookup-insert_self "context" (dict context) request);
              tenant = λ t is_tenant.
                  let claim = identity_context-tenant i t is_tenant in
                  let wins = lookup-update "tenant_id" (identity_context i) over in ground arith;
              actor = λ t is_actor.
                  let claim = identity_context-actor i t is_actor in
                  let wins = lookup-update "actor_id" (identity_context i) over in ground arith;
              environment =
                  let claim = identity_context-environment i in
                  let wins = lookup-update "environment" (identity_context i) over in ground arith;
            }
      ]

  -- If the platform authorizes a request, the artifact's request has a context in which the tenant, the actor
  -- and the environment are those of the runtime identity (the tenant and the actor where it has them),
  -- whatever the request's own context, the context of the call, the approvals and the mesh inputs say; and
  -- the metrics count one successful authorization more and no denial.
  pub platform_authorize-Binds :
      (g : GovernancePlatform) (request : Dict Value) (policy_id : String) (ttl_seconds : ℤ)
      (approvals : Option (List ApprovalArgument)) (given : Dict Value)
      (inputs : List GovernanceInput) (now : ℤ) (nonce : String) (log log' : ReplayLog)
      (m m' : RuntimeMetrics) (a : Artifact)
      → platform_authorize g request policy_id ttl_seconds approvals given inputs now nonce log m
        ≡ ((ok a, log'), m')
      → Binds g.identity a.action_request × (m' ≡ record_authorized m)
  unfolding platform_authorize service_authorize
  platform_authorize-Binds g request policy_id ttl_seconds approvals given inputs now nonce log log'
        m m' a e =
      elim (Outcome-cases (platform_request g.identity request given)) [
        | inr (failure, no_request) ↦ absurd (ground arith)
        | inl (effective, made) ↦ elim (Outcome-cases (check_runtime g effective inputs)) [
          | inr (failure, refused_here) ↦ absurd (ground arith)
          | inl (u, in_bounds) ↦
              elim (Option-cases (lookup policy_id g.service.policies.policies)) [
                | inl unknown ↦ absurd (ground arith)
                | inr (policy, registered) ↦
                    let issuer = issuer_of g.service in
                    let handed_on : authorize issuer effective policy ttl_seconds approvals inputs
                          now nonce log
                        ≡ (ok a, log') =
                      ground arith in
                    let kept = effective_request-context effective a.action_request approvals (
                      authorize-request issuer effective policy ttl_seconds approvals inputs now
                        nonce log log' a handed_on) in
                    let bound = platform_request-Binds g.identity request given effective made in
                    (
                      record {
                        context = bound.context;
                        in_request = kept ∙ bound.in_request;
                        tenant = bound.tenant;
                        actor = bound.actor;
                        environment = bound.environment;
                      },
                      ground arith,
                    )
              ]
        ]
      ]
