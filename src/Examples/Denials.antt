-- ===== src/Examples/Denials.antt =====
-- Denials and compensations of the issuer at concrete inputs.
use governed_autonomy_substr.Base.{
  Dict, Error, String-discrete, [], err, insert, lookup, none, ok, refl, ◌∷◌, ◌≡◌,
}
use governed_autonomy_substr.Base.Int.{pos, ◌+ℤ◌}
use governed_autonomy_substr.Engine.{failure_event}
use governed_autonomy_substr.Examples.Calls.{artifact, issuer}
use governed_autonomy_substr.Examples.Policies.{decision, policy, request}
use governed_autonomy_substr.Examples.World.{dump, toy}
use governed_autonomy_substr.Issuer.{
  arbitrate, authorization_id, authorize, authorize_compensation, conclude, effective_request,
  issued_event, mesh_decision, mesh_evidence, mesh_refusal, unsigned_artifact,
}
use governed_autonomy_substr.Issuer.Recorded.{mesh_required_unaudited}
use governed_autonomy_substr.Models.{Artifact, artifact_payload, issue_artifact}
use governed_autonomy_substr.Policy.{
  Policy, approval_count, collect, decide, exceeded_limits, is_allowed, listed_approvals,
  mismatched_context, mismatched_fields, missing_context, missing_fields, policy_digest,
  policy_to_dict, quorum_violations, request_size, stated_count, violations,
}
use governed_autonomy_substr.Replay.{ReplayLog, append, create_frame, empty_log, events_for_nonce}
use governed_autonomy_substr.Value.{Value, eq_value, text}

abbrev mesh_policy : Policy
mesh_policy = record policy { mesh_required_actions = "deploy" ∷ [] }

mesh_required_unaudited_example :
    (e : Error) × (authorize issuer request mesh_policy (pos 10) none [] (pos 5) "n" empty_log
      ≡ (err e, empty_log))
unfolding lookup String-discrete
mesh_required_unaudited_example =
    mesh_required_unaudited issuer request mesh_policy "deploy" (pos 10) none (pos 5) "n" empty_log
      refl refl

abbrev failed_log : ReplayLog
failed_log = append "execution:n" (failure_event artifact "RuntimeError" "no connection") empty_log

abbrev compensation : Dict Value
compensation = insert "compensation_for" (text "n") request

abbrev compensation_unsigned : Artifact
compensation_unsigned = unsigned_artifact issuer compensation decision (pos 15) "m"

abbrev compensation_artifact : Artifact
compensation_artifact = record compensation_unsigned { signature = "signed" }

abbrev compensation_log : ReplayLog
compensation_log =
    append (authorization_id "m")
      (issued_event "m" (artifact_payload compensation_unsigned) decision []) failed_log

compensated :
    authorize_compensation issuer "n" request policy (pos 10) (pos 5) "m" failed_log
    ≡ (ok compensation_artifact, compensation_log)
unfolding create_frame authorize_compensation events_for_nonce append empty_log eq_value insert
    authorize effective_request arbitrate mesh_refusal mesh_decision mesh_evidence conclude
    issue_artifact decide violations missing_fields mismatched_fields exceeded_limits
    missing_context mismatched_context quorum_violations request_size is_allowed approval_count
    stated_count collect listed_approvals policy_digest policy_to_dict String-discrete lookup dump
    ◌+ℤ◌
compensated = refl
