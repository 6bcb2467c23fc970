-- ===== src/Examples/Calls.antt =====
-- The theorems of the issuer and of the barrier at concrete inputs.
use governed_autonomy_substr.Base.{
  Dict, Error, List, String-discrete, [], arith, err, false, inr, lookup, none, ok, refl, some,
  true, ℕ, ◌∷◌, ◌≡◌, ◌≤◌, ◌⊎◌,
}
use governed_autonomy_substr.Base.Int.{pos, ℤ, ◌+ℤ◌, ◌<ℤ◌, ◌≤ℤ◌}
use governed_autonomy_substr.Engine.{
  ActionEnd, ActionResult, ExecutionBoundary, execute, issuer_key, issuer_keys, run_action,
  validate,
}
use governed_autonomy_substr.Engine.Barrier.{Admissible}
use governed_autonomy_substr.Engine.Execution.{
  Operation, Recorded, claimed, execute-Admissible, execute-records, execute_once, perform_all,
}
use governed_autonomy_substr.Engine.Interleaving.{
  Thread, at_most_once, holders, interleave, waiting,
}
use governed_autonomy_substr.Examples.Policies.{arbiter, decision, policy, request}
use governed_autonomy_substr.Examples.World.{dump, signer, signer-Signs, toy}
use governed_autonomy_substr.Issuer.{
  AuthorizationIssuer, arbitrate, authorization_id, authorize, conclude, effective_request,
  issued_event, mesh_decision, mesh_evidence, mesh_refusal, unsigned_artifact,
}
use governed_autonomy_substr.Issuer.Accepted.{Registers, authorize-validate}
use governed_autonomy_substr.Issuer.Granted.{Grant, authorize-Grant}
use governed_autonomy_substr.Issuer.Recorded.{Extends, authorize-Extends}
use governed_autonomy_substr.Models.{Artifact, artifact_payload, issue_artifact}
use governed_autonomy_substr.Policy.{
  approval_count, collect, decide, exceeded_limits, get_policy, is_allowed, listed_approvals,
  mismatched_context, mismatched_fields, missing_context, missing_fields, policy_digest,
  policy_to_dict, quorum_violations, request_size, stated_count, violations,
}
use governed_autonomy_substr.Replay.{
  ReplayLog, append, empty_log, get_frame, nonce_used, verify_chain,
}
use governed_autonomy_substr.Value.{Value, text}

abbrev pub issuer : AuthorizationIssuer
issuer = record { signer = signer; arbiter = arbiter; mesh = none; mesh_source_registry = none }

abbrev unsigned : Artifact
unsigned = unsigned_artifact issuer request decision (pos 15) "n"

abbrev pub artifact : Artifact
artifact = record unsigned { signature = "signed" }

abbrev pub issued_log : ReplayLog
issued_log =
    append (authorization_id "n") (issued_event "n" (artifact_payload unsigned) decision [])
      empty_log

abbrev pub boundary : ExecutionBoundary
boundary = record {
  issuers = issuer_keys (("issuer", "key") ∷ []);
  policy_registry = some (record {
    policies = ("p", policy) ∷ [];
    versions = ("p", pos 1) ∷ [];
    signed_manifests = [];
    trust_store = none;
  });
  arbiter = arbiter;
}

issued :
    authorize issuer request policy (pos 10) none [] (pos 5) "n" empty_log
    ≡ (ok artifact, issued_log)
unfolding authorize effective_request arbitrate mesh_refusal mesh_decision mesh_evidence conclude
    issue_artifact decide violations missing_fields mismatched_fields exceeded_limits
    missing_context mismatched_context quorum_violations request_size is_allowed approval_count
    stated_count collect listed_approvals policy_digest policy_to_dict String-discrete lookup dump
    ◌+ℤ◌
issued = refl

authorize-Grant_example :
    (pos 0 <ℤ pos 10)
    × (pos 10 ≤ℤ policy.max_ttl_seconds)
    × (effective : Dict Value) × (effective_request request none ≡ ok effective)
    × Grant issuer effective policy (pos 5 +ℤ pos 10) "n" empty_log artifact issued_log
authorize-Grant_example =
    authorize-Grant issuer request policy (pos 10) none (pos 5) "n" empty_log issued_log artifact
      issued

early : pos 9 <ℤ pos 5 +ℤ pos 10
unfolding ◌+ℤ◌
early = omega arith

key_known : issuer_key issuer.signer.key_id boundary ≡ some "key"
unfolding issuer_key lookup String-discrete
key_known = refl

unused : nonce_used "n" empty_log ≡ false
unfolding nonce_used empty_log
unused = refl

absent : get_frame (authorization_id "n") empty_log ≡ none
unfolding get_frame empty_log
absent = refl

has_policy : Registers boundary policy
unfolding get_policy lookup String-discrete
has_policy = inr (_, refl, refl)

authorize-validate_example : validate boundary (pos 9) artifact issued_log ≡ ok tt
authorize-validate_example =
    authorize-validate issuer boundary "key" request policy (pos 10) none (pos 5) (pos 9) "n"
      empty_log issued_log artifact issued signer-Signs key_known early unused absent refl
      has_policy

accepted : validate boundary (pos 9) artifact issued_log ≡ ok tt
accepted =
    authorize-validate issuer boundary "key" request policy (pos 10) none (pos 5) (pos 9) "n"
      empty_log issued_log artifact issued signer-Signs key_known early unused absent refl
      has_policy

abbrev deploys : Dict Value → ActionEnd
deploys _ = ActionEnd.returned (ActionResult.json (text "done"))

abbrev fails : Dict Value → ActionEnd
fails _ = ActionEnd.raised "RuntimeError" "no connection"

execute-Admissible_example :
    ((e : Error) × ((action : Dict Value → ActionEnd)
        → execute boundary (pos 9) artifact action issued_log ≡ (err e, issued_log)))
    ⊎ (Admissible boundary (pos 9) artifact issued_log
        × ((action : Dict Value → ActionEnd)
            → execute boundary (pos 9) artifact action issued_log
              ≡ run_action artifact action (claimed "n" issued_log)))
execute-Admissible_example = execute-Admissible boundary (pos 9) artifact issued_log

execute-records_example :
    let log' = (execute boundary (pos 9) artifact fails issued_log).1 in
    Recorded artifact "failed" issued_log log'
    × (nonce_used "n" log' ≡ true)
    × (verify_chain issued_log ≡ true → verify_chain log' ≡ true)
execute-records_example = execute-records boundary (pos 9) artifact fails issued_log tt accepted

execute_once_example :
    let log' =
      perform_all
        (Operation.appends "note" [] ∷ [])
        (execute boundary (pos 9) artifact fails issued_log).1 in
    (e : Error) × (execute boundary (pos 10) artifact deploys log' ≡ (err e, log'))
execute_once_example =
    execute_once boundary boundary (pos 9) (pos 10) artifact artifact fails deploys issued_log tt
      (Operation.appends "note" [] ∷ []) accepted refl

abbrev delivery : Thread
delivery = record { artifact = artifact; action = deploys; phase = waiting }

abbrev deliveries : List Thread
deliveries = delivery ∷ delivery ∷ []

-- Both threads check before either claims.
abbrev schedule : List (ℕ × ℤ)
schedule = (0, pos 9) ∷ (1, pos 9) ∷ (1, pos 10) ∷ (0, pos 10) ∷ (1, pos 11) ∷ []

at_most_once_example :
    let (ts', log') = interleave boundary schedule deliveries issued_log in
    (holders "n" ts' ≤ 1)
    × (nonce_used "n" issued_log ≡ true → holders "n" ts' ≡ 0)
    × (nonce_used "n" issued_log ≡ false → nonce_used "n" log' ≡ true → holders "n" ts' ≡ 1)
at_most_once_example = at_most_once boundary "n" schedule deliveries issued_log (refl, (refl, tt))

authorize-Extends_example :
    Extends empty_log (authorize issuer request policy (pos 10) none [] (pos 5) "n" empty_log).1
authorize-Extends_example =
    authorize-Extends issuer request policy (pos 10) none [] (pos 5) "n" empty_log
