-- ===== src/Engine/Evidence.antt =====
-- `_validate_mesh_evidence` of engine.py.
use governed_autonomy_substr.Base.{
  List, Outcome, String, [], all, any, authorization_error, contains, eq_text, err, is_blank,
  is_empty, none, not, ok, or_raise, raise_if, ◌&&◌, ◌>>=◌, ◌>>◌, ◌∷◌,
}
use governed_autonomy_substr.Mesh.{
  GovernanceInput, PreflightDecision, bare_mesh, input_from_dict, preflight,
}
use governed_autonomy_substr.Models.{Artifact}
use governed_autonomy_substr.Platform.{Platform, digest}
use governed_autonomy_substr.Replay.{ReplayFrame, create_frame, empty_log}
use governed_autonomy_substr.Value.{Value, as_list, dict, eq_value, get, null, text}

abbrev pub evidence_keys : List String
evidence_keys = "mesh_preflight_digest" ∷ "mesh_request_digest" ∷ "mesh_inputs" ∷ []

abbrev pub refuse {ℓ} : {A : Type ℓ} → String → Outcome A
refuse message = err (authorization_error message)

module _ ⦃p : Platform⦄ where
  unfoldable pub parse_inputs : List Value → Outcome (List GovernanceInput)
  parse_inputs [] = ok []
  parse_inputs (v ∷ vs) = do i ← input_from_dict v; is ← parse_inputs vs; ok (i ∷ is)

  -- A mesh, type or value error of the reconstruction becomes an authorization error.
  unfoldable pub reconstruct : List Value → String → Outcome PreflightDecision
  unfolding parse_inputs
  reconstruct raw_inputs request_digest = elim (parse_inputs raw_inputs) [
    | err e ↦ refuse "mesh evidence is invalid"
    | ok inputs ↦ elim (preflight bare_mesh inputs request_digest none empty_log) [
      | err e ↦ refuse "mesh evidence is invalid"
      | ok (decision, _) ↦ ok decision
    ]
  ]

  -- With a signed digest in the decision: the evidence must reconstruct to it.
  unfoldable pub check_evidence : String → Artifact → ReplayFrame → Outcome (Unit {0})
  unfolding reconstruct
  check_evidence signed_digest artifact frame =
      let request_digest = digest (dict artifact.action_request) in
      do
        raise_if (is_blank signed_digest) (authorization_error "mesh preflight digest is malformed")
        raise_if (not (all (λ (k : String). contains k frame.event) evidence_keys))
            (authorization_error "mesh evidence is incomplete")
        raise_if (not (eq_value (get "mesh_preflight_digest" frame.event) (text signed_digest)))
            (authorization_error "mesh evidence digest does not match signed decision")
        raise_if (not (eq_value (get "mesh_request_digest" frame.event) (text request_digest)))
            (authorization_error "mesh evidence does not match the authorized request")
        raw_inputs ←
            or_raise (as_list (get "mesh_inputs" frame.event))
              (authorization_error "mesh evidence inputs are malformed")
        raise_if (is_empty raw_inputs) (authorization_error "mesh evidence inputs are malformed")
        decision ← reconstruct raw_inputs request_digest
        raise_if (not (decision.allow && eq_text decision.digest signed_digest))
            (authorization_error "mesh evidence does not reconstruct to the signed digest")
        let expected = create_frame frame.frame_id frame.previous_hash frame.event
        raise_if (not (eq_text expected.frame_hash frame.frame_hash))
            (authorization_error "mesh authorization replay evidence is tampered")

  unfoldable pub validate_mesh_evidence : Artifact → ReplayFrame → Outcome (Unit {0})
  unfolding check_evidence
  validate_mesh_evidence artifact frame = elim (get "mesh_preflight_digest" artifact.decision) [
    | null ↦
        raise_if (any (λ (k : String). contains k frame.event) evidence_keys)
          (authorization_error "mesh evidence is present without a signed mesh digest")
    | text signed_digest ↦ check_evidence signed_digest artifact frame
    | _ ↦ refuse "mesh preflight digest is malformed"
  ]
