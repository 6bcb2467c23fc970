-- ===== src/Issuer/Authorize.antt =====
-- The second half of `AuthorizationIssuer.authorize`: decision, mesh preflight, audit frame, signature.
use governed_autonomy_substr.Base.{
  Bool, Decision, Dict, List, Option, Outcome, String, [], any, authorization_error, err, false,
  if◌then◌else◌, insert, is_blank, map, none, ok, policy_denied, some, true, value_error, ◌&&◌,
  ◌>>=◌, ◌∷◌, ◌⧺◌,
}
use governed_autonomy_substr.Base.Int.{leb_ℤ, ltb_ℤ, pos, ℤ, ◌+ℤ◌}
use governed_autonomy_substr.Issuer.Request.{
  ApprovalArgument, deny, effective_request, mesh_refusal,
}
use governed_autonomy_substr.Mesh.{
  GovernanceInput, Mesh, PreflightDecision, SourceRegistry, input_to_dict, preflight,
}
use governed_autonomy_substr.Models.{Artifact, artifact_payload, issue_artifact, optional_entry}
use governed_autonomy_substr.Platform.{Platform, Signer, digest}
use governed_autonomy_substr.Policy.{Arbiter, Policy, decide}
use governed_autonomy_substr.Replay.{ReplayLog, append, events_for_nonce, has_type}
use governed_autonomy_substr.Value.{Value, array, boolean, dict, eq_value, get, items, text, texts}

pub record AuthorizationIssuer : Type 0 where
  pub signer : Signer
  pub arbiter : Arbiter
  pub mesh : Option Mesh
  pub mesh_source_registry : Option SourceRegistry

-- What a call leaves: its result or exception, and the log.
abbrev pub Logged {ℓ} : Type ℓ → Type ℓ
Logged A = Outcome A × ReplayLog

-- `decision` as the dict that is signed and logged.
abbrev pub decision_to_dict : Decision → Dict Value
decision_to_dict d =
    ("allow", boolean d.allow)
    ∷ ("allowed_actions", texts d.allowed_actions)
    ∷ ("policy", text d.policy)
    ∷ ("policy_digest", text d.policy_digest)
    ∷ ("reasons", texts d.reasons)
    ∷ ("reason_codes", texts d.reason_codes)
    ∷ ("request_digest", text d.request_digest)
    ∷ optional_entry "mesh_preflight_digest" d.mesh_preflight_digest

-- The mesh that is used: the issuer's own, or one over its log and source registry.
abbrev pub mesh_of : AuthorizationIssuer → Mesh
mesh_of issuer = elim issuer.mesh [
  | some m ↦ m
  | none ↦ record {
    trusted_sources = [];
    trust_store = none;
    source_registry = issuer.mesh_source_registry;
    records = true;
  }
]

abbrev pub authorization_id : String → String
authorization_id nonce = "authorization:" ⧺ nonce

abbrev pub denied_event : String → Dict Value → Decision → Dict Value
denied_event nonce request decision =
    ("type", text "authorization")
    ∷ ("nonce", text nonce)
    ∷ ("request", dict request)
    ∷ ("decision", dict (decision_to_dict decision))
    ∷ ("issued", boolean false)
    ∷ []

-- A failed execution among the events of a nonce.
abbrev pub is_failed_execution : Dict Value → Bool
is_failed_execution event =
    has_type "execution" event && eq_value (get "status" event) (text "failed")

module _ ⦃p : Platform⦄ where
  -- The decision with the mesh's verdict in it.
  abbrev pub with_mesh : Decision → PreflightDecision → Decision
  with_mesh decision m =
      if m.allow
      then record decision { mesh_preflight_digest = some m.digest }
      else (let denied = deny decision "governance_mesh_denied" m.reasons in
          record denied { mesh_preflight_digest = some m.digest })

  -- Without inputs the mesh is not asked.
  unfoldable pub mesh_decision :
      AuthorizationIssuer
      → Dict Value
      → List GovernanceInput
      → ReplayLog
      → Outcome (Option PreflightDecision × ReplayLog)
  mesh_decision issuer request [] log = ok (none, log)
  mesh_decision issuer request (i ∷ is) log = do
    result ← preflight (mesh_of issuer) (i ∷ is) (digest (dict request)) none log
    ok (some result.0, result.1)

  abbrev pub combine : Decision → Option PreflightDecision → Decision
  combine decision none = decision
  combine decision (some m) = with_mesh decision m

  -- The evidence that an issued frame carries of the mesh.
  unfoldable pub mesh_evidence :
      Dict Value → List GovernanceInput → Option PreflightDecision → Dict Value
  mesh_evidence request inputs none = []
  mesh_evidence request inputs (some m) =
      ("mesh_preflight_digest", text m.digest)
      ∷ ("mesh_request_digest", text (digest (dict request)))
      ∷ ("mesh_inputs", array (items (map input_to_dict inputs)))
      ∷ []

  abbrev pub unsigned_artifact : AuthorizationIssuer → Dict Value → Decision → ℤ → String → Artifact
  unsigned_artifact issuer request decision expires_at nonce = record {
    action_request = request;
    decision = decision_to_dict decision;
    expires_at = expires_at;
    nonce = nonce;
    replay_frame_ref = authorization_id nonce;
    issuer_key_id = issuer.signer.key_id;
    signature = "";
  }

  abbrev pub issued_event : String → String → Decision → Dict Value → Dict Value
  issued_event nonce payload decision evidence =
      ("type", text "authorization")
      ∷ ("nonce", text nonce)
      ∷ ("artifact_payload", text payload)
      ∷ ("decision", dict (decision_to_dict decision))
      ∷ ("issued", boolean true)
      ∷ evidence

  -- From the final decision on: a denial is logged and raised; otherwise the GAA is logged and signed.
  unfoldable pub conclude :
      AuthorizationIssuer
      → Dict Value
      → Decision
      → Dict Value
      → ℤ
      → String
      → ReplayLog
      → Logged Artifact
  unfolding issue_artifact
  conclude issuer request decision evidence expires_at nonce log =
      let unsigned = unsigned_artifact issuer request decision expires_at nonce in
      let event = issued_event nonce (artifact_payload unsigned) decision evidence in
      if decision.allow
      then (
        issue_artifact request (decision_to_dict decision) expires_at nonce (authorization_id nonce)
            issuer.signer,
        append (authorization_id nonce) event log,
      )
      else (
        err (policy_denied decision),
        append (authorization_id nonce) (denied_event nonce request decision) log,
      )

  -- From the effective request on.
  unfoldable pub arbitrate :
      AuthorizationIssuer
      → Dict Value
      → Policy
      → List GovernanceInput
      → ℤ
      → String
      → ReplayLog
      → Logged Artifact
  unfolding conclude mesh_decision mesh_evidence
  arbitrate issuer request policy inputs expires_at nonce log =
      elim (decide issuer.arbiter request policy) [
        | err e ↦ (err e, log)
        | ok decision ↦ elim (mesh_refusal request policy inputs) [
          | some (code, reason) ↦ (err (policy_denied (deny decision code (reason ∷ []))), log)
          | none ↦ elim (mesh_decision issuer request inputs log) [
            | err e ↦ (err e, log)
            | ok (verdict, log') ↦
                conclude issuer request (combine decision verdict)
                  (mesh_evidence request inputs verdict) expires_at nonce log'
          ]
        ]
      ]

  unfoldable pub authorize :
      AuthorizationIssuer
      → Dict Value
      → Policy
      → ℤ
      → Option (List ApprovalArgument)
      → List GovernanceInput
      → ℤ
      → String
      → ReplayLog
      → Logged Artifact
  unfolding effective_request arbitrate
  authorize issuer request policy ttl_seconds approvals mesh_inputs now nonce log =
      if leb_ℤ ttl_seconds (pos 0)
      then (err (value_error "ttl_seconds must be positive"), log)
      else (if ltb_ℤ policy.max_ttl_seconds ttl_seconds
          then (err (value_error "ttl_seconds exceeds policy maximum"), log)
          else elim (effective_request request approvals) [
            | err e ↦ (err e, log)
            | ok effective ↦
                arbitrate issuer effective policy mesh_inputs (now +ℤ ttl_seconds) nonce log
          ])

  unfoldable pub authorize_compensation :
      AuthorizationIssuer
      → String
      → Dict Value
      → Policy
      → ℤ
      → ℤ
      → String
      → ReplayLog
      → Logged Artifact
  unfolding events_for_nonce authorize
  authorize_compensation issuer failed_nonce request policy ttl_seconds now nonce log =
      if is_blank failed_nonce
      then (err (value_error "failed_nonce must not be empty"), log)
      else elim (events_for_nonce failed_nonce log) [
        | err e ↦ (err e, log)
        | ok found ↦
            if any is_failed_execution found
            then authorize issuer (insert "compensation_for" (text failed_nonce) request) policy
                ttl_seconds none [] now nonce log
            else (
              err (authorization_error "compensation requires an audited failed execution"),
              log,
            )
      ]
