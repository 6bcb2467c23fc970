-- ===== src/Issuer/Recorded.antt =====
-- What a call of `authorize` leaves in the log, whether it returns or raises.
use mathlib.Core.List.{append-nil, append_assoc}
use governed_autonomy_substr.Base.{
  >>=-eq-ok, Decision, Dict, Error, List, Option, Option-cases, Outcome-cases, String,
  String-discrete, [], ap, arith, err, if_intro, inl, inr, insert, is_in, lookup, lookup-insert,
  none, ok, refl, some, subst, sym, true, ◌++◌, ◌∙◌, ◌∷◌, ◌≡◌, ◌⧺◌,
}
use governed_autonomy_substr.Base.Int.{leb_ℤ, ltb_ℤ, pos, ℤ, ◌+ℤ◌}
use governed_autonomy_substr.Issuer.Authorize.{
  AuthorizationIssuer, Logged, arbitrate, authorization_id, authorize, combine, conclude,
  denied_event, issued_event, mesh_decision, mesh_evidence, mesh_of, unsigned_artifact,
}
use governed_autonomy_substr.Issuer.Request.{
  ApprovalArgument, add_approvals, effective_request, mesh_refusal, quoted_name, serialize,
}
use governed_autonomy_substr.Mesh.{
  GovernanceInput, Mesh, PreflightDecision, aggregate_all, check_inputs, frame_ref, preflight,
  preflight_event, record_decision,
}
use governed_autonomy_substr.Models.{Artifact, artifact_payload}
use governed_autonomy_substr.Platform.{Platform, digest}
use governed_autonomy_substr.Policy.{Policy, decide}
use governed_autonomy_substr.Replay.{
  ReplayFrame, ReplayLog, append, create_frame, head_hash, verify_chain,
}
use governed_autonomy_substr.Replay.Chain.{append-verify_chain}
use governed_autonomy_substr.Value.{
  Value, array, boolean, dict, elements, float, get, integer, items, null, object, text,
}

get-insert_approvals :
    (request : Dict Value) (v : Value)
    → get "action" (insert "approvals" v request) ≡ get "action" request
unfolding lookup String-discrete
get-insert_approvals request v = ground (arith, lookup-insert "approvals" "action" v request)

module _ ⦃p : Platform⦄ where
  -- The log has frames more at its end, the same used nonces, and a chain that verifies if it did before.
  abbrev pub Extends : ReplayLog → ReplayLog → Type 0
  Extends log log' =
      (more : List ReplayFrame) × (log'.frames ≡ log.frames ++ more)
      × (log'.used_nonces ≡ log.used_nonces)
      × (verify_chain log ≡ true → verify_chain log' ≡ true)

  Extends-refl : (log : ReplayLog) → Extends log log
  Extends-refl log = ([], sym (append-nil log.frames), refl, (λ h. h))

  Extends-append :
      (frame_id : String) (event : Dict Value) (log : ReplayLog)
      → Extends log (append frame_id event log)
  unfolding append
  Extends-append frame_id event log = (
    create_frame frame_id (head_hash log) event ∷ [],
    refl,
    refl,
    append-verify_chain frame_id event log,
  )

  Extends-trans :
      (log log' log'' : ReplayLog) → Extends log log' → Extends log' log'' → Extends log log''
  Extends-trans log log' log'' (more, frames_eq, nonces_eq, keeps)
        (more', frames_eq', nonces_eq', keeps') =
      (
        more ++ more',
        frames_eq' ∙ ap (λ fs. fs ++ more') frames_eq ∙ append_assoc log.frames more more',
        nonces_eq' ∙ nonces_eq,
        (λ h. keeps' (keeps h)),
      )

  record_decision-Extends :
      (m : Mesh) (request_digest : String) (d : PreflightDecision) (log : ReplayLog)
      → Extends log (record_decision m request_digest d log).1
  unfolding record_decision
  record_decision-Extends m request_digest d log =
      if_intro (λ (r : PreflightDecision × ReplayLog). Extends log r.1) m.records
        (Extends-append (frame_ref d) (preflight_event request_digest d) log) (Extends-refl log)

  preflight-Extends :
      (m : Mesh) (inputs : List GovernanceInput) (request_digest : String) (ref : Option String)
      (log log' : ReplayLog) (d : PreflightDecision)
      → preflight m inputs request_digest ref log ≡ ok (d, log')
      → Extends log log'
  unfolding preflight
  preflight-Extends m inputs request_digest ref log log' d e =
      let (u, checks_pass, e1) = >>=-eq-ok (check_inputs m inputs request_digest) _ e in
      let (decision, aggregated, e2) = >>=-eq-ok (aggregate_all inputs request_digest ref) _ e1 in
      subst (λ (l : ReplayLog). Extends log l) (ground arith)
        (record_decision-Extends m request_digest decision log)

  mesh_decision-Extends :
      (issuer : AuthorizationIssuer) (request : Dict Value) (inputs : List GovernanceInput)
      (log log' : ReplayLog) (verdict : Option PreflightDecision)
      → mesh_decision issuer request inputs log ≡ ok (verdict, log')
      → Extends log log'
  unfolding mesh_decision
  mesh_decision-Extends issuer request [] log log' verdict e =
      subst (λ (l : ReplayLog). Extends log l) (ground arith) (Extends-refl log)
  mesh_decision-Extends issuer request (i ∷ is) log log' verdict e =
      let (result, checked_mesh, e1) =
        >>=-eq-ok (preflight (mesh_of issuer) (i ∷ is) (digest (dict request)) none log) _ e in
      subst (λ (l : ReplayLog). Extends log l) (ground arith)
        (preflight-Extends (mesh_of issuer) (i ∷ is) (digest (dict request)) none log result.1
          result.0 checked_mesh)

  conclude-Extends :
      (issuer : AuthorizationIssuer) (request : Dict Value) (decision : Decision)
      (evidence : Dict Value) (expires_at : ℤ) (nonce : String) (log : ReplayLog)
      → Extends log (conclude issuer request decision evidence expires_at nonce log).1
  unfolding conclude
  conclude-Extends issuer request decision evidence expires_at nonce log =
      let unsigned = unsigned_artifact issuer request decision expires_at nonce in
      let event = issued_event nonce (artifact_payload unsigned) decision evidence in
      let refusal = denied_event nonce request decision in
      if_intro (λ (r : Logged Artifact). Extends log r.1) decision.allow
        (Extends-append (authorization_id nonce) event log)
        (Extends-append (authorization_id nonce) refusal log)

  arbitrate-Extends :
      (issuer : AuthorizationIssuer) (request : Dict Value) (policy : Policy)
      (inputs : List GovernanceInput) (expires_at : ℤ) (nonce : String) (log : ReplayLog)
      → Extends log (arbitrate issuer request policy inputs expires_at nonce log).1
  unfolding arbitrate
  arbitrate-Extends issuer request policy inputs expires_at nonce log =
      elim (Outcome-cases (decide issuer.arbiter request policy)) [
        | inr (failure, undecided) ↦ rw (undecided, arbitrate) (Extends-refl log)
        | inl (decision, decided) ↦ elim (Option-cases (mesh_refusal request policy inputs)) [
          | inr ((code, reason), lacking) ↦ rw (decided, arbitrate, lacking) (Extends-refl log)
          | inl enough ↦ elim (Outcome-cases (mesh_decision issuer request inputs log)) [
            | inr (failure, refused_mesh) ↦
                rw (decided, arbitrate, enough, refused_mesh) (Extends-refl log)
            | inl ((verdict, log'), asked) ↦
                rw (decided, arbitrate, enough, asked)
                  (Extends-trans log log' _
                    (mesh_decision-Extends issuer request inputs log log' verdict asked)
                    (conclude-Extends issuer request (combine decision verdict)
                      (mesh_evidence request inputs verdict) expires_at nonce log'))
          ]
        ]
      ]

  -- Whatever `authorize` returns or raises, it only appends frames to the log: the frames before stay, no
  -- nonce is used, and a chain that verified still does.
  pub authorize-Extends :
      (issuer : AuthorizationIssuer) (request : Dict Value) (policy : Policy) (ttl_seconds : ℤ)
      (approvals : Option (List ApprovalArgument)) (inputs : List GovernanceInput) (now : ℤ)
      (nonce : String) (log : ReplayLog)
      → Extends log (authorize issuer request policy ttl_seconds approvals inputs now nonce log).1
  unfolding authorize
  authorize-Extends issuer request policy ttl_seconds approvals inputs now nonce log =
      if_intro (λ (r : Logged Artifact). Extends log r.1) (leb_ℤ ttl_seconds (pos 0))
        (Extends-refl log)
        (if_intro (λ (r : Logged Artifact). Extends log r.1)
          (ltb_ℤ policy.max_ttl_seconds ttl_seconds) (Extends-refl log)
          (elim (Outcome-cases (effective_request request approvals)) [
            | inr (failure, malformed_request) ↦ rw malformed_request (Extends-refl log)
            | inl (effective, made) ↦
                rw made
                  (arbitrate-Extends issuer effective policy inputs (now +ℤ ttl_seconds) nonce log)
          ]))

  add_approvals-action :
      (request effective : Dict Value) (serialized : List Value) (v : Value)
      → get "approvals" request ≡ v
      → add_approvals request serialized ≡ ok effective
      → get "action" effective ≡ get "action" request
  unfolding add_approvals
  add_approvals-action request effective serialized null at e =
      let added = array (items serialized) in
      let made : effective ≡ insert "approvals" added request = ground arith in
      rw made (get-insert_approvals request added)
  add_approvals-action request effective serialized (array vs) at e =
      let added = array (items (elements vs ++ serialized)) in
      let made : effective ≡ insert "approvals" added request = ground arith in
      rw made (get-insert_approvals request added)
  add_approvals-action request effective serialized (text s) at e = absurd (ground arith)
  add_approvals-action request effective serialized (integer n) at e = absurd (ground arith)
  add_approvals-action request effective serialized (float x) at e = absurd (ground arith)
  add_approvals-action request effective serialized (boolean b) at e = absurd (ground arith)
  add_approvals-action request effective serialized (object fs) at e = absurd (ground arith)

  -- The approvals argument does not change the action of the request.
  effective_request-action :
      (request effective : Dict Value) (approvals : Option (List ApprovalArgument))
      → effective_request request approvals ≡ ok effective
      → get "action" effective ≡ get "action" request
  unfolding effective_request
  effective_request-action request effective none e = ap (get "action") (ground arith)
  effective_request-action request effective (some approvals) e =
      let (serialized, made, added) = >>=-eq-ok (serialize approvals) _ e in
      add_approvals-action request effective serialized (get "approvals" request) refl added

  mesh_refusal-no_inputs :
      (request : Dict Value) (policy : Policy) (action : String)
      → get "action" request ≡ text action
      → is_in action policy.mesh_required_actions ≡ true
      → (refusal : String × String) × (mesh_refusal request policy [] ≡ some refusal)
  unfolding mesh_refusal
  mesh_refusal-no_inputs request policy action at required = (
    ("mesh_inputs_required", "mesh inputs required for action " ⧺ quoted_name (some action)),
    ground arith,
  )

  -- A request for an action that the policy requires mesh inputs for, and that comes without inputs, gets no
  -- artifact and leaves the log exactly as it was, whatever its lifetime, its approvals and the arbiter are:
  -- it is refused without a frame.
  pub mesh_required_unaudited :
      (issuer : AuthorizationIssuer) (request : Dict Value) (policy : Policy) (action : String)
      (ttl_seconds : ℤ) (approvals : Option (List ApprovalArgument)) (now : ℤ) (nonce : String)
      (log : ReplayLog)
      → get "action" request ≡ text action
      → is_in action policy.mesh_required_actions ≡ true
      → (e : Error) × (authorize issuer request policy ttl_seconds approvals [] now nonce log
          ≡ (err e, log))
  unfolding authorize arbitrate
  mesh_required_unaudited issuer request policy action ttl_seconds approvals now nonce log at
        required =
      if_intro (λ (r : Logged Artifact). (e : Error) × (r ≡ (err e, log)))
        (leb_ℤ ttl_seconds (pos 0)) (_, refl)
        (if_intro (λ (r : Logged Artifact). (e : Error) × (r ≡ (err e, log)))
          (ltb_ℤ policy.max_ttl_seconds ttl_seconds) (_, refl)
          (elim (Outcome-cases (effective_request request approvals)) [
            | inr (failure, malformed_request) ↦ rw malformed_request (_, refl)
            | inl (effective, made) ↦
                elim (Outcome-cases (decide issuer.arbiter effective policy)) [
                  | inr (failure, undecided) ↦ rw (made, undecided, arbitrate) (_, refl)
                  | inl (d, decided) ↦
                      let same = effective_request-action request effective approvals made in
                      let (refusal, lacking) =
                        mesh_refusal-no_inputs effective policy action (same ∙ at) required in
                      rw (made, decided, arbitrate, lacking) (_, refl)
                ]
          ]))
