-- ===== src/Issuer/Granted.antt =====
-- What `authorize` has done when it returns an artifact, and that the barrier then accepts it.
use governed_autonomy_substr.Base.{
  Decision, Dict, List, Option, Option-cases, Outcome-cases, String, [], arith, inl, inr, ok, true,
  ◌≡◌,
}
use governed_autonomy_substr.Base.Int.{pos, ℤ, ◌+ℤ◌, ◌<ℤ◌, ◌≤ℤ◌}
use governed_autonomy_substr.Issuer.Authorize.{
  AuthorizationIssuer, arbitrate, authorization_id, authorize, conclude, issued_event,
  mesh_decision, mesh_evidence, unsigned_artifact,
}
use governed_autonomy_substr.Issuer.Request.{ApprovalArgument, effective_request, mesh_refusal}
use governed_autonomy_substr.Models.{Artifact, artifact_payload, issue_artifact}
use governed_autonomy_substr.Platform.{Platform}
use governed_autonomy_substr.Policy.{Policy, decide}
use governed_autonomy_substr.Replay.{ReplayLog, append}
use governed_autonomy_substr.Value.{Value}

-- The call has signed this artifact for this request under an allowing decision, and appended its frame.
pub record Grant ⦃p : Platform⦄ (issuer : AuthorizationIssuer) (request : Dict Value)
    (policy : Policy) (expires_at : ℤ) (nonce : String) (log : ReplayLog) (a : Artifact)
    (log' : ReplayLog) : Type 0 where
  pub decision : Decision
  pub decided : decide issuer.arbiter request policy ≡ ok decision
  pub allowed : decision.allow ≡ true
  pub signature : String
  pub signature_made :
      let unsigned = unsigned_artifact issuer request decision expires_at nonce in
      issuer.signer.sign (artifact_payload unsigned) ≡ ok signature
  pub artifact_eq : a ≡ record (unsigned_artifact issuer request decision expires_at nonce) {
    signature = signature;
  }
  pub log_eq :
      let unsigned = unsigned_artifact issuer request decision expires_at nonce in
      log'
      ≡ append
          (authorization_id nonce)
          (issued_event nonce (artifact_payload unsigned) decision [])
          log

module _ ⦃p : Platform⦄ where
  conclude-granted :
      (issuer : AuthorizationIssuer) (policy : Policy) (request : Dict Value) (decision : Decision)
      (expires_at : ℤ) (nonce : String) (log log' : ReplayLog) (a : Artifact)
      → decide issuer.arbiter request policy ≡ ok decision
      → conclude issuer request decision [] expires_at nonce log ≡ (ok a, log')
      → Grant issuer request policy expires_at nonce log a log'
  unfolding conclude issue_artifact
  conclude-granted issuer policy request decision expires_at nonce log log' a decided e =
      let unsigned = unsigned_artifact issuer request decision expires_at nonce in
      elim (Outcome-cases (issuer.signer.sign (artifact_payload unsigned))) [
        | inr (failure, no_signature) ↦ absurd (ground arith)
        | inl (signature, made) ↦ record {
          decision = decision;
          decided = decided;
          allowed = ground arith;
          signature = signature;
          signature_made = made;
          artifact_eq = ground arith;
          log_eq = ground arith;
        }
      ]

  arbitrate-granted :
      (issuer : AuthorizationIssuer) (policy : Policy) (request : Dict Value) (expires_at : ℤ)
      (nonce : String) (log log' : ReplayLog) (a : Artifact)
      → arbitrate issuer request policy [] expires_at nonce log ≡ (ok a, log')
      → Grant issuer request policy expires_at nonce log a log'
  unfolding arbitrate mesh_decision mesh_evidence
  arbitrate-granted issuer policy request expires_at nonce log log' a e =
      elim (Outcome-cases (decide issuer.arbiter request policy)) [
        | inr (failure, undecided) ↦ absurd (ground arith)
        | inl (decision, decided) ↦ elim (Option-cases (mesh_refusal request policy [])) [
          | inr (refusal, lacking) ↦ absurd (ground arith)
          | inl enough ↦
              conclude-granted issuer policy request decision expires_at nonce log log' a decided
                (ground arith)
        ]
      ]

  -- If `authorize` returns an artifact and was given no mesh inputs, then the lifetime is positive and at
  -- most the policy's maximum, the effective request (the request with the given approvals in its list) is
  -- made, the arbiter has allowed it, the artifact is the issuer's signature of it and of the decision, and
  -- the log has exactly the issued frame more.
  pub authorize-Grant :
      (issuer : AuthorizationIssuer) (request : Dict Value) (policy : Policy) (ttl_seconds : ℤ)
      (approvals : Option (List ApprovalArgument)) (now : ℤ) (nonce : String) (log log' : ReplayLog)
      (a : Artifact)
      → authorize issuer request policy ttl_seconds approvals [] now nonce log ≡ (ok a, log')
      → (pos 0 <ℤ ttl_seconds)
        × (ttl_seconds ≤ℤ policy.max_ttl_seconds)
        × (effective : Dict Value) × (effective_request request approvals ≡ ok effective)
        × Grant issuer effective policy (now +ℤ ttl_seconds) nonce log a log'
  unfolding authorize
  authorize-Grant issuer request policy ttl_seconds approvals now nonce log log' a e =
      elim (Outcome-cases (effective_request request approvals)) [
        | inr (failure, malformed_request) ↦ absurd (ground arith)
        | inl (effective, made) ↦ (
          ground arith,
          ground arith,
          effective,
          made,
          arbitrate-granted issuer policy effective (now +ℤ ttl_seconds) nonce log log' a
              (ground arith),
        )
      ]
