-- ===== src/Admin/Payloads.antt =====
-- What the managers of platform_admin.py show to a signer outside the process and to an HTTP client.
use governed_autonomy_substr.Policy.{policy_digest as content_digest}
use governed_autonomy_substr.Admin.{
  ChangeManager, PolicyApproval, PolicyProposal, approval_of, approval_unsigned_dict, audit,
  count_approvers, draft_proposal, is_pending, proposal_id_for, proposal_unsigned, propose_signed,
  status_value, verify_proposal,
}
use governed_autonomy_substr.Base.{
  Dict, Option, Outcome, String, String-discrete, [], arith, contains, false, insert, key_error,
  le_text, lookup, map, not, ok, or_raise, raise_if, some, sort_by, true, value_error, ◌>>=◌, ◌>>◌,
  ◌∷◌, ◌≡◌, ◌⧺◌,
}
use governed_autonomy_substr.Base.Int.{pos}
use governed_autonomy_substr.Platform.{Platform, PublicKey, canonical_json, verify_signature}
use governed_autonomy_substr.Policy.{Policy, policy_to_dict}
use governed_autonomy_substr.Trust.{resolve}
use governed_autonomy_substr.Value.{Value, array, dict, integer, items, text}

module _ ⦃p : Platform⦄ where
  abbrev pub summary_of_approval : PolicyApproval → Value
  summary_of_approval a = dict (("approver_key_id", text a.approver_key_id) ∷ [])

  unfoldable pub to_summary_dict : PolicyProposal → Dict Value
  to_summary_dict q =
      ("proposal_id", text q.proposal_id)
      ∷ ("policy_id", text q.policy_id)
      ∷ ("current_policy_digest", text q.current_policy_digest)
      ∷ ("proposed_policy", dict (policy_to_dict q.proposed_policy))
      ∷ ("proposed_policy_digest", text (content_digest q.proposed_policy))
      ∷ ("proposed_by_key_id", text q.proposed_by_key_id)
      ∷ ("rationale", text q.rationale)
      ∷ ("status", text (status_value q.status))
      ∷ ("approval_count", integer (pos (count_approvers q)))
      ∷ (
        "approvals",
        array (
            items (
              map summary_of_approval (
                sort_by
                  (λ (x : PolicyApproval) (y : PolicyApproval).
                    le_text x.approver_key_id y.approver_key_id)
                  q.approvals))),
      )
      ∷ []

  unfoldable pub prepare_proposal :
      Policy → String → String → Option String → ChangeManager → Dict Value
  prepare_proposal new_policy proposer_key_id rationale given m =
      let draft = draft_proposal new_policy proposer_key_id rationale given m in
      ("proposal_id", text draft.proposal_id)
      ∷ ("current_policy_digest", text draft.current_policy_digest)
      ∷ ("unsigned_payload", text (canonical_json (proposal_unsigned draft)))
      ∷ []

  unfoldable pub prepare_approval : String → String → ChangeManager → Outcome (Dict Value)
  prepare_approval proposal_id approver_key_id m = do
    proposal ←
        or_raise (lookup proposal_id m.proposals)
          (key_error ("unknown policy proposal: " ⧺ proposal_id))
    raise_if (not (is_pending proposal.status)) (value_error "proposal is no longer pending")
    let draft = approval_of proposal approver_key_id ""
    ok (
        ("policy_digest", text draft.policy_digest)
        ∷ ("unsigned_payload", text (canonical_json (approval_unsigned_dict draft)))
        ∷ [])

  -- A signature over the payload that `prepare_proposal` returns, by a trusted key, is accepted under an id that
  -- is not taken: the proposal is on record as it was shown, pending and without approvals.
  pub propose_signed-prepare_proposal :
      (policy : Policy) (key_id signature rationale : String) (given : Option String)
      (actor_id payload : String) (key : PublicKey) (m : ChangeManager)
      → lookup "unsigned_payload" (prepare_proposal policy key_id rationale given m)
        ≡ some (text payload)
      → resolve key_id m.trust_store ≡ some key
      → verify_signature key payload signature ≡ true
      → contains (proposal_id_for policy given m) m.proposals ≡ false
      → let shown : PolicyProposal = record (draft_proposal policy key_id rationale given m) {
        signature = signature;
      } in
        propose_signed policy key_id signature rationale given actor_id m
        ≡ ok (
          shown,
          audit "policy.proposed"
              (proposal_id_for policy given m)
              actor_id
              (record m { proposals = insert (proposal_id_for policy given m) shown m.proposals }),
        )
  unfolding propose_signed verify_proposal prepare_proposal lookup String-discrete
  propose_signed-prepare_proposal policy key_id signature rationale given actor_id payload key m
        shown_payload resolved signed free =
      let draft = draft_proposal policy key_id rationale given m in
      let same : canonical_json (proposal_unsigned draft) ≡ payload = ground arith in
      let signed_draft : verify_signature key (canonical_json (proposal_unsigned draft)) signature
          ≡ true =
        rw same signed in
      ground arith
