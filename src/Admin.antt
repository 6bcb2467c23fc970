-- ===== src/Admin.antt =====
-- `PolicyChangeManager` of platform_admin.py: policy changes that are proposed, approved by other keys, and
-- activated. The audit hooks get what is listed under `audited`, oldest first.
pub mod Payloads
pub mod Quorum
pub mod TrustChange
pub mod Locked
use governed_autonomy_substr.Policy.{policy_digest as content_digest}
use governed_autonomy_substr.Base.{
  Bool, Dict, List, Option, Outcome, String, [], contains, eq_text, false, if◌then◌else◌, insert,
  is_blank, is_in, is_some, key_error, le_text, leb, length, lookup, ltb, map, none, not, ok,
  or_raise, raise_if, some, sort_by, true, unique, value_error, ℕ, ◌&&◌, ◌++◌, ◌>>=◌, ◌>>◌, ◌∷◌,
  ◌⧺◌,
}
use governed_autonomy_substr.Platform.{Platform, canonical_json, verify_signature}
use governed_autonomy_substr.Policy.{Policy, PolicyRegistry, policy_to_dict, register_policy}
use governed_autonomy_substr.Trust.{TrustStore, resolve}
use governed_autonomy_substr.Value.{Value, dict, text}

pub record PolicyApproval : Type 0 where
  pub proposal_id : String
  pub policy_id : String
  pub policy_digest : String
  pub approver_key_id : String
  pub signature : String

pub data ProposalStatus : Type 0 where
  pending activated_status : ProposalStatus

abbrev pub status_value : ProposalStatus → String
status_value pending = "pending"
status_value activated_status = "activated"

abbrev pub is_pending : ProposalStatus → Bool
is_pending pending = true
is_pending activated_status = false

pub record PolicyProposal : Type 0 where
  pub proposal_id : String
  pub policy_id : String
  pub current_policy_digest : String
  pub proposed_policy : Policy
  pub proposed_by_key_id : String
  pub rationale : String
  pub status : ProposalStatus
  pub signature : String
  pub approvals : List PolicyApproval

pub record ChangeManager : Type 0 where
  pub registry : PolicyRegistry
  pub trust_store : TrustStore
  pub required_approvals : ℕ
  pub enforce_separation_of_duties : Bool
  pub proposals : Dict PolicyProposal
  pub audited : List (String × String × String)

abbrev pub fresh_manager : PolicyRegistry → TrustStore → ℕ → Bool → ChangeManager
fresh_manager registry trust_store required_approvals separated = record {
  registry = registry;
  trust_store = trust_store;
  required_approvals = required_approvals;
  enforce_separation_of_duties = separated;
  proposals = [];
  audited = [];
}

unfoldable pub change_manager : PolicyRegistry → TrustStore → ℕ → Bool → Outcome ChangeManager
change_manager registry trust_store required_approvals separated = do
  raise_if (leb required_approvals 0) (value_error "required_approvals must be positive")
  ok (fresh_manager registry trust_store required_approvals separated)

abbrev pub approval_unsigned_dict : PolicyApproval → Value
approval_unsigned_dict a = dict (
    ("proposal_id", text a.proposal_id)
    ∷ ("policy_id", text a.policy_id)
    ∷ ("policy_digest", text a.policy_digest)
    ∷ ("approver_key_id", text a.approver_key_id)
    ∷ [])

abbrev pub proposal_unsigned : PolicyProposal → Value
proposal_unsigned q = dict (
    ("proposal_id", text q.proposal_id)
    ∷ ("policy_id", text q.policy_id)
    ∷ ("current_policy_digest", text q.current_policy_digest)
    ∷ ("proposed_policy", dict (policy_to_dict q.proposed_policy))
    ∷ ("proposed_by_key_id", text q.proposed_by_key_id)
    ∷ ("rationale", text q.rationale)
    ∷ ("status", text (status_value q.status))
    ∷ [])

-- `len({approval.approver_key_id for approval in self.approvals})`.
abbrev pub count_approvers : PolicyProposal → ℕ
count_approvers q = length (unique (map (λ (a : PolicyApproval). a.approver_key_id) q.approvals))

abbrev pub audit : String → String → String → ChangeManager → ChangeManager
audit event subject_id actor_id m = record m {
  audited = m.audited ++ (event, subject_id, actor_id) ∷ [];
}

module _ ⦃p : Platform⦄ where
  -- A key that resolves has signed the payload.
  abbrev pub signed_by : String → Value → String → TrustStore → Bool
  signed_by key_id payload signature store = elim (resolve key_id store) [
    | none ↦ false
    | some key ↦ verify_signature key (canonical_json payload) signature
  ]

  unfoldable pub verify_policy_approval : PolicyApproval → TrustStore → Bool
  verify_policy_approval a store =
      signed_by a.approver_key_id (approval_unsigned_dict a) a.signature store

  unfoldable pub verify_proposal : PolicyProposal → TrustStore → Bool
  verify_proposal q store = signed_by q.proposed_by_key_id (proposal_unsigned q) q.signature store

  -- `_proposal_id_and_digest`.
  abbrev pub current_digest_of : Policy → ChangeManager → String
  current_digest_of new_policy m = elim (lookup new_policy.policy_id m.registry.policies) [
    | none ↦ ""
    | some existing ↦ content_digest existing
  ]

  abbrev pub proposal_id_for : Policy → Option String → ChangeManager → String
  proposal_id_for new_policy given m =
      let current = current_digest_of new_policy m in
      let made =
        "policy-proposal:"
        ⧺ new_policy.policy_id
        ⧺ ":"
        ⧺ (if is_blank current then "new" else current) in
      elim given as (λ _. String) [ none ↦ made | some s ↦ if is_blank s then made else s ]

  -- The proposal that `prepare_proposal` has shown to the signer.
  abbrev pub draft_proposal :
      Policy → String → String → Option String → ChangeManager → PolicyProposal
  draft_proposal new_policy proposer_key_id rationale given m = record {
    proposal_id = proposal_id_for new_policy given m;
    policy_id = new_policy.policy_id;
    current_policy_digest = current_digest_of new_policy m;
    proposed_policy = new_policy;
    proposed_by_key_id = proposer_key_id;
    rationale = rationale;
    status = pending;
    signature = "";
    approvals = [];
  }

  unfoldable pub propose_signed :
      Policy
      → String
      → String
      → String
      → Option String
      → String
      → ChangeManager
      → Outcome (PolicyProposal × ChangeManager)
  propose_signed new_policy proposer_key_id signature rationale given actor_id m = do
    raise_if (not (is_some (resolve proposer_key_id m.trust_store)))
        (value_error "proposer key is not trusted")
    let proposal : PolicyProposal =
        record (draft_proposal new_policy proposer_key_id rationale given m) {
          signature = signature;
        }
    raise_if (not (verify_proposal proposal m.trust_store))
        (value_error "proposal signature is invalid")
    raise_if (contains proposal.proposal_id m.proposals)
        (value_error ("proposal already exists: " ⧺ proposal.proposal_id))
    ok (
      proposal,
      audit "policy.proposed" proposal.proposal_id actor_id
          (record m { proposals = insert proposal.proposal_id proposal m.proposals }),
    )

  abbrev pub approval_of : PolicyProposal → String → String → PolicyApproval
  approval_of q approver_key_id signature = record {
    proposal_id = q.proposal_id;
    policy_id = q.policy_id;
    policy_digest = content_digest q.proposed_policy;
    approver_key_id = approver_key_id;
    signature = signature;
  }

  abbrev pub with_approval : PolicyApproval → PolicyProposal → PolicyProposal
  with_approval a q = record q {
    approvals =
        sort_by
          (λ (x : PolicyApproval) (y : PolicyApproval). le_text x.approver_key_id y.approver_key_id)
          (q.approvals ++ a ∷ []);
  }

  unfoldable pub approve_signed :
      String → String → String → String → ChangeManager → Outcome (PolicyProposal × ChangeManager)
  approve_signed proposal_id approver_key_id signature actor_id m = do
    proposal ←
        or_raise (lookup proposal_id m.proposals)
          (key_error ("unknown policy proposal: " ⧺ proposal_id))
    raise_if (not (is_pending proposal.status)) (value_error "proposal is no longer pending")
    raise_if (m.enforce_separation_of_duties && eq_text approver_key_id proposal.proposed_by_key_id)
        (value_error "proposer cannot approve the same policy change")
    raise_if
        (is_in approver_key_id (map (λ (a : PolicyApproval). a.approver_key_id) proposal.approvals))
        (value_error "this key has already approved the proposal")
    raise_if (not (is_some (resolve approver_key_id m.trust_store)))
        (value_error "approver key is not trusted")
    let approval = approval_of proposal approver_key_id signature
    raise_if (not (verify_policy_approval approval m.trust_store))
        (value_error "approval signature is invalid")
    let updated = with_approval approval proposal
    ok (
      updated,
      audit "policy.approved" proposal_id actor_id
          (record m { proposals = insert proposal_id updated m.proposals }),
    )

  unfoldable pub activate_proposal :
      String → String → ChangeManager → Outcome (Policy × ChangeManager)
  activate_proposal proposal_id actor_id m = do
    proposal ←
        or_raise (lookup proposal_id m.proposals)
          (key_error ("unknown policy proposal: " ⧺ proposal_id))
    raise_if (not (is_pending proposal.status)) (value_error "proposal is not pending")
    raise_if (not (verify_proposal proposal m.trust_store))
        (value_error "proposal signature is invalid")
    raise_if (ltb (count_approvers proposal) m.required_approvals)
        (value_error "approval quorum not met")
    registry ← register_policy proposal.proposed_policy m.registry
    let updated : PolicyProposal = record proposal { status = activated_status }
    ok (
      proposal.proposed_policy,
      audit "policy.activated" proposal_id actor_id
          (record m { registry = registry; proposals = insert proposal_id updated m.proposals }),
    )
