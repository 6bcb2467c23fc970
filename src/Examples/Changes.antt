-- ===== src/Examples/Changes.antt =====
-- The theorem of policy changes at a concrete input: alice proposes, bob and carol approve.
use governed_autonomy_substr.Admin.{
  ChangeManager, PolicyApproval, PolicyProposal, activate_proposal, activated_status,
  approve_signed, audit, count_approvers, fresh_manager, is_pending, pending, propose_signed,
  verify_policy_approval, verify_proposal,
}
use governed_autonomy_substr.Admin.Locked.{adding_key, revoking_key, trust_run, trust_run-locked}
use governed_autonomy_substr.Admin.Payloads.{prepare_proposal, propose_signed-prepare_proposal}
use governed_autonomy_substr.Admin.Quorum.{
  Approves, ChangeCall, activate_quorum, approving, change_run, change_step, proposing,
}
use governed_autonomy_substr.Admin.TrustChange.{TrustChangeManager}
use governed_autonomy_substr.Base.{
  All, List, String, String-discrete, [], arith, insert, le_text, lookup, none, ok, refl, some,
  sort_by, true, ◌∷◌, ◌≡◌, ◌≤◌,
}
use governed_autonomy_substr.Base.Int.{pos}
use governed_autonomy_substr.Examples.Policies.{policy}
use governed_autonomy_substr.Examples.World.{dump, toy}
use governed_autonomy_substr.Platform.{verify_signature}
use governed_autonomy_substr.Policy.{
  PolicyRegistry, empty_registry, policy_digest, policy_to_dict, register_policy,
}
use governed_autonomy_substr.Policy.Immutable.{content_of}
use governed_autonomy_substr.Trust.{TrustStore, resolve}

abbrev keyring : TrustStore
keyring = record { known = ("alice", "key") ∷ ("bob", "key") ∷ ("carol", "key") ∷ []; revoked = [] }

abbrev known_registry : PolicyRegistry
known_registry = empty_registry none

-- Alice's own approval and bob's second one are refused.
abbrev change_calls : List ChangeCall
change_calls =
    proposing policy "alice" "signed" "why" (some "change") "system"
    ∷ approving "change" "alice" "signed" "system"
    ∷ approving "change" "bob" "signed" "system"
    ∷ approving "change" "bob" "signed" "system"
    ∷ approving "change" "carol" "signed" "system"
    ∷ []

abbrev approval_by : String → PolicyApproval
approval_by key_id = record {
  proposal_id = "change";
  policy_id = "p";
  policy_digest = "#";
  approver_key_id = key_id;
  signature = "signed";
}

abbrev approved_proposal : PolicyProposal
approved_proposal = record {
  proposal_id = "change";
  policy_id = "p";
  current_policy_digest = "";
  proposed_policy = policy;
  proposed_by_key_id = "alice";
  rationale = "why";
  status = activated_status;
  signature = "signed";
  approvals = approval_by "bob" ∷ approval_by "carol" ∷ [];
}

abbrev changed_manager : ChangeManager
changed_manager = record {
  registry = record {
    policies = ("p", policy) ∷ [];
    versions = ("p", pos 1) ∷ [];
    signed_manifests = [];
    trust_store = none;
  };
  trust_store = keyring;
  required_approvals = 2;
  enforce_separation_of_duties = true;
  proposals = ("change", approved_proposal) ∷ [];
  audited =
      ("policy.proposed", "change", "system")
      ∷ ("policy.approved", "change", "system")
      ∷ ("policy.approved", "change", "system")
      ∷ ("policy.activated", "change", "system")
      ∷ [];
}

abbrev ready : ChangeManager
ready = change_run change_calls (fresh_manager known_registry keyring 2 true)

activated_now : activate_proposal "change" "system" ready ≡ ok (policy, changed_manager)
unfolding change_run change_step propose_signed approve_signed activate_proposal verify_proposal
    verify_policy_approval verify_signature resolve register_policy empty_registry policy_digest
    policy_to_dict sort_by le_text lookup insert String-discrete dump
activated_now = refl

activate_quorum_example :
    (q : PolicyProposal) × (lookup "change" ready.proposals ≡ some q)
    × (policy ≡ q.proposed_policy)
    × (is_pending q.status ≡ true)
    × (verify_proposal q keyring ≡ true)
    × (2 ≤ count_approvers q)
    × All (Approves keyring true q) q.approvals
    × ((content : String)
        → content_of "p" ready.registry ≡ some content
        → content ≡ policy_digest policy)
    × (content_of "p" changed_manager.registry ≡ some (policy_digest policy))
    × ((policy_id content : String)
        → content_of policy_id ready.registry ≡ some content
        → content_of policy_id changed_manager.registry ≡ some content)
    × (lookup "change" changed_manager.proposals ≡ some (record q { status = activated_status }))
activate_quorum_example =
    activate_quorum keyring true 2 change_calls known_registry "change" "system" policy
      changed_manager activated_now

abbrev unused : ChangeManager
unused = fresh_manager known_registry keyring 2 true

abbrev shown : PolicyProposal
shown = record approved_proposal { status = pending; approvals = [] }

propose_signed-prepare_proposal_example :
    propose_signed policy "alice" "signed" "why" (some "change") "system" unused
    ≡ ok (
      shown,
      audit "policy.proposed" "change" "system"
          (record unused { proposals = ("change", shown) ∷ [] }),
    )
unfolding prepare_proposal lookup resolve verify_signature policy_to_dict insert dump
    String-discrete empty_registry
propose_signed-prepare_proposal_example =
    propose_signed-prepare_proposal policy "alice" "signed" "why" (some "change") "system" "" "key"
      unused refl refl refl refl

abbrev locked_keys : TrustChangeManager
locked_keys = record {
  trust_store = record { known = ("alice", "key") ∷ []; revoked = "alice" ∷ [] };
  audited = [];
}

locked_keys-resolve : (key_id : String) → resolve key_id locked_keys.trust_store ≡ none
unfolding resolve lookup String-discrete
locked_keys-resolve key_id = elim (String-discrete key_id "alice") [
  | yes same ↦ ground arith
  | no other ↦ ground arith
]

trust_run-locked_example :
    trust_run
      (adding_key "alice" "key" "alice" "signed" "system"
        ∷ revoking_key "alice" "alice" "signed" "system"
        ∷ [])
      locked_keys
    ≡ locked_keys
trust_run-locked_example =
    trust_run-locked
      (adding_key "alice" "key" "alice" "signed" "system"
        ∷ revoking_key "alice" "alice" "signed" "system"
        ∷ [])
      locked_keys locked_keys-resolve
