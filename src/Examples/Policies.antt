-- ===== src/Examples/Policies.antt =====
-- The theorems of the policy module at concrete inputs.
use governed_autonomy_substr.Base.{
  Decision, Dict, List, String, String-discrete, [], any, arith, erase, insert, is_empty, is_in,
  is_some, length, lookup, none, ok, refl, some, true, ◌||◌, ◌↔◌, ◌∷◌, ◌≡◌,
}
use governed_autonomy_substr.Base.Int.{pos, ◌≤ℤ◌}
use governed_autonomy_substr.Examples.World.{dump, toy}
use governed_autonomy_substr.Mesh.{distinct}
use governed_autonomy_substr.Models.{
  SignedApproval, approval_from_dict, approval_to_dict, matches_request, parse_actor,
  verify_approval,
}
use governed_autonomy_substr.Platform.{verify_signature}
use governed_autonomy_substr.Policy.{
  Arbiter, Manifest, Policy, PolicyRegistry, action_of, approval_count, approver, chosen_store,
  collect, decide, exceeded_limits, for_action, install_manifest, is_allowed, listed_approvals,
  mismatched_context, mismatched_fields, missing_context, missing_fields, parse_candidate,
  policy_digest, policy_to_dict, quorum_violations, register_policy, register_signed, request_size,
  resolve_public_key, stated_count, verify_manifest, violations,
}
use governed_autonomy_substr.Policy.Immutable.{Installed, register_signed_sound, version_of}
use governed_autonomy_substr.Policy.Quorum.{
  approval_count-distinct, is_approved, stated_count-meets-quorum,
}
use governed_autonomy_substr.Policy.Verdict.{Permits, decide-Permits}
use governed_autonomy_substr.Trust.{TrustStore, resolve}
use governed_autonomy_substr.Value.{Value, array, dict, get, integer, items, null, text}

-- The policy allows one action.
abbrev pub policy : Policy
policy = record {
  policy_id = "p";
  allowed_actions = "deploy" ∷ [];
  required_fields = [];
  exact_fields = [];
  required_context = [];
  exact_context = [];
  max_request_bytes = pos 1000;
  max_ttl_seconds = pos 60;
  required_approvals = [];
  max_numeric_fields = [];
  required_mesh_inputs = [];
  required_mesh_sources = [];
  mesh_required_actions = [];
  mesh_required_environments = [];
}

abbrev pub arbiter : Arbiter
arbiter = record { issuer_keys = ("alice", "key") ∷ ("bob", "key") ∷ []; trust_store = none }

abbrev pub request : Dict Value
request = ("action", text "deploy") ∷ []

abbrev pub decision : Decision
decision = record {
  allow = true;
  allowed_actions = "deploy" ∷ [];
  policy = "p";
  policy_digest = "#";
  reasons = [];
  reason_codes = [];
  request_digest = "#";
  mesh_preflight_digest = none;
}

pub decided : decide arbiter request policy ≡ ok decision
unfolding decide violations missing_fields mismatched_fields exceeded_limits missing_context
    mismatched_context quorum_violations request_size is_allowed approval_count stated_count collect
    listed_approvals policy_digest policy_to_dict String-discrete lookup dump
decided = refl

decide-Permits_example :
    ((decision.allow ≡ true) ↔ Permits arbiter request policy)
    × (decision.allow ≡ is_empty decision.reasons)
    × (length decision.reasons ≡ length decision.reason_codes)
decide-Permits_example = decide-Permits arbiter request policy decision decided

abbrev quorum_policy : Policy
quorum_policy = record policy { required_approvals = ("deploy", pos 2) ∷ [] }

abbrev approval : SignedApproval
approval = record {
  action = "deploy";
  request_digest = "#";
  decision_digest = "digest";
  issuer_key_id = "alice";
  signature = "signed";
  actor_id = none;
  context = [];
}

abbrev candidate : Value
candidate = dict (approval_to_dict approval)

abbrev approved_request : Dict Value
approved_request =
    ("action", text "deploy")
    ∷ ("approvals", array (items (candidate ∷ candidate ∷ null ∷ [])))
    ∷ []

approval_count-distinct_example :
    (approvers : List String) × (approval_count arbiter approved_request []
      ≡ pos (length approvers))
    × (distinct approvers ≡ true)
    × ((key_id : String)
        → is_in key_id approvers ≡ (
            any (is_approved arbiter approved_request key_id) (listed_approvals approved_request)
            || any (is_approved arbiter approved_request key_id) (listed_approvals [])))
unfolding stated_count lookup String-discrete
approval_count-distinct_example = approval_count-distinct arbiter approved_request [] refl refl

-- The same approval twice, and an entry that is none, count once.
counts_once : approval_count arbiter approved_request [] ≡ pos 1
unfolding approval_count stated_count collect listed_approvals approver parse_candidate
    approval_from_dict parse_actor approval_to_dict resolve_public_key verify_approval
    matches_request verify_signature lookup String-discrete dump erase
counts_once = refl

abbrev stating_request : Dict Value
stating_request = ("action", text "deploy") ∷ ("approval_count", integer (pos 2)) ∷ []

states_two : get "approval_count" stating_request ≡ integer (pos 2)
unfolding lookup String-discrete
states_two = refl

needs_two : for_action (action_of stating_request) (pos 0) quorum_policy.required_approvals ≤ℤ pos 2
unfolding lookup String-discrete
needs_two = omega arith

stated_count-meets-quorum_example : quorum_violations arbiter stating_request quorum_policy ≡ []
stated_count-meets-quorum_example =
    stated_count-meets-quorum arbiter stating_request quorum_policy (pos 2) states_two needs_two

abbrev registry : PolicyRegistry
registry = record {
  policies = ("p", policy) ∷ [];
  versions = ("p", pos 1) ∷ [];
  signed_manifests = [];
  trust_store = some (record { known = ("issuer", "key") ∷ []; revoked = [] });
}

abbrev manifest : Manifest
manifest = record {
  policy = record policy { policy_id = "q" };
  version = pos 3;
  issuer_key_id = "issuer";
  signature = "signed";
}

abbrev with_q : PolicyRegistry
with_q = record registry {
  policies = ("p", policy) ∷ ("q", manifest.policy) ∷ [];
  versions = ("p", pos 1) ∷ ("q", pos 1) ∷ [];
}

register_q : register_policy manifest.policy registry ≡ ok with_q
unfolding register_policy lookup String-discrete policy_digest insert
register_q = refl

abbrev with_manifest : PolicyRegistry
with_manifest = record with_q {
  versions = ("p", pos 1) ∷ ("q", pos 3) ∷ [];
  signed_manifests = ("q", manifest) ∷ [];
}

register_manifest : register_signed manifest none registry ≡ ok with_manifest
unfolding register_signed install_manifest register_policy lookup String-discrete policy_digest
    verify_manifest verify_signature resolve insert
register_manifest = refl

register_signed-sound_example :
    ((store : TrustStore) × (chosen_store none registry ≡ some store)
      × (verify_manifest manifest store ≡ true))
    × (is_some (lookup "q" registry.policies) ≡ true → version_of "q" registry ≤ℤ pos 3)
    × Installed manifest registry with_manifest
register_signed-sound_example =
    register_signed_sound manifest none registry with_manifest register_manifest
