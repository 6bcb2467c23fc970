-- ===== src/Issuer/Request.antt =====
-- The first half of `AuthorizationIssuer.authorize`: the effective request and the mesh requirements.
-- An entry of the `approvals` argument: a `SignedApproval`, an object, or anything else.
use governed_autonomy_substr.Base.{
  Bool, Decision, Dict, List, Option, Outcome, String, [], err, false, get_or, if◌then◌else◌,
  insert, is_empty, is_in, join, keep, length, map, none, not, ok, some, value_error, ◌&&◌, ◌++◌,
  ◌>>=◌, ◌||◌, ◌∷◌, ◌⧺◌,
}
use governed_autonomy_substr.Base.Int.{ltb_ℤ, pos}
use governed_autonomy_substr.Mesh.{GovernanceInput}
use governed_autonomy_substr.Models.{SignedApproval, approval_to_dict}
use governed_autonomy_substr.Platform.{Platform, str}
use governed_autonomy_substr.Policy.{Policy, context_of}
use governed_autonomy_substr.Value.{Value, array, as_text, dict, elements, get, items, null, text}

pub data ApprovalArgument : Type 0 where
  approval_object : SignedApproval → ApprovalArgument
  approval_dict : Dict Value → ApprovalArgument
  malformed : ApprovalArgument

unfoldable pub serialize : List ApprovalArgument → Outcome (List Value)
serialize [] = ok []
serialize (a ∷ rest) = do
  first ← elim a [
    | approval_object approval ↦ ok (dict (approval_to_dict approval))
    | approval_dict d ↦ ok (dict d)
    | malformed ↦ err (value_error "approvals must be SignedApproval instances or objects")
  ]
  others ← serialize rest
  ok (first ∷ others)

unfoldable pub add_approvals : Dict Value → List Value → Outcome (Dict Value)
add_approvals request serialized = elim (get "approvals" request) [
  | null ↦ ok (insert "approvals" (array (items serialized)) request)
  | array vs ↦ ok (insert "approvals" (array (items (elements vs ++ serialized))) request)
  | _ ↦ err (value_error "request approvals must be a list when present")
]

unfoldable pub effective_request :
    Dict Value → Option (List ApprovalArgument) → Outcome (Dict Value)
unfolding serialize add_approvals
effective_request request none = ok request
effective_request request (some approvals) = serialize approvals >>= add_approvals request

-- `mapping.get(action, default)` for an action that may be `None`.
abbrev pub get_for {ℓ} : {A : Type ℓ} → Option String → A → Dict A → A
get_for none default d = default
get_for (some action) default d = get_or action default d

abbrev pub is_listed : Option String → List String → Bool
is_listed none xs = false
is_listed (some s) xs = is_in s xs

-- `effective_request.get("context", {}).get("environment")`, where the context is a dict.
abbrev pub environment_of : Dict Value → Option String
environment_of request = as_text (get "environment" (context_of request))

module _ ⦃p : Platform⦄ where
  abbrev pub action_name : Dict Value → Option String
  action_name request = elim (get "action" request) [ null ↦ none | v ↦ some (str v) ]

  -- `{action!r}`.
  abbrev pub quoted_name : Option String → String
  quoted_name none = "None"
  quoted_name (some s) = p.repr (text s)

  -- Why the mesh requirements of the policy are not met: the reason code and the reason.
  unfoldable pub mesh_refusal :
      Dict Value → Policy → List GovernanceInput → Option (String × String)
  mesh_refusal request policy inputs =
      let action = action_name request in
      let required_count = get_for action (pos 0) policy.required_mesh_inputs in
      let required_sources = get_for action [] policy.required_mesh_sources in
      let needed =
        is_listed action policy.mesh_required_actions
        || is_listed (environment_of request) policy.mesh_required_environments in
      let provided = map (λ (i : GovernanceInput). i.source_id) inputs in
      let missing = keep (λ (s : String). not (is_in s provided)) required_sources in
      let too_few : String × String =
        ("mesh_inputs_required", "mesh inputs required for action " ⧺ quoted_name action) in
      if needed && is_empty inputs
      then some too_few
      else (if ltb_ℤ (pos (length inputs)) required_count
          then some too_few
          else (if not (is_empty missing)
              then some
                  ("mesh_sources_missing", "mesh source requirements unmet: " ⧺ join ", " missing)
              else none))

  -- `denied["allow"] = False` with one more code and reason.
  abbrev pub deny : Decision → String → List String → Decision
  deny d code reasons = record d {
    allow = false;
    reason_codes = d.reason_codes ++ code ∷ [];
    reasons = d.reasons ++ reasons;
  }
