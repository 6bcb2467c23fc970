-- ===== src/Policy/Approvals.antt =====
-- `DeterministicArbiter._approval_count`: how many approvals a request carries.
use governed_autonomy_substr.Base.{
  Dict, List, Option, String, [], contains, err, if◌then◌else◌, is_in, length, lookup, none, ok,
  some, ◌&&◌, ◌∷◌,
}
use governed_autonomy_substr.Base.Int.{pos, ℤ}
use governed_autonomy_substr.Models.{
  SignedApproval, approval_from_dict, matches_request, verify_approval,
}
use governed_autonomy_substr.Platform.{Platform, PublicKey}
use governed_autonomy_substr.Trust.{TrustStore, resolve}
use governed_autonomy_substr.Value.{Value, as_dict, as_int, as_list, get}

pub record Arbiter : Type 0 where
  pub issuer_keys : Dict PublicKey
  pub trust_store : Option TrustStore

unfoldable pub resolve_public_key : String → Arbiter → Option PublicKey
resolve_public_key key_id a = elim a.trust_store [
  | none ↦ lookup key_id a.issuer_keys
  | some store ↦ resolve key_id store
]

-- A count that is stated in the container itself.
unfoldable pub stated_count : Dict Value → Option ℤ
stated_count container = elim (as_int (get "approval_count" container)) [
  | some n ↦ some n
  | none ↦ as_int (get "approvals_count" container)
]

-- The entries under `approvals`; anything but a list counts for nothing.
unfoldable pub listed_approvals : Dict Value → List Value
listed_approvals container = elim (as_list (get "approvals" container)) [ none ↦ [] | some vs ↦ vs ]

-- An approval as an object that has an issuer and a signature, and parses.
unfoldable pub parse_candidate : Value → Option SignedApproval
parse_candidate v = elim (as_dict v) [
  | none ↦ none
  | some d ↦
      if contains "issuer_key_id" d && contains "signature" d
      then elim (approval_from_dict d) [ ok a ↦ some a | err _ ↦ none ]
      else none
]

module _ ⦃p : Platform⦄ where
  -- The key id of the approver, where the approval counts.
  unfoldable pub approver : Arbiter → Dict Value → Value → Option String
  unfolding parse_candidate
  approver arbiter request v = elim (parse_candidate v) [
    | none ↦ none
    | some candidate ↦ elim (resolve_public_key candidate.issuer_key_id arbiter) [
      | none ↦ none
      | some public_key ↦
          if verify_approval public_key candidate && matches_request request none candidate
          then some candidate.issuer_key_id
          else none
    ]
  ]

  -- `approvers.add(...)` on a set.
  abbrev pub add_approver : Option String → List String → List String
  add_approver none approvers = approvers
  add_approver (some key_id) approvers =
      if is_in key_id approvers then approvers else key_id ∷ approvers

  unfoldable pub collect : Arbiter → Dict Value → List Value → List String → List String
  collect arbiter request [] approvers = approvers
  collect arbiter request (v ∷ vs) approvers =
      collect arbiter request vs (add_approver (approver arbiter request v) approvers)

  -- The request first, then its context: a stated count ends the search.
  unfoldable pub approval_count : Arbiter → Dict Value → Dict Value → ℤ
  approval_count arbiter request context = elim (stated_count request) [
    | some n ↦ n
    | none ↦
        let approvers = collect arbiter request (listed_approvals request) [] in
        elim (stated_count context) [
          | some n ↦ n
          | none ↦ pos (length (collect arbiter request (listed_approvals context) approvers))
        ]
  ]
