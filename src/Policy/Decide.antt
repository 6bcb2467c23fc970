-- ===== src/Policy/Decide.antt =====
-- `DeterministicArbiter.decide` of policy.py.
-- `constraints.get(action, default)`, for an action that is a string or not.
use Prim.Native.String.{len}
use governed_autonomy_substr.Base.{
  Bool, Decision, Dict, List, Outcome, String, [], any, contains, false, get_or, is_empty, is_in,
  is_some, keys, leb, map, none, not, ok, overflow_error, raise_if, some, true, type_error, ℕ, ◌&&◌,
  ◌++◌, ◌-◌, ◌>>◌, ◌^◌, ◌||◌, ◌∷◌, ◌⧺◌,
}
use governed_autonomy_substr.Base.Int.{ltb_ℤ, neg_part, pos, pos_part}
use governed_autonomy_substr.Platform.{Platform, canonical_json, digest, str}
use governed_autonomy_substr.Policy.Approvals.{Arbiter, approval_count}
use governed_autonomy_substr.Policy.Rules.{NumericLimit, Policy, limit_float, policy_digest}
use governed_autonomy_substr.Value.{
  Value, array, as_dict, dict, eq_value, finite, float, get, integer, is_finite, lt_float, object,
  text,
}

abbrev pub for_action {ℓ} : {A : Type ℓ} → Value → A → Dict A → A
for_action (text action) default d = get_or action default d
for_action _ default d = default

-- A violated check: its reason and its reason code.
abbrev pub Violation : Type 0
Violation = String × String

abbrev pub when : Bool → Violation → List Violation
when true v = v ∷ []
when false v = []

-- An action that is a list or a dict cannot be a key of the constraint dicts.
abbrev pub is_hashable : Value → Bool
is_hashable (array vs) = false
is_hashable (object fs) = false
is_hashable _ = true

-- The whole numbers that `math.isfinite` cannot turn into a float.
unfoldable pub overflows : Value → Bool
overflows (integer n) =
    leb (2 ^ 1024 - 2 ^ 970) (pos_part n) || leb (2 ^ 1024 - 2 ^ 970) (neg_part n)
overflows _ = false

unfoldable pub within_limit : Value → NumericLimit → Bool
within_limit (integer n) maximum = not (lt_float (limit_float maximum) (finite n 0))
within_limit (float x) maximum = is_finite x && not (lt_float (limit_float maximum) x)
within_limit _ maximum = false

unfoldable pub missing_fields : Dict Value → List String → List Violation
missing_fields request [] = []
missing_fields request (name ∷ names) =
    when (not (contains name request))
      ("required field is missing: " ⧺ name, "required_field_missing")
    ++ missing_fields request names

unfoldable pub mismatched_fields : Dict Value → Dict Value → List Violation
mismatched_fields request [] = []
mismatched_fields request ((name, expected) ∷ rest) =
    when (not (eq_value (get name request) expected))
      ("field does not match policy: " ⧺ name, "field_mismatch")
    ++ mismatched_fields request rest

unfoldable pub exceeded_limits : Dict Value → Dict NumericLimit → List Violation
exceeded_limits request [] = []
exceeded_limits request ((name, maximum) ∷ rest) =
    when (not (within_limit (get name request) maximum))
      ("numeric field exceeds policy maximum: " ⧺ name, "numeric_limit_exceeded")
    ++ exceeded_limits request rest

unfoldable pub missing_context : Dict Value → List String → List Violation
missing_context context [] = []
missing_context context (name ∷ names) =
    when (not (contains name context))
      ("required context is missing: " ⧺ name, "required_context_missing")
    ++ missing_context context names

unfoldable pub mismatched_context : Dict Value → Dict Value → List Violation
mismatched_context context [] = []
mismatched_context context ((name, expected) ∷ rest) =
    when (not (eq_value (get name context) expected))
      ("context does not match policy: " ⧺ name, "context_mismatch")
    ++ mismatched_context context rest

-- `request.get("context", {})`, and what stands for it where it is no dict.
abbrev pub context_of : Dict Value → Dict Value
context_of request = elim (as_dict (get_or "context" (dict []) request)) [ none ↦ [] | some d ↦ d ]

abbrev pub is_dict : Value → Bool
is_dict v = is_some (as_dict v)

abbrev pub action_of : Dict Value → Value
action_of request = get "action" request

-- `action in policy.allowed_actions`.
unfoldable pub is_allowed : Value → List String → Bool
is_allowed (text action) actions = is_in action actions
is_allowed _ actions = false

module _ ⦃p : Platform⦄ where
  -- The size of the request in bytes, as canonical JSON.
  unfoldable pub request_size : Dict Value → ℕ
  request_size request = len (canonical_json (dict request))

  unfoldable pub quorum_violations : Arbiter → Dict Value → Policy → List Violation
  quorum_violations arbiter request policy =
      let required = for_action (action_of request) (pos 0) policy.required_approvals in
      let count = approval_count arbiter request (context_of request) in
      when (ltb_ℤ (pos 0) required && ltb_ℤ count required) (
        "approval quorum not met for action "
            ⧺ str (action_of request)
            ⧺ ": "
            ⧺ p.repr (integer count)
            ⧺ " < "
            ⧺ p.repr (integer required),
        "approval_quorum_not_met",
      )

  -- The violations, in the order in which `decide` appends them to its two lists.
  unfoldable pub violations : Arbiter → Dict Value → Policy → List Violation
  unfolding missing_fields mismatched_fields exceeded_limits missing_context mismatched_context
      quorum_violations
  violations arbiter request policy =
      let action = action_of request in
      let context = context_of request in
      when (ltb_ℤ policy.max_request_bytes (pos (request_size request)))
        ("request exceeds policy size limit", "request_too_large")
      ++ (when (not (is_dict (get_or "context" (dict []) request)))
            ("context must be an object", "invalid_context")
          ++ (when (not (is_allowed action policy.allowed_actions))
                ("action is not allowed by policy", "action_not_allowed")
              ++ (missing_fields request (for_action action [] policy.required_fields)
                  ++ (mismatched_fields request (for_action action [] policy.exact_fields)
                      ++ (exceeded_limits request (for_action action [] policy.max_numeric_fields)
                          ++ (missing_context context policy.required_context
                              ++ (mismatched_context context policy.exact_context
                                  ++ quorum_violations arbiter request policy)))))))

  unfoldable pub decide : Arbiter → Dict Value → Policy → Outcome Decision
  unfolding violations
  decide arbiter request policy = do
    raise_if (not (is_hashable (action_of request))) (type_error "unhashable type")
    raise_if
        (any (λ (name : String). overflows (get name request))
          (keys (for_action (action_of request) [] policy.max_numeric_fields)))
        (overflow_error "int too large to convert to float")
    let found = violations arbiter request policy
    ok (record {
      allow = is_allowed (action_of request) policy.allowed_actions && is_empty found;
      allowed_actions = policy.allowed_actions;
      policy = policy.policy_id;
      policy_digest = policy_digest policy;
      reasons = map (λ (v : Violation). v.0) found;
      reason_codes = map (λ (v : Violation). v.1) found;
      request_digest = digest (dict request);
      mesh_preflight_digest = none;
    })
