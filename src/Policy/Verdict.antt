-- ===== src/Policy/Verdict.antt =====
-- `decide` against an independent statement of what a policy permits.
-- One constraint after the other, as the policy's documentation lists them.
use mathlib.Core.Bool.{not-not}
use governed_autonomy_substr.Base.{
  All, Bool, Bool-cases, Decision, Dict, List, String, [], ap, arith, contains, false, get_or, inl,
  inr, is_empty, length, map, not, ok, refl, suc, sym, true, ◌&&◌, ◌++◌, ◌↔◌, ◌∙◌, ◌∷◌, ◌≡◌, ◌⊎◌,
}
use governed_autonomy_substr.Base.Int.{ltb_ℤ, pos, ℤ, ◌≤ℤ◌}
use governed_autonomy_substr.Platform.{Platform}
use governed_autonomy_substr.Policy.Approvals.{Arbiter, approval_count}
use governed_autonomy_substr.Policy.Decide.{
  Violation, action_of, context_of, decide, exceeded_limits, for_action, is_allowed, is_dict,
  mismatched_context, mismatched_fields, missing_context, missing_fields, quorum_violations,
  request_size, violations, when, within_limit,
}
use governed_autonomy_substr.Policy.Rules.{NumericLimit, Policy}
use governed_autonomy_substr.Value.{Value, dict, eq_value, get}

pub record Permits ⦃p : Platform⦄ (arbiter : Arbiter) (request : Dict Value) (policy : Policy)
    : Type 0 where
  pub small : pos (request_size request) ≤ℤ policy.max_request_bytes
  pub has_context : is_dict (get_or "context" (dict []) request) ≡ true
  pub action_allowed : is_allowed (action_of request) policy.allowed_actions ≡ true
  pub fields_present :
      All
        (λ (name : String). contains name request ≡ true)
        (for_action (action_of request) [] policy.required_fields)
  pub fields_equal :
      All
        (λ (e : String × Value). eq_value (get e.0 request) e.1 ≡ true)
        (for_action (action_of request) [] policy.exact_fields)
  pub within_limits :
      All
        (λ (e : String × NumericLimit). within_limit (get e.0 request) e.1 ≡ true)
        (for_action (action_of request) [] policy.max_numeric_fields)
  pub context_present :
      All (λ (name : String). contains name (context_of request) ≡ true) policy.required_context
  pub context_equal :
      All
        (λ (e : String × Value). eq_value (get e.0 (context_of request)) e.1 ≡ true)
        policy.exact_context
  pub quorum :
      let required = for_action (action_of request) (pos 0) policy.required_approvals in
      (required ≤ℤ pos 0) ⊎ (required ≤ℤ approval_count arbiter request (context_of request))

is_empty-append : {A : Type 0} (xs ys : List A) → is_empty (xs ++ ys) ≡ (is_empty xs && is_empty ys)
is_empty-append [] ys = refl
is_empty-append (x ∷ xs) ys = refl

is_empty-map : {A B : Type 0} (f : A → B) (xs : List A) → is_empty (map f xs) ≡ is_empty xs
is_empty-map f [] = refl
is_empty-map f (x ∷ xs) = refl

length-map : {A B : Type 0} (f : A → B) (xs : List A) → length (map f xs) ≡ length xs
length-map f [] = refl
length-map f (x ∷ xs) = ap suc (length-map f xs)

is_empty-when : (b : Bool) (v : Violation) → is_empty (when b v) ≡ not b
is_empty-when true v = refl
is_empty-when false v = refl

-- Each loop of `decide` adds nothing exactly if each of its checks passes.
missing_fields-empty :
    (request : Dict Value) (names : List String)
    → (is_empty (missing_fields request names) ≡ true)
      ↔ All (λ (name : String). contains name request ≡ true) names
unfolding missing_fields
missing_fields-empty request [] = ((λ _. tt), (λ _. refl))
missing_fields-empty request (name ∷ names) =
    let ih = missing_fields-empty request names in
    elim (Bool-cases (contains name request)) [
      | inl here ↦ rw here ((λ e. (refl, ih.0 e)), (λ h. ih.1 h.1))
      | inr gone ↦ rw gone ((λ e. cc), (λ h. cc))
    ]

missing_context-empty :
    (context : Dict Value) (names : List String)
    → (is_empty (missing_context context names) ≡ true)
      ↔ All (λ (name : String). contains name context ≡ true) names
unfolding missing_context
missing_context-empty context [] = ((λ _. tt), (λ _. refl))
missing_context-empty context (name ∷ names) =
    let ih = missing_context-empty context names in
    elim (Bool-cases (contains name context)) [
      | inl here ↦ rw here ((λ e. (refl, ih.0 e)), (λ h. ih.1 h.1))
      | inr gone ↦ rw gone ((λ e. cc), (λ h. cc))
    ]

mismatched_fields-empty :
    (request : Dict Value) (es : Dict Value)
    → (is_empty (mismatched_fields request es) ≡ true)
      ↔ All (λ (e : String × Value). eq_value (get e.0 request) e.1 ≡ true) es
unfolding mismatched_fields
mismatched_fields-empty request [] = ((λ _. tt), (λ _. refl))
mismatched_fields-empty request ((name, expected) ∷ es) =
    let ih = mismatched_fields-empty request es in
    elim (Bool-cases (eq_value (get name request) expected)) [
      | inl here ↦ rw here ((λ e. (refl, ih.0 e)), (λ h. ih.1 h.1))
      | inr gone ↦ rw gone ((λ e. cc), (λ h. cc))
    ]

mismatched_context-empty :
    (context : Dict Value) (es : Dict Value)
    → (is_empty (mismatched_context context es) ≡ true)
      ↔ All (λ (e : String × Value). eq_value (get e.0 context) e.1 ≡ true) es
unfolding mismatched_context
mismatched_context-empty context [] = ((λ _. tt), (λ _. refl))
mismatched_context-empty context ((name, expected) ∷ es) =
    let ih = mismatched_context-empty context es in
    elim (Bool-cases (eq_value (get name context) expected)) [
      | inl here ↦ rw here ((λ e. (refl, ih.0 e)), (λ h. ih.1 h.1))
      | inr gone ↦ rw gone ((λ e. cc), (λ h. cc))
    ]

exceeded_limits-empty :
    (request : Dict Value) (es : Dict NumericLimit)
    → (is_empty (exceeded_limits request es) ≡ true)
      ↔ All (λ (e : String × NumericLimit). within_limit (get e.0 request) e.1 ≡ true) es
unfolding exceeded_limits
exceeded_limits-empty request [] = ((λ _. tt), (λ _. refl))
exceeded_limits-empty request ((name, maximum) ∷ es) =
    let ih = exceeded_limits-empty request es in
    elim (Bool-cases (within_limit (get name request) maximum)) [
      | inl here ↦ rw here ((λ e. (refl, ih.0 e)), (λ h. ih.1 h.1))
      | inr gone ↦ rw gone ((λ e. cc), (λ h. cc))
    ]

and_intro : {a b : Bool} → a ≡ true → b ≡ true → (a && b) ≡ true
and_intro h k = ground arith

quorum_test :
    (required count : ℤ) (v : Violation)
    → (is_empty (when (ltb_ℤ (pos 0) required && ltb_ℤ count required) v) ≡ true)
      ↔ ((required ≤ℤ pos 0) ⊎ (required ≤ℤ count))
quorum_test required count v = elim (Bool-cases (ltb_ℤ (pos 0) required)) [
  | inr none_needed ↦ ((λ e. inl (ground arith)), (λ h. ground arith))
  | inl needed ↦ elim (Bool-cases (ltb_ℤ count required)) [
    | inl short ↦ ((λ e. ground arith), (λ h. ground arith))
    | inr met ↦ ((λ e. inr (ground arith)), (λ h. ground arith))
  ]
]

module _ ⦃p : Platform⦄ (arbiter : Arbiter) (request : Dict Value) (policy : Policy) where
  quorum_violations-empty : (is_empty (quorum_violations arbiter request policy) ≡ true) ↔ (
      let required = for_action (action_of request) (pos 0) policy.required_approvals in
      (required ≤ℤ pos 0) ⊎ (required ≤ℤ approval_count arbiter request (context_of request)))
  unfolding quorum_violations
  quorum_violations-empty =
      quorum_test (for_action (action_of request) (pos 0) policy.required_approvals)
        (approval_count arbiter request (context_of request)) _

  -- The checks of `decide`, in its order.
  abbrev checks : Bool
  checks =
      let action = action_of request in
      let context = context_of request in
      not (ltb_ℤ policy.max_request_bytes (pos (request_size request)))
      && (is_dict (get_or "context" (dict []) request)
          && (is_allowed action policy.allowed_actions
              && (is_empty (missing_fields request (for_action action [] policy.required_fields))
                  && (is_empty
                        (mismatched_fields request (for_action action [] policy.exact_fields))
                      && (is_empty (
                            exceeded_limits request
                              (for_action action [] policy.max_numeric_fields))
                          && (is_empty (missing_context context policy.required_context)
                              && (is_empty (mismatched_context context policy.exact_context)
                                  && is_empty (quorum_violations arbiter request policy))))))))

  violations-checks : is_empty (violations arbiter request policy) ≡ checks
  unfolding violations
  violations-checks = simp (is_empty-append, is_empty-when, not-not)

  checks-Permits : checks ≡ true ↔ Permits arbiter request policy
  checks-Permits = (
    (λ e. record {
      small = ground arith;
      has_context = ground arith;
      action_allowed = ground arith;
      fields_present = (missing_fields-empty request _).0 (ground arith);
      fields_equal = (mismatched_fields-empty request _).0 (ground arith);
      within_limits = (exceeded_limits-empty request _).0 (ground arith);
      context_present = (missing_context-empty (context_of request) _).0 (ground arith);
      context_equal = (mismatched_context-empty (context_of request) _).0 (ground arith);
      quorum = quorum_violations-empty.0 (ground arith);
    }),
    (λ h. and_intro (ground arith) (
        and_intro h.has_context (
          and_intro h.action_allowed (
            and_intro ((missing_fields-empty request _).1 h.fields_present) (
              and_intro ((mismatched_fields-empty request _).1 h.fields_equal) (
                and_intro ((exceeded_limits-empty request _).1 h.within_limits) (
                  and_intro ((missing_context-empty (context_of request) _).1 h.context_present) (
                    and_intro ((mismatched_context-empty (context_of request) _).1 h.context_equal)
                      (quorum_violations-empty.1 h.quorum))))))))),
  )

  -- A decision that is made: its verdict and its two lists.
  decide-ok :
      (d : Decision)
      → decide arbiter request policy ≡ ok d
      → (d.allow ≡ (
          is_allowed (action_of request) policy.allowed_actions
          && is_empty (violations arbiter request policy)))
        × (d.reasons ≡ map (λ (v : Violation). v.0) (violations arbiter request policy))
        × (d.reason_codes ≡ map (λ (v : Violation). v.1) (violations arbiter request policy))
  unfolding decide
  decide-ok d e = (ground arith, ground arith, ground arith)

  -- A decision allows exactly the requests that the policy permits, by the size of the request, its
  -- context, the allowed actions, the required, exact and limited fields, the required and exact context
  -- and the approval quorum. It has no reasons exactly if it allows, and every reason has its reason code.
  pub decide-Permits :
      (d : Decision)
      → decide arbiter request policy ≡ ok d
      → ((d.allow ≡ true) ↔ Permits arbiter request policy)
        × (d.allow ≡ is_empty d.reasons)
        × (length d.reasons ≡ length d.reason_codes)
  decide-Permits d e =
      let (verdict, reasons_eq, codes_eq) = decide-ok d e in
      let found = violations arbiter request policy in
      let agree : d.allow ≡ checks = ground (arith, violations-checks) in
      (
        ((λ allow. checks-Permits.0 (sym agree ∙ allow)), (λ h. agree ∙ checks-Permits.1 h)),
        rw (reasons_eq, is_empty-map (λ (v : Violation). v.0) found, violations-checks) agree,
        rw (reasons_eq, codes_eq, length-map (λ (v : Violation). v.0) found)
            (sym (length-map (λ (v : Violation). v.1) found)),
      )
