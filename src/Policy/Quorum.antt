-- ===== src/Policy/Quorum.antt =====
-- What the approval count counts.
use governed_autonomy_substr.Base.{
  Bool, Bool-cases, Dict, List, Option-cases, String, String-discrete, [], any, arith, eq_text,
  false, inl, inr, is_in, length, none, refl, some, true, ◌||◌, ◌∷◌, ◌≡◌,
}
use governed_autonomy_substr.Base.Int.{pos, ℤ, ◌≤ℤ◌}
use governed_autonomy_substr.Mesh.{distinct}
use governed_autonomy_substr.Platform.{Platform}
use governed_autonomy_substr.Policy.Approvals.{
  Arbiter, approval_count, approver, collect, listed_approvals, stated_count,
}
use governed_autonomy_substr.Policy.Decide.{action_of, context_of, for_action, quorum_violations}
use governed_autonomy_substr.Policy.Rules.{Policy}
use governed_autonomy_substr.Value.{Value, get, integer}

module _ ⦃p : Platform⦄ where
  abbrev pub is_approved : Arbiter → Dict Value → String → Value → Bool
  is_approved arbiter request key_id v = elim (approver arbiter request v) [
    | none ↦ false
    | some k ↦ eq_text key_id k
  ]

  -- Collecting adds exactly the approvers of the listed approvals.
  collect-is_in :
      (arbiter : Arbiter) (request : Dict Value) (vs : List Value) (acc : List String)
      (key_id : String)
      → is_in key_id (collect arbiter request vs acc)
        ≡ (is_in key_id acc || any (is_approved arbiter request key_id) vs)
  unfolding collect
  collect-is_in arbiter request [] acc key_id = ground arith
  collect-is_in arbiter request (v ∷ vs) acc key_id =
      elim (Option-cases (approver arbiter request v)) [
        | inl nobody ↦ ground (arith, collect-is_in arbiter request vs acc key_id)
        | inr (k, approved) ↦ elim (Bool-cases (is_in k acc)) [
          | inl old ↦ elim (String-discrete key_id k) [
            | yes same ↦ ground (arith, collect-is_in arbiter request vs acc key_id)
            | no other ↦ ground (arith, collect-is_in arbiter request vs acc key_id)
          ]
          | inr new ↦ ground (arith, collect-is_in arbiter request vs (k ∷ acc) key_id)
        ]
      ]

  -- No key id is counted twice.
  collect-distinct :
      (arbiter : Arbiter) (request : Dict Value) (vs : List Value) (acc : List String)
      → distinct acc ≡ true
      → distinct (collect arbiter request vs acc) ≡ true
  unfolding collect distinct
  collect-distinct arbiter request [] acc h = h
  collect-distinct arbiter request (v ∷ vs) acc h =
      elim (Option-cases (approver arbiter request v)) [
        | inl nobody ↦ ground (arith, collect-distinct arbiter request vs acc h)
        | inr (k, approved) ↦ elim (Bool-cases (is_in k acc)) [
          | inl old ↦ ground (arith, collect-distinct arbiter request vs acc h)
          | inr new ↦ ground (arith, collect-distinct arbiter request vs (k ∷ acc))
        ]
      ]

  -- A request and a context that state no count themselves are counted by approvals: the count is the
  -- length of a list without repetition, which holds exactly the key ids that have an approval in the
  -- request's or the context's list that counts.
  pub approval_count-distinct :
      (arbiter : Arbiter) (request context : Dict Value)
      → stated_count request ≡ none
      → stated_count context ≡ none
      → (approvers : List String) × (approval_count arbiter request context
          ≡ pos (length approvers))
        × (distinct approvers ≡ true)
        × ((key_id : String)
            → is_in key_id approvers ≡ (
                any (is_approved arbiter request key_id) (listed_approvals request)
                || any (is_approved arbiter request key_id) (listed_approvals context)))
  unfolding approval_count distinct
  approval_count-distinct arbiter request context a b =
      let first = collect arbiter request (listed_approvals request) [] in
      (
        collect arbiter request (listed_approvals context) first,
        rw (a, b, approval_count) refl,
        collect-distinct arbiter request (listed_approvals context) first
            (collect-distinct arbiter request (listed_approvals request) [] refl),
        (λ key_id. ground (
          arith,
          collect-is_in arbiter request (listed_approvals context) first key_id,
          collect-is_in arbiter request (listed_approvals request) [] key_id,
        )),
      )

  -- A number under `approval_count` in the request meets any quorum up to that number, whatever approvals
  -- the request carries and whatever keys are trusted.
  pub stated_count-meets-quorum :
      (arbiter : Arbiter) (request : Dict Value) (policy : Policy) (stated : ℤ)
      → get "approval_count" request ≡ integer stated
      → for_action (action_of request) (pos 0) policy.required_approvals ≤ℤ stated
      → quorum_violations arbiter request policy ≡ []
  unfolding quorum_violations approval_count stated_count
  stated_count-meets-quorum arbiter request policy stated e h =
      let counted : approval_count arbiter request (context_of request) ≡ stated =
        rw (e, stated_count, approval_count) refl in
      ground (arith, counted)
