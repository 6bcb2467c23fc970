-- ===== src/Admin/Quorum.antt =====
-- An activated policy has its proposer's signature and a quorum of approvals of its content.
use governed_autonomy_substr.Policy.{policy_digest as content_digest}
use governed_autonomy_substr.Admin.{
  ChangeManager, PolicyApproval, PolicyProposal, activate_proposal, activated_status, approval_of,
  approve_signed, count_approvers, draft_proposal, fresh_manager, is_pending, propose_signed,
  verify_policy_approval, verify_proposal, with_approval,
}
use governed_autonomy_substr.Base.{
  All, All-append_one, All-sort_by, Bool, List, Option, Option-cases, Outcome, Outcome-cases,
  String, String-discrete, [], arith, eq_text, err, false, inl, inr, insert, le_text, lookup,
  lookup-insert, lookup-insert_self, ok, refl, some, subst, sym, true, ℕ, ◌&&◌, ◌++◌, ◌∙◌, ◌∷◌, ◌≡◌,
  ◌≢◌, ◌≤◌,
}
use governed_autonomy_substr.Platform.{Platform}
use governed_autonomy_substr.Policy.{Policy, PolicyRegistry, register_policy}
use governed_autonomy_substr.Policy.Immutable.{content_of, register_policy-content}
use governed_autonomy_substr.Trust.{TrustStore}

-- The calls that change proposals.
pub data ChangeCall : Type 0 where
  proposing : Policy → String → String → String → Option String → String → ChangeCall
  approving : String → String → String → String → ChangeCall
  activating_change : String → String → ChangeCall

abbrev pub manager_after {ℓ} :
    {A : Type ℓ} → ChangeManager → Outcome (A × ChangeManager) → ChangeManager
manager_after m (ok r) = r.1
manager_after m (err e) = m

module _ ⦃p : Platform⦄ where
  unfoldable pub change_step : ChangeCall → ChangeManager → ChangeManager
  change_step (proposing policy key_id signature rationale given actor_id) m =
      manager_after m (propose_signed policy key_id signature rationale given actor_id m)
  change_step (approving proposal_id key_id signature actor_id) m =
      manager_after m (approve_signed proposal_id key_id signature actor_id m)
  change_step (activating_change proposal_id actor_id) m =
      manager_after m (activate_proposal proposal_id actor_id m)

  unfoldable pub change_run : List ChangeCall → ChangeManager → ChangeManager
  unfolding change_step
  change_run [] m = m
  change_run (c ∷ cs) m = change_run cs (change_step c m)

  -- An approval of a proposal: of its content, signed by a trusted key, and by another than the proposer's
  -- where duties are separated.
  abbrev pub Approves : TrustStore → Bool → PolicyProposal → PolicyApproval → Type 0
  Approves store separated q a =
      (verify_policy_approval a store ≡ true)
      × (a.policy_digest ≡ content_digest q.proposed_policy)
      × (a.proposal_id ≡ q.proposal_id)
      × (separated ≡ true → a.approver_key_id ≢ q.proposed_by_key_id)

  module _ (store : TrustStore) (separated : Bool) (required : ℕ) where
    -- The manager's settings are these, and every approval on record approves its proposal.
    pub record IsSettled (m : ChangeManager) : Type 0 where
      pub same_store : m.trust_store ≡ store
      pub same_duties : m.enforce_separation_of_duties ≡ separated
      pub same_quorum : m.required_approvals ≡ required
      pub approved :
          (i : String) (q : PolicyProposal)
          → lookup i m.proposals ≡ some q
          → (q.proposal_id ≡ i) × All (Approves store separated q) q.approvals

    -- A proposal that is written under its id.
    insert-approved :
        (m : ChangeManager) (j : String) (new : PolicyProposal)
        → IsSettled m
        → new.proposal_id ≡ j
        → All (Approves store separated new) new.approvals
        → (i : String) (q : PolicyProposal) → lookup i (insert j new m.proposals) ≡ some q
        → (q.proposal_id ≡ i) × All (Approves store separated q) q.approvals
    insert-approved m j new h own all_new i q found =
        let written = lookup-insert j i new m.proposals in
        elim (String-discrete i j) [
          | no other ↦ h.approved i q (ground arith)
          | yes same ↦
              let is_new : new ≡ q = ground arith in
              subst
                (λ (x : PolicyProposal).
                  (x.proposal_id ≡ i) × All (Approves store separated x) x.approvals)
                is_new (own ∙ sym same, all_new)
        ]

    propose-IsSettled :
        (policy : Policy) (key_id signature rationale : String) (given : Option String)
        (actor_id : String) (m : ChangeManager) (r : PolicyProposal × ChangeManager)
        → IsSettled m
        → propose_signed policy key_id signature rationale given actor_id m ≡ ok r
        → IsSettled r.1
    unfolding propose_signed
    propose-IsSettled policy key_id signature rationale given actor_id m r h e =
        let new : PolicyProposal = record (draft_proposal policy key_id rationale given m) {
          signature = signature;
        } in
        let s = h.same_store in
        let d = h.same_duties in
        let q = h.same_quorum in
        let proposals_eq : r.1.proposals ≡ insert new.proposal_id new m.proposals = ground arith in
        record {
          same_store = ground arith;
          same_duties = ground arith;
          same_quorum = ground arith;
          approved = rw proposals_eq (insert-approved m new.proposal_id new h refl tt);
        }

    approve-IsSettled :
        (proposal_id key_id signature actor_id : String) (m : ChangeManager)
        (r : PolicyProposal × ChangeManager)
        → IsSettled m
        → approve_signed proposal_id key_id signature actor_id m ≡ ok r
        → IsSettled r.1
    unfolding approve_signed
    approve-IsSettled proposal_id key_id signature actor_id m r h e =
        elim (Option-cases (lookup proposal_id m.proposals)) [
          | inl unknown ↦ absurd (ground arith)
          | inr (old, found) ↦
              let s = h.same_store in
              let d = h.same_duties in
              let q = h.same_quorum in
              let a = approval_of old key_id signature in
              let new = with_approval a old in
              let (own, all_old) = h.approved proposal_id old found in
              let verifies : verify_policy_approval a m.trust_store ≡ true = ground arith in
              let apart : m.enforce_separation_of_duties && eq_text key_id old.proposed_by_key_id
                  ≡ false =
                ground arith in
              let sound : Approves store separated new a =
                (rw (sym s) verifies, refl, refl, λ separate same. absurd (ground arith)) in
              let proposals_eq : r.1.proposals ≡ insert proposal_id new m.proposals =
                ground arith in
              record {
                same_store = ground arith;
                same_duties = ground arith;
                same_quorum = ground arith;
                approved = rw proposals_eq (
                    insert-approved m proposal_id new h own (
                      All-sort_by (Approves store separated new)
                        (λ (x : PolicyApproval) (y : PolicyApproval).
                          le_text x.approver_key_id y.approver_key_id)
                        (old.approvals ++ a ∷ [])
                        (All-append_one (Approves store separated new) old.approvals a all_old
                          sound)));
              }
        ]

    -- What an activation that returns has found and done.
    pub record Activated (proposal_id : String) (policy : Policy) (m m' : ChangeManager)
        : Type 0 where
      pub proposal : PolicyProposal
      pub found : lookup proposal_id m.proposals ≡ some proposal
      pub was_pending : is_pending proposal.status ≡ true
      pub is_proposed : policy ≡ proposal.proposed_policy
      pub verifies : verify_proposal proposal m.trust_store ≡ true
      pub enough : m.required_approvals ≤ count_approvers proposal
      pub registered : register_policy policy m.registry ≡ ok m'.registry
      pub settings_kept :
          (m'.trust_store ≡ m.trust_store)
          × (m'.enforce_separation_of_duties ≡ m.enforce_separation_of_duties)
          × (m'.required_approvals ≡ m.required_approvals)
      pub marked :
          m'.proposals
          ≡ insert proposal_id (record proposal { status = activated_status }) m.proposals

    activate-Activated :
        (proposal_id actor_id : String) (m m' : ChangeManager) (policy : Policy)
        → activate_proposal proposal_id actor_id m ≡ ok (policy, m')
        → Activated proposal_id policy m m'
    unfolding activate_proposal
    activate-Activated proposal_id actor_id m m' policy e =
        elim (Option-cases (lookup proposal_id m.proposals)) [
          | inl unknown ↦ absurd (ground arith)
          | inr (q, known) ↦ elim (Outcome-cases (register_policy q.proposed_policy m.registry)) [
            | inr (failure, conflict_raised) ↦ absurd (ground arith)
            | inl (next, done) ↦
                let is_policy : policy ≡ q.proposed_policy = ground arith in
                record {
                  proposal = q;
                  found = known;
                  was_pending = ground arith;
                  is_proposed = is_policy;
                  verifies = ground arith;
                  enough = ground arith;
                  registered = rw is_policy (ground arith);
                  settings_kept = (ground arith, ground arith, ground arith);
                  marked = ground arith;
                }
          ]
        ]

    activate-IsSettled :
        (proposal_id actor_id : String) (m : ChangeManager) (r : Policy × ChangeManager)
        → IsSettled m
        → activate_proposal proposal_id actor_id m ≡ ok r
        → IsSettled r.1
    activate-IsSettled proposal_id actor_id m r h e =
        let done = activate-Activated proposal_id actor_id m r.1 r.0 e in
        let (kept_store, kept_duties, kept_quorum) = done.settings_kept in
        let (own, all_old) = h.approved proposal_id done.proposal done.found in
        record {
          same_store = kept_store ∙ h.same_store;
          same_duties = kept_duties ∙ h.same_duties;
          same_quorum = kept_quorum ∙ h.same_quorum;
          approved = rw (done.marked) (
              insert-approved m proposal_id (record (done.proposal) { status = activated_status }) h
                own all_old);
        }

    step-IsSettled :
        (c : ChangeCall) (m : ChangeManager) → IsSettled m → IsSettled (change_step c m)
    unfolding change_step
    step-IsSettled (proposing policy key_id signature rationale given actor_id) m h =
        elim (Outcome-cases (propose_signed policy key_id signature rationale given actor_id m)) [
          | inr (failure, stopped) ↦ rw (stopped, change_step) h
          | inl (r, done) ↦
              rw (done, change_step)
                (propose-IsSettled policy key_id signature rationale given actor_id m r h done)
        ]
    step-IsSettled (approving proposal_id key_id signature actor_id) m h =
        elim (Outcome-cases (approve_signed proposal_id key_id signature actor_id m)) [
          | inr (failure, stopped) ↦ rw (stopped, change_step) h
          | inl (r, done) ↦
              rw (done, change_step)
                (approve-IsSettled proposal_id key_id signature actor_id m r h done)
        ]
    step-IsSettled (activating_change proposal_id actor_id) m h =
        elim (Outcome-cases (activate_proposal proposal_id actor_id m)) [
          | inr (failure, stopped) ↦ rw (stopped, change_step) h
          | inl (r, done) ↦
              rw (done, change_step) (activate-IsSettled proposal_id actor_id m r h done)
        ]

    run-IsSettled :
        (cs : List ChangeCall) (m : ChangeManager) → IsSettled m → IsSettled (change_run cs m)
    unfolding change_run
    run-IsSettled [] m h = h
    run-IsSettled (c ∷ cs) m h = run-IsSettled cs (change_step c m) (step-IsSettled c m h)

    -- After any history of signed proposals, signed approvals and activations on a fresh manager, under one
    -- trust store that does not change, a change that is activated is a pending proposal whose proposer's key,
    -- still trusted, has signed it; at least the required number of different keys have approved it, each with
    -- a signature over this proposal and its content, made by a key that the trust store knows, and none of
    -- them is the proposer's where duties are separated. Afterwards the proposal is on record as activated, the
    -- registry has the policy's content under its id, and every id that was registered has the content that
    -- it had; the policy's own id, where it was registered, had the same content.
    pub activate_quorum :
        (cs : List ChangeCall) (registry : PolicyRegistry) (proposal_id actor_id : String)
        (policy : Policy) (m' : ChangeManager)
        → let m = change_run cs (fresh_manager registry store required separated) in
          activate_proposal proposal_id actor_id m ≡ ok (policy, m')
          → (q : PolicyProposal) × (lookup proposal_id m.proposals ≡ some q)
            × (policy ≡ q.proposed_policy)
            × (is_pending q.status ≡ true)
            × (verify_proposal q store ≡ true)
            × (required ≤ count_approvers q)
            × All (Approves store separated q) q.approvals
            × ((content : String)
                → content_of policy.policy_id m.registry ≡ some content
                → content ≡ content_digest policy)
            × (content_of policy.policy_id m'.registry ≡ some (content_digest policy))
            × ((policy_id content : String)
                → content_of policy_id m.registry ≡ some content
                → content_of policy_id m'.registry ≡ some content)
            × (lookup proposal_id m'.proposals ≡ some (record q { status = activated_status }))
    unfolding lookup
    activate_quorum cs registry proposal_id actor_id policy m' e =
        let first = fresh_manager registry store required separated in
        let m = change_run cs first in
        let h = run-IsSettled cs first (record {
          same_store = refl;
          same_duties = refl;
          same_quorum = refl;
          approved = λ i q none_there. absurd (ground arith);
        }) in
        let done = activate-Activated proposal_id actor_id m m' policy e in
        let q = done.proposal in
        let s = h.same_store in
        let quorum = h.same_quorum in
        (
          q,
          done.found,
          done.is_proposed,
          done.was_pending,
          subst (λ (x : TrustStore). verify_proposal q x ≡ true) s (done.verifies),
          subst (λ (n : ℕ). n ≤ count_approvers q) quorum (done.enough),
          (h.approved proposal_id q done.found).1,
          λ content known.
              let (now_there, kept) =
                register_policy-content policy m.registry m'.registry policy.policy_id content
                  done.registered in
              let still = kept known in ground arith,
          (register_policy-content policy m.registry m'.registry "" "" done.registered).0,
          λ policy_id content.
              (register_policy-content policy m.registry m'.registry policy_id content
                done.registered).1,
          rw (done.marked)
              (lookup-insert_self proposal_id (record q { status = activated_status }) m.proposals),
        )
