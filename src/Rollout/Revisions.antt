-- ===== src/Rollout/Revisions.antt =====
-- The revision of a policy's selection only grows, so of the activations that expect the same revision one
-- succeeds at most.
use governed_autonomy_substr.Base.{
  Error, List, Option, Option-cases, Outcome-cases, String, String-discrete, arith, err, false, inl,
  inr, lookup, lookup-insert, lookup-insert_self, ok, some, subst, suc, ℕ, ◌∙◌, ◌≡◌, ◌≤◌,
}
use governed_autonomy_substr.Base.Int.{negsuc, pos, ℤ}
use governed_autonomy_substr.Platform.{Platform}
use governed_autonomy_substr.Rbac.{ClaimsIdentity}
use governed_autonomy_substr.Rollout.{ActivationEvent, PolicyTools}
use governed_autonomy_substr.Rollout.Calls.{
  RegistryCall, Respects, registry_run, registry_run-respects,
}
use governed_autonomy_substr.Rollout.Effects.{Activates, activate-Activates}
use governed_autonomy_substr.Rollout.Registry.{
  VersionedRegistry, activate, active_revision, deselect, is_conflict, rollback, select,
}
use governed_autonomy_substr.Rollout.Selected.{lookup-deselect}

-- At most one revision is the one expected.
no_conflict-same :
    (expected : ℤ) (a b : ℕ)
    → is_conflict (some expected) a ≡ false
    → is_conflict (some expected) b ≡ false
    → a ≡ b
no_conflict-same (pos n) a b h k = ground arith
no_conflict-same (negsuc n) a b h k = ground arith

module _ ⦃p : Platform⦄ ⦃t : PolicyTools⦄ where
  abbrev Grows : VersionedRegistry → VersionedRegistry → Type 0
  Grows r r' = (i : String) → active_revision i r ≤ active_revision i r'

  select-Grows :
      (event : ActivationEvent) (r : VersionedRegistry)
      → event.revision ≡ suc (active_revision event.policy_id r)
      → (i : String)
      → (active_revision i r ≤ active_revision i (select event r))
        × (active_revision event.policy_id (select event r) ≡ event.revision)
  unfolding select active_revision
  select-Grows event r next i =
      let chosen : String × ℕ = (event.selected_version, event.revision) in
      let active' = lookup-insert event.policy_id i chosen r.active_versions in
      let self = lookup-insert_self event.policy_id chosen r.active_versions in
      elim (String-discrete i event.policy_id) [
        | no other ↦ (ground arith, ground arith)
        | yes same ↦ (rw same (ground arith), ground arith)
      ]

  deselect-Grows :
      (policy_id version : String) (r r' : VersionedRegistry)
      → r'.active_versions ≡ deselect policy_id version r.active_versions
      → Grows r r'
  unfolding active_revision
  deselect-Grows policy_id version r r' taken_out i =
      let active' = lookup-deselect policy_id i version r.active_versions in
      elim (String-discrete i policy_id) [
        | no other ↦ ground arith
        | yes same ↦ elim (Option-cases (lookup policy_id r.active_versions)) [
          | inl nothing ↦ ground arith
          | inr (chosen, selected) ↦ ground arith
        ]
      ]

  Grows-Respects : Respects Grows
  unfolding active_revision
  Grows-Respects = record {
    stays = λ r i. omega arith;
    puts = λ s r r' placed i. rw (placed.1) (omega arith);
    activates = λ i v expected event r r' done j.
        rw (done.selects) (select-Grows event r (rw (done.of_policy) (done.next_revision)) j).0;
    deprecates = λ i v r idle kept j. omega arith;
    revokes =
        λ i v r r' same_storage same_verifier marked taken_out. deselect-Grows i v r r' taken_out;
  }

  registry_run-Grows :
      (cs : List RegistryCall) (r : VersionedRegistry) → Grows r (registry_run cs r)
  registry_run-Grows =
      registry_run-respects Grows Grows-Respects
        (λ a b c f g i. let x = f i in let y = g i in ground arith)

  activate-next :
      (policy_id version : String) (expected : Option ℤ) (event : ActivationEvent)
      (r r' : VersionedRegistry)
      → Activates policy_id version expected event r r'
      → active_revision policy_id r' ≡ suc (active_revision policy_id r)
  activate-next policy_id version expected event r r' done =
      let grown = select-Grows event r (rw (done.of_policy) (done.next_revision)) policy_id in
      rw (done.selects) (
        subst
          (λ (i : String). active_revision i (select event r) ≡ suc (active_revision policy_id r))
          (done.of_policy) (grown.1 ∙ done.next_revision))

  -- Compare and swap: when an activation of a policy that expects a revision has succeeded, the revision is
  -- one more, and after any further calls every activation and every rollback of the same policy that expects
  -- the old revision raises, whoever asks and whichever version they ask for.
  pub activate_once :
      (policy_id version by reason : String) (expected : ℤ) (identity : Option ClaimsIdentity)
      (operation now : String) (event : ActivationEvent) (r r' : VersionedRegistry)
      (cs : List RegistryCall) (version' by' reason' : String) (identity' : Option ClaimsIdentity)
      (operation' now' : String)
      → activate policy_id version by reason (some expected) identity operation now r
        ≡ ok (event, r')
      → (active_revision policy_id r' ≡ suc (active_revision policy_id r))
        × ((e : Error) × (activate policy_id version' by' reason'
                (some expected)
                identity'
                operation'
                now'
                (registry_run cs r')
              ≡ err e))
        × ((e : Error) × (rollback policy_id version' by' reason'
                (some expected)
                identity'
                now'
                (registry_run cs r')
              ≡ err e))
  unfolding rollback
  activate_once policy_id version by reason expected identity operation now event r r' cs version'
        by' reason' identity' operation' now' e =
      let done =
        activate-Activates policy_id version by reason (some expected) identity operation now r r'
          event e in
      let next = activate-next policy_id version (some expected) event r r' done in
      let clash = done.no_conflict in
      let grown = registry_run-Grows cs r' policy_id in
      let again : (kind : String)
          → (e' : Error) × (activate policy_id version' by' reason' (some expected) identity' kind
                now' (registry_run cs r')
              ≡ err e') =
        λ kind.
          elim (Outcome-cases (
            activate policy_id version' by' reason' (some expected) identity' kind now'
              (registry_run cs r'))) [
                | inr failure ↦ failure
                | inl (s, e') ↦
                    let done' =
                      activate-Activates policy_id version' by' reason' (some expected) identity'
                        kind now' (registry_run cs r') s.1 s.0 e' in
                    let clash' = done'.no_conflict in
                    let same =
                      no_conflict-same expected (active_revision policy_id r)
                        (active_revision policy_id (registry_run cs r')) clash clash' in
                    absurd (ground arith)
              ] in
      (next, again operation', again "rollback")
