-- ===== src/Rollout/Revoked.antt =====
-- A revoked version stays revoked, and is not activated again.
use governed_autonomy_substr.Base.{
  Error, List, Option, Option-cases, Outcome-cases, String, String-discrete, ap, arith, err, false,
  if◌then◌else◌, inl, inr, insert_pair, is_blank, is_some, lookup, lookup_pair,
  lookup_pair-insert_pair, none, ok, refl, same_pair, some, subst, sym, true, ◌≡◌, ◌≢◌, ◌⊎◌,
}
use governed_autonomy_substr.Base.Int.{ℤ}
use governed_autonomy_substr.Platform.{Platform}
use governed_autonomy_substr.Rbac.{ClaimsIdentity}
use governed_autonomy_substr.Rollout.{
  ActivationEvent, PolicyLifecycle, PolicyTools, PolicyVerifier, StoredPolicy, active_policy,
  deprecated_policy, published_policy, revoked_policy,
}
use governed_autonomy_substr.Rollout.Calls.{
  RegistryCall, Respects, registry_run, registry_run-respects,
}
use governed_autonomy_substr.Rollout.Effects.{activate-Activates, revoke_version-ok}
use governed_autonomy_substr.Rollout.Registry.{
  VersionedRegistry, activate, can_activate, empty_versions, get_active, is_active_state,
  is_revoked_state, put, retire, revoke_version, select, selected_of, set_state, state_of,
  stored_at,
}
use governed_autonomy_substr.Rollout.Selected.{
  IsConsistent, get_active-ok, lookup_pair-retire, put-IsConsistent, registry_run-IsConsistent,
  revoke-IsConsistent, select-IsConsistent, set_state-IsConsistent,
}

-- The version is stored, as REVOKED.
abbrev pub IsRevokedAt : String → String → VersionedRegistry → Type 0
IsRevokedAt policy_id version r =
    (is_some (stored_at policy_id version r) ≡ true)
    × (is_revoked_state (state_of policy_id version r) ≡ true)

module _ ⦃p : Platform⦄ ⦃t : PolicyTools⦄ where
  module _ (policy_id version : String) (filled_in : is_blank version ≡ false) where
    abbrev Holds : VersionedRegistry → Type 0
    Holds r = IsConsistent r × IsRevokedAt policy_id version r

    put-Holds :
        (s : StoredPolicy) (r : VersionedRegistry)
        → stored_at s.id s.version r ≡ none
        → IsRevokedAt policy_id version r
        → IsRevokedAt policy_id version (put s r)
    put-Holds s r absent old =
        let stored' = lookup_pair-insert_pair s.id s.version policy_id version s r.storage in
        let state' =
          lookup_pair-insert_pair s.id s.version policy_id version published_policy r.states in
        ground arith

    select-Holds :
        (event : ActivationEvent) (r : VersionedRegistry)
        → event.previous_version ≡ selected_of (lookup event.policy_id r.active_versions)
        → can_activate (state_of event.policy_id event.selected_version r) ≡ true
        → Holds r
        → IsRevokedAt policy_id version (select event r)
    unfolding select
    select-Holds event r replaces open_state (consistent, old) =
        let agree = consistent policy_id version filled_in in
        let retired =
          lookup_pair-retire event.policy_id policy_id version event.previous_version r.states in
        let state' =
          lookup_pair-insert_pair event.policy_id event.selected_version policy_id version
            active_policy (retire event.policy_id event.previous_version r.states) in
        elim (String-discrete policy_id event.policy_id) [
          | no other ↦ ground (arith, agree, retired, state')
          | yes same ↦ elim (Option-cases (lookup event.policy_id r.active_versions)) [
            | inl nothing ↦ ground (arith, agree, retired, state')
            | inr (current, selected) ↦ ground (arith, agree, retired, state')
          ]
        ]

    mark-Holds :
        (i v : String) (mark : PolicyLifecycle) (r r' : VersionedRegistry)
        → is_revoked_state (state_of i v r) ≡ false ⊎ (is_revoked_state mark ≡ true)
        → r'.storage ≡ r.storage
        → r'.states ≡ insert_pair i v mark r.states
        → IsRevokedAt policy_id version r
        → IsRevokedAt policy_id version r'
    mark-Holds i v mark r r' allowed_mark same_storage marked old =
        let state' : lookup_pair policy_id version r'.states ≡ (
            if same_pair policy_id version i v
            then some mark
            else lookup_pair policy_id version r.states) =
          rw marked (lookup_pair-insert_pair i v policy_id version mark r.states) in
        (rw same_storage (old.0), ground arith)

    abbrev StaysRevoked : VersionedRegistry → VersionedRegistry → Type 0
    StaysRevoked r r' = Holds r → Holds r'

    StaysRevoked-Respects : Respects StaysRevoked
    StaysRevoked-Respects = record {
      stays = λ r h. h;
      puts = λ s r r' placed h.
          rw (placed.1) (put-IsConsistent s r placed.0 (h.0), put-Holds s r placed.0 (h.1));
      activates = λ i v expected event r r' done h.
          let replaces : event.previous_version
              ≡ selected_of (lookup event.policy_id r.active_versions) =
            rw (done.of_policy) (done.replaces) in
          rw (done.selects) (
            select-IsConsistent event r replaces
                (rw (done.of_policy, done.of_version) (ap is_some (done.known))) (h.0),
            select-Holds event r replaces (rw (done.of_policy, done.of_version) (done.open_state))
                h,
          );
      deprecates = λ i v r idle kept h. (
        set_state-IsConsistent i v r idle (h.0),
        mark-Holds i v deprecated_policy r (set_state i v deprecated_policy r) (inl kept) refl refl
            (h.1),
      );
      revokes = λ i v r r' same_storage same_verifier marked taken_out h. (
        revoke-IsConsistent i v r r' same_storage marked taken_out (h.0),
        mark-Holds i v revoked_policy r r' (inr refl) same_storage marked (h.1),
      );
    }

    -- A version that is revoked with success on a registry that any calls have made, starting empty, is
    -- REVOKED after any further calls: no activation of it returns, and what `get_active` returns is of
    -- another version. The version is not the empty text, which the policy schema refuses.
    pub revoked_for_good :
        (earlier : List RegistryCall) (verifier : Option PolicyVerifier)
        (identity : Option ClaimsIdentity) (r' : VersionedRegistry) (cs : List RegistryCall)
        → revoke_version policy_id version identity (registry_run earlier (empty_versions verifier))
          ≡ ok r'
        → let r = registry_run cs r' in
          (state_of policy_id version r ≡ revoked_policy)
          × ((by reason : String) (expected : Option ℤ) (identity' : Option ClaimsIdentity)
                (operation now : String)
              → (e : Error) × (activate policy_id version by reason expected identity' operation now
                    r
                  ≡ err e))
          × ((stored : StoredPolicy)
              → get_active policy_id r ≡ ok stored
              → (other : String) × (other ≢ version) × (stored_at policy_id other r ≡ some stored))
    unfolding empty_versions lookup_pair lookup
    revoked_for_good earlier verifier identity r' cs e =
        let r0 = registry_run earlier (empty_versions verifier) in
        let (known, same_storage, same_verifier, marked, taken_out) =
          revoke_version-ok policy_id version identity r0 r' e in
        let consistent : IsConsistent r0 =
          registry_run-IsConsistent earlier (empty_versions verifier) (λ i v h. (refl, λ x. x)) in
        let first : Holds r' = (
          revoke-IsConsistent policy_id version r0 r' same_storage marked taken_out consistent,
          (
            rw same_storage known,
            rw marked (
                let self =
                  lookup_pair-insert_pair policy_id version policy_id version revoked_policy
                    r0.states in
                ground arith),
          ),
        ) in
        let r = registry_run cs r' in
        let (agree, kept) =
          registry_run-respects StaysRevoked StaysRevoked-Respects (λ a b c f g h. g (f h)) cs r'
            first in
        (
          ground (arith, kept),
          λ by reason expected identity' operation now.
              elim (Outcome-cases
                (activate policy_id version by reason expected identity' operation now r)) [
                  | inr failure ↦ failure
                  | inl (s, e') ↦
                      let done =
                        activate-Activates policy_id version by reason expected identity' operation
                          now r s.1 s.0 e' in
                      let was_open = done.open_state in absurd (ground (arith, kept))
                ],
          λ stored e'.
              let (other, selected, at, live, verifies) = get_active-ok policy_id r stored e' in
              (
                other,
                λ same. absurd (
                    subst (λ (v : String). is_active_state (state_of policy_id v r) ≡ true → ⊥)
                      (sym same) (λ h. ground (arith, kept)) live),
                at,
              ),
        )
