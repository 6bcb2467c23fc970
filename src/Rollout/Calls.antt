-- ===== src/Rollout/Calls.antt =====
-- Any history of calls on a registry of policy versions; a call that raises changes nothing.
use governed_autonomy_substr.Base.{
  List, Option, Outcome, String, [], err, false, inl, inr, insert_pair, ok, refl, ◌∷◌, ◌≡◌,
}
use governed_autonomy_substr.Base.Int.{ℤ}
use governed_autonomy_substr.Platform.{Platform, Signer}
use governed_autonomy_substr.Rbac.{ClaimsIdentity}
use governed_autonomy_substr.Rollout.{
  ActivationEvent, PolicyTools, StoredPolicy, deprecated_policy, revoked_policy,
}
use governed_autonomy_substr.Rollout.Effects.{
  Activates, Puts, activate-Activates, deprecate-ok, publish-ok, register_unsigned-ok,
  revoke_version-ok,
}
use governed_autonomy_substr.Rollout.Registry.{
  VersionedRegistry, activate, deprecate, deselect, is_active_state, is_revoked_state, publish,
  register_unsigned, revoke_version, rollback, set_state, state_of,
}
use governed_autonomy_substr.Value.{Value}

pub data RegistryCall : Type 0 where
  registering : Value → RegistryCall
  publishing : Value → Signer → Option String → String → RegistryCall
  activating :
      String
      → String
      → String
      → String
      → Option ℤ
      → Option ClaimsIdentity
      → String
      → String
      → RegistryCall
  rolling_back :
      String → String → String → String → Option ℤ → Option ClaimsIdentity → String → RegistryCall
  deprecating : String → String → Option ClaimsIdentity → RegistryCall
  revoking : String → String → Option ClaimsIdentity → RegistryCall

abbrev pub registry_after {ℓ} :
    {A : Type ℓ} → VersionedRegistry → Outcome (A × VersionedRegistry) → VersionedRegistry
registry_after r (ok s) = s.1
registry_after r (err e) = r

abbrev pub changed : VersionedRegistry → Outcome VersionedRegistry → VersionedRegistry
changed r (ok r') = r'
changed r (err e) = r

module _ ⦃p : Platform⦄ ⦃t : PolicyTools⦄ where
  unfoldable pub registry_step : RegistryCall → VersionedRegistry → VersionedRegistry
  registry_step (registering policy) r = registry_after r (register_unsigned policy r)
  registry_step (publishing policy signer signed_at now) r =
      registry_after r (publish policy signer signed_at now r)
  registry_step (activating policy_id version by reason expected identity operation now) r =
      registry_after r (activate policy_id version by reason expected identity operation now r)
  registry_step (rolling_back policy_id version by reason expected identity now) r =
      registry_after r (rollback policy_id version by reason expected identity now r)
  registry_step (deprecating policy_id version identity) r =
      changed r (deprecate policy_id version identity r)
  registry_step (revoking policy_id version identity) r =
      changed r (revoke_version policy_id version identity r)

  unfoldable pub registry_run : List RegistryCall → VersionedRegistry → VersionedRegistry
  unfolding registry_step
  registry_run [] r = r
  registry_run (c ∷ cs) r = registry_run cs (registry_step c r)

  -- What a relation between a registry and the next has to allow, for every call to respect it.
  pub record Respects (Q : VersionedRegistry → VersionedRegistry → Type 0) : Type 0 where
    pub stays : (r : VersionedRegistry) → Q r r
    pub puts : (s : StoredPolicy) (r r' : VersionedRegistry) → Puts s r r' → Q r r'
    pub activates :
        (policy_id version : String) (expected : Option ℤ) (event : ActivationEvent)
        (r r' : VersionedRegistry)
        → Activates policy_id version expected event r r'
        → Q r r'
    pub deprecates :
        (policy_id version : String) (r : VersionedRegistry)
        → is_active_state (state_of policy_id version r) ≡ false
        → is_revoked_state (state_of policy_id version r) ≡ false
        → Q r (set_state policy_id version deprecated_policy r)
    pub revokes :
        (policy_id version : String) (r r' : VersionedRegistry)
        → r'.storage ≡ r.storage
        → r'.verifier ≡ r.verifier
        → r'.states ≡ insert_pair policy_id version revoked_policy r.states
        → r'.active_versions ≡ deselect policy_id version r.active_versions
        → Q r r'

  module _ (Q : VersionedRegistry → VersionedRegistry → Type 0) (respects : Respects Q) where
    after-respects {ℓ} :
        {A : Type ℓ} (r : VersionedRegistry) (o : Outcome (A × VersionedRegistry))
        → ((a : A) (r' : VersionedRegistry) → o ≡ ok (a, r') → Q r r')
        → Q r (registry_after r o)
    after-respects r (ok s) k = k s.0 s.1 refl
    after-respects r (err e) k = respects.stays r

    changed-respects :
        (r : VersionedRegistry) (o : Outcome VersionedRegistry)
        → ((r' : VersionedRegistry) → o ≡ ok r' → Q r r')
        → Q r (changed r o)
    changed-respects r (ok r') k = k r' refl
    changed-respects r (err e) k = respects.stays r

    registers-respects :
        (policy : Value) (r r' : VersionedRegistry) (s : StoredPolicy)
        → register_unsigned policy r ≡ ok (s, r')
        → Q r r'
    registers-respects policy r r' s e = elim (register_unsigned-ok policy r r' s e) [
      | inl placed ↦ respects.puts s r r' placed
      | inr same ↦ rw same (respects.stays r)
    ]

    -- Every call respects it.
    pub registry_step-respects :
        (c : RegistryCall) (r : VersionedRegistry) → Q r (registry_step c r)
    unfolding registry_step rollback
    registry_step-respects (registering policy) r =
        after-respects r (register_unsigned policy r) (λ s r' e. registers-respects policy r r' s e)
    registry_step-respects (publishing policy signer signed_at now) r =
        after-respects r (publish policy signer signed_at now r)
          λ s r' e. respects.puts s r r' (publish-ok policy signer signed_at now r r' s e).0
    registry_step-respects (activating i v by reason expected who operation now) r =
        after-respects r (activate i v by reason expected who operation now r) λ event r' e.
          respects.activates i v expected event r r'
            (activate-Activates i v by reason expected who operation now r r' event e)
    registry_step-respects (rolling_back i v by reason expected who now) r =
        after-respects r (activate i v by reason expected who "rollback" now r) λ event r' e.
          respects.activates i v expected event r r'
            (activate-Activates i v by reason expected who "rollback" now r r' event e)
    registry_step-respects (deprecating i v who) r =
        changed-respects r (deprecate i v who r) λ r' e.
          let (idle, kept, same) = deprecate-ok i v who r r' e in
          rw same (respects.deprecates i v r idle kept)
    registry_step-respects (revoking i v who) r =
        changed-respects r (revoke_version i v who r) λ r' e.
          let (known, same_storage, same_verifier, marked, taken_out) =
            revoke_version-ok i v who r r' e in
          respects.revokes i v r r' same_storage same_verifier marked taken_out

    -- So does every history of calls, if the relation composes.
    pub registry_run-respects :
        ((r r' r'' : VersionedRegistry) → Q r r' → Q r' r'' → Q r r'')
        → (cs : List RegistryCall) (r : VersionedRegistry) → Q r (registry_run cs r)
    unfolding registry_run
    registry_run-respects composes [] r = respects.stays r
    registry_run-respects composes (c ∷ cs) r =
        composes r (registry_step c r) (registry_run cs (registry_step c r))
          (registry_step-respects c r) (registry_run-respects composes cs (registry_step c r))
