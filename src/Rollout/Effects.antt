-- ===== src/Rollout/Effects.antt =====
-- What a call of the registry that returns has checked and done.
use governed_autonomy_substr.Base.{
  >>=-eq-ok, Option, Option-cases, Outcome-cases, String, ap, arith, false, inl, inr, insert_pair,
  is_some, lookup, none, ok, some, suc, true, ◌≡◌, ◌⊎◌,
}
use governed_autonomy_substr.Base.Int.{ℤ}
use governed_autonomy_substr.Platform.{Platform, Signer}
use governed_autonomy_substr.Rbac.{ClaimsIdentity}
use governed_autonomy_substr.Rollout.{
  ActivationEvent, PolicyLifecycle, PolicyTools, StoredPolicy, deprecated_policy, revoked_policy,
}
use governed_autonomy_substr.Rollout.Content.{
  digest_matches, sign_record, unsigned_record, verification,
}
use governed_autonomy_substr.Rollout.Registry.{
  VersionedRegistry, activate, active_revision, can_activate, check_admin, deprecate, deselect,
  get_version, is_active_state, is_conflict, is_current, is_revoked_state, lifecycle, publish, put,
  register_unsigned, revoke_version, select, selected_of, set_state, state_of, stated_or, stored_at,
}
use governed_autonomy_substr.Value.{Value}

module _ ⦃p : Platform⦄ where
  pub get_version-ok :
      (policy_id version : String) (r : VersionedRegistry) (stored : StoredPolicy)
      → get_version policy_id version r ≡ ok stored
      → (stored_at policy_id version r ≡ some stored) × (digest_matches stored ≡ true)
  unfolding get_version verification
  get_version-ok policy_id version r stored e =
      elim (Option-cases (stored_at policy_id version r)) [
        | inl absent ↦ absurd (ground arith)
        | inr (found, known) ↦ (ground arith, ground arith)
      ]

  pub lifecycle-ok :
      (policy_id version : String) (r : VersionedRegistry) (s : PolicyLifecycle)
      → lifecycle policy_id version r ≡ ok s
      → (is_some (stored_at policy_id version r) ≡ true) × (state_of policy_id version r ≡ s)
  unfolding lifecycle get_version
  lifecycle-ok policy_id version r s e =
      let (stored, got, rest) = >>=-eq-ok (get_version policy_id version r) _ e in
      let (known, matches) = get_version-ok policy_id version r stored got in
      (ap is_some known, ground arith)

  -- What an activation that returns has checked.
  pub record Activates (policy_id version : String) (expected : Option ℤ) (event : ActivationEvent)
      (r r' : VersionedRegistry) : Type 0 where
    pub stored : StoredPolicy
    pub known : stored_at policy_id version r ≡ some stored
    pub verifies : (verification r.verifier stored).valid ≡ true
    pub open_state : can_activate (state_of policy_id version r) ≡ true
    pub no_conflict : is_conflict expected (active_revision policy_id r) ≡ false
    pub not_current : is_current (lookup policy_id r.active_versions) version ≡ false
    pub of_policy : event.policy_id ≡ policy_id
    pub of_version : event.selected_version ≡ version
    pub replaces : event.previous_version ≡ selected_of (lookup policy_id r.active_versions)
    pub next_revision : event.revision ≡ suc (active_revision policy_id r)
    pub selects : r' ≡ select event r

  pub activate-Activates :
      (policy_id version requested_by reason : String) (expected : Option ℤ)
      (identity : Option ClaimsIdentity) (operation now : String) (r r' : VersionedRegistry)
      (event : ActivationEvent)
      → activate policy_id version requested_by reason expected identity operation now r
        ≡ ok (event, r')
      → Activates policy_id version expected event r r'
  unfolding activate
  activate-Activates policy_id version requested_by reason expected identity operation now r r'
        event e =
      elim (Outcome-cases (check_admin identity)) [
        | inr (denial, failed_check) ↦ absurd (ground arith)
        | inl (u, admin) ↦ elim (Outcome-cases (get_version policy_id version r)) [
          | inr (failure, absent) ↦ absurd (ground arith)
          | inl (stored, got) ↦
              let (known, matches) = get_version-ok policy_id version r stored got in
              record {
                stored = stored;
                known = known;
                verifies = ground arith;
                open_state = ground arith;
                no_conflict = ground arith;
                not_current = ground arith;
                of_policy = ground arith;
                of_version = ground arith;
                replaces = ground arith;
                next_revision = ground arith;
                selects = ground arith;
              }
        ]
      ]

  pub deprecate-ok :
      (policy_id version : String) (identity : Option ClaimsIdentity) (r r' : VersionedRegistry)
      → deprecate policy_id version identity r ≡ ok r'
      → (is_active_state (state_of policy_id version r) ≡ false)
        × (is_revoked_state (state_of policy_id version r) ≡ false)
        × (r' ≡ set_state policy_id version deprecated_policy r)
  unfolding deprecate
  deprecate-ok policy_id version identity r r' e = elim (Outcome-cases (check_admin identity)) [
    | inr (denial, failed_check) ↦ absurd (ground arith)
    | inl (u, admin) ↦ elim (Outcome-cases (lifecycle policy_id version r)) [
      | inr (failure, absent) ↦ absurd (ground arith)
      | inl (s, got) ↦
          let (known, is_state) = lifecycle-ok policy_id version r s got in
          (ground arith, ground arith, ground arith)
    ]
  ]

  pub revoke_version-ok :
      (policy_id version : String) (identity : Option ClaimsIdentity) (r r' : VersionedRegistry)
      → revoke_version policy_id version identity r ≡ ok r'
      → (is_some (stored_at policy_id version r) ≡ true)
        × (r'.storage ≡ r.storage)
        × (r'.verifier ≡ r.verifier)
        × (r'.states ≡ insert_pair policy_id version revoked_policy r.states)
        × (r'.active_versions ≡ deselect policy_id version r.active_versions)
  unfolding revoke_version
  revoke_version-ok policy_id version identity r r' e =
      elim (Outcome-cases (check_admin identity)) [
        | inr (denial, failed_check) ↦ absurd (ground arith)
        | inl (u, admin) ↦ elim (Outcome-cases (get_version policy_id version r)) [
          | inr (failure, absent) ↦ absurd (ground arith)
          | inl (stored, got) ↦
              let (known, matches) = get_version-ok policy_id version r stored got in
              (ap is_some known, ground arith, ground arith, ground arith, ground arith)
        ]
      ]

-- A new record comes under a key that was free; a call for a known one changes nothing.
abbrev pub Puts : StoredPolicy → VersionedRegistry → VersionedRegistry → Type 0
Puts s r r' = (stored_at s.id s.version r ≡ none) × (r' ≡ put s r)

module _ ⦃p : Platform⦄ ⦃t : PolicyTools⦄ where
  pub register_unsigned-ok :
      (policy : Value) (r r' : VersionedRegistry) (stored : StoredPolicy)
      → register_unsigned policy r ≡ ok (stored, r')
      → Puts stored r r' ⊎ (r' ≡ r)
  unfolding register_unsigned
  register_unsigned-ok policy r r' stored e = elim (Outcome-cases (unsigned_record policy)) [
    | inr (failure, no_record) ↦ absurd (ground arith)
    | inl (made, validated) ↦ elim (Option-cases (stored_at made.id made.version r)) [
      | inl absent ↦ inl (ground arith)
      | inr (existing, known) ↦ inr (ground arith)
    ]
  ]

  pub publish-ok :
      (policy : Value) (signer : Signer) (signed_at : Option String) (now : String)
      (r r' : VersionedRegistry) (stored : StoredPolicy)
      → publish policy signer signed_at now r ≡ ok (stored, r')
      → Puts stored r r' × ((verification r.verifier stored).valid ≡ true)
  unfolding publish
  publish-ok policy signer signed_at now r r' stored e =
      elim (Outcome-cases (unsigned_record policy)) [
        | inr (failure, no_record) ↦ absurd (ground arith)
        | inl (bare, validated) ↦
            elim (Outcome-cases (sign_record bare signer (stated_or now signed_at))) [
              | inr (failure, no_signature) ↦ absurd (ground arith)
              | inl (made, sealed) ↦ elim (Option-cases (stored_at made.id made.version r)) [
                | inl absent ↦ (ground arith, ground arith)
                | inr (existing, known) ↦ absurd (ground arith)
              ]
            ]
      ]
