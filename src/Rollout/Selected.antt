-- ===== src/Rollout/Selected.antt =====
-- The version that is selected as active and the states of the versions agree.
use governed_autonomy_substr.Base.{
  Bool, Dict, List, Option, Option-cases, Outcome-cases, PairDict, String, String-discrete, ap,
  arith, eq_text, false, if◌then◌else◌, inl, inr, insert_pair, is_blank, is_some, lookup,
  lookup-insert, lookup_pair, lookup_pair-insert_pair, none, ok, refl, same_pair, some, suc, true,
  ℕ, ◌&&◌, ◌≡◌,
}
use governed_autonomy_substr.Platform.{Platform}
use governed_autonomy_substr.Rollout.{
  ActivationEvent, PolicyLifecycle, PolicyTools, PolicyVerifier, StoredPolicy, active_policy,
  deprecated_policy, published_policy, revoked_policy,
}
use governed_autonomy_substr.Rollout.Calls.{
  RegistryCall, Respects, registry_run, registry_run-respects,
}
use governed_autonomy_substr.Rollout.Content.{verification}
use governed_autonomy_substr.Rollout.Effects.{get_version-ok, lifecycle-ok}
use governed_autonomy_substr.Rollout.Registry.{
  VersionedRegistry, deselect, empty_versions, get_active, get_version, is_active_state, is_current,
  lifecycle, put, retire, select, selected_of, set_state, state_of, stored_at, verify_version,
}

abbrev pub selects_version : VersionedRegistry → String → String → Bool
selects_version r policy_id version = is_current (lookup policy_id r.active_versions) version

-- A version is ACTIVE exactly if it is selected, and a selected version is stored. The empty text, which
-- a revocation puts in the place of the selected version, is no version.
abbrev pub AgreesAt : VersionedRegistry → String → String → Type 0
AgreesAt r policy_id version =
    is_blank version ≡ false
    → (selects_version r policy_id version ≡ is_active_state (state_of policy_id version r))
      × (selects_version r policy_id version ≡ true
          → is_some (stored_at policy_id version r) ≡ true)

abbrev pub IsConsistent : VersionedRegistry → Type 0
IsConsistent r = (policy_id version : String) → AgreesAt r policy_id version

pub put-IsConsistent :
    (s : StoredPolicy) (r : VersionedRegistry)
    → stored_at s.id s.version r ≡ none
    → IsConsistent r
    → IsConsistent (put s r)
put-IsConsistent s r absent h i v filled_in =
    let old = h i v filled_in in
    let stored' = lookup_pair-insert_pair s.id s.version i v s r.storage in
    let state' = lookup_pair-insert_pair s.id s.version i v published_policy r.states in
    ground arith

pub set_state-IsConsistent :
    (policy_id version : String) (r : VersionedRegistry)
    → is_active_state (state_of policy_id version r) ≡ false
    → IsConsistent r
    → IsConsistent (set_state policy_id version deprecated_policy r)
set_state-IsConsistent policy_id version r idle h i v filled_in =
    let old = h i v filled_in in
    let state' = lookup_pair-insert_pair policy_id version i v deprecated_policy r.states in
    ground arith

pub lookup_pair-retire :
    (i x y : String) (previous : Option String) (d : PairDict PolicyLifecycle)
    → lookup_pair x y (retire i previous d) ≡ (
        if (elim previous [ none ↦ false | some v ↦ same_pair x y i v ])
        then some published_policy
        else lookup_pair x y d)
lookup_pair-retire i x y none d = refl
lookup_pair-retire i x y (some v) d = lookup_pair-insert_pair i v x y published_policy d

pub select-IsConsistent :
    (event : ActivationEvent) (r : VersionedRegistry)
    → event.previous_version ≡ selected_of (lookup event.policy_id r.active_versions)
    → is_some (stored_at event.policy_id event.selected_version r) ≡ true
    → IsConsistent r
    → IsConsistent (select event r)
unfolding select
select-IsConsistent event r replaces known h i v filled_in =
    let old = h i v filled_in in
    let chosen : String × ℕ = (event.selected_version, event.revision) in
    let active' = lookup-insert event.policy_id i chosen r.active_versions in
    let retired = lookup_pair-retire event.policy_id i v event.previous_version r.states in
    let state' =
      lookup_pair-insert_pair event.policy_id event.selected_version i v active_policy
        (retire event.policy_id event.previous_version r.states) in
    elim (String-discrete i event.policy_id) [
      | no other ↦ ground (arith, old, active', retired, state')
      | yes same ↦ elim (Option-cases (lookup event.policy_id r.active_versions)) [
        | inl nothing ↦ ground (arith, old, active', retired, state')
        | inr (current, selected) ↦ ground (arith, old, active', retired, state')
      ]
    ]

pub lookup-deselect :
    (i j v : String) (d : Dict (String × ℕ))
    → lookup j (deselect i v d) ≡ (
        if eq_text j i && is_current (lookup i d) v
        then some ("", suc (elim (lookup i d) [ none ↦ 0 | some a ↦ a.1 ]))
        else lookup j d)
lookup-deselect i j v d = elim (Option-cases (lookup i d)) [
  | inl nothing ↦ ground arith
  | inr (current, selected) ↦
      let inserted = lookup-insert i j ("", suc (current.1)) d in ground arith
]

pub revoke-IsConsistent :
    (policy_id version : String) (r r' : VersionedRegistry)
    → r'.storage ≡ r.storage
    → r'.states ≡ insert_pair policy_id version revoked_policy r.states
    → r'.active_versions ≡ deselect policy_id version r.active_versions
    → IsConsistent r
    → IsConsistent r'
revoke-IsConsistent policy_id version r r' same_storage marked taken_out h i v filled_in =
    let old = h i v filled_in in
    let state' : lookup_pair i v r'.states ≡ (
        if same_pair i v policy_id version then some revoked_policy else lookup_pair i v r.states) =
      rw marked (lookup_pair-insert_pair policy_id version i v revoked_policy r.states) in
    let active' : lookup i r'.active_versions ≡ (
        if eq_text i policy_id && is_current (lookup policy_id r.active_versions) version
        then some ("", suc (elim (lookup policy_id r.active_versions) [ none ↦ 0 | some a ↦ a.1 ]))
        else lookup i r.active_versions) =
      rw taken_out (lookup-deselect policy_id i version r.active_versions) in
    elim (String-discrete i policy_id) [
      | no other ↦ ground (arith, old, state', active', same_storage)
      | yes same ↦ elim (Option-cases (lookup policy_id r.active_versions)) [
        | inl nothing ↦ ground (arith, old, state', active', same_storage)
        | inr (current, selected) ↦ ground (arith, old, state', active', same_storage)
      ]
    ]

module _ ⦃p : Platform⦄ ⦃t : PolicyTools⦄ where
  abbrev Keeps : VersionedRegistry → VersionedRegistry → Type 0
  Keeps r r' = IsConsistent r → IsConsistent r'

  Keeps-Respects : Respects Keeps
  Keeps-Respects = record {
    stays = λ r h. h;
    puts = λ s r r' placed h. rw (placed.1) (put-IsConsistent s r placed.0 h);
    activates = λ i v expected event r r' done h. rw (done.selects) (
        select-IsConsistent event r (rw (done.of_policy) (done.replaces))
          (rw (done.of_policy, done.of_version) (ap is_some (done.known))) h);
    deprecates = λ i v r idle kept h. set_state-IsConsistent i v r idle h;
    revokes = λ i v r r' same_storage same_verifier marked taken_out h.
        revoke-IsConsistent i v r r' same_storage marked taken_out h;
  }

  pub registry_run-IsConsistent :
      (cs : List RegistryCall) (r : VersionedRegistry)
      → IsConsistent r
      → IsConsistent (registry_run cs r)
  registry_run-IsConsistent cs r =
      registry_run-respects Keeps Keeps-Respects (λ a b c f g h. g (f h)) cs r

  -- What `get_active` returns is stored, verifies with its signature, and is the version selected.
  pub get_active-ok :
      (policy_id : String) (r : VersionedRegistry) (stored : StoredPolicy)
      → get_active policy_id r ≡ ok stored
      → (version : String) × (selects_version r policy_id version ≡ true)
        × (stored_at policy_id version r ≡ some stored)
        × (is_active_state (state_of policy_id version r) ≡ true)
        × ((verification r.verifier stored).valid ≡ true)
  unfolding get_active verify_version
  get_active-ok policy_id r stored e = elim (Option-cases (lookup policy_id r.active_versions)) [
    | inl nothing ↦ absurd (ground arith)
    | inr (chosen, selected) ↦ elim (Outcome-cases (lifecycle policy_id chosen.0 r)) [
      | inr (failure, unknown) ↦ absurd (ground arith)
      | inl (s, got) ↦ elim (Outcome-cases (get_version policy_id chosen.0 r)) [
        | inr (failure, unknown) ↦ absurd (ground arith)
        | inl (found, loaded) ↦
            let (known, is_state) = lifecycle-ok policy_id chosen.0 r s got in
            let (known', matches) = get_version-ok policy_id chosen.0 r found loaded in
            (chosen.0, ground arith, ground arith, ground arith, ground arith)
      ]
    ]
  ]

  -- After any history of calls on a registry that starts empty, what `get_active` returns is the record
  -- stored under the version that is selected; its digest and its signature verify, its state is ACTIVE, and
  -- no other version of the policy is ACTIVE (the empty text, which the policy schema refuses, counts as no
  -- version).
  pub registry_run-get_active :
      (cs : List RegistryCall) (verifier : Option PolicyVerifier) (policy_id : String)
      (stored : StoredPolicy)
      → let r = registry_run cs (empty_versions verifier) in
        get_active policy_id r ≡ ok stored
        → (version : String) × (selects_version r policy_id version ≡ true)
          × (stored_at policy_id version r ≡ some stored)
          × (is_active_state (state_of policy_id version r) ≡ true)
          × ((verification r.verifier stored).valid ≡ true)
          × ((other : String)
              → is_blank other ≡ false
              → is_active_state (state_of policy_id other r) ≡ true
              → other ≡ version)
  unfolding empty_versions lookup_pair lookup
  registry_run-get_active cs verifier policy_id stored e =
      let r = registry_run cs (empty_versions verifier) in
      let (version, selected, known, live, verifies) = get_active-ok policy_id r stored e in
      let consistent : IsConsistent r =
        registry_run-IsConsistent cs (empty_versions verifier) (λ i v h. (refl, λ x. x)) in
      (
        version,
        selected,
        known,
        live,
        verifies,
        λ other filled_in live'.
            let old = consistent policy_id other filled_in in
            elim (Option-cases (lookup policy_id r.active_versions)) [
              | inl nothing ↦ absurd (ground (arith, old))
              | inr (chosen, is_chosen) ↦ ground (arith, old)
            ],
      )
