-- ===== src/Rollout/Registry.antt =====
-- `VersionedPolicyRegistry` over `InMemoryPolicyStorage`: each call runs under the registry's lock, and
-- takes the registry to the next. The copies that the source returns are the values themselves.
use governed_autonomy_substr.Base.{
  Bool, Dict, List, Option, Outcome, PairDict, String, [], activation_conflict, eq_text, err, false,
  get_or, if◌then◌else◌, immutability_error, insert, insert_pair, integrity_error, is_blank,
  is_some, join, lifecycle_error, lookup, lookup_pair, none, not, not_found_error, ok, or_raise,
  raise_if, signature_error, some, suc, true, ℕ, ◌++◌, ◌>>=◌, ◌>>◌, ◌||◌, ◌∷◌, ◌⧺◌,
}
use governed_autonomy_substr.Base.Int.{eq_ℤ, pos, ℤ}
use governed_autonomy_substr.Platform.{Platform, Signer, str}
use governed_autonomy_substr.Rbac.{ClaimsIdentity, policy_admin, require_roles}
use governed_autonomy_substr.Rollout.{
  ActivationEvent, PolicyLifecycle, PolicyTools, PolicyVerifier, StoredPolicy, VerificationResult,
  active_policy, deprecated_policy, lifecycle_value, published_policy, revoked_policy,
}
use governed_autonomy_substr.Rollout.Content.{sign_record, unsigned_record, verification}
use governed_autonomy_substr.Value.{Value, integer}

pub record VersionedRegistry : Type 0 where
  pub storage : PairDict StoredPolicy
  pub verifier : Option PolicyVerifier
  pub states : PairDict PolicyLifecycle
  pub active_versions : Dict (String × ℕ)
  pub history : Dict (List ActivationEvent)

unfoldable pub empty_versions : Option PolicyVerifier → VersionedRegistry
empty_versions verifier = record {
  storage = [];
  verifier = verifier;
  states = [];
  active_versions = [];
  history = [];
}

abbrev pub stored_at : String → String → VersionedRegistry → Option StoredPolicy
stored_at policy_id version r = lookup_pair policy_id version r.storage

-- `self._states.get((policy_id, version), PolicyLifecycle.PUBLISHED)`.
abbrev pub state_of : String → String → VersionedRegistry → PolicyLifecycle
state_of policy_id version r = elim (lookup_pair policy_id version r.states) [
  | none ↦ published_policy
  | some s ↦ s
]

abbrev pub set_state : String → String → PolicyLifecycle → VersionedRegistry → VersionedRegistry
set_state policy_id version s r = record r { states = insert_pair policy_id version s r.states }

-- A new record in the storage, as PUBLISHED.
abbrev pub put : StoredPolicy → VersionedRegistry → VersionedRegistry
put stored r = record r {
  storage = insert_pair stored.id stored.version stored r.storage;
  states = insert_pair stored.id stored.version published_policy r.states;
}

abbrev pub named_version : String → String → String
named_version policy_id version = policy_id ⧺ "@" ⧺ version

abbrev pub is_active_state : PolicyLifecycle → Bool
is_active_state active_policy = true
is_active_state _ = false

abbrev pub is_revoked_state : PolicyLifecycle → Bool
is_revoked_state revoked_policy = true
is_revoked_state _ = false

-- `state in {PUBLISHED, ACTIVE}`.
abbrev pub can_activate : PolicyLifecycle → Bool
can_activate published_policy = true
can_activate active_policy = true
can_activate _ = false

unfoldable pub active_revision : String → VersionedRegistry → ℕ
active_revision policy_id r = elim (lookup policy_id r.active_versions) [ none ↦ 0 | some a ↦ a.1 ]

abbrev pub activation_history : String → VersionedRegistry → List ActivationEvent
activation_history policy_id r = get_or policy_id [] r.history

-- The version that was active is PUBLISHED again.
abbrev pub retire : String → Option String → PairDict PolicyLifecycle → PairDict PolicyLifecycle
retire policy_id none states = states
retire policy_id (some previous) states = insert_pair policy_id previous published_policy states

-- The registry after an activation that passes every check.
unfoldable pub select : ActivationEvent → VersionedRegistry → VersionedRegistry
select event r = record r {
  states =
      insert_pair event.policy_id event.selected_version active_policy
        (retire event.policy_id event.previous_version r.states);
  active_versions =
      insert event.policy_id (event.selected_version, event.revision) r.active_versions;
  history = insert event.policy_id (get_or event.policy_id [] r.history ++ event ∷ []) r.history;
}

-- The revision that the caller expects, if any.
abbrev pub is_conflict : Option ℤ → ℕ → Bool
is_conflict none current = false
is_conflict (some expected) current = not (eq_ℤ expected (pos current))

-- `current[0] if current is not None else None`, compared with the version to activate.
abbrev pub is_current : Option (String × ℕ) → String → Bool
is_current none version = false
is_current (some a) version = eq_text a.0 version

abbrev pub selected_of : Option (String × ℕ) → Option String
selected_of none = none
selected_of (some a) = some (a.0)

-- The active version is taken out of selection, under the next revision.
abbrev pub deselect : String → String → Dict (String × ℕ) → Dict (String × ℕ)
deselect policy_id version d = elim (lookup policy_id d) [
  | none ↦ d
  | some a ↦ if eq_text a.0 version then insert policy_id ("", suc (a.1)) d else d
]

module _ ⦃p : Platform⦄ where
  -- `if identity is not None: require_roles(identity, (Role.POLICY_ADMIN,))`.
  unfoldable pub check_admin : Option ClaimsIdentity → Outcome (Unit {0})
  check_admin none = ok tt
  check_admin (some identity) = require_roles identity (policy_admin ∷ [])

  unfoldable pub get_version : String → String → VersionedRegistry → Outcome StoredPolicy
  get_version policy_id version r = do
    stored ←
        or_raise (stored_at policy_id version r) (not_found_error (named_version policy_id version))
    let result = verification r.verifier stored
    raise_if (not result.digest_valid) (integrity_error (join "; " result.errors))
    ok stored

  unfoldable pub verify_version : String → String → VersionedRegistry → Outcome VerificationResult
  verify_version policy_id version r = do
    stored ←
        or_raise (stored_at policy_id version r) (not_found_error (named_version policy_id version))
    ok (verification r.verifier stored)

  unfoldable pub lifecycle : String → String → VersionedRegistry → Outcome PolicyLifecycle
  unfolding get_version
  lifecycle policy_id version r = do
    stored ← get_version policy_id version r
    ok (state_of policy_id version r)

  -- `if not verification.valid: raise PolicySignatureError(...)`.
  abbrev pub check_valid : VerificationResult → Outcome (Unit {0})
  check_valid result = raise_if (not result.valid) (signature_error (join "; " result.errors))

  unfoldable pub get_active : String → VersionedRegistry → Outcome StoredPolicy
  unfolding get_version verify_version lifecycle
  get_active policy_id r = do
    chosen ←
        or_raise (lookup policy_id r.active_versions)
          (not_found_error ("no active policy version for " ⧺ policy_id))
    let version = chosen.0
    s ← lifecycle policy_id version r
    raise_if (not (is_active_state s))
        (lifecycle_error ("active policy " ⧺ named_version policy_id version ⧺ " is not usable"))
    result ← verify_version policy_id version r
    check_valid result
    get_version policy_id version r

  abbrev pub conflict_text : Option ℤ → ℕ → String
  conflict_text none current = ""
  conflict_text (some expected) current =
      "expected revision "
      ⧺ str (integer expected)
      ⧺ ", current revision is "
      ⧺ str (integer (pos current))

  unfoldable pub activate :
      String
      → String
      → String
      → String
      → Option ℤ
      → Option ClaimsIdentity
      → String
      → String
      → VersionedRegistry
      → Outcome (ActivationEvent × VersionedRegistry)
  activate policy_id version requested_by reason expected_revision identity operation now r = do
    check_admin identity
    raise_if (is_blank requested_by || is_blank reason)
        (lifecycle_error "requested_by and reason are required")
    stored ← get_version policy_id version r
    check_valid (verification r.verifier stored)
    let s = state_of policy_id version r
    raise_if (not (can_activate s)) (
        lifecycle_error (
          "policy "
          ⧺ named_version policy_id version
          ⧺ " cannot be activated from "
          ⧺ lifecycle_value s))
    let current = lookup policy_id r.active_versions
    let current_revision = active_revision policy_id r
    raise_if (is_conflict expected_revision current_revision)
        (activation_conflict (conflict_text expected_revision current_revision))
    raise_if (is_current current version)
        (lifecycle_error ("policy " ⧺ named_version policy_id version ⧺ " is already active"))
    let event : ActivationEvent = record {
      policy_id = policy_id;
      previous_version = selected_of current;
      selected_version = version;
      requested_by = requested_by;
      reason = reason;
      timestamp = now;
      revision = suc current_revision;
      operation = operation;
    }
    ok (event, select event r)

  unfoldable pub rollback :
      String
      → String
      → String
      → String
      → Option ℤ
      → Option ClaimsIdentity
      → String
      → VersionedRegistry
      → Outcome (ActivationEvent × VersionedRegistry)
  unfolding activate
  rollback policy_id version requested_by reason expected_revision identity now r =
      activate policy_id version requested_by reason expected_revision identity "rollback" now r

  unfoldable pub deprecate :
      String → String → Option ClaimsIdentity → VersionedRegistry → Outcome VersionedRegistry
  deprecate policy_id version identity r = do
    check_admin identity
    s ← lifecycle policy_id version r
    raise_if (is_active_state s) (lifecycle_error "an active policy version cannot be deprecated")
    raise_if (is_revoked_state s) (lifecycle_error "a revoked policy version cannot be deprecated")
    ok (set_state policy_id version deprecated_policy r)

  unfoldable pub revoke_version :
      String → String → Option ClaimsIdentity → VersionedRegistry → Outcome VersionedRegistry
  revoke_version policy_id version identity r = do
    check_admin identity
    stored ← get_version policy_id version r
    ok (record r {
      states = insert_pair policy_id version revoked_policy r.states;
      active_versions = deselect policy_id version r.active_versions;
    })

module _ ⦃p : Platform⦄ ⦃t : PolicyTools⦄ where
  unfoldable pub register_unsigned :
      Value → VersionedRegistry → Outcome (StoredPolicy × VersionedRegistry)
  register_unsigned policy r = do
    stored ← unsigned_record policy
    elim (stored_at stored.id stored.version r) [
      | none ↦ ok (stored, put stored r)
      | some existing ↦
          if eq_text existing.content_hash stored.content_hash
          then ok (existing, r)
          else err (
              immutability_error (
                "policy "
                ⧺ named_version stored.id stored.version
                ⧺ " already exists with different content"))
    ]

  -- `signed_at or _utc_now()`.
  abbrev pub stated_or : String → Option String → String
  stated_or now none = now
  stated_or now (some s) = if is_blank s then now else s

  -- The timestamp is that of the caller, or the time of the call.
  unfoldable pub publish :
      Value
      → Signer
      → Option String
      → String
      → VersionedRegistry
      → Outcome (StoredPolicy × VersionedRegistry)
  publish policy signer signed_at now r = do
    unsigned ← unsigned_record policy
    let timestamp = stated_or now signed_at
    stored ← sign_record unsigned signer timestamp
    raise_if (is_some (stored_at stored.id stored.version r)) (
        immutability_error
          ("policy " ⧺ named_version stored.id stored.version ⧺ " is already published"))
    check_valid (verification r.verifier stored)
    ok (stored, put stored r)
