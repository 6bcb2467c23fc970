-- ===== src/Examples/Rollouts.antt =====
-- The theorems of the policy registry service at concrete inputs.
use governed_autonomy_substr.Base.{
  Dict, Error, Option, String, String-discrete, [], eq_text, err, false, if◌then◌else◌, insert,
  insert_pair, is_blank, lookup, lookup_pair, none, ok, refl, some, sort_by, suc, true, ◌∷◌, ◌≡◌,
  ◌≢◌, ◌⧺◌,
}
use governed_autonomy_substr.Base.Int.{pos, ℤ}
use governed_autonomy_substr.Examples.World.{signer}
use governed_autonomy_substr.Platform.{Platform, Signer, verify_signature}
use governed_autonomy_substr.Rbac.{ClaimsIdentity}
use governed_autonomy_substr.Rollout.{
  ActivationEvent, PolicyTools, PolicyVerifier, StoredPolicy, revoked_policy, static_verifier,
  verify_policy,
}
use governed_autonomy_substr.Rollout.Calls.{
  RegistryCall, activating, publishing, registry_run, registry_step,
}
use governed_autonomy_substr.Rollout.Content.{
  canonical_policy, sign_record, signature_check, unsigned_record, validate_content, verification,
}
use governed_autonomy_substr.Rollout.Permanent.{publish-get_version}
use governed_autonomy_substr.Rollout.Registry.{
  VersionedRegistry, activate, active_revision, check_admin, empty_versions, get_active,
  get_version, is_active_state, lifecycle, publish, put, revoke_version, rollback, select, state_of,
  stored_at, verify_version,
}
use governed_autonomy_substr.Rollout.Revisions.{activate_once}
use governed_autonomy_substr.Rollout.Revoked.{revoked_for_good}
use governed_autonomy_substr.Rollout.Selected.{registry_run-get_active, selects_version}
use governed_autonomy_substr.Value.{Value, dict, text}

-- Every text is the one policy's.
abbrev content : Dict Value
content = ("id", text "p") ∷ ("version", text "1.0.0") ∷ []

instance abbrev one_policy : Platform
one_policy = record {
  json_dumps = λ v. "policy";
  json_loads = λ written. some (dict content);
  sha256 = λ s. "#" ⧺ s;
  urlsafe_b64decode = λ s. if eq_text s "signed" then some [] else none;
  ed25519_verify = λ key raw payload. eq_text key "key";
  load_public_key = λ s. some s;
  repr = λ v. "value";
}

instance abbrev lenient : PolicyTools
lenient = record {
  iter_errors = λ v. [];
  utc_offset = λ s. some (some (pos 0));
  semver_groups = λ s. none;
  int = λ s. 0;
  isdigit = λ s. false;
  split_dots = λ s. s ∷ [];
}

abbrev authority : PolicyVerifier
authority = static_verifier (("issuer", "key") ∷ [])

abbrev stored : StoredPolicy
stored = record {
  id = "p";
  version = "1.0.0";
  content_hash = "#policy";
  policy = dict content;
  schema_version = "1.0";
  signature = some (record {
    signer_id = "issuer";
    algorithm = "ed25519";
    signature = "signed";
    signed_at = "now";
  });
}

abbrev at_first : VersionedRegistry
at_first = empty_versions (some authority)

abbrev with_policy : VersionedRegistry
with_policy = put stored at_first

abbrev publishes : RegistryCall
publishes = publishing (dict content) signer none "now"

abbrev goes_live : RegistryCall
goes_live = activating "p" "1.0.0" "ops" "go live" none none "activate" "later"

published : publish (dict content) signer none "now" at_first ≡ ok (stored, with_policy)
unfolding publish unsigned_record canonical_policy validate_content sort_by sign_record verification
    signature_check verify_policy verify_signature empty_versions lookup_pair insert_pair lookup
    String-discrete
published = refl

publish-get_version_example :
    (get_version "p" "1.0.0" (registry_run (goes_live ∷ []) with_policy) ≡ ok stored)
    × (verify_version "p" "1.0.0" (registry_run (goes_live ∷ []) with_policy)
        ≡ ok (verification (some authority) stored))
    × ((verification (some authority) stored).valid ≡ true)
    × ((policy' : Value) (signer' : Signer) (signed_at' : Option String) (now' : String)
          (q : StoredPolicy) (r'' : VersionedRegistry)
        → publish policy' signer' signed_at' now' (registry_run (goes_live ∷ []) with_policy)
          ≡ ok (q, r'')
        → (q.id ≡ "p")
        → (q.version ≢ "1.0.0"))
unfolding empty_versions
publish-get_version_example =
    publish-get_version (dict content) signer none "now" at_first with_policy stored
      (goes_live ∷ []) published

abbrev live : VersionedRegistry
live = registry_run (publishes ∷ goes_live ∷ []) at_first

is_live : get_active "p" live ≡ ok stored
unfolding get_active registry_run registry_step activate select check_admin lifecycle get_version
    verify_version publish unsigned_record canonical_policy validate_content sort_by sign_record
    verification signature_check verify_policy verify_signature empty_versions lookup_pair
    insert_pair lookup insert active_revision String-discrete
is_live = refl

registry_run-get_active_example :
    (version : String) × (selects_version live "p" version ≡ true)
    × (stored_at "p" version live ≡ some stored)
    × (is_active_state (state_of "p" version live) ≡ true)
    × ((verification live.verifier stored).valid ≡ true)
    × ((other : String)
        → is_blank other ≡ false
        → is_active_state (state_of "p" other live) ≡ true
        → other ≡ version)
registry_run-get_active_example =
    registry_run-get_active (publishes ∷ goes_live ∷ []) (some authority) "p" stored is_live

abbrev first_activation : ActivationEvent
first_activation = record {
  policy_id = "p";
  previous_version = none;
  selected_version = "1.0.0";
  requested_by = "ops";
  reason = "go live";
  timestamp = "later";
  revision = 1;
  operation = "activate";
}

activated :
    activate "p" "1.0.0" "ops" "go live" (some (pos 0)) none "activate" "later" with_policy
    ≡ ok (first_activation, select first_activation with_policy)
unfolding activate select check_admin get_version verification signature_check verify_policy
    verify_signature empty_versions lookup_pair insert_pair lookup active_revision String-discrete
activated = refl

abbrev after_activation : VersionedRegistry
after_activation = registry_run (publishes ∷ []) (select first_activation with_policy)

activate_once_example :
    (active_revision "p" (select first_activation with_policy)
      ≡ suc (active_revision "p" with_policy))
    × ((e : Error) × (activate "p" "1.0.0" "eve" "again"
            (some (pos 0))
            none
            "activate"
            "then"
            after_activation
          ≡ err e))
    × ((e : Error) × (rollback "p" "1.0.0" "eve" "again" (some (pos 0)) none "then" after_activation
          ≡ err e))
activate_once_example =
    activate_once "p" "1.0.0" "ops" "go live" (pos 0) none "activate" "later" first_activation
      with_policy (select first_activation with_policy) (publishes ∷ []) "1.0.0" "eve" "again" none
      "activate" "then" activated

abbrev live_revoked : VersionedRegistry
live_revoked = record live {
  states = insert_pair "p" "1.0.0" revoked_policy live.states;
  active_versions = ("p", ("", 2)) ∷ [];
}

revoked_now : revoke_version "p" "1.0.0" none live ≡ ok live_revoked
unfolding revoke_version registry_run registry_step activate select check_admin get_version publish
    unsigned_record canonical_policy validate_content sort_by sign_record verification
    signature_check verify_policy verify_signature empty_versions lookup_pair insert_pair lookup
    insert active_revision String-discrete
revoked_now = refl

not_blank : is_blank "1.0.0" ≡ false
unfolding String-discrete
not_blank = refl

abbrev afterwards : VersionedRegistry
afterwards = registry_run (goes_live ∷ []) live_revoked

revoked_for_good_example :
    (state_of "p" "1.0.0" afterwards ≡ revoked_policy)
    × ((by reason : String) (expected : Option ℤ) (identity' : Option ClaimsIdentity)
          (operation now : String)
        → (e : Error) × (activate "p" "1.0.0" by reason expected identity' operation now afterwards
            ≡ err e))
    × ((s : StoredPolicy)
        → get_active "p" afterwards ≡ ok s
        → (other : String) × (other ≢ "1.0.0") × (stored_at "p" other afterwards ≡ some s))
revoked_for_good_example =
    revoked_for_good "p" "1.0.0" not_blank (publishes ∷ goes_live ∷ []) (some authority) none
      live_revoked (goes_live ∷ []) revoked_now
