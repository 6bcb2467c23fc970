-- ===== src/Examples/Exchanges.antt =====
-- The theorems of the federation and of stored registries at concrete inputs.
use governed_autonomy_substr.Base.{
  All, Dict, Error, List, String, String-discrete, [], err, federation_error, insert, lookup, none,
  ok, refl, some, sort_by, true, ◌∷◌, ◌≡◌, ◌⊎◌,
}
use governed_autonomy_substr.Base.Int.{pos, ◌+ℤ◌}
use governed_autonomy_substr.Examples.Policies.{policy}
use governed_autonomy_substr.Examples.World.{dump, toy}
use governed_autonomy_substr.Federation.{
  RegistrySnapshot, SyncEnvelope, SyncEvent, snapshot_content, snapshot_from_dict,
  snapshot_from_registry, snapshot_to_dict, snapshot_unsigned, verify_envelope, verify_event,
}
use governed_autonomy_substr.Federation.Accepted.{
  Accepts, Acts, reconcile-Accepts, reconcile_all, reconcile_once,
}
use governed_autonomy_substr.Federation.Reconcile.{
  Reconciler, ReconciliationResult, adopt, adopted, check_envelope, import_manifest, reconcile,
  reconcile_entries, reconcile_entry, remote_digest_of,
}
use governed_autonomy_substr.Federation.Snapshot.{in_order, snapshot_refused}
use governed_autonomy_substr.Platform.{Platform, digest, verify_signature}
use governed_autonomy_substr.Policy.{
  Manifest, PolicyRegistry, empty_registry, install_manifest, policy_digest, policy_to_dict,
  register_policy, register_signed, validate_policy, verify_manifest,
}
use governed_autonomy_substr.Policy.Loaded.{EntryVerifies, load_registry_sound}
use governed_autonomy_substr.Policy.Wire.{
  as_tuple, digests, load_entries, load_entry, load_registry, load_signed, manifest_from_dict,
  manifest_to_dict, policy_from_dict, read_dict, read_values,
}
use governed_autonomy_substr.Trust.{TrustStore, resolve, strings}
use governed_autonomy_substr.Value.{
  Value, array, as_dict, as_list, dict, field, get, items, object, text,
}

abbrev manifest : Manifest
manifest = record {
  policy = policy;
  version = pos 1;
  issuer_key_id = "issuer";
  signature = "signed";
}

abbrev trusted : TrustStore
trusted = record { known = ("issuer", "key") ∷ []; revoked = [] }

abbrev sync_event : SyncEvent
sync_event = record {
  event_type = "policy_update";
  source_org = "there";
  target_org = "here";
  snapshot_digest = "content";
  policy_digests = ("p", "#") ∷ [];
  issued_at = pos 5;
  nonce = "n";
  signer_key_id = "issuer";
  signature = "signed";
}

abbrev envelope : SyncEnvelope
envelope = record {
  event = sync_event;
  snapshot = record {
    source_org = "there";
    version = pos 1;
    policies = ("p", manifest_to_dict manifest) ∷ [];
    policy_digests = ("p", "#") ∷ [];
    snapshot_digest = "content";
  };
  signature = "signed";
}

abbrev reconciler : Reconciler
reconciler = record {
  local_org = "here";
  registry = empty_registry (some trusted);
  trust_store = trusted;
  organization_keys = ("there", "issuer") ∷ [];
  max_event_age_seconds = pos 3600;
  seen_nonces = [];
}

abbrev result : ReconciliationResult
result = record {
  status = adopted;
  imported_policy_ids = "p" ∷ [];
  conflicts = [];
  metadata = some (("source_org", text "there") ∷ ("snapshot_digest", text "content") ∷ []);
}

abbrev reconciler' : Reconciler
reconciler' = record reconciler {
  registry = record {
    policies = ("p", policy) ∷ [];
    versions = ("p", pos 1) ∷ [];
    signed_manifests = ("p", manifest) ∷ [];
    trust_store = some trusted;
  };
  seen_nonces = ("there", "n") ∷ [];
}

reconciled : reconcile envelope (pos 6) reconciler ≡ (ok result, reconciler')
unfolding reconcile check_envelope adopt reconcile_entries reconcile_entry import_manifest
    remote_digest_of verify_envelope verify_event snapshot_from_registry policy_from_dict
    manifest_from_dict register_signed install_manifest register_policy verify_manifest
    validate_policy as_tuple read_dict read_values strings policy_digest policy_to_dict
    verify_signature resolve sort_by empty_registry lookup insert String-discrete digests dump ◌+ℤ◌
reconciled = refl

reconcile-Accepts_example :
    ((e : Error) × (reconcile envelope (pos 6) reconciler ≡ (err e, reconciler)))
    ⊎ (Accepts envelope (pos 6) reconciler
        × Acts envelope reconciler (reconcile envelope (pos 6) reconciler).1)
reconcile-Accepts_example = reconcile-Accepts envelope (pos 6) reconciler

reconcile_once_example :
    (e : Error) × (reconcile envelope (pos 7) (reconcile_all ((envelope, pos 6) ∷ []) reconciler')
      ≡ (err e, reconcile_all ((envelope, pos 6) ∷ []) reconciler'))
reconcile_once_example =
    reconcile_once envelope envelope (pos 6) (pos 7) reconciler reconciler' result
      ((envelope, pos 6) ∷ []) reconciled refl refl

-- A platform whose texts tell the first key of an object, and whose file holds one signed policy.
abbrev first_key : Value → String
first_key (object (field k v fs)) = k
first_key v = ""

abbrev keyed_platform : Platform
keyed_platform = record toy {
  json_dumps = first_key;
  json_loads =
      λ written. some (dict (("policies", array (items (manifest_to_dict manifest ∷ []))) ∷ []));
}

abbrev snapshot : RegistrySnapshot
snapshot = snapshot_from_registry ⦃p = keyed_platform⦄ (empty_registry none) "here" (pos 1)

snapshot_refused_example :
    (snapshot_from_dict ⦃p = keyed_platform⦄ (snapshot_to_dict snapshot)
      ≡ err (federation_error "registry snapshot digest does not match contents"))
    ⊎ (digest ⦃p = keyed_platform⦄ (dict (snapshot_unsigned (in_order snapshot)))
        ≡ digest ⦃p = keyed_platform⦄ (dict (snapshot_content snapshot)))
snapshot_refused_example =
    snapshot_refused ⦃p = keyed_platform⦄ (empty_registry none) "here" (pos 1)

abbrev loaded : PolicyRegistry
loaded = record {
  policies = ("p", policy) ∷ [];
  versions = ("p", pos 1) ∷ [];
  signed_manifests = ("p", manifest) ∷ [];
  trust_store = some trusted;
}

is_loaded : load_registry ⦃p = keyed_platform⦄ "file" (some trusted) ≡ ok loaded
unfolding load_registry load_entries load_entry load_signed policy_from_dict manifest_from_dict
    verify_manifest validate_policy as_tuple read_dict read_values strings policy_digest
    policy_to_dict verify_signature resolve sort_by empty_registry lookup insert String-discrete
is_loaded = refl

load_registry_sound_example :
    (payload : Value) × (d : Dict Value) × (listed : List Value) × (keyed_platform.json_loads "file"
      ≡ some payload)
    × (as_dict payload ≡ some d)
    × (as_list (get "policies" d) ≡ some listed)
    × All (EntryVerifies ⦃p = keyed_platform⦄ trusted) listed
    × (loaded.trust_store ≡ some trusted)
    × ((i : String) (m : Manifest)
        → lookup i loaded.signed_manifests ≡ some m
        → (verify_manifest ⦃p = keyed_platform⦄ m trusted ≡ true) × (m.policy.policy_id ≡ i))
load_registry_sound_example =
    load_registry_sound ⦃p = keyed_platform⦄ trusted "file" loaded is_loaded
