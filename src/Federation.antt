-- ===== src/Federation.antt =====
-- federation.py: signed sync events, registry snapshots and the envelopes that bind them. The reconciler
-- stands in Reconcile. A snapshot's fields have the types that the dataclass declares: a dict with others is
-- refused by the reader. A KeyPair of the source is a signer.
pub mod Reconcile
pub mod Imports
pub mod Snapshot
pub mod Accepted
use governed_autonomy_substr.Base.{
  Bool, Dict, List, Outcome, String, [], all, contains, eq_text, false, federation_error, get_or,
  is_blank, is_in, keys, none, not, ok, or_raise, raise_if, some, sorted_items, type_error,
  value_error, ◌&&◌, ◌++◌, ◌>>=◌, ◌>>◌, ◌||◌, ◌∷◌,
}
use governed_autonomy_substr.Base.Int.{leb_ℤ, ltb_ℤ, pos, ℤ, ◌+ℤ◌}
use governed_autonomy_substr.Platform.{Platform, Signer, canonical_json, digest, verify_signature}
use governed_autonomy_substr.Policy.{PolicyRegistry, sorted_dict}
use governed_autonomy_substr.Policy.Wire.{as_filled, digests, entries_of, read_values}
use governed_autonomy_substr.Trust.{TrustStore, resolve}
use governed_autonomy_substr.Value.{
  Value, as_dict, as_int, as_text, dict, eq_value, get, integer, text,
}

pub record SyncEvent : Type 0 where
  pub event_type : String
  pub source_org : String
  pub target_org : String
  pub snapshot_digest : String
  pub policy_digests : Dict String
  pub issued_at : ℤ
  pub nonce : String
  pub signer_key_id : String
  pub signature : String

pub record RegistrySnapshot : Type 0 where
  pub source_org : String
  pub version : ℤ
  pub policies : Dict Value
  pub policy_digests : Dict String
  pub snapshot_digest : String

pub record SyncEnvelope : Type 0 where
  pub event : SyncEvent
  pub snapshot : RegistrySnapshot
  pub signature : String

-- `dict(sorted(values.items()))` as JSON.
abbrev pub sorted_texts : Dict String → Value
sorted_texts d = sorted_dict text d

unfoldable pub event_unsigned : SyncEvent → Dict Value
event_unsigned e =
    ("event_type", text e.event_type)
    ∷ ("source_org", text e.source_org)
    ∷ ("target_org", text e.target_org)
    ∷ ("snapshot_digest", text e.snapshot_digest)
    ∷ ("policy_digests", sorted_texts e.policy_digests)
    ∷ ("issued_at", integer e.issued_at)
    ∷ ("nonce", text e.nonce)
    ∷ ("signer_key_id", text e.signer_key_id)
    ∷ []

unfoldable pub event_to_dict : SyncEvent → Value
unfolding event_unsigned
event_to_dict e = dict (event_unsigned e ++ ("signature", text e.signature) ∷ [])

-- What `from_registry` hashes.
abbrev pub snapshot_content : RegistrySnapshot → Dict Value
snapshot_content s =
    ("version", integer s.version)
    ∷ ("policies", dict (sorted_items s.policies))
    ∷ ("policy_digests", sorted_texts s.policy_digests)
    ∷ []

-- `RegistrySnapshot.unsigned_dict`.
abbrev pub snapshot_unsigned : RegistrySnapshot → Dict Value
snapshot_unsigned s = ("source_org", text s.source_org) ∷ snapshot_content s

unfoldable pub snapshot_to_dict : RegistrySnapshot → Value
snapshot_to_dict s = dict (snapshot_unsigned s ++ ("snapshot_digest", text s.snapshot_digest) ∷ [])

abbrev pub event_text_keys : List String
event_text_keys =
    "event_type" ∷ "source_org" ∷ "target_org" ∷ "snapshot_digest" ∷ "nonce" ∷ "signer_key_id"
    ∷ "signature" ∷ []

abbrev pub snapshot_keys : List String
snapshot_keys = "source_org" ∷ "version" ∷ "policies" ∷ "policy_digests" ∷ "snapshot_digest" ∷ []

-- `set(value) == required`.
abbrev pub keys_are : List String → Dict Value → Bool
keys_are required d =
    all (λ (k : String). is_in k required) (keys d) && all (λ (k : String). contains k d) required

abbrev pub read_text : String → Value → Outcome String
read_text message v = or_raise (as_text v) (federation_error message)

abbrev pub read_filled : String → Dict Value → Outcome String
read_filled key d =
    or_raise (as_filled (get key d)) (federation_error "sync event contains invalid string fields")

unfoldable pub event_from_dict : Value → Outcome SyncEvent
event_from_dict value = do
  d ← or_raise (as_dict value) (federation_error "sync event has an invalid schema")
  raise_if (not (keys_are (event_text_keys ++ "policy_digests" ∷ "issued_at" ∷ []) d))
      (federation_error "sync event has an invalid schema")
  event_type ← read_filled "event_type" d
  source_org ← read_filled "source_org" d
  target_org ← read_filled "target_org" d
  snapshot_digest ← read_filled "snapshot_digest" d
  nonce ← read_filled "nonce" d
  signer_key_id ← read_filled "signer_key_id" d
  signature ← read_filled "signature" d
  issued_at ←
      or_raise (as_int (get "issued_at" d))
        (federation_error "sync event issued_at must be an integer")
  written ←
      or_raise (as_dict (get "policy_digests" d))
        (federation_error "sync event policy digests are invalid")
  policy_digests ← read_values (read_text "sync event policy digests are invalid") written
  ok (record {
    event_type = event_type;
    source_org = source_org;
    target_org = target_org;
    snapshot_digest = snapshot_digest;
    policy_digests = sorted_items policy_digests;
    issued_at = issued_at;
    nonce = nonce;
    signer_key_id = signer_key_id;
    signature = signature;
  })

-- `entry.get("policy", {}).get("policy_id") == policy_id`, of an entry that is a dict.
abbrev pub has_stable_id : String × Value → Outcome (Unit {0})
has_stable_id (policy_id, entry) = do
  let unstable = federation_error "registry snapshot contains an unstable policy ID"
  d ← or_raise (as_dict entry) unstable
  policy ←
      or_raise (as_dict (get_or "policy" (dict []) d)) (type_error "object has no attribute 'get'")
  raise_if (not (eq_value (get "policy_id" policy) (text policy_id))) unstable

unfoldable pub check_ids : Dict Value → Outcome (Unit {0})
check_ids [] = ok tt
check_ids (e ∷ d) = has_stable_id e >> check_ids d

module _ ⦃p : Platform⦄ where
  unfoldable pub issue_event : SyncEvent → Signer → Outcome SyncEvent
  unfolding event_unsigned
  issue_event e signer = do
    raise_if
        (is_blank e.event_type
          || is_blank e.source_org
          || is_blank e.target_org
          || is_blank e.snapshot_digest
          || is_blank e.nonce)
        (value_error "event type, organizations, snapshot digest, and nonce are required")
    let unsigned : SyncEvent = record e {
      policy_digests = sorted_items e.policy_digests;
      signer_key_id = signer.key_id;
      signature = "";
    }
    signature ← signer.sign (canonical_json (dict (event_unsigned unsigned)))
    ok (record unsigned { signature = signature })

  abbrev pub is_known_type : String → Bool
  is_known_type event_type = is_in event_type ("policy_update" ∷ "registry_update" ∷ [])

  -- A key verifies what the signer has signed.
  abbrev pub key_verifies : String → String → String → TrustStore → Bool
  key_verifies key_id payload signature store = elim (resolve key_id store) [
    | none ↦ false
    | some key ↦ verify_signature key payload signature
  ]

  -- The call of the source with a time; without one it leaves two tests out.
  unfoldable pub verify_event : SyncEvent → TrustStore → ℤ → ℤ → Outcome (Unit {0})
  unfolding event_unsigned
  verify_event e store now max_age_seconds = do
    raise_if (not (is_known_type e.event_type)) (federation_error "unsupported sync event type")
    raise_if (leb_ℤ e.issued_at (pos 0) || ltb_ℤ (now +ℤ pos 30) e.issued_at)
        (federation_error "sync event timestamp is invalid")
    raise_if (ltb_ℤ (e.issued_at +ℤ max_age_seconds) now) (federation_error "sync event is stale")
    raise_if
        (not (
          key_verifies e.signer_key_id (canonical_json (dict (event_unsigned e))) e.signature
            store))
        (federation_error "sync event signature is invalid or untrusted")

  -- An entry is kept under the id of its policy, which is the id that the registry has it under.
  unfoldable pub snapshot_from_registry : PolicyRegistry → String → ℤ → RegistrySnapshot
  unfolding digests
  snapshot_from_registry r source_org version =
      let unsealed : RegistrySnapshot = record {
        source_org = source_org;
        version = version;
        policies = entries_of r (sorted_items r.policies);
        policy_digests = digests r;
        snapshot_digest = "";
      } in
      record unsealed { snapshot_digest = digest (dict (snapshot_content unsealed)) }

  unfoldable pub snapshot_from_dict : Value → Outcome RegistrySnapshot
  unfolding check_ids
  snapshot_from_dict value = do
    let invalid = federation_error "registry snapshot has an invalid schema"
    d ← or_raise (as_dict value) invalid
    raise_if (not (keys_are snapshot_keys d)) invalid
    policies ← or_raise (as_dict (get "policies" d)) invalid
    written ← or_raise (as_dict (get "policy_digests" d)) invalid
    policy_digests ← read_values (read_text "registry snapshot has an invalid schema") written
    source_org ← or_raise (as_text (get "source_org" d)) invalid
    version ← or_raise (as_int (get "version" d)) invalid
    snapshot_digest ← or_raise (as_text (get "snapshot_digest" d)) invalid
    let candidate : RegistrySnapshot = record {
      source_org = source_org;
      version = version;
      policies = policies;
      policy_digests = policy_digests;
      snapshot_digest = snapshot_digest;
    }
    raise_if (not (eq_text (digest (dict (snapshot_unsigned candidate))) snapshot_digest))
        (federation_error "registry snapshot digest does not match contents")
    raise_if
        (not (
          all (λ (k : String). contains k policy_digests) (keys policies)
          && all (λ (k : String). contains k policies) (keys policy_digests)))
        (federation_error "registry snapshot policy IDs and digests differ")
    check_ids policies
    ok candidate

  abbrev pub envelope_payload : SyncEvent → RegistrySnapshot → String
  envelope_payload event snapshot =
      canonical_json
        (dict (("event", event_to_dict event) ∷ ("snapshot", snapshot_to_dict snapshot) ∷ []))

  unfoldable pub issue_envelope : SyncEvent → RegistrySnapshot → Signer → Outcome SyncEnvelope
  issue_envelope event snapshot signer = do
    signature ← signer.sign (envelope_payload event snapshot)
    ok (record { event = event; snapshot = snapshot; signature = signature })

  unfoldable pub envelope_from_dict : Value → Outcome SyncEnvelope
  unfolding snapshot_from_dict event_from_dict
  envelope_from_dict value = do
    d ← or_raise (as_dict value) (federation_error "sync envelope has an invalid schema")
    raise_if (not (keys_are ("event" ∷ "snapshot" ∷ "signature" ∷ []) d))
        (federation_error "sync envelope has an invalid schema")
    signature ←
        or_raise (as_filled (get "signature" d))
          (federation_error "sync envelope signature is required")
    event ← event_from_dict (get "event" d)
    snapshot ← snapshot_from_dict (get "snapshot" d)
    ok (record { event = event; snapshot = snapshot; signature = signature })

  unfoldable pub verify_envelope : SyncEnvelope → TrustStore → ℤ → ℤ → Outcome (Unit {0})
  unfolding verify_event
  verify_envelope envelope store now max_age_seconds = do
    let event = envelope.event
    verify_event event store now max_age_seconds
    raise_if
        (not (
          eq_text event.source_org envelope.snapshot.source_org
          && eq_text event.snapshot_digest envelope.snapshot.snapshot_digest))
        (federation_error "sync event does not bind the supplied snapshot")
    raise_if
        (not (
          key_verifies event.signer_key_id (envelope_payload event envelope.snapshot)
            envelope.signature store))
        (federation_error "sync envelope signature is invalid or untrusted")
