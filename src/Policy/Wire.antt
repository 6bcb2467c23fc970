-- ===== src/Policy/Wire.antt =====
-- Reading policies, signed manifests and whole registries back from their dicts. The fields of the model's
-- `Policy` have types: where the source constructs a policy over a value of another type, and raises at
-- once or when that value is used, the reader here raises.
use governed_autonomy_substr.Base.{
  Dict, List, Option, Outcome, String, [], all, contains, err, false, get_or, if◌then◌else◌, insert,
  is_blank, is_in, keys, lookup, none, not, ok, or_raise, raise_if, some, sorted_items, type_error,
  value_error, values, ◌&&◌, ◌++◌, ◌>>=◌, ◌>>◌, ◌∷◌,
}
use governed_autonomy_substr.Base.Int.{leb_ℤ, pos, ℤ}
use governed_autonomy_substr.Platform.{Platform}
use governed_autonomy_substr.Policy.Registry.{
  Manifest, PolicyRegistry, empty_registry, verify_manifest,
}
use governed_autonomy_substr.Policy.Rules.{
  NumericLimit, Policy, float_limit, int_limit, map_values, policy_digest, policy_to_dict,
}
use governed_autonomy_substr.Policy.Validate.{validate_policy}
use governed_autonomy_substr.Trust.{TrustStore, strings}
use governed_autonomy_substr.Value.{
  Value, array, as_dict, as_int, as_list, as_text, dict, elements, entries, float, get, integer,
  items, null, object, text, texts,
}

unfoldable pub characters_of : String → List String
characters_of String.[] = []
characters_of (String.◌∷◌ c s) = String.◌∷◌ c "" ∷ characters_of s

-- `tuple(value)` of texts.
unfoldable pub as_tuple : String → Value → Outcome (List String)
as_tuple message (array vs) = or_raise (strings (elements vs)) (value_error message)
as_tuple message (text s) = ok (characters_of s)
as_tuple message (object fs) = ok (keys (entries fs))
as_tuple message _ = err (type_error "object is not iterable")

-- A dict whose values are read one by one.
unfoldable pub read_values {ℓ} : {A : Type ℓ} → (Value → Outcome A) → Dict Value → Outcome (Dict A)
read_values f [] = ok []
read_values f ((k, v) ∷ d) = do a ← f v; rest ← read_values f d; ok ((k, a) ∷ rest)

unfoldable pub read_dict {ℓ} : {A : Type ℓ} → (Value → Outcome A) → Value → Outcome (Dict A)
unfolding read_values
read_dict f value = do
  d ← or_raise (as_dict value) (type_error "object has no attribute 'items'")
  read_values f d

abbrev pub read_count : String → Value → Outcome ℤ
read_count message value = or_raise (as_int value) (value_error message)

abbrev pub as_limit : Value → Option NumericLimit
as_limit (integer n) = some (int_limit n)
as_limit (float x) = some (float_limit x)
as_limit _ = none

abbrev pub read_limit : Value → Outcome NumericLimit
read_limit value =
    or_raise (as_limit value) (value_error "numeric field limits must use finite numbers")

abbrev pub read_object : String → Value → Outcome (Dict Value)
read_object message value = or_raise (as_dict value) (value_error message)

abbrev pub policy_keys : List String
policy_keys =
    "policy_id" ∷ "allowed_actions" ∷ "required_fields" ∷ "exact_fields" ∷ "required_context"
    ∷ "exact_context" ∷ "max_request_bytes" ∷ "max_ttl_seconds" ∷ []

abbrev pub optional_policy_keys : List String
optional_policy_keys =
    "required_approvals" ∷ "max_numeric_fields" ∷ "required_mesh_inputs" ∷ "required_mesh_sources"
    ∷ "mesh_required_actions" ∷ "mesh_required_environments" ∷ []

unfoldable pub policy_from_dict : Value → Outcome Policy
unfolding validate_policy as_tuple read_dict
policy_from_dict value = do
  d ← or_raise (as_dict value) (value_error "policy must be an object")
  raise_if
      (not (
        all (λ (k : String). is_in k (policy_keys ++ optional_policy_keys)) (keys d)
        && all (λ (k : String). contains k d) policy_keys))
      (value_error "policy manifest has an invalid schema")
  policy_id ← or_raise (as_text (get "policy_id" d)) (type_error "policy_id is no text")
  allowed_actions ←
      as_tuple "allowed_actions must contain non-empty strings" (get "allowed_actions" d)
  required_fields ←
      read_dict (as_tuple "required_fields must contain non-empty strings")
        (get "required_fields" d)
  exact_fields ←
      read_dict (read_object "exact_fields constraints must be objects") (get "exact_fields" d)
  required_context ←
      as_tuple "required_context must contain non-empty strings" (get "required_context" d)
  exact_context ← elim (get "exact_context" d) [
    | null ↦ ok []
    | v ↦ read_object "exact_context must be an object" v
  ]
  max_request_bytes ←
      or_raise (as_int (get "max_request_bytes" d)) (type_error "max_request_bytes is no integer")
  max_ttl_seconds ←
      or_raise (as_int (get "max_ttl_seconds" d)) (type_error "max_ttl_seconds is no integer")
  required_approvals ←
      read_dict (read_count "required_approvals must use non-negative integers")
        (get_or "required_approvals" (dict []) d)
  max_numeric_fields ← read_dict (read_dict read_limit) (get_or "max_numeric_fields" (dict []) d)
  required_mesh_inputs ←
      read_dict (read_count "required_mesh_inputs must use non-negative integers")
        (get_or "required_mesh_inputs" (dict []) d)
  required_mesh_sources ←
      read_dict (as_tuple "required_mesh_sources must contain only non-empty source IDs")
        (get_or "required_mesh_sources" (dict []) d)
  mesh_required_actions ←
      as_tuple "mesh_required_actions must contain non-empty strings"
        (get_or "mesh_required_actions" (texts []) d)
  mesh_required_environments ←
      as_tuple "mesh_required_environments must contain non-empty strings"
        (get_or "mesh_required_environments" (texts []) d)
  validate_policy (record {
    policy_id = policy_id;
    allowed_actions = allowed_actions;
    required_fields = required_fields;
    exact_fields = exact_fields;
    required_context = required_context;
    exact_context = exact_context;
    max_request_bytes = max_request_bytes;
    max_ttl_seconds = max_ttl_seconds;
    required_approvals = required_approvals;
    max_numeric_fields = max_numeric_fields;
    required_mesh_inputs = required_mesh_inputs;
    required_mesh_sources = required_mesh_sources;
    mesh_required_actions = mesh_required_actions;
    mesh_required_environments = mesh_required_environments;
  })

abbrev pub manifest_keys : List String
manifest_keys = "policy" ∷ "version" ∷ "issuer_key_id" ∷ "signature" ∷ []

-- `isinstance(value, str) and value`.
abbrev pub as_filled : Value → Option String
as_filled (text s) = if is_blank s then none else some s
as_filled _ = none

unfoldable pub manifest_from_dict : Value → Outcome Manifest
unfolding policy_from_dict
manifest_from_dict value = do
  d ← or_raise (as_dict value) (value_error "policy manifest has an invalid schema")
  raise_if
      (not (
        all (λ (k : String). is_in k manifest_keys) (keys d)
        && all (λ (k : String). contains k d) manifest_keys))
      (value_error "policy manifest has an invalid schema")
  version ← or_raise (as_int (get "version" d)) (value_error "manifest version must be an integer")
  issuer_key_id ←
      or_raise (as_filled (get "issuer_key_id" d))
        (value_error "manifest issuer_key_id must be a non-empty string")
  signature ←
      or_raise (as_filled (get "signature" d))
        (value_error "manifest signature must be a non-empty string")
  policy ← policy_from_dict (get "policy" d)
  ok (record {
    policy = policy;
    version = version;
    issuer_key_id = issuer_key_id;
    signature = signature;
  })

abbrev pub manifest_to_dict : Manifest → Value
manifest_to_dict m = dict (
    ("policy", dict (policy_to_dict m.policy))
    ∷ ("version", integer m.version)
    ∷ ("issuer_key_id", text m.issuer_key_id)
    ∷ ("signature", text m.signature)
    ∷ [])

-- The entry of one policy.
abbrev pub registry_entry : PolicyRegistry → String → Policy → Value
registry_entry r policy_id policy = elim (lookup policy_id r.signed_manifests) [
  | some m ↦ manifest_to_dict m
  | none ↦ dict (
      ("policy", dict (policy_to_dict policy))
      ∷ ("version", integer (get_or policy_id (pos 1) r.versions))
      ∷ [])
]

abbrev pub entries_of : PolicyRegistry → Dict Policy → Dict Value
entries_of r [] = []
entries_of r ((policy_id, policy) ∷ d) =
    (policy_id, registry_entry r policy_id policy) ∷ entries_of r d

unfoldable pub registry_to_dict : PolicyRegistry → Value
registry_to_dict r =
    dict (("policies", array (items (values (entries_of r (sorted_items r.policies))))) ∷ [])

module _ ⦃p : Platform⦄ where
  unfoldable pub digests : PolicyRegistry → Dict String
  digests r = map_values policy_digest (sorted_items r.policies)

  -- A signed entry of a stored registry is installed as it is, once it verifies.
  unfoldable pub load_signed : Value → PolicyRegistry → Outcome PolicyRegistry
  unfolding manifest_from_dict
  load_signed entry r = do
    m ← manifest_from_dict entry
    raise_if (elim (r.trust_store) [ none ↦ false | some store ↦ not (verify_manifest m store) ])
        (value_error "persisted policy manifest signature is invalid or untrusted")
    ok (record r {
      signed_manifests = insert m.policy.policy_id m r.signed_manifests;
      policies = insert m.policy.policy_id m.policy r.policies;
      versions = insert m.policy.policy_id m.version r.versions;
    })

  unfoldable pub load_plain : Dict Value → PolicyRegistry → Outcome PolicyRegistry
  unfolding policy_from_dict
  load_plain d r = do
    raise_if
        (not (
          all (λ (k : String). is_in k ("policy" ∷ "version" ∷ [])) (keys d)
          && all (λ (k : String). contains k d) ("policy" ∷ "version" ∷ [])))
        (value_error "policy registry has an invalid entry schema")
    policy ← policy_from_dict (get "policy" d)
    let invalid = value_error "policy registry version must be a positive integer"
    version ← or_raise (as_int (get "version" d)) invalid
    raise_if (leb_ℤ version (pos 0)) invalid
    ok (record r {
      policies = insert policy.policy_id policy r.policies;
      versions = insert policy.policy_id version r.versions;
    })

  unfoldable pub load_entry : Value → PolicyRegistry → Outcome PolicyRegistry
  unfolding load_signed load_plain
  load_entry entry r = do
    d ← or_raise (as_dict entry) (value_error "policy registry has an invalid entry schema")
    if contains "signature" d then load_signed entry r else load_plain d r

  unfoldable pub load_entries : List Value → PolicyRegistry → Outcome PolicyRegistry
  load_entries [] r = ok r
  load_entries (entry ∷ rest) r = do r' ← load_entry entry r; load_entries rest r'

  -- `_load` on what the file holds; a text that is no JSON is refused.
  unfoldable pub load_registry : String → Option TrustStore → Outcome PolicyRegistry
  unfolding load_entries empty_registry
  load_registry written trust_store = do
    payload ←
        or_raise (p.json_loads written) (value_error "policy registry could not be loaded safely")
    d ← or_raise (as_dict payload) (value_error "policy registry has an invalid schema")
    raise_if
        (not (all (λ (k : String). is_in k ("policies" ∷ [])) (keys d) && contains "policies" d))
        (value_error "policy registry has an invalid schema")
    listed ←
        or_raise (as_list (get "policies" d)) (value_error "policy registry entries must be a list")
    load_entries listed (empty_registry trust_store)
