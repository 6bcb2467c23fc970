-- ===== src/Mesh/Input.antt =====
-- `GovernanceInput` of mesh.py. Absent metadata and empty metadata are never told apart there.
use governed_autonomy_substr.Base.{
  Bool, Dict, List, Option, Outcome, String, [], all, contains, err, false, is_blank, is_empty,
  is_in, keys, mesh_error, none, not, ok, or_raise, raise_if, some, true, ◌&&◌, ◌++◌, ◌>>=◌, ◌>>◌,
  ◌∷◌,
}
use governed_autonomy_substr.Base.Int.{leb_ℤ, ltb_ℤ, pos, ℤ}
use governed_autonomy_substr.Models.{optional_entry}
use governed_autonomy_substr.Platform.{Platform, Signer, canonical_json, digest}
use governed_autonomy_substr.Value.{
  Value, as_dict, as_int, as_text, boolean, dict, eq_value, get, integer, null, text,
}

pub record GovernanceInput : Type 0 where
  pub source_id : String
  pub decision : Dict Value
  pub weight : ℤ
  pub priority : ℤ
  pub metadata : Dict Value
  pub source_signature : Option String

abbrev pub is_boolean : Value → Bool
is_boolean (boolean b) = true
is_boolean _ = false

-- `__post_init__`, less the tests of the types.
unfoldable pub validate_input : GovernanceInput → Outcome GovernanceInput
validate_input i = do
  raise_if (is_blank i.source_id) (mesh_error "source_id must be a non-empty string")
  raise_if (is_empty i.decision) (mesh_error "decision must be a non-empty mapping")
  raise_if (leb_ℤ i.weight (pos 0)) (mesh_error "weight must be a positive integer")
  raise_if (ltb_ℤ i.priority (pos 0)) (mesh_error "priority must be a non-negative integer")
  raise_if (not (is_boolean (get "allow" i.decision)))
      (mesh_error "decision.allow must be a boolean")
  raise_if (elim i.source_signature [ none ↦ false | some s ↦ is_blank s ])
      (mesh_error "source_signature must be a non-empty string when present")
  ok i

-- `isinstance(metadata, Mapping)` or `None`.
abbrev pub as_metadata : Value → Option (Dict Value)
as_metadata null = some []
as_metadata v = as_dict v

abbrev pub as_signature : Value → Outcome (Option String)
as_signature null = ok none
as_signature (text s) = ok (some s)
as_signature _ = err (mesh_error "source_signature must be a non-empty string when present")

abbrev pub input_keys : List String
input_keys = "source_id" ∷ "decision" ∷ "weight" ∷ "priority" ∷ "metadata" ∷ "decision_digest" ∷ []

module _ ⦃p : Platform⦄ where
  abbrev pub input_digest : GovernanceInput → String
  input_digest i = digest (dict i.decision)

  abbrev pub attestation_payload : GovernanceInput → String
  attestation_payload i = canonical_json (
      dict (
        ("source_id", text i.source_id)
        ∷ ("decision", dict i.decision)
        ∷ ("weight", integer i.weight)
        ∷ ("priority", integer i.priority)
        ∷ ("metadata", dict i.metadata)
        ∷ []))

  unfoldable pub attest : Signer → GovernanceInput → Outcome GovernanceInput
  attest signer i = do
    signature ← signer.sign (attestation_payload i)
    ok (record i { source_signature = some signature })

  unfoldable pub input_to_dict : GovernanceInput → Value
  input_to_dict i = dict (
      ("source_id", text i.source_id)
      ∷ ("decision", dict i.decision)
      ∷ ("weight", integer i.weight)
      ∷ ("priority", integer i.priority)
      ∷ ("metadata", dict i.metadata)
      ∷ ("decision_digest", text (input_digest i))
      ∷ optional_entry "source_signature" i.source_signature)

  unfoldable pub input_from_dict : Value → Outcome GovernanceInput
  unfolding validate_input
  input_from_dict value = do
    d ← or_raise (as_dict value) (mesh_error "governance input must be an object")
    raise_if
        (not (
          all (λ (k : String). is_in k (input_keys ++ "source_signature" ∷ [])) (keys d)
          && all (λ (k : String). contains k d) input_keys))
        (mesh_error "governance input has an invalid schema")
    source_id ←
        or_raise (as_text (get "source_id" d)) (mesh_error "source_id must be a non-empty string")
    decision ←
        or_raise (as_dict (get "decision" d)) (mesh_error "decision must be a non-empty mapping")
    weight ← or_raise (as_int (get "weight" d)) (mesh_error "weight must be a positive integer")
    priority ←
        or_raise (as_int (get "priority" d)) (mesh_error "priority must be a non-negative integer")
    metadata ←
        or_raise (as_metadata (get "metadata" d))
          (mesh_error "metadata must be a mapping when present")
    source_signature ← as_signature (get "source_signature" d)
    i ← validate_input (record {
      source_id = source_id;
      decision = decision;
      weight = weight;
      priority = priority;
      metadata = metadata;
      source_signature = source_signature;
    })
    raise_if (not (eq_value (get "decision_digest" d) (text (input_digest i))))
        (mesh_error "governance input digest does not match evidence")
    ok i
