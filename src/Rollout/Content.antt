-- ===== src/Rollout/Content.antt =====
-- The content of a policy record: validation, the signed payload, and verification.
use Prim.Native.String.{len}
use governed_autonomy_substr.Base.{
  Bool, Dict, List, Option, Outcome, String, [], eq_text, false, if◌then◌else◌, is_blank, is_empty,
  is_some, join, key_error, le_text, ltb, map, none, not, ok, or_raise, raise_if, signature_error,
  some, sort_by, true, validation_error, value_error, ◌&&◌, ◌++◌, ◌>>=◌, ◌>>◌, ◌∷◌, ◌⧺◌,
}
use governed_autonomy_substr.Base.Int.{eq_ℤ, pos}
use governed_autonomy_substr.Platform.{Platform, Signer, canonical_json, digest}
use governed_autonomy_substr.Rollout.{
  PolicySignature, PolicyTools, PolicyVerifier, StoredPolicy, VerificationResult, max_policy_bytes,
  record_schema_version, signature_algorithm, verify_policy,
}
use governed_autonomy_substr.Value.{Value, as_dict, as_text, dict, get, text}

-- The paths of schema errors are compared as Python compares lists of texts.
abbrev pub le_texts : List String → List String → Bool
le_texts [] ys = true
le_texts (x ∷ xs) [] = false
le_texts (x ∷ xs) (y ∷ ys) = let rest = le_texts xs ys in if eq_text x y then rest else le_text x y

abbrev pub error_text : List String × String → String
error_text (path, message) = (if is_empty path then "<root>" else join "/" path) ⧺ ": " ⧺ message

module _ ⦃p : Platform⦄ where
  abbrev pub signed_payload : StoredPolicy → PolicySignature → String
  signed_payload stored made = canonical_json (
      dict (
        ("content_digest", text stored.content_hash)
        ∷ ("policy", stored.policy)
        ∷ ("policy_id", text stored.id)
        ∷ ("schema_version", text stored.schema_version)
        ∷ ("signature_algorithm", text made.algorithm)
        ∷ ("signed_at", text made.signed_at)
        ∷ ("signer_id", text made.signer_id)
        ∷ ("version", text stored.version)
        ∷ []))

module _ ⦃p : Platform⦄ ⦃t : PolicyTools⦄ where
  unfoldable pub validate_content : Value → Outcome (Unit {0})
  validate_content policy = do
    raise_if (not (is_some (as_dict policy))) (validation_error "policy must be an object")
    raise_if (ltb max_policy_bytes (len (canonical_json policy)))
        (validation_error "policy exceeds 1048576 byte limit")
    let errors =
        sort_by (λ (a : List String × String) (b : List String × String). le_texts a.0 b.0)
          (t.iter_errors policy)
    raise_if (not (is_empty errors)) (validation_error (join "; " (map error_text errors)))

  -- `json.loads(canonical_json(policy))`, which has to be an object.
  unfoldable pub canonical_policy : Value → Outcome (Dict Value)
  canonical_policy policy = do
    validate_content policy
    content ← or_raise (p.json_loads (canonical_json policy)) (value_error "JSONDecodeError")
    or_raise (as_dict content) (validation_error "policy must be an object")

  -- The record of validated content, without a signature. The schema requires texts for both keys.
  unfoldable pub unsigned_record : Value → Outcome StoredPolicy
  unsigned_record policy = do
    content ← canonical_policy policy
    policy_id ← or_raise (as_text (get "id" content)) (key_error "id")
    version ← or_raise (as_text (get "version" content)) (key_error "version")
    ok (record {
      id = policy_id;
      version = version;
      content_hash = digest (dict content);
      policy = dict content;
      schema_version = record_schema_version;
      signature = none;
    })

  -- `signed_at` is an ISO timestamp with the offset of UTC.
  abbrev pub check_timestamp : String → Outcome (Unit {0})
  check_timestamp timestamp = do
    offset ←
        or_raise (t.utc_offset timestamp)
          (signature_error "signed_at must be an ISO-8601 UTC timestamp")
    raise_if (elim offset [ none ↦ true | some o ↦ not (eq_ℤ o (pos 0)) ])
        (signature_error "signed_at must use the UTC timezone")

  -- A signer of the source has the one algorithm, or no attribute of that name.
  unfoldable pub sign_record : StoredPolicy → Signer → String → Outcome StoredPolicy
  sign_record unsigned signer timestamp = do
    check_timestamp timestamp
    raise_if (is_blank signer.key_id) (signature_error "policy signer identity must not be empty")
    let blank : PolicySignature = record {
      signer_id = signer.key_id;
      algorithm = signature_algorithm;
      signature = "";
      signed_at = timestamp;
    }
    made ← signer.sign (signed_payload unsigned blank)
    ok (record unsigned { signature = some (record blank { signature = made }) })

module _ ⦃p : Platform⦄ where
  -- What is wrong with a record's schema version and digest.
  abbrev pub digest_matches : StoredPolicy → Bool
  digest_matches stored =
      eq_text stored.schema_version record_schema_version
      && eq_text (digest stored.policy) stored.content_hash

  abbrev pub digest_errors : StoredPolicy → List String
  digest_errors stored =
      (if eq_text stored.schema_version record_schema_version
        then []
        else "unsupported_record_schema_version" ∷ [])
      ++ (if digest_matches stored then [] else "content_digest_mismatch" ∷ [])

  -- Whether the signature is valid, and the error if not.
  unfoldable pub signature_check : Option PolicyVerifier → StoredPolicy → Bool × List String
  signature_check verifier stored = elim (stored.signature) [
    | none ↦ (false, "missing_signature" ∷ [])
    | some made ↦ elim verifier [
      | none ↦ (false, "no_signature_verifier_configured" ∷ [])
      | some v ↦
          if not (eq_text made.algorithm signature_algorithm)
          then (false, "unsupported_signature_algorithm" ∷ [])
          else if verify_policy v made.signer_id made.algorithm (signed_payload stored made)
              made.signature
          then (true, [])
          else (false, "signature_invalid" ∷ [])
    ]
  ]

  unfoldable pub verification : Option PolicyVerifier → StoredPolicy → VerificationResult
  verification verifier stored = record {
    policy_id = stored.id;
    version = stored.version;
    valid = digest_matches stored && (signature_check verifier stored).0;
    digest_valid = digest_matches stored;
    signature_valid = (signature_check verifier stored).0;
    errors = digest_errors stored ++ (signature_check verifier stored).1;
  }
