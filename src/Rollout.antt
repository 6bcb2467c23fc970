-- ===== src/Rollout.antt =====
-- policy_registry.py: signed policy records and the lifecycle of their versions. The registry over its
-- in-memory storage stands in Registry, the records and their verification in Content.
pub mod Content
pub mod Registry
pub mod Effects
pub mod Calls
pub mod Selected
pub mod Permanent
pub mod Revisions
pub mod Revoked
pub mod Versions
use governed_autonomy_substr.Base.{
  Bool, Dict, List, Option, String, eq_text, false, lookup, none, some, ℕ, ◌&&◌,
}
use governed_autonomy_substr.Base.Int.{ℤ}
use governed_autonomy_substr.Platform.{Platform, PublicKey, verify_signature}
use governed_autonomy_substr.Trust.{TrustStore, resolve}
use governed_autonomy_substr.Value.{Value}

-- What policy_registry.py calls and does not implement.
pub record PolicyTools : Type 0 where
  -- `_validator().iter_errors(policy)` of jsonschema: the path (`map(str, e.path)`) and the message of
  -- each error against the schema.
  pub iter_errors : Value → List (List String × String)
  -- `datetime.fromisoformat`: `none` where it raises, and else the offset from UTC in seconds, if any.
  pub utc_offset : String → Option (Option ℤ)
  -- `_SEMVER_RE.match(version).groups()`.
  pub semver_groups : String → Option (String × String × String × Option String)
  -- `int(digits)`, `p.isdigit()` and `pre.split(".")`.
  pub int : String → ℕ
  pub isdigit : String → Bool
  pub split_dots : String → List String

abbrev pub record_schema_version : String
record_schema_version = "1.0"

abbrev pub signature_algorithm : String
signature_algorithm = "ed25519"

abbrev pub max_policy_bytes : ℕ
max_policy_bytes = 1048576

pub data PolicyLifecycle : Type 0 where
  draft_policy published_policy active_policy deprecated_policy revoked_policy : PolicyLifecycle

abbrev pub lifecycle_value : PolicyLifecycle → String
lifecycle_value draft_policy = "DRAFT"
lifecycle_value published_policy = "PUBLISHED"
lifecycle_value active_policy = "ACTIVE"
lifecycle_value deprecated_policy = "DEPRECATED"
lifecycle_value revoked_policy = "REVOKED"

pub record PolicySignature : Type 0 where
  pub signer_id : String
  pub algorithm : String
  pub signature : String
  pub signed_at : String

pub record StoredPolicy : Type 0 where
  pub id : String
  pub version : String
  pub content_hash : String
  pub policy : Value
  pub schema_version : String
  pub signature : Option PolicySignature

pub record ActivationEvent : Type 0 where
  pub policy_id : String
  pub previous_version : Option String
  pub selected_version : String
  pub requested_by : String
  pub reason : String
  pub timestamp : String
  pub revision : ℕ
  pub operation : String

pub record VerificationResult : Type 0 where
  pub policy_id : String
  pub version : String
  pub valid : Bool
  pub digest_valid : Bool
  pub signature_valid : Bool
  pub errors : List String

-- `StaticPolicyVerifier` and `TrustStorePolicyVerifier`.
pub data PolicyVerifier : Type 0 where
  static_verifier : Dict PublicKey → PolicyVerifier
  trust_verifier : TrustStore → PolicyVerifier

abbrev pub verifier_key : PolicyVerifier → String → Option PublicKey
verifier_key (static_verifier ks) signer_id = lookup signer_id ks
verifier_key (trust_verifier store) signer_id = resolve signer_id store

unfoldable pub verify_policy :
    ⦃p : Platform⦄ → PolicyVerifier → String → String → String → String → Bool
verify_policy v signer_id algorithm payload signature = elim (verifier_key v signer_id) [
  | none ↦ false
  | some key ↦ eq_text algorithm signature_algorithm && verify_signature key payload signature
]
