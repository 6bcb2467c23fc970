-- ===== src/Policy/Registry.antt =====
-- `SignedPolicyManifest` and the in-process `PolicyRegistry` of policy.py. Its file is left out.
use governed_autonomy_substr.Base.{
  Bool, Dict, Option, Outcome, String, [], eq_text, err, false, get_or, if◌then◌else◌, insert,
  lookup, none, not, ok, or_raise, raise_if, set_default, some, value_error, ◌&&◌, ◌>>=◌, ◌>>◌, ◌∷◌,
  ◌⧺◌,
}
use governed_autonomy_substr.Base.Int.{eq_ℤ, leb_ℤ, pos, ℤ}
use governed_autonomy_substr.Platform.{Platform, Signer, canonical_json, verify_signature}
use governed_autonomy_substr.Policy.Rules.{Policy, policy_digest, policy_to_dict}
use governed_autonomy_substr.Trust.{TrustStore, resolve}
use governed_autonomy_substr.Value.{Value, dict, integer, text}

pub record Manifest : Type 0 where
  pub policy : Policy
  pub version : ℤ
  pub issuer_key_id : String
  pub signature : String

abbrev pub manifest_unsigned : Manifest → Value
manifest_unsigned m = dict (
    ("policy", dict (policy_to_dict m.policy))
    ∷ ("version", integer m.version)
    ∷ ("issuer_key_id", text m.issuer_key_id)
    ∷ [])

pub record PolicyRegistry : Type 0 where
  pub policies : Dict Policy
  pub versions : Dict ℤ
  pub signed_manifests : Dict Manifest
  pub trust_store : Option TrustStore

unfoldable pub empty_registry : Option TrustStore → PolicyRegistry
empty_registry store = record {
  policies = [];
  versions = [];
  signed_manifests = [];
  trust_store = store;
}

unfoldable pub get_policy : String → PolicyRegistry → Option Policy
get_policy policy_id r = lookup policy_id r.policies

module _ ⦃p : Platform⦄ where
  unfoldable pub issue_manifest : Policy → ℤ → Signer → Outcome Manifest
  issue_manifest policy version issuer = do
    raise_if (leb_ℤ version (pos 0)) (value_error "manifest version must be positive")
    let unsigned : Manifest = record {
      policy = policy;
      version = version;
      issuer_key_id = issuer.key_id;
      signature = "";
    }
    signature ← issuer.sign (canonical_json (manifest_unsigned unsigned))
    ok (record unsigned { signature = signature })

  unfoldable pub verify_manifest : Manifest → TrustStore → Bool
  verify_manifest m store = not (leb_ℤ m.version (pos 0)) && elim (resolve m.issuer_key_id store) [
    | none ↦ false
    | some key ↦ verify_signature key (canonical_json (manifest_unsigned m)) m.signature
  ]

  unfoldable pub register_policy : Policy → PolicyRegistry → Outcome PolicyRegistry
  register_policy policy r = do
    raise_if
        (elim (lookup policy.policy_id r.policies) [
          | none ↦ false
          | some existing ↦ not (eq_text (policy_digest existing) (policy_digest policy))
        ])
        (value_error ("policy ID is already registered: " ⧺ policy.policy_id))
    ok (record r {
      policies = insert policy.policy_id policy r.policies;
      versions = set_default policy.policy_id (pos 1) r.versions;
    })

  -- What `register_signed` does with a manifest that it does not take for a repeat.
  unfoldable pub install_manifest : Manifest → PolicyRegistry → Outcome PolicyRegistry
  unfolding register_policy
  install_manifest m r = do
    r' ← register_policy m.policy r
    ok (record r' {
      signed_manifests = insert m.policy.policy_id m r'.signed_manifests;
      versions = insert m.policy.policy_id m.version r'.versions;
    })

  -- `trust_store or self.trust_store`.
  abbrev pub chosen_store : Option TrustStore → PolicyRegistry → Option TrustStore
  chosen_store (some store) r = some store
  chosen_store none r = r.trust_store

  unfoldable pub register_signed :
      Manifest → Option TrustStore → PolicyRegistry → Outcome PolicyRegistry
  unfolding install_manifest
  register_signed m trust_store r = do
    store ←
        or_raise (chosen_store trust_store r)
          (value_error "a trust store is required to validate a signed policy manifest")
    raise_if (not (verify_manifest m store))
        (value_error "policy manifest signature is invalid or untrusted")
    let current_version = get_or m.policy.policy_id (pos 0) r.versions
    elim (lookup m.policy.policy_id r.policies) [
      | none ↦ install_manifest m r
      | some current ↦
          if leb_ℤ m.version current_version
          then (if eq_ℤ m.version current_version
                && eq_text (policy_digest current) (policy_digest m.policy)
              then ok r
              else err (value_error "policy manifest version is stale or conflicting"))
          else install_manifest m r
    ]
