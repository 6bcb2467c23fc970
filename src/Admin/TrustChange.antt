-- ===== src/Admin/TrustChange.antt =====
-- `TrustChangeManager` of platform_admin.py: keys that are added and revoked by requests that a trusted key
-- has signed. The audit hooks get what is listed under `audited`, oldest first.
use governed_autonomy_substr.Admin.{signed_by}
use governed_autonomy_substr.Base.{
  Bool, Dict, List, Outcome, String, [], is_in, not, ok, or_raise, raise_if, value_error, ◌++◌,
  ◌>>=◌, ◌>>◌, ◌∷◌,
}
use governed_autonomy_substr.Platform.{Platform, canonical_json}
use governed_autonomy_substr.Trust.{TrustStore, add, revoke, to_dict}
use governed_autonomy_substr.Value.{Value, dict, text}

pub record TrustChangeRequest : Type 0 where
  pub action : String
  pub key_id : String
  pub public_key_b64 : String
  pub requested_by_key_id : String
  pub signature : String

pub record TrustChangeManager : Type 0 where
  pub trust_store : TrustStore
  pub audited : List (String × String × String)

unfoldable pub trust_change_request :
    String → String → String → String → String → Outcome TrustChangeRequest
trust_change_request action key_id public_key_b64 requested_by_key_id signature = do
  raise_if (not (is_in action ("add" ∷ "revoke" ∷ [])))
      (value_error "action must be 'add' or 'revoke'")
  ok (record {
    action = action;
    key_id = key_id;
    public_key_b64 = public_key_b64;
    requested_by_key_id = requested_by_key_id;
    signature = signature;
  })

abbrev pub trust_change_unsigned : TrustChangeRequest → Value
trust_change_unsigned r = dict (
    ("action", text r.action)
    ∷ ("key_id", text r.key_id)
    ∷ ("public_key_b64", text r.public_key_b64)
    ∷ ("requested_by_key_id", text r.requested_by_key_id)
    ∷ [])

abbrev pub audit_trust :
    String → String → String → TrustStore → TrustChangeManager → TrustChangeManager
audit_trust event subject_id actor_id store m = record {
  trust_store = store;
  audited = m.audited ++ (event, subject_id, actor_id) ∷ [];
}

module _ ⦃p : Platform⦄ where
  unfoldable pub verify_trust_change : TrustChangeRequest → TrustStore → Bool
  verify_trust_change r store =
      signed_by r.requested_by_key_id (trust_change_unsigned r) r.signature store

  abbrev pub unsigned_text : TrustChangeRequest → Dict Value
  unsigned_text r = ("unsigned_payload", text (canonical_json (trust_change_unsigned r))) ∷ []

  unfoldable pub prepare_add : String → String → String → Outcome (Dict Value)
  prepare_add key_id public_key_b64 requested_by_key_id = do
    draft ← trust_change_request "add" key_id public_key_b64 requested_by_key_id ""
    ok (unsigned_text draft)

  unfoldable pub submit_add :
      String
      → String
      → String
      → String
      → String
      → TrustChangeManager
      → Outcome (Value × TrustChangeManager)
  submit_add key_id public_key_b64 requested_by_key_id signature actor_id m = do
    change ← trust_change_request "add" key_id public_key_b64 requested_by_key_id signature
    raise_if (not (verify_trust_change change m.trust_store))
        (value_error "trust change signature is invalid")
    public_key ←
        or_raise (p.load_public_key public_key_b64)
          (value_error "public_key_b64 is not a valid Ed25519 public key")
    store ← add key_id public_key m.trust_store
    ok (to_dict store, audit_trust "trust.key_added" key_id actor_id store m)

  unfoldable pub prepare_revoke : String → String → Outcome (Dict Value)
  prepare_revoke key_id requested_by_key_id = do
    draft ← trust_change_request "revoke" key_id "" requested_by_key_id ""
    ok (unsigned_text draft)

  unfoldable pub submit_revoke :
      String → String → String → String → TrustChangeManager → Outcome (Value × TrustChangeManager)
  submit_revoke key_id requested_by_key_id signature actor_id m = do
    change ← trust_change_request "revoke" key_id "" requested_by_key_id signature
    raise_if (not (verify_trust_change change m.trust_store))
        (value_error "trust change signature is invalid")
    store ← revoke key_id m.trust_store
    ok (to_dict store, audit_trust "trust.key_revoked" key_id actor_id store m)
