-- ===== src/Models/Approval.antt =====
-- `SignedApproval` of models.py.
use governed_autonomy_substr.Base.{
  Bool, Dict, List, Option, Outcome, String, [], all, contains, eq_text, erase, err, get_or,
  if◌then◌else◌, is_blank, is_empty, is_in, keys, none, not, ok, or_raise, raise_if, some, true,
  value_error, ◌&&◌, ◌++◌, ◌>>=◌, ◌>>◌, ◌∷◌,
}
use governed_autonomy_substr.Platform.{
  Platform, PublicKey, Signer, canonical_json, digest, str, verify_signature,
}
use governed_autonomy_substr.Value.{Value, as_dict, as_text, dict, get, null, text}

pub record SignedApproval : Type 0 where
  pub action : String
  pub request_digest : String
  pub decision_digest : String
  pub issuer_key_id : String
  pub signature : String
  pub actor_id : Option String
  pub context : Dict Value

abbrev pub optional_text : Option String → Value
optional_text none = null
optional_text (some s) = text s

abbrev pub approval_unsigned : SignedApproval → Value
approval_unsigned a = dict (
    ("action", text a.action)
    ∷ ("request_digest", text a.request_digest)
    ∷ ("decision_digest", text a.decision_digest)
    ∷ ("issuer_key_id", text a.issuer_key_id)
    ∷ ("actor_id", optional_text a.actor_id)
    ∷ ("context", dict a.context)
    ∷ [])

abbrev pub optional_entry : String → Option String → Dict Value
optional_entry key none = []
optional_entry key (some s) = (key, text s) ∷ []

unfoldable pub approval_to_dict : SignedApproval → Dict Value
approval_to_dict a =
    ("action", text a.action)
    ∷ ("request_digest", text a.request_digest)
    ∷ ("decision_digest", text a.decision_digest)
    ∷ ("issuer_key_id", text a.issuer_key_id)
    ∷ ("signature", text a.signature)
    ∷ (optional_entry "actor_id" a.actor_id
        ++ (if is_empty a.context then [] else ("context", dict a.context) ∷ []))

abbrev pub approval_keys : List String
approval_keys = "action" ∷ "request_digest" ∷ "decision_digest" ∷ "issuer_key_id" ∷ "signature" ∷ []

-- A non-empty string under the key.
abbrev pub filled : String → Dict Value → Option String
filled key d = elim (as_text (get key d)) [
  | none ↦ none
  | some s ↦ if is_blank s then none else some s
]

-- `actor_id = value.get("actor_id")`: absent and `None` are the same; a string must not be empty.
unfoldable pub parse_actor : Dict Value → Outcome (Option String)
parse_actor d = elim (get "actor_id" d) [
  | null ↦ ok none
  | text s ↦
      if is_blank s
      then err (value_error "signed approval actor_id must be a non-empty string when present")
      else ok (some s)
  | _ ↦ err (value_error "signed approval actor_id must be a non-empty string when present")
]

unfoldable pub approval_from_dict : Dict Value → Outcome SignedApproval
unfolding parse_actor
approval_from_dict value = do
  raise_if
      (not
        (all (λ (k : String). is_in k (approval_keys ++ "actor_id" ∷ "context" ∷ [])) (keys value)))
      (value_error "signed approval has an invalid schema")
  raise_if (not (all (λ (k : String). contains k value) approval_keys))
      (value_error "signed approval is missing required fields")
  action ←
      or_raise (filled "action" value)
        (value_error "signed approval action must be a non-empty string")
  request_digest ←
      or_raise (filled "request_digest" value)
        (value_error "signed approval request_digest must be a non-empty string")
  decision_digest ←
      or_raise (filled "decision_digest" value)
        (value_error "signed approval decision_digest must be a non-empty string")
  issuer_key_id ←
      or_raise (filled "issuer_key_id" value)
        (value_error "signed approval issuer_key_id must be a non-empty string")
  signature ←
      or_raise (filled "signature" value)
        (value_error "signed approval signature must be a non-empty string")
  actor_id ← parse_actor value
  context ←
      or_raise (as_dict (get_or "context" (dict []) value))
        (value_error "signed approval context must be an object when present")
  ok (record {
    action = action;
    request_digest = request_digest;
    decision_digest = decision_digest;
    issuer_key_id = issuer_key_id;
    signature = signature;
    actor_id = actor_id;
    context = context;
  })

module _ ⦃p : Platform⦄ where
  unfoldable pub verify_approval : PublicKey → SignedApproval → Bool
  verify_approval public_key a =
      verify_signature public_key (canonical_json (approval_unsigned a)) a.signature

  -- The digest of the request without its approvals.
  abbrev pub request_digest_of : Dict Value → String
  request_digest_of request = digest (dict (erase "approvals" request))

  -- `decision` is `none` where the caller passes no decision.
  unfoldable pub matches_request : Dict Value → Option Value → SignedApproval → Bool
  matches_request request decision a =
      eq_text a.action (str (get "action" request))
      && eq_text a.request_digest (request_digest_of request)
      && elim decision [ none ↦ true | some d ↦ eq_text a.decision_digest (digest d) ]

  -- `SignedApproval.from_request`, which calls `issue`.
  unfoldable pub approve :
      Dict Value → Value → Signer → Option String → Dict Value → Outcome SignedApproval
  approve request decision issuer actor_id context =
      let unsigned : SignedApproval = record {
        action = str (get "action" request);
        request_digest = request_digest_of request;
        decision_digest = digest decision;
        issuer_key_id = issuer.key_id;
        signature = "";
        actor_id = actor_id;
        context = context;
      } in
      do
        signature ← issuer.sign (canonical_json (approval_unsigned unsigned))
        ok (record unsigned { signature = signature })
