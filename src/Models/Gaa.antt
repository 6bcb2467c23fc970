-- ===== src/Models/Gaa.antt =====
-- `GovernanceAuthorizationArtifact` of models.py, the GAA.
use governed_autonomy_substr.Base.{
  Bool, Dict, List, Outcome, String, [], all, contains, is_in, keys, not, ok, or_raise, raise_if,
  value_error, ◌&&◌, ◌>>=◌, ◌>>◌, ◌∷◌,
}
use governed_autonomy_substr.Base.Int.{ℤ}
use governed_autonomy_substr.Models.Approval.{filled}
use governed_autonomy_substr.Platform.{Platform, Signer, canonical_json}
use governed_autonomy_substr.Value.{Value, as_dict, as_int, dict, get, integer, text}

pub record Artifact : Type 0 where
  pub action_request : Dict Value
  pub decision : Dict Value
  pub expires_at : ℤ
  pub nonce : String
  pub replay_frame_ref : String
  pub issuer_key_id : String
  pub signature : String

abbrev pub artifact_unsigned : Artifact → Value
artifact_unsigned a = dict (
    ("action_request", dict a.action_request)
    ∷ ("decision", dict a.decision)
    ∷ ("expires_at", integer a.expires_at)
    ∷ ("nonce", text a.nonce)
    ∷ ("replay_frame_ref", text a.replay_frame_ref)
    ∷ ("issuer_key_id", text a.issuer_key_id)
    ∷ [])

unfoldable pub artifact_to_dict : Artifact → Dict Value
artifact_to_dict a =
    ("action_request", dict a.action_request)
    ∷ ("decision", dict a.decision)
    ∷ ("expires_at", integer a.expires_at)
    ∷ ("nonce", text a.nonce)
    ∷ ("replay_frame_ref", text a.replay_frame_ref)
    ∷ ("issuer_key_id", text a.issuer_key_id)
    ∷ ("signature", text a.signature)
    ∷ []

abbrev pub artifact_keys : List String
artifact_keys =
    "action_request" ∷ "decision" ∷ "expires_at" ∷ "nonce" ∷ "replay_frame_ref" ∷ "issuer_key_id"
    ∷ "signature" ∷ []

-- `set(value) == required`.
abbrev pub has_exactly : List String → Dict Value → Bool
has_exactly required d =
    all (λ (k : String). is_in k required) (keys d) && all (λ (k : String). contains k d) required

unfoldable pub artifact_from_dict : Value → Outcome Artifact
artifact_from_dict value = do
  d ← or_raise (as_dict value) (value_error "GAA must contain exactly the required fields")
  raise_if (not (has_exactly artifact_keys d))
      (value_error "GAA must contain exactly the required fields")
  action_request ←
      or_raise (as_dict (get "action_request" d)) (value_error "action_request must be an object")
  decision ← or_raise (as_dict (get "decision" d)) (value_error "decision must be an object")
  expires_at ← or_raise (as_int (get "expires_at" d)) (value_error "expires_at must be an integer")
  nonce ← or_raise (filled "nonce" d) (value_error "nonce must be a non-empty string")
  replay_frame_ref ←
      or_raise (filled "replay_frame_ref" d)
        (value_error "replay_frame_ref must be a non-empty string")
  issuer_key_id ←
      or_raise (filled "issuer_key_id" d) (value_error "issuer_key_id must be a non-empty string")
  signature ← or_raise (filled "signature" d) (value_error "signature must be a non-empty string")
  ok (record {
    action_request = action_request;
    decision = decision;
    expires_at = expires_at;
    nonce = nonce;
    replay_frame_ref = replay_frame_ref;
    issuer_key_id = issuer_key_id;
    signature = signature;
  })

module _ ⦃p : Platform⦄ where
  -- `unsigned_payload().decode("utf-8")`.
  abbrev pub artifact_payload : Artifact → String
  artifact_payload a = canonical_json (artifact_unsigned a)

  unfoldable pub issue_artifact :
      Dict Value → Dict Value → ℤ → String → String → Signer → Outcome Artifact
  issue_artifact action_request decision expires_at nonce replay_frame_ref issuer =
      let unsigned : Artifact = record {
        action_request = action_request;
        decision = decision;
        expires_at = expires_at;
        nonce = nonce;
        replay_frame_ref = replay_frame_ref;
        issuer_key_id = issuer.key_id;
        signature = "";
      } in
      do
        signature ← issuer.sign (artifact_payload unsigned)
        ok (record unsigned { signature = signature })

  -- `from_json`: `none` of `json_loads` is the JSONDecodeError.
  unfoldable pub artifact_from_json : String → Outcome Artifact
  unfolding artifact_from_dict
  artifact_from_json written = do
    payload ← or_raise (p.json_loads written) (value_error "GAA JSON is invalid")
    artifact_from_dict payload
