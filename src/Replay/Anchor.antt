-- ===== src/Replay/Anchor.antt =====
-- `AuditAnchor` of audit.py, and the anchor operations of `ReplayLog`.
use governed_autonomy_substr.Base.{
  Bool, Dict, Option, Outcome, String, [], any, contains, eq_text, insert, none, not, ok, or_raise,
  raise_if, some, value_error, ℕ, ◌&&◌, ◌==◌, ◌>>=◌, ◌>>◌, ◌∷◌,
}
use governed_autonomy_substr.Base.Int.{pos}
use governed_autonomy_substr.Platform.{
  Platform, PublicKey, Signer, canonical_json, verify_signature,
}
use governed_autonomy_substr.Replay.Integrity.{Integrity, verify_integrity}
use governed_autonomy_substr.Replay.Log.{ReplayLog}
use governed_autonomy_substr.Value.{Value, as_text, dict, get, integer, text}

pub record AuditAnchor : Type 0 where
  pub replay_digest : String
  pub head_hash : String
  pub frame_count : ℕ
  pub signer_key_id : String
  pub signature : String

abbrev pub anchor_payload : String → String → ℕ → String → Dict Value
anchor_payload replay_digest head_hash frame_count signer_key_id =
    ("replay_digest", text replay_digest)
    ∷ ("head_hash", text head_hash)
    ∷ ("frame_count", integer (pos frame_count))
    ∷ ("signer_key_id", text signer_key_id)
    ∷ []

abbrev pub anchor_unsigned : AuditAnchor → Dict Value
anchor_unsigned a = anchor_payload a.replay_digest a.head_hash a.frame_count a.signer_key_id

unfoldable pub anchor_to_dict : AuditAnchor → Dict Value
anchor_to_dict a = insert "signature" (text a.signature) (anchor_unsigned a)

-- `isinstance(v, int) and not isinstance(v, bool) and v >= 0`.
abbrev pub as_count : Value → Option ℕ
as_count (integer (pos n)) = some n
as_count _ = none

unfoldable pub anchor_from_dict : Dict Value → Outcome AuditAnchor
anchor_from_dict payload =
    let invalid = value_error "audit anchor fields are invalid" in
    do
      raise_if
          (any (λ (key : String). not (contains key payload))
            ("replay_digest" ∷ "head_hash" ∷ "frame_count" ∷ "signer_key_id" ∷ "signature" ∷ []))
          (value_error "audit anchor is missing required fields")
      replay_digest ← or_raise (as_text (get "replay_digest" payload)) invalid
      head_hash ← or_raise (as_text (get "head_hash" payload)) invalid
      frame_count ← or_raise (as_count (get "frame_count" payload)) invalid
      signer_key_id ← or_raise (as_text (get "signer_key_id" payload)) invalid
      signature ← or_raise (as_text (get "signature" payload)) invalid
      ok (record {
        replay_digest = replay_digest;
        head_hash = head_hash;
        frame_count = frame_count;
        signer_key_id = signer_key_id;
        signature = signature;
      })

pub record Certificate : Type 0 where
  pub certified : Bool
  pub integrity : Integrity
  pub signer_key_id : String

module _ ⦃p : Platform⦄ where
  unfoldable pub verify_anchor_signature : PublicKey → AuditAnchor → Bool
  verify_anchor_signature public_key a =
      verify_signature public_key (canonical_json (dict (anchor_unsigned a))) a.signature

  unfoldable pub sign_audit_anchor : Integrity → Signer → Outcome AuditAnchor
  sign_audit_anchor integrity signer = do
    raise_if (not integrity.ok) (value_error "cannot anchor an invalid replay log")
    let unsigned =
        anchor_payload integrity.replay_digest integrity.head_hash integrity.frame_count
          signer.key_id
    signature ← signer.sign (canonical_json (dict unsigned))
    ok (record {
      replay_digest = integrity.replay_digest;
      head_hash = integrity.head_hash;
      frame_count = integrity.frame_count;
      signer_key_id = signer.key_id;
      signature = signature;
    })

  unfoldable pub create_anchor : Signer → ReplayLog → Outcome AuditAnchor
  unfolding sign_audit_anchor
  create_anchor signer log = sign_audit_anchor (verify_integrity log) signer

  unfoldable pub certify_anchor : AuditAnchor → PublicKey → ReplayLog → Certificate
  certify_anchor anchor public_key log =
      let integrity = verify_integrity log in
      record {
        certified =
            integrity.ok
            && verify_anchor_signature public_key anchor
            && eq_text anchor.replay_digest integrity.replay_digest
            && eq_text anchor.head_hash integrity.head_hash
            && (anchor.frame_count == integrity.frame_count);
        integrity = integrity;
        signer_key_id = anchor.signer_key_id;
      }

  unfoldable pub verify_anchor : AuditAnchor → PublicKey → ReplayLog → Bool
  unfolding certify_anchor
  verify_anchor anchor public_key log = (certify_anchor anchor public_key log).certified
