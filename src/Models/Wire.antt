-- ===== src/Models/Wire.antt =====
-- What is written of an approval and of a GAA is read back.
use governed_autonomy_substr.Base.{
  Dict, Option, String, String-discrete, [], false, is_blank, lookup, none, ok, refl, some, ◌∷◌,
  ◌≡◌,
}
use governed_autonomy_substr.Models.Approval.{
  SignedApproval, approval_from_dict, approval_to_dict, parse_actor,
}
use governed_autonomy_substr.Models.Gaa.{Artifact, artifact_from_dict, artifact_to_dict}
use governed_autonomy_substr.Value.{Value, dict, entries-fields}

-- The texts of a GAA that its parser wants to be there.
abbrev pub IsFilled : Artifact → Type 0
IsFilled a =
    (is_blank a.nonce ≡ false)
    × (is_blank a.replay_frame_ref ≡ false)
    × (is_blank a.issuer_key_id ≡ false)
    × (is_blank a.signature ≡ false)

-- A GAA whose nonce, frame reference, key id and signature are not empty is read back from its dict.
pub artifact_from_dict-artifact_to_dict :
    (a : Artifact) → IsFilled a → artifact_from_dict (dict (artifact_to_dict a)) ≡ ok a
unfolding artifact_from_dict artifact_to_dict lookup String-discrete
artifact_from_dict-artifact_to_dict a (nonce_there, frame_there, issuer_there, signature_there) =
    rw
      (
        entries-fields a.action_request,
        entries-fields a.decision,
        nonce_there,
        frame_there,
        issuer_there,
        signature_there,
      )
      refl

-- The texts of an approval that its parser wants to be there.
abbrev IsComplete : SignedApproval → Type 0
IsComplete a =
    (is_blank a.action ≡ false)
    × (is_blank a.request_digest ≡ false)
    × (is_blank a.decision_digest ≡ false)
    × (is_blank a.issuer_key_id ≡ false)
    × (is_blank a.signature ≡ false)
    × ((s : String) → a.actor_id ≡ some s → is_blank s ≡ false)

approval_wire :
    (action request_digest decision_digest issuer_key_id signature : String)
    (actor_id : Option String) (context : Dict Value)
    → let a : SignedApproval = record {
      action = action;
      request_digest = request_digest;
      decision_digest = decision_digest;
      issuer_key_id = issuer_key_id;
      signature = signature;
      actor_id = actor_id;
      context = context;
    } in
      IsComplete a → approval_from_dict (approval_to_dict a) ≡ ok a
unfolding approval_from_dict approval_to_dict parse_actor lookup String-discrete
approval_wire a r d i s none [] (ha, hr, hd, hi, hs, hactor) = rw (ha, hr, hd, hi, hs) refl
approval_wire a r d i s none (e ∷ es) (ha, hr, hd, hi, hs, hactor) =
    rw (ha, hr, hd, hi, hs, entries-fields es) refl
approval_wire a r d i s (some name) [] (ha, hr, hd, hi, hs, hactor) =
    rw (ha, hr, hd, hi, hs, hactor name refl) refl
approval_wire a r d i s (some name) (e ∷ es) (ha, hr, hd, hi, hs, hactor) =
    rw (ha, hr, hd, hi, hs, hactor name refl, entries-fields es) refl

-- A signed approval whose texts are not empty, its actor id included if there is one, is read back from its
-- dict, whether or not it has an actor id and a context.
approval_from_dict-approval_to_dict :
    (a : SignedApproval) → IsComplete a → approval_from_dict (approval_to_dict a) ≡ ok a
approval_from_dict-approval_to_dict a complete_texts =
    approval_wire a.action a.request_digest a.decision_digest a.issuer_key_id a.signature a.actor_id
      a.context complete_texts
