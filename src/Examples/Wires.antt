-- ===== src/Examples/Wires.antt =====
-- The parsers and printers of the models at concrete inputs.
use governed_autonomy_substr.Base.{String-discrete, [], ok, refl, true, ◌∷◌, ◌≡◌}
use governed_autonomy_substr.Base.Int.{pos}
use governed_autonomy_substr.Examples.World.{toy}
use governed_autonomy_substr.Models.{Artifact, artifact_from_dict, artifact_to_dict}
use governed_autonomy_substr.Models.Wire.{artifact_from_dict-artifact_to_dict}
use governed_autonomy_substr.Value.{boolean, dict, integer, text}

abbrev gaa : Artifact
gaa = record {
  action_request = ("action", text "deploy") ∷ ("replicas", integer (pos 3)) ∷ [];
  decision = ("allow", boolean true) ∷ [];
  expires_at = pos 15;
  nonce = "n";
  replay_frame_ref = "authorization:n";
  issuer_key_id = "issuer";
  signature = "signed";
}

artifact_from_dict-artifact_to_dict_example :
    artifact_from_dict (dict (artifact_to_dict gaa)) ≡ ok gaa
unfolding String-discrete
artifact_from_dict-artifact_to_dict_example =
    artifact_from_dict-artifact_to_dict gaa (refl, refl, refl, refl)
