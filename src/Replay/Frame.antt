-- ===== src/Replay/Frame.antt =====
-- `ReplayFrame` of replay.py.
use governed_autonomy_substr.Base.{Dict, String, [], ◌∷◌}
use governed_autonomy_substr.Platform.{Platform, digest}
use governed_autonomy_substr.Value.{Value, dict, text}

pub record ReplayFrame : Type 0 where
  pub frame_id : String
  pub previous_hash : String
  pub event : Dict Value
  pub frame_hash : String

-- The body that the frame's hash covers.
abbrev pub frame_body : String → String → Dict Value → Value
frame_body frame_id previous_hash event = dict (
    ("frame_id", text frame_id)
    ∷ ("previous_hash", text previous_hash)
    ∷ ("event", dict event)
    ∷ [])

unfoldable pub create_frame : ⦃p : Platform⦄ → String → String → Dict Value → ReplayFrame
create_frame frame_id previous_hash event = record {
  frame_id = frame_id;
  previous_hash = previous_hash;
  event = event;
  frame_hash = digest (frame_body frame_id previous_hash event);
}

abbrev pub frame_to_dict : ReplayFrame → Value
frame_to_dict f = dict (
    ("frame_id", text f.frame_id)
    ∷ ("previous_hash", text f.previous_hash)
    ∷ ("event", dict f.event)
    ∷ ("frame_hash", text f.frame_hash)
    ∷ [])
