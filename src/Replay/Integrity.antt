-- ===== src/Replay/Integrity.antt =====
-- `verify_integrity` of replay.py: evidence on the chain, with the first error and repeated frame ids.
use governed_autonomy_substr.Base.{
  Bool, List, Option, String, [], eq_text, if◌then◌else◌, is_empty, is_in, is_some, length, map,
  none, not, some, sorted, suc, ℕ, ◌&&◌, ◌++◌, ◌∷◌,
}
use governed_autonomy_substr.Platform.{Platform, digest}
use governed_autonomy_substr.Replay.Frame.{ReplayFrame, create_frame, frame_to_dict}
use governed_autonomy_substr.Replay.Log.{ReplayLog}
use governed_autonomy_substr.Value.{array, items}

pub data Mismatch : Type 0 where
  previous_hash_mismatch frame_hash_mismatch : Mismatch

pub record FirstError : Type 0 where
  pub index : ℕ
  pub frame_id : String
  pub reason : Mismatch

pub record Integrity : Type 0 where
  pub ok : Bool
  pub frame_count : ℕ
  pub head_hash : String
  pub replay_digest : String
  pub duplicate_frame_ids : List String
  pub first_error : Option FirstError

-- The variables of the loop.
pub record Scan : Type 0 where
  pub index : ℕ
  pub previous_hash : String
  pub seen_frame_ids : List String
  pub duplicate_frame_ids : List String
  pub first_error : Option FirstError

abbrev pub first_scan : Scan
first_scan = record {
  index = 0;
  previous_hash = "";
  seen_frame_ids = [];
  duplicate_frame_ids = [];
  first_error = none;
}

-- An error is kept only if none was found before.
abbrev pub note_error : Bool → FirstError → Option FirstError → Option FirstError
note_error found e none = if found then some e else none
note_error found e (some earlier) = some earlier

module _ ⦃p : Platform⦄ where
  unfoldable pub scan_frame : ReplayFrame → Scan → Scan
  unfolding create_frame
  scan_frame f s =
      let expected = create_frame f.frame_id s.previous_hash f.event in
      let misplaced : FirstError = record {
        index = s.index;
        frame_id = f.frame_id;
        reason = previous_hash_mismatch;
      } in
      let altered : FirstError = record {
        index = s.index;
        frame_id = f.frame_id;
        reason = frame_hash_mismatch;
      } in
      record {
        index = suc s.index;
        previous_hash = f.frame_hash;
        seen_frame_ids = f.frame_id ∷ s.seen_frame_ids;
        duplicate_frame_ids =
            if is_in f.frame_id s.seen_frame_ids
            then s.duplicate_frame_ids ++ f.frame_id ∷ []
            else s.duplicate_frame_ids;
        first_error =
            note_error (not (eq_text f.frame_hash expected.frame_hash)) altered
              (note_error (not (eq_text f.previous_hash s.previous_hash)) misplaced s.first_error);
      }

  unfoldable pub scan_frames : List ReplayFrame → Scan → Scan
  unfolding scan_frame
  scan_frames [] s = s
  scan_frames (f ∷ fs) s = scan_frames fs (scan_frame f s)

  abbrev pub replay_digest : ReplayLog → String
  replay_digest log = digest (array (items (map frame_to_dict log.frames)))

  unfoldable pub verify_integrity : ReplayLog → Integrity
  unfolding scan_frames
  verify_integrity log =
      let s = scan_frames log.frames first_scan in
      record {
        ok = not (is_some s.first_error) && is_empty s.duplicate_frame_ids;
        frame_count = length log.frames;
        head_hash = s.previous_hash;
        replay_digest = replay_digest log;
        duplicate_frame_ids = sorted s.duplicate_frame_ids;
        first_error = s.first_error;
      }
