-- ===== src/Examples/Logs.antt =====
-- The theorems of the replay log at concrete inputs.
use governed_autonomy_substr.Base.{
  Dict, String-discrete, [], false, is_some, length, lookup, not, ok, refl, true, ◌&&◌, ◌∷◌, ◌≡◌,
  ◌≢◌, ◌⊎◌, ◌⧺◌,
}
use governed_autonomy_substr.Examples.World.{dump, pair, signer, signer-Signs, toy, toy-FrameJson}
use governed_autonomy_substr.Platform.{verify_signature}
use governed_autonomy_substr.Replay.{
  AuditAnchor, ReplayFrame, ReplayLog, append, certify_anchor, create_anchor, create_frame,
  empty_log, head_hash, last_hash, load_jsonl, load_line, load_lines, parse_frame, scan_frame,
  scan_frames, sign_audit_anchor, verify_anchor, verify_anchor_signature, verify_chain,
  verify_frames, verify_integrity,
}
use governed_autonomy_substr.Replay.Anchors.{certify_anchor_commits, create_anchor-verify_anchor}
use governed_autonomy_substr.Replay.Evidence.{distinct_ids, verify_integrity-verify_chain}
use governed_autonomy_substr.Replay.Tamper.{Collision, SameFrames, verify_chain_commits}
use governed_autonomy_substr.Value.{Value, eq_value, text}

abbrev note : Dict Value
note = ("type", text "note") ∷ []

abbrev one_frame : ReplayLog
one_frame = append "f" note empty_log

one_frame-verifies : verify_chain one_frame ≡ true
unfolding verify_chain verify_frames append empty_log create_frame String-discrete dump pair
    last_hash
one_frame-verifies = refl

abbrev loaded_frame : ReplayFrame
loaded_frame = record {
  frame_id = "f";
  previous_hash = "";
  event = [];
  frame_hash = "#" ⧺ pair "f" (pair "" "");
}

abbrev loaded : ReplayLog
loaded = record { frames = loaded_frame ∷ []; used_nonces = [] }

load_one : load_jsonl ("line" ∷ []) ≡ ok loaded
unfolding load_jsonl load_lines load_line parse_frame empty_log create_frame String-discrete dump
    pair last_hash lookup eq_value
load_one = refl

verify_chain_commits_example : SameFrames one_frame.frames one_frame.frames ⊎ Collision
verify_chain_commits_example =
    verify_chain_commits toy-FrameJson one_frame one_frame one_frame-verifies one_frame-verifies
      refl refl

verify_integrity-verify_chain_example :
    let report = verify_integrity one_frame in
    (report.ok ≡ (verify_chain one_frame && distinct_ids [] one_frame.frames))
    × (report.head_hash ≡ head_hash one_frame)
    × (report.frame_count ≡ length one_frame.frames)
    × (is_some report.first_error ≡ not (verify_chain one_frame))
verify_integrity-verify_chain_example = verify_integrity-verify_chain one_frame

abbrev anchor : AuditAnchor
anchor = record {
  replay_digest = "#";
  head_hash = "#" ⧺ pair "f" (pair "" "");
  frame_count = 1;
  signer_key_id = "issuer";
  signature = "signed";
}

anchored : create_anchor signer one_frame ≡ ok anchor
unfolding create_anchor sign_audit_anchor verify_integrity scan_frames scan_frame append empty_log
    create_frame String-discrete dump pair last_hash
anchored = refl

create_anchor-verify_anchor_example :
    ((verify_integrity one_frame).ok ≡ true)
    × (verify_anchor anchor "key" one_frame ≡ true)
    × ((other : ReplayLog)
        → length other.frames ≢ length one_frame.frames
        → verify_anchor anchor "key" other ≡ false)
create_anchor-verify_anchor_example =
    create_anchor-verify_anchor signer "key" one_frame anchor signer-Signs anchored

certify_one : (certify_anchor anchor "key" one_frame).certified ≡ true
unfolding certify_anchor verify_anchor_signature verify_signature verify_integrity scan_frames
    scan_frame append empty_log create_frame String-discrete dump pair last_hash
certify_one = refl

certify_anchor_commits_example :
    (verify_anchor_signature "key" anchor ≡ true)
    × (SameFrames one_frame.frames one_frame.frames ⊎ Collision)
certify_anchor_commits_example =
    certify_anchor_commits anchor "key" one_frame one_frame toy-FrameJson certify_one certify_one
