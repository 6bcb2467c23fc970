-- ===== src/Replay/Tamper.antt =====
-- Tamper evidence: a head hash and a length commit to every frame, unless SHA-256 collides.
use governed_autonomy_substr.Base.{
  Dict, List, String, String-discrete, [], arith, inl, inr, length, true, ◌∷◌, ◌≡◌, ◌≢◌, ◌⊎◌,
}
use governed_autonomy_substr.Platform.{Platform, canonical_json}
use governed_autonomy_substr.Replay.Frame.{ReplayFrame, create_frame, frame_body}
use governed_autonomy_substr.Replay.Log.{
  ReplayLog, head_hash, last_hash, verify_chain, verify_frames,
}
use governed_autonomy_substr.Value.{Value, dict}

module _ ⦃p : Platform⦄ where
  -- Two texts with one digest.
  abbrev pub Collision : Type 0
  Collision = (s : String) × (t : String) × (s ≢ t) × (p.sha256 s ≡ p.sha256 t)

  -- What json.dumps keeps of the body of a frame: its two strings, and the text of its event.
  abbrev pub FrameJson : Type 0
  FrameJson =
      (i h i' h' : String) (e e' : Dict Value)
      → canonical_json (frame_body i h e) ≡ canonical_json (frame_body i' h' e')
      → (i ≡ i') × (h ≡ h') × (canonical_json (dict e) ≡ canonical_json (dict e'))

  -- The text that the hash of a frame covers.
  abbrev pub frame_text : ReplayFrame → String
  frame_text f = canonical_json (frame_body f.frame_id f.previous_hash f.event)

  -- Frame for frame the same id, predecessor and hash, and events with the same canonical JSON.
  abbrev pub SameFrame : ReplayFrame → ReplayFrame → Type 0
  SameFrame f g =
      (f.frame_id ≡ g.frame_id)
      × (f.previous_hash ≡ g.previous_hash)
      × (canonical_json (dict f.event) ≡ canonical_json (dict g.event))
      × (f.frame_hash ≡ g.frame_hash)

  abbrev pub SameFrames : List ReplayFrame → List ReplayFrame → Type 0
  SameFrames [] [] = Unit
  SameFrames (f ∷ fs) (g ∷ gs) = SameFrame f g × SameFrames fs gs
  SameFrames _ _ = ⊥

  -- A verified frame's hash is the digest of its own text, and its predecessor is the chain's.
  verify_frames-head :
      (h : String) (f : ReplayFrame) (fs : List ReplayFrame)
      → verify_frames h (f ∷ fs) ≡ true
      → (f.previous_hash ≡ h)
        × (f.frame_hash ≡ p.sha256 (frame_text f))
        × (verify_frames f.frame_hash fs ≡ true)
  unfolding verify_frames create_frame
  verify_frames-head h f fs v = (ground arith, ground arith, ground arith)

  module _ (faithful : FrameJson) where
    same_frame :
        (f g : ReplayFrame)
        → f.frame_hash ≡ p.sha256 (frame_text f)
        → g.frame_hash ≡ p.sha256 (frame_text g)
        → f.frame_hash ≡ g.frame_hash
        → SameFrame f g ⊎ Collision
    same_frame f g d e x = elim (String-discrete (frame_text f) (frame_text g)) [
      | yes same ↦
          let (i, h, ev) =
            faithful f.frame_id f.previous_hash g.frame_id g.previous_hash f.event g.event same in
          inl (i, h, ev, x)
      | no other ↦ inr (frame_text f, frame_text g, other, cc)
    ]

    -- Walking back from the equal heads.
    frames_commit :
        (h k : String) (fs gs : List ReplayFrame)
        → verify_frames h fs ≡ true
        → verify_frames k gs ≡ true
        → length fs ≡ length gs
        → last_hash h fs ≡ last_hash k gs
        → ((h ≡ k) × SameFrames fs gs) ⊎ Collision
    unfolding last_hash
    frames_commit h k [] [] v w n e = inl (e, tt)
    frames_commit h k [] (g ∷ gs) v w n e = absurd (omega arith)
    frames_commit h k (f ∷ fs) [] v w n e = absurd (omega arith)
    frames_commit h k (f ∷ fs) (g ∷ gs) v w n e =
        let (fp, fh, fv) = verify_frames-head h f fs v in
        let (gp, gh, gv) = verify_frames-head k g gs w in
        elim (frames_commit f.frame_hash g.frame_hash fs gs fv gv (omega arith) e) [
          | inr c ↦ inr c
          | inl (same_hash, rest) ↦ elim (same_frame f g fh gh same_hash) [
            | inr c ↦ inr c
            | inl same ↦ inl (cc (same.1), (same, rest))
          ]
        ]

    -- If json.dumps keeps the strings and the event's text of a frame's body, then two logs with chains
    -- that verify, as many frames and the same head hash agree frame for frame in ids, hashes and
    -- canonical events, or two different texts with the same SHA-256 digest are at hand.
    pub verify_chain_commits :
        (log other : ReplayLog)
        → verify_chain log ≡ true
        → verify_chain other ≡ true
        → length log.frames ≡ length other.frames
        → head_hash log ≡ head_hash other
        → SameFrames log.frames other.frames ⊎ Collision
    unfolding verify_chain
    verify_chain_commits log other v w n e =
        elim (frames_commit "" "" log.frames other.frames v w n e) [
          | inl (_, same) ↦ inl same
          | inr c ↦ inr c
        ]
