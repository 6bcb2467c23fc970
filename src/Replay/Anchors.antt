-- ===== src/Replay/Anchors.antt =====
-- Signed checkpoints: what verifies at the time of signing, and no more after the log has moved on.
use governed_autonomy_substr.Base.{arith, false, length, ok, sym, true, ◌∙◌, ◌≡◌, ◌≢◌, ◌⊎◌}
use governed_autonomy_substr.Platform.{Platform, PublicKey, Signer, Signs, canonical_json}
use governed_autonomy_substr.Replay.Anchor.{
  AuditAnchor, anchor_unsigned, certify_anchor, create_anchor, sign_audit_anchor, verify_anchor,
  verify_anchor_signature,
}
use governed_autonomy_substr.Replay.Evidence.{verify_integrity-verify_chain}
use governed_autonomy_substr.Replay.Integrity.{Integrity, verify_integrity}
use governed_autonomy_substr.Replay.Log.{ReplayLog, head_hash, verify_chain}
use governed_autonomy_substr.Replay.Tamper.{Collision, FrameJson, SameFrames, verify_chain_commits}
use governed_autonomy_substr.Value.{dict}

module _ ⦃p : Platform⦄ where
  -- What a signed anchor says, and what the signer was given.
  sign_audit_anchor-ok :
      (report : Integrity) (signer : Signer) (a : AuditAnchor)
      → sign_audit_anchor report signer ≡ ok a
      → (report.ok ≡ true)
        × (a.replay_digest ≡ report.replay_digest)
        × (a.head_hash ≡ report.head_hash)
        × (a.frame_count ≡ report.frame_count)
        × (signer.sign (canonical_json (dict (anchor_unsigned a))) ≡ ok a.signature)
  unfolding sign_audit_anchor
  sign_audit_anchor-ok report signer a e =
      (ground arith, ground arith, ground arith, ground arith, ground arith)

  -- An anchor that a signer makes of a log, whose key is the one that the signer signs with, verifies
  -- against that log, and against no log that has another number of frames, such as the same log after
  -- an append. The anchor is made only if the integrity report is ok.
  pub create_anchor-verify_anchor :
      (signer : Signer) (key : PublicKey) (log : ReplayLog) (anchor : AuditAnchor)
      → Signs signer key
      → create_anchor signer log ≡ ok anchor
      → ((verify_integrity log).ok ≡ true)
        × (verify_anchor anchor key log ≡ true)
        × ((other : ReplayLog)
            → length other.frames ≢ length log.frames
            → verify_anchor anchor key other ≡ false)
  unfolding create_anchor verify_anchor verify_anchor_signature
  create_anchor-verify_anchor signer key log anchor signs e =
      let report = verify_integrity log in
      let (fine, digest_eq, head_eq, count_eq, signed) =
        sign_audit_anchor-ok report signer anchor e in
      let valid : verify_anchor_signature key anchor ≡ true = signs _ anchor.signature signed in
      (
        fine,
        ground arith,
        (λ other h.
            ground (arith, verify_integrity-verify_chain other, verify_integrity-verify_chain log)),
      )

  certify_anchor-ok :
      (anchor : AuditAnchor) (key : PublicKey) (log : ReplayLog)
      → (certify_anchor anchor key log).certified ≡ true
      → (verify_anchor_signature key anchor ≡ true)
        × (verify_chain log ≡ true)
        × (anchor.head_hash ≡ head_hash log)
        × (anchor.frame_count ≡ length log.frames)
  unfolding certify_anchor
  certify_anchor-ok anchor key log e =
      let (ok_eq, head_eq, count_eq, _) = verify_integrity-verify_chain log in
      (ground arith, ground arith, ground arith, ground arith)

  -- If json.dumps keeps the strings and the event's text of a frame's body, then an anchor that certifies two
  -- logs under a key has a signature that verifies under the key, and the logs agree frame for frame in ids,
  -- hashes and canonical events, or two different texts with the same SHA-256 digest are at hand.
  pub certify_anchor_commits :
      (anchor : AuditAnchor) (key : PublicKey) (log other : ReplayLog)
      → FrameJson
      → (certify_anchor anchor key log).certified ≡ true
      → (certify_anchor anchor key other).certified ≡ true
      → (verify_anchor_signature key anchor ≡ true)
        × (SameFrames log.frames other.frames ⊎ Collision)
  certify_anchor_commits anchor key log other faithful e e' =
      let (signed, chain, head_eq, count_eq) = certify_anchor-ok anchor key log e in
      let (_, chain', head_eq', count_eq') = certify_anchor-ok anchor key other e' in
      (
        signed,
        verify_chain_commits faithful log other chain chain' (sym count_eq ∙ count_eq')
            (sym head_eq ∙ head_eq'),
      )
