-- ===== src/Replay/Evidence.antt =====
-- The integrity report against the chain check.
-- No frame id stands twice.
use governed_autonomy_substr.Base.{
  Bool, List, String, [], arith, is_empty, is_in, is_some, length, not, refl, true, ◌&&◌, ◌++◌,
  ◌||◌, ◌∷◌, ◌≡◌,
}
use governed_autonomy_substr.Platform.{Platform}
use governed_autonomy_substr.Replay.Frame.{ReplayFrame}
use governed_autonomy_substr.Replay.Integrity.{
  Scan, first_scan, scan_frame, scan_frames, verify_integrity,
}
use governed_autonomy_substr.Replay.Log.{
  ReplayLog, head_hash, last_hash, verify_chain, verify_frames,
}

abbrev pub distinct_ids : List String → List ReplayFrame → Bool
distinct_ids seen [] = true
distinct_ids seen (f ∷ fs) = not (is_in f.frame_id seen) && distinct_ids (f.frame_id ∷ seen) fs

module _ ⦃p : Platform⦄ where
  scan_frames-head :
      (fs : List ReplayFrame) (s : Scan)
      → (scan_frames fs s).previous_hash ≡ last_hash s.previous_hash fs
  unfolding scan_frames last_hash
  scan_frames-head [] s = refl
  scan_frames-head (f ∷ fs) s = scan_frames-head fs (scan_frame f s)

  scan_frames-first_error :
      (fs : List ReplayFrame) (s : Scan)
      → is_some (scan_frames fs s).first_error
        ≡ (is_some s.first_error || not (verify_frames s.previous_hash fs))
  unfolding scan_frames verify_frames
  scan_frames-first_error [] s = ground arith
  scan_frames-first_error (f ∷ fs) s = ground (arith, scan_frames-first_error fs (scan_frame f s))

  is_empty-append :
      {A : Type 0} (xs ys : List A) → is_empty (xs ++ ys) ≡ (is_empty xs && is_empty ys)
  is_empty-append [] ys = refl
  is_empty-append (x ∷ xs) ys = refl

  scan_frames-duplicates :
      (fs : List ReplayFrame) (s : Scan)
      → is_empty (scan_frames fs s).duplicate_frame_ids
        ≡ (is_empty s.duplicate_frame_ids && distinct_ids s.seen_frame_ids fs)
  unfolding scan_frames
  scan_frames-duplicates [] s = ground arith
  scan_frames-duplicates (f ∷ fs) s = ground (
    arith,
    scan_frames-duplicates fs (scan_frame f s),
    is_empty-append s.duplicate_frame_ids (f.frame_id ∷ []),
  )

  -- The report is ok exactly if the chain verifies and no frame id stands twice; its head is the hash of
  -- the last frame, its count the number of frames, and it names a first error exactly if the chain does
  -- not verify.
  pub verify_integrity-verify_chain :
      (log : ReplayLog)
      → let report = verify_integrity log in
        (report.ok ≡ (verify_chain log && distinct_ids [] log.frames))
        × (report.head_hash ≡ head_hash log)
        × (report.frame_count ≡ length log.frames)
        × (is_some report.first_error ≡ not (verify_chain log))
  unfolding verify_integrity verify_chain
  verify_integrity-verify_chain log = (
    ground (
      arith,
      scan_frames-first_error log.frames first_scan,
      scan_frames-duplicates log.frames first_scan,
    ),
    scan_frames-head log.frames first_scan,
    refl,
    ground (arith, scan_frames-first_error log.frames first_scan),
  )
