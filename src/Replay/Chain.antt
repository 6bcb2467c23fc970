-- ===== src/Replay/Chain.antt =====
-- The hash chain: appending keeps it, and recovery from JSONL accepts nothing else.
use governed_autonomy_substr.Base.{
  >>=-eq-ok, Dict, List, Option-cases, String, [], arith, inl, inr, ok, refl, true, ◌&&◌, ◌++◌, ◌∷◌,
  ◌≡◌,
}
use governed_autonomy_substr.Platform.{Platform}
use governed_autonomy_substr.Replay.Frame.{ReplayFrame, create_frame}
use governed_autonomy_substr.Replay.Log.{
  ReplayLog, append, empty_log, head_hash, last_hash, load_jsonl, load_line, load_lines,
  parse_frame, verify_chain, verify_frames,
}
use governed_autonomy_substr.Value.{Value}

pub last_hash-append :
    (h : String) (fs gs : List ReplayFrame) → last_hash h (fs ++ gs) ≡ last_hash (last_hash h fs) gs
unfolding last_hash
last_hash-append h [] gs = refl
last_hash-append h (f ∷ fs) gs = last_hash-append f.frame_hash fs gs

module _ ⦃p : Platform⦄ where
  pub verify_frames-append :
      (h : String) (fs gs : List ReplayFrame)
      → verify_frames h (fs ++ gs) ≡ (verify_frames h fs && verify_frames (last_hash h fs) gs)
  unfolding verify_frames last_hash
  verify_frames-append h [] gs = refl
  verify_frames-append h (f ∷ fs) gs = ground (arith, verify_frames-append f.frame_hash fs gs)

  pub verify_frames-create :
      (h frame_id : String) (event : Dict Value)
      → verify_frames h (create_frame frame_id h event ∷ []) ≡ true
  unfolding verify_frames create_frame
  verify_frames-create h frame_id event = ground arith

  -- If the chain of a log verifies, it still does after any event is appended.
  pub append-verify_chain :
      (frame_id : String) (event : Dict Value) (log : ReplayLog)
      → verify_chain log ≡ true
      → verify_chain (append frame_id event log) ≡ true
  unfolding verify_chain append
  append-verify_chain frame_id event log h =
      rw (verify_frames-append "" log.frames, h)
        (verify_frames-create (head_hash log) frame_id event)

  -- A line that is accepted extends the chain by one frame that verifies.
  load_line-verify_chain :
      (line : String) (log log' : ReplayLog)
      → load_line line log ≡ ok log'
      → verify_chain log ≡ true
      → verify_chain log' ≡ true
  unfolding verify_chain load_line verify_frames
  load_line-verify_chain line log log' e h = elim (Option-cases (parse_frame line)) [
    | inl bad ↦ ground arith
    | inr (f, parsed) ↦ ground (arith, verify_frames-append "" log.frames (f ∷ []))
  ]

  load_lines-verify_chain :
      (lines : List String) (log log' : ReplayLog)
      → load_lines lines log ≡ ok log'
      → verify_chain log ≡ true
      → verify_chain log' ≡ true
  unfolding load_lines
  load_lines-verify_chain [] log log' e h = ground arith
  load_lines-verify_chain (line ∷ rest) log log' e h =
      let (next, loaded, more) = >>=-eq-ok (load_line line log) (load_lines rest) e in
      load_lines-verify_chain rest next log' more (load_line-verify_chain line log next loaded h)

  -- The log that `load_jsonl` recovers from a file has a chain that verifies.
  load_jsonl-verify_chain :
      (lines : List String) (log : ReplayLog) → load_jsonl lines ≡ ok log → verify_chain log ≡ true
  unfolding load_jsonl verify_chain verify_frames
  load_jsonl-verify_chain lines log e = load_lines-verify_chain lines empty_log log e refl
