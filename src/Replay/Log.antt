-- ===== src/Replay/Log.antt =====
-- The in-memory `ReplayLog`: appending, lookup, nonces, the chain check and recovery from JSONL.
use governed_autonomy_substr.Base.{
  Bool, Dict, List, Option, Outcome, String, [], eq_text, err, find, if◌then◌else◌, is_in,
  key_error, lookup, none, not, ok, or_raise, raise_if, some, true, value_error, ◌&&◌, ◌++◌, ◌>>=◌,
  ◌>>◌, ◌∷◌, ◌⧺◌,
}
use governed_autonomy_substr.Platform.{Platform, str}
use governed_autonomy_substr.Replay.Frame.{ReplayFrame, create_frame}
use governed_autonomy_substr.Value.{Value, as_dict, as_text, eq_value, get, text}

pub record ReplayLog : Type 0 where
  -- Oldest first.
  pub frames : List ReplayFrame
  pub used_nonces : List String

unfoldable pub empty_log : ReplayLog
empty_log = record { frames = []; used_nonces = [] }

-- `frames[-1].frame_hash if frames else ""`, from the hash that stands before the frames.
unfoldable pub last_hash : String → List ReplayFrame → String
last_hash start [] = start
last_hash start (f ∷ fs) = last_hash f.frame_hash fs

abbrev pub head_hash : ReplayLog → String
head_hash log = last_hash "" log.frames

unfoldable pub get_frame : String → ReplayLog → Option ReplayFrame
get_frame frame_id log = find (λ (f : ReplayFrame). eq_text f.frame_id frame_id) log.frames

unfoldable pub nonce_used : String → ReplayLog → Bool
nonce_used nonce log = is_in nonce log.used_nonces

unfoldable pub claim_nonce : String → ReplayLog → Outcome ReplayLog
claim_nonce nonce log = do
  raise_if (is_in nonce log.used_nonces) (value_error ("nonce already consumed: " ⧺ nonce))
  ok (record log { used_nonces = nonce ∷ log.used_nonces })

-- `event.get("type") == event_type`.
abbrev pub has_type : String → Dict Value → Bool
has_type event_type event = eq_value (get "type" event) (text event_type)

module _ ⦃p : Platform⦄ where
  unfoldable pub append : String → Dict Value → ReplayLog → ReplayLog
  append frame_id event log = record log {
    frames = log.frames ++ create_frame frame_id (head_hash log) event ∷ [];
  }

  -- The loop of `verify_chain`, from the hash that the next frame must name.
  unfoldable pub verify_frames : String → List ReplayFrame → Bool
  unfolding create_frame
  verify_frames previous_hash [] = true
  verify_frames previous_hash (f ∷ fs) =
      let expected = create_frame f.frame_id previous_hash f.event in
      eq_text f.previous_hash previous_hash
      && eq_text f.frame_hash expected.frame_hash
      && verify_frames f.frame_hash fs

  unfoldable pub verify_chain : ReplayLog → Bool
  verify_chain log = verify_frames "" log.frames

  -- `payload["frame_id"]` and the others: a missing key, or a payload that is no dict, is an error.
  -- Fields of other types than the writer's are refused here; the source would fail on them later.
  unfoldable pub parse_frame : String → Option ReplayFrame
  parse_frame line = elim (p.json_loads line) [
    | none ↦ none
    | some payload ↦ elim (as_dict payload) [
      | none ↦ none
      | some d ↦ elim (as_text (get "frame_id" d)) [
        | none ↦ none
        | some frame_id ↦ elim (as_text (get "previous_hash" d)) [
          | none ↦ none
          | some previous_hash ↦ elim (as_dict (get "event" d)) [
            | none ↦ none
            | some event ↦ elim (as_text (get "frame_hash" d)) [
              | none ↦ none
              | some frame_hash ↦ some (record {
                frame_id = frame_id;
                previous_hash = previous_hash;
                event = event;
                frame_hash = frame_hash;
              })
            ]
          ]
        ]
      ]
    ]
  ]

  -- One line of `load_jsonl`.
  unfoldable pub load_line : String → ReplayLog → Outcome ReplayLog
  unfolding create_frame
  load_line line log = do
    frame ← or_raise (parse_frame line) (value_error "invalid replay frame")
    let expected = create_frame frame.frame_id frame.previous_hash frame.event
    raise_if (not (eq_text frame.frame_hash expected.frame_hash)) (value_error "invalid frame hash")
    raise_if (not (eq_text frame.previous_hash (head_hash log))) (value_error "broken replay chain")
    let loaded = record log { frames = log.frames ++ frame ∷ [] }
    if has_type "execution" frame.event
        then elim (lookup "nonce" frame.event) [
          | none ↦ err (key_error "nonce")
          | some nonce ↦ ok (record loaded { used_nonces = str nonce ∷ log.used_nonces })
        ]
        else ok loaded

  unfoldable pub load_lines : List String → ReplayLog → Outcome ReplayLog
  load_lines [] log = ok log
  load_lines (line ∷ rest) log = load_line line log >>= load_lines rest

  unfoldable pub load_jsonl : List String → Outcome ReplayLog
  unfolding empty_log load_lines
  load_jsonl lines = load_lines lines empty_log
