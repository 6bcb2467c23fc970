-- ===== src/Engine/Execute.antt =====
-- `execute` and `_result_audit` of engine.py.
use Prim.Native.String.{len}
use governed_autonomy_substr.Base.{
  Dict, Outcome, String, [], action_raised, err, if◌then◌else◌, leb, ok, take_text, true, ℕ, ◌++◌,
  ◌∷◌, ◌⧺◌,
}
use governed_autonomy_substr.Base.Int.{pos, ℤ}
use governed_autonomy_substr.Engine.Evidence.{refuse}
use governed_autonomy_substr.Engine.Validate.{ExecutionBoundary, validate}
use governed_autonomy_substr.Models.{Artifact}
use governed_autonomy_substr.Platform.{Platform, canonical_json, digest}
use governed_autonomy_substr.Replay.{ReplayLog, append, claim_nonce}
use governed_autonomy_substr.Value.{Value, boolean, get, integer, text}

-- What the action returns: a JSON value, or an object that canonical JSON cannot hold.
pub data ActionResult : Type 0 where
  json : Value → ActionResult
  opaque_object : ℕ → ActionResult

-- How the action ends: it returns, or raises what `except Exception` catches. An interrupt or an exit of the
-- process is not an end here.
pub data ActionEnd : Type 0 where
  returned : ActionResult → ActionEnd
  raised : String → String → ActionEnd

abbrev pub execution_id : String → String
execution_id nonce = "execution:" ⧺ nonce

-- The entries that both outcomes of an execution record first.
abbrev pub execution_head : Artifact → String → Dict Value
execution_head a status =
    ("type", text "execution")
    ∷ ("nonce", text a.nonce)
    ∷ ("authorization_frame_ref", text a.replay_frame_ref)
    ∷ ("policy", get "policy" a.decision)
    ∷ ("status", text status)
    ∷ []

abbrev pub failure_event : Artifact → String → String → Dict Value
failure_event a error_type message =
    execution_head a "failed"
    ++ ("error_type", text error_type) ∷ ("error", text (take_text 512 message)) ∷ []

module _ ⦃p : Platform⦄ where
  -- Only the digest of a large result is kept.
  unfoldable pub result_audit : ActionResult → Dict Value
  result_audit (opaque_object _) =
      ("result_omitted", boolean true) ∷ ("result_omission_reason", text "not-json") ∷ []
  result_audit (json result) =
      let size = len (canonical_json result) in
      ("result_digest", text (digest result))
      ∷ ("result_bytes", integer (pos size))
      ∷ (if leb size 4096
          then ("result", result) ∷ []
          else ("result_omitted", boolean true)
            ∷ ("result_omission_reason", text "size-limit")
            ∷ [])

  abbrev pub success_event : Artifact → ActionResult → Dict Value
  success_event a result = execution_head a "completed" ++ result_audit result

  -- After the nonce is claimed: the action runs, and either end of it is recorded.
  unfoldable pub run_action :
      Artifact → (Dict Value → ActionEnd) → ReplayLog → Outcome ActionResult × ReplayLog
  run_action a action log = elim (action a.action_request) [
    | raised error_type message ↦ (
      err (action_raised error_type message),
      append (execution_id a.nonce) (failure_event a error_type message) log,
    )
    | returned result ↦ (ok result, append (execution_id a.nonce) (success_event a result) log)
  ]

  unfoldable pub execute :
      ExecutionBoundary
      → ℤ
      → Artifact
      → (Dict Value → ActionEnd)
      → ReplayLog
      → Outcome ActionResult × ReplayLog
  unfolding run_action
  execute b now a action log = elim (validate b now a log) [
    | err e ↦ (err e, log)
    | ok _ ↦ elim (claim_nonce a.nonce log) [
      | err e ↦ (refuse "GAA nonce has already been used", log)
      | ok claimed ↦ run_action a action claimed
    ]
  ]
