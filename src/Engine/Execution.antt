-- ===== src/Engine/Execution.antt =====
-- Calls of `execute`, one and then many: all or nothing, at most once, and always on the record.
use governed_autonomy_substr.Base.{
  Dict, Error, List, Outcome-cases, String, String-discrete, [], arith, err, false, inl, inr, is_in,
  lookup, ok, refl, true, ◌++◌, ◌∷◌, ◌≡◌, ◌⊎◌,
}
use governed_autonomy_substr.Base.Int.{ℤ}
use governed_autonomy_substr.Engine.Barrier.{Admissible, validate_sound}
use governed_autonomy_substr.Engine.Execute.{
  ActionEnd, execute, execution_id, failure_event, raised, returned, run_action, success_event,
}
use governed_autonomy_substr.Engine.Validate.{ExecutionBoundary, validate}
use governed_autonomy_substr.Models.{Artifact}
use governed_autonomy_substr.Platform.{Platform}
use governed_autonomy_substr.Replay.{
  ReplayLog, append, claim_nonce, create_frame, head_hash, nonce_used, verify_chain,
}
use governed_autonomy_substr.Replay.Chain.{append-verify_chain}
use governed_autonomy_substr.Value.{Value, get, text}

module _ ⦃p : Platform⦄ where
  -- The log after the claim of a nonce.
  abbrev pub claimed : String → ReplayLog → ReplayLog
  claimed nonce log = record log { used_nonces = nonce ∷ log.used_nonces }

  -- A call of `execute` either raises the same error for every action and leaves the log as it was, so the
  -- action is not run; or the artifact is admissible, and the call claims its nonce and runs the action.
  pub execute-Admissible :
      (b : ExecutionBoundary) (now : ℤ) (a : Artifact) (log : ReplayLog)
      → ((e : Error) × ((action : Dict Value → ActionEnd)
            → execute b now a action log ≡ (err e, log)))
        ⊎ (Admissible b now a log
            × ((action : Dict Value → ActionEnd)
                → execute b now a action log ≡ run_action a action (claimed a.nonce log)))
  unfolding execute claim_nonce nonce_used
  execute-Admissible b now a log = elim (Outcome-cases (validate b now a log)) [
    | inr (e, failed_check) ↦ inl (e, (λ action. ground arith))
    | inl (u, passed) ↦
        let sound = validate_sound b now a log u passed in
        let fresh : is_in a.nonce log.used_nonces ≡ false = sound.nonce_fresh in
        inr (sound, (λ action. ground arith))
  ]

  -- The event of an execution by how the action ended.
  abbrev pub end_event : Artifact → ActionEnd → Dict Value
  end_event a (raised error_type message) = failure_event a error_type message
  end_event a (returned result) = success_event a result

  abbrev pub end_status : ActionEnd → String
  end_status (raised error_type message) = "failed"
  end_status (returned result) = "completed"

  -- The frame that a run of an action appends.
  abbrev pub Recorded : Artifact → String → ReplayLog → ReplayLog → Type 0
  Recorded a status log log' =
      (event : Dict Value) × (log'.frames
        ≡ log.frames ++ create_frame (execution_id a.nonce) (head_hash log) event ∷ [])
      × (get "type" event ≡ text "execution")
      × (get "nonce" event ≡ text a.nonce)
      × (get "status" event ≡ text status)

  end_event-entries :
      (a : Artifact) (end : ActionEnd)
      → (get "type" (end_event a end) ≡ text "execution")
        × (get "nonce" (end_event a end) ≡ text a.nonce)
        × (get "status" (end_event a end) ≡ text (end_status end))
  unfolding lookup String-discrete
  end_event-entries a (raised error_type message) = (refl, refl, refl)
  end_event-entries a (returned result) = (refl, refl, refl)

  run_end :
      (a : Artifact) (action : Dict Value → ActionEnd) (log : ReplayLog) (end : ActionEnd)
      → action a.action_request ≡ end
      → let log' = (run_action a action (claimed a.nonce log)).1 in
        Recorded a (end_status end) log log'
        × (nonce_used a.nonce log' ≡ true)
        × (verify_chain log ≡ true → verify_chain log' ≡ true)
  unfolding run_action append nonce_used verify_chain
  run_end a action log (raised error_type message) e =
      let (t, n, st) = end_event-entries a (raised error_type message) in
      let event = failure_event a error_type message in
      rw (e, run_action)
        (
          (event, refl, t, n, st),
          ground arith,
          append-verify_chain (execution_id a.nonce) event (claimed a.nonce log),
        )
  run_end a action log (returned result) e =
      let (t, n, st) = end_event-entries a (returned result) in
      let event = success_event a result in
      rw (e, run_action)
        (
          (event, refl, t, n, st),
          ground arith,
          append-verify_chain (execution_id a.nonce) event (claimed a.nonce log),
        )

  execute-passed :
      (b : ExecutionBoundary) (now : ℤ) (a : Artifact) (action : Dict Value → ActionEnd)
      (log : ReplayLog) (u : Unit {0})
      → validate b now a log ≡ ok u
      → execute b now a action log ≡ run_action a action (claimed a.nonce log)
  unfolding execute claim_nonce nonce_used
  execute-passed b now a action log u passed =
      let fresh : is_in a.nonce log.used_nonces ≡ false =
        (validate_sound b now a log u passed).nonce_fresh in
      ground arith

  -- A nonce that is used makes `execute` refuse, and leave the log alone.
  used-refused :
      (b : ExecutionBoundary) (now : ℤ) (a : Artifact) (action : Dict Value → ActionEnd)
      (log : ReplayLog)
      → nonce_used a.nonce log ≡ true
      → (e : Error) × (execute b now a action log ≡ (err e, log))
  used-refused b now a action log used = elim (execute-Admissible b now a log) [
    | inl (e, same) ↦ (e, same action)
    | inr (sound, runs) ↦ absurd (ground (arith, sound.nonce_fresh))
  ]

  -- A run of an action is on the record: exactly one frame is appended, an execution event of the artifact's
  -- nonce whose status is the end of the action, the nonce is used from then on, and a chain that verified
  -- still does.
  pub execute-records :
      (b : ExecutionBoundary) (now : ℤ) (a : Artifact) (action : Dict Value → ActionEnd)
      (log : ReplayLog) (u : Unit {0})
      → validate b now a log ≡ ok u
      → let log' = (execute b now a action log).1 in
        Recorded a (end_status (action a.action_request)) log log'
        × (nonce_used a.nonce log' ≡ true)
        × (verify_chain log ≡ true → verify_chain log' ≡ true)
  execute-records b now a action log u passed =
      rw (execute-passed b now a action log u passed)
        (run_end a action log (action a.action_request) refl)

  -- The calls that a process makes on one log: executions, and frames appended for other reasons.
  pub data Operation : Type 0 where
    executes : ExecutionBoundary → ℤ → Artifact → (Dict Value → ActionEnd) → Operation
    appends : String → Dict Value → Operation

  pub perform : Operation → ReplayLog → ReplayLog
  perform (executes b now a action) log = (execute b now a action log).1
  perform (appends frame_id event) log = append frame_id event log

  pub perform_all : List Operation → ReplayLog → ReplayLog
  unfolding perform
  perform_all [] log = log
  perform_all (o ∷ os) log = perform_all os (perform o log)

  run_action-used :
      (a : Artifact) (action : Dict Value → ActionEnd) (log : ReplayLog) (nonce : String)
      → nonce_used nonce log ≡ true
      → nonce_used nonce (run_action a action (claimed a.nonce log)).1 ≡ true
  unfolding run_action append nonce_used
  run_action-used a action log nonce used = ground arith

  perform-used :
      (o : Operation) (log : ReplayLog) (nonce : String)
      → nonce_used nonce log ≡ true
      → nonce_used nonce (perform o log) ≡ true
  unfolding perform append nonce_used
  perform-used (executes b now a action) log nonce used = elim (execute-Admissible b now a log) [
    | inl (e, same) ↦ rw (same action, perform) used
    | inr (sound, runs) ↦ rw (runs action, perform) (run_action-used a action log nonce used)
  ]
  perform-used (appends frame_id event) log nonce used = used

  perform_all-used :
      (os : List Operation) (log : ReplayLog) (nonce : String)
      → nonce_used nonce log ≡ true
      → nonce_used nonce (perform_all os log) ≡ true
  unfolding perform_all
  perform_all-used [] log nonce used = used
  perform_all-used (o ∷ os) log nonce used =
      perform_all-used os (perform o log) nonce (perform-used o log nonce used)

  -- Once the barrier has let an artifact through, every later execution of any artifact with its nonce is
  -- refused and leaves the log as it is, at any boundary and time, for any action, and whatever executions
  -- and appends came between; also where the action had failed.
  pub execute_once :
      (b b' : ExecutionBoundary) (now now' : ℤ) (a a' : Artifact)
      (action action' : Dict Value → ActionEnd) (log : ReplayLog) (u : Unit {0})
      (between : List Operation)
      → validate b now a log ≡ ok u
      → a'.nonce ≡ a.nonce
      → let log' = perform_all between (execute b now a action log).1 in
        (e : Error) × (execute b' now' a' action' log' ≡ (err e, log'))
  execute_once b b' now now' a a' action action' log u between passed same =
      let log' = perform_all between (execute b now a action log).1 in
      let used = (execute-records b now a action log u passed).1 in
      used-refused b' now' a' action' log'
        (rw same (perform_all-used between (execute b now a action log).1 a.nonce used))
