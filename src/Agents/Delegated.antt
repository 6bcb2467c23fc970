-- ===== src/Agents/Delegated.antt =====
-- A delegated task runs only for the right recipient, signed by a trusted agent, and through the barrier.
use governed_autonomy_substr.Agents.{
  Guard, TaskDelegation, check_delegation, receive_and_execute, verify_delegation,
}
use governed_autonomy_substr.Base.{
  Dict, Error, Option-cases, Outcome-cases, arith, err, inl, inr, ok, refl, some, true, ◌≡◌, ◌⊎◌,
}
use governed_autonomy_substr.Base.Int.{ℤ}
use governed_autonomy_substr.Engine.{ActionEnd, run_action}
use governed_autonomy_substr.Engine.Barrier.{Admissible}
use governed_autonomy_substr.Engine.Execution.{claimed, execute-Admissible}
use governed_autonomy_substr.Platform.{Platform, PublicKey}
use governed_autonomy_substr.Replay.{ReplayLog}
use governed_autonomy_substr.Trust.{resolve}
use governed_autonomy_substr.Value.{Value, eq_value, get, text}

-- What the guard has checked of a delegation.
pub record IsDelegated ⦃p : Platform⦄ (g : Guard) (d : TaskDelegation) : Type 0 where
  pub for_recipient : d.recipient_id ≡ g.recipient_id
  pub delegator_key : PublicKey
  pub key_known : resolve d.delegator_id g.trust_store ≡ some delegator_key
  pub envelope_signed : verify_delegation d delegator_key ≡ true
  pub same_action : eq_value (get "action" d.gaa.action_request) (text d.action) ≡ true

module _ ⦃p : Platform⦄ where
  check_delegation-IsDelegated :
      (g : Guard) (d : TaskDelegation) → check_delegation g d ≡ ok tt → IsDelegated g d
  unfolding check_delegation
  check_delegation-IsDelegated g d e = elim (Option-cases (resolve d.delegator_id g.trust_store)) [
    | inl unknown ↦ absurd (ground arith)
    | inr (key, known_key) ↦ record {
      for_recipient = ground arith;
      delegator_key = key;
      key_known = known_key;
      envelope_signed = ground arith;
      same_action = ground arith;
    }
  ]

  -- A delegation that is received either raises the same error for every handler and leaves the log as it
  -- was; or it is meant for this recipient, a trusted and unrevoked key of the delegator has signed it, its
  -- action is that of its GAA, the GAA is admissible to the barrier, and the call claims the GAA's nonce and
  -- runs the handler on the GAA's request.
  pub receive_and_execute-IsDelegated :
      (g : Guard) (now : ℤ) (d : TaskDelegation) (log : ReplayLog)
      → ((e : Error) × ((handler : Dict Value → ActionEnd)
            → receive_and_execute g now d handler log ≡ (err e, log)))
        ⊎ (IsDelegated g d
            × Admissible g.boundary now d.gaa log
            × ((handler : Dict Value → ActionEnd)
                → receive_and_execute g now d handler log
                  ≡ run_action d.gaa handler (claimed d.gaa.nonce log)))
  unfolding receive_and_execute
  receive_and_execute-IsDelegated g now d log = elim (Outcome-cases (check_delegation g d)) [
    | inr (e, stopped) ↦ inl (e, λ handler. rw (stopped, receive_and_execute) refl)
    | inl (u, passed) ↦ elim (execute-Admissible g.boundary now d.gaa log) [
      | inl (e, same) ↦ inl (e, λ handler. rw (passed, receive_and_execute) (same handler))
      | inr (admissible, claims_and_runs) ↦ inr (
        check_delegation-IsDelegated g d (ground arith),
        admissible,
        λ handler. rw (passed, receive_and_execute) (claims_and_runs handler),
      )
    ]
  ]
