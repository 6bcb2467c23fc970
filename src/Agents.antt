-- ===== src/Agents.antt =====
-- a2a.py: a task that one agent signs and delegates to another, and the guard of the recipient.
pub mod Delegated
use governed_autonomy_substr.Base.{
  Bool, Dict, List, Outcome, String, [], authorization_error, eq_text, err, is_blank, not, ok,
  or_raise, raise_if, type_error, value_error, ◌>>=◌, ◌>>◌, ◌∷◌, ◌⧺◌,
}
use governed_autonomy_substr.Base.Int.{ℤ}
use governed_autonomy_substr.Engine.{ActionEnd, ActionResult, ExecutionBoundary, execute}
use governed_autonomy_substr.Models.{Artifact, artifact_from_dict, artifact_to_dict, has_exactly}
use governed_autonomy_substr.Platform.{
  Platform, PublicKey, Signer, canonical_json, str, verify_signature,
}
use governed_autonomy_substr.Replay.{ReplayLog}
use governed_autonomy_substr.Trust.{TrustStore, resolve}
use governed_autonomy_substr.Value.{Value, as_dict, dict, eq_value, get, text}

pub record TaskDelegation : Type 0 where
  pub delegator_id : String
  pub recipient_id : String
  pub task_id : String
  pub action : String
  pub payload : Dict Value
  pub gaa : Artifact
  pub signature : String

abbrev pub delegation_unsigned : TaskDelegation → Value
delegation_unsigned d = dict (
    ("action", text d.action)
    ∷ ("delegator_id", text d.delegator_id)
    ∷ ("gaa_nonce", text d.gaa.nonce)
    ∷ ("payload", dict d.payload)
    ∷ ("recipient_id", text d.recipient_id)
    ∷ ("task_id", text d.task_id)
    ∷ [])

unfoldable pub delegation_to_dict : TaskDelegation → Value
delegation_to_dict d = dict (
    ("delegator_id", text d.delegator_id)
    ∷ ("recipient_id", text d.recipient_id)
    ∷ ("task_id", text d.task_id)
    ∷ ("action", text d.action)
    ∷ ("payload", dict d.payload)
    ∷ ("gaa", dict (artifact_to_dict d.gaa))
    ∷ ("signature", text d.signature)
    ∷ [])

abbrev pub delegation_keys : List String
delegation_keys =
    "delegator_id" ∷ "recipient_id" ∷ "task_id" ∷ "action" ∷ "payload" ∷ "gaa" ∷ "signature" ∷ []

pub record Guard : Type 0 where
  pub recipient_id : String
  pub trust_store : TrustStore
  pub boundary : ExecutionBoundary

module _ ⦃p : Platform⦄ where
  unfoldable pub create_delegation :
      Signer → String → String → String → Dict Value → Artifact → Outcome TaskDelegation
  create_delegation delegator recipient_id task_id action payload gaa = do
    raise_if (is_blank recipient_id) (value_error "recipient_id must be a non-empty string")
    raise_if (is_blank task_id) (value_error "task_id must be a non-empty string")
    raise_if (is_blank action) (value_error "action must be a non-empty string")
    let unsigned : TaskDelegation = record {
      delegator_id = delegator.key_id;
      recipient_id = recipient_id;
      task_id = task_id;
      action = action;
      payload = payload;
      gaa = gaa;
      signature = "";
    }
    signature ← delegator.sign (canonical_json (delegation_unsigned unsigned))
    ok (record unsigned { signature = signature })

  unfoldable pub verify_delegation : TaskDelegation → PublicKey → Bool
  verify_delegation d key =
      verify_signature key (canonical_json (delegation_unsigned d)) d.signature

  -- `dict(value)` of a dict; any other payload is refused here.
  unfoldable pub delegation_from_dict : Value → Outcome TaskDelegation
  delegation_from_dict value = do
    let invalid = value_error "invalid A2ATaskDelegation dictionary"
    d ← or_raise (as_dict value) invalid
    raise_if (not (has_exactly delegation_keys d)) invalid
    payload ← or_raise (as_dict (get "payload" d)) (type_error "payload is no object")
    gaa ← artifact_from_dict (get "gaa" d)
    ok (record {
      delegator_id = str (get "delegator_id" d);
      recipient_id = str (get "recipient_id" d);
      task_id = str (get "task_id" d);
      action = str (get "action" d);
      payload = payload;
      gaa = gaa;
      signature = str (get "signature" d);
    })

  -- The tests of the guard before the barrier.
  unfoldable pub check_delegation : Guard → TaskDelegation → Outcome (Unit {0})
  check_delegation g d = do
    raise_if (not (eq_text d.recipient_id g.recipient_id)) (
        authorization_error (
          "delegation recipient mismatch: intended for "
          ⧺ p.repr (text d.recipient_id)
          ⧺ ", received by "
          ⧺ p.repr (text g.recipient_id)))
    delegator_key ←
        or_raise (resolve d.delegator_id g.trust_store) (
          authorization_error ("unknown or revoked delegator key: " ⧺ p.repr (text d.delegator_id)))
    raise_if (not (verify_delegation d delegator_key))
        (authorization_error "invalid delegator signature on A2A delegation envelope")
    let gaa_action = get "action" d.gaa.action_request
    raise_if (not (eq_value gaa_action (text d.action))) (
        authorization_error (
          "action mismatch between delegation ("
          ⧺ p.repr (text d.action)
          ⧺ ") and GAA ("
          ⧺ p.repr gaa_action
          ⧺ ")"))

  unfoldable pub receive_and_execute :
      Guard
      → ℤ
      → TaskDelegation
      → (Dict Value → ActionEnd)
      → ReplayLog
      → Outcome ActionResult × ReplayLog
  unfolding check_delegation
  receive_and_execute g now d handler log = elim (check_delegation g d) [
    | err e ↦ (err e, log)
    | ok _ ↦ execute g.boundary now d.gaa handler log
  ]
