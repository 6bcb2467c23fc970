-- ===== src/Replay/Audit.antt =====
-- Queries of the log: events by type and by nonce, the reconstruction of decisions, and the summary.
use governed_autonomy_substr.Base.{
  Bool, Dict, List, Option, Outcome, String, [], false, get_or, if◌then◌else◌, insert, is_blank,
  keep, length, map, none, ok, raise_if, some, sorted, sorted_items, value_error, ℕ, ◌++◌, ◌>>◌,
  ◌∷◌,
}
use governed_autonomy_substr.Platform.{Platform, str}
use governed_autonomy_substr.Replay.Frame.{ReplayFrame}
use governed_autonomy_substr.Replay.Log.{ReplayLog, has_type}
use governed_autonomy_substr.Value.{Value, boolean, eq_value, get, text, truthy}

unfoldable pub events_of : String → List ReplayFrame → List (Dict Value)
events_of event_type [] = []
events_of event_type (f ∷ fs) =
    let rest = events_of event_type fs in
    if has_type event_type f.event then f.event ∷ rest else rest

unfoldable pub events : Option String → ReplayLog → Outcome (List (Dict Value))
unfolding events_of
events none log = ok (map (λ (f : ReplayFrame). f.event) log.frames)
events (some event_type) log = do
  raise_if (is_blank event_type) (value_error "event_type must not be empty")
  ok (events_of event_type log.frames)

abbrev pub has_nonce : String → Dict Value → Bool
has_nonce nonce event = eq_value (get "nonce" event) (text nonce)

unfoldable pub events_for_nonce : String → ReplayLog → Outcome (List (Dict Value))
events_for_nonce nonce log = do
  raise_if (is_blank nonce) (value_error "nonce must not be empty")
  ok (keep (has_nonce nonce) (map (λ (f : ReplayFrame). f.event) log.frames))

pub record AuthorizationEntry : Type 0 where
  pub issued : Bool
  pub request : Value
  pub decision : Value
  pub artifact_payload : Value

pub record ExecutionEntry : Type 0 where
  pub status : Value
  pub result : Value
  pub error : Value
  pub policy_id : Value

-- `{"authorization": ..., "execution": ...}`, each `None` until its event is met.
pub record DecisionEntry : Type 0 where
  pub authorization : Option AuthorizationEntry
  pub execution : Option ExecutionEntry

abbrev pub no_entry : DecisionEntry
no_entry = record { authorization = none; execution = none }

abbrev pub authorization_entry : Dict Value → AuthorizationEntry
authorization_entry event = record {
  issued = truthy (get_or "issued" (boolean false) event);
  request = get "request" event;
  decision = get "decision" event;
  artifact_payload = get "artifact_payload" event;
}

abbrev pub execution_entry : Dict Value → ExecutionEntry
execution_entry event = record {
  status = get "status" event;
  result = get "result" event;
  error = get "error" event;
  policy_id = get "policy_id" event;
}

pub record AuditSummary : Type 0 where
  pub frame_count : ℕ
  pub authorization_count : ℕ
  pub execution_count : ℕ
  pub success_count : ℕ
  pub failure_count : ℕ
  pub nonces : List String
  pub decisions : Dict DecisionEntry

module _ ⦃p : Platform⦄ where
  -- The body of the loop of `reconstruct_decisions`, for one event.
  unfoldable pub record_event : Dict Value → Dict DecisionEntry → Dict DecisionEntry
  record_event event decisions =
      let nonce = get "nonce" event in
      let key = str nonce in
      let entry = get_or key no_entry decisions in
      if has_type "authorization" event
      then (if truthy nonce
          then insert key (record entry { authorization = some (authorization_entry event) })
              decisions
          else decisions)
      else (if has_type "execution" event
          then (if truthy nonce
              then insert key (record entry { execution = some (execution_entry event) }) decisions
              else decisions)
          else decisions)

  unfoldable pub record_events : List ReplayFrame → Dict DecisionEntry → Dict DecisionEntry
  unfolding record_event
  record_events [] decisions = decisions
  record_events (f ∷ fs) decisions = record_events fs (record_event f.event decisions)

  unfoldable pub reconstruct_decisions : ReplayLog → Dict DecisionEntry
  unfolding record_events
  reconstruct_decisions log = sorted_items (record_events log.frames [])

  abbrev pub with_nonce : List (Dict Value) → List (Dict Value)
  with_nonce = keep (λ (event : Dict Value). truthy (get "nonce" event))

  abbrev pub with_status : String → List (Dict Value) → List (Dict Value)
  with_status status = keep (λ (event : Dict Value). eq_value (get "status" event) (text status))

  unfoldable pub audit_summary : ReplayLog → AuditSummary
  unfolding events_of reconstruct_decisions
  audit_summary log =
      let authorizations = with_nonce (events_of "authorization" log.frames) in
      let executions = with_nonce (events_of "execution" log.frames) in
      record {
        frame_count = length log.frames;
        authorization_count = length authorizations;
        execution_count = length executions;
        success_count = length (with_status "completed" executions);
        failure_count = length (with_status "failed" executions);
        nonces =
            sorted (
              map (λ (event : Dict Value). str (get "nonce" event)) (authorizations ++ executions));
        decisions = reconstruct_decisions log;
      }
