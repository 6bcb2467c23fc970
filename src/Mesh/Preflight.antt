-- ===== src/Mesh/Preflight.antt =====
-- `GovernanceMesh` of mesh.py.
use governed_autonomy_substr.Base.{
  Bool, Dict, List, Option, Outcome, String, [], all, err, false, get_or, if◌then◌else◌, is_blank,
  is_empty, is_in, is_some, keys, lookup, map, mesh_error, none, not, ok, raise_if, some, sort_by,
  sorted, sorted_items, true, type_error, value_error, ◌&&◌, ◌>>=◌, ◌>>◌, ◌||◌, ◌∷◌, ◌⧺◌,
}
use governed_autonomy_substr.Mesh.Conflict.{
  Group, by_source, conflicts_among, group_inputs, ranks_before, top_inputs, top_priority,
  unresolved,
}
use governed_autonomy_substr.Mesh.Input.{GovernanceInput, attestation_payload, input_digest}
use governed_autonomy_substr.Mesh.Sources.{SourceRegistry, resolve_source}
use governed_autonomy_substr.Models.{optional_text}
use governed_autonomy_substr.Platform.{Platform, PublicKey, canonical_json, str, verify_signature}
use governed_autonomy_substr.Policy.{map_values}
use governed_autonomy_substr.Replay.{ReplayLog, append}
use governed_autonomy_substr.Trust.{TrustStore, resolve}
use governed_autonomy_substr.Value.{
  Value, array, boolean, dict, elements, entries, get, items, nil, object, text, texts, truthy,
}

pub data PreflightStatus : Type 0 where
  conflicted allowed denied : PreflightStatus

abbrev pub status_text : PreflightStatus → String
status_text conflicted = "conflict"
status_text allowed = "allow"
status_text denied = "deny"

pub record PreflightDecision : Type 0 where
  pub allow : Bool
  pub status : PreflightStatus
  pub selected_digest : Option String
  pub selected_source_ids : List String
  pub input_digests : Dict String
  pub conflicts : List Value
  pub reasons : List String
  pub digest : String
  pub replay_frame_ref : Option String

-- `records` says whether the mesh has a replay log; the log itself is passed to each call.
pub record Mesh : Type 0 where
  pub trusted_sources : Dict PublicKey
  pub trust_store : Option TrustStore
  pub source_registry : Option SourceRegistry
  pub records : Bool

-- `GovernanceMesh()`.
abbrev pub bare_mesh : Mesh
bare_mesh = record {
  trusted_sources = [];
  trust_store = none;
  source_registry = none;
  records = false;
}

unfoldable pub source_key : Mesh → String → Option PublicKey
source_key m source_id = elim m.source_registry [
  | some r ↦ resolve_source source_id r
  | none ↦ elim m.trust_store [
    | some store ↦ resolve source_id store
    | none ↦ lookup source_id m.trusted_sources
  ]
]

-- Without any keys the mesh takes every input.
unfoldable pub is_open : Mesh → Bool
is_open m =
    is_empty m.trusted_sources && not (is_some m.trust_store) && not (is_some m.source_registry)

unfoldable pub characters : String → List String
characters String.[] = []
characters (String.◌∷◌ c s) = String.◌∷◌ c "" ∷ characters s

-- `len(set(source_ids)) == len(source_ids)`.
unfoldable pub distinct : List String → Bool
distinct [] = true
distinct (s ∷ ss) = not (is_in s ss) && distinct ss

module _ ⦃p : Platform⦄ where
  unfoldable pub attested : Mesh → GovernanceInput → Bool
  unfolding source_key is_open
  attested m i = is_open m || elim (source_key m i.source_id) [
    | none ↦ false
    | some key ↦ elim i.source_signature [
      | none ↦ false
      | some signature ↦ verify_signature key (attestation_payload i) signature
    ]
  ]

  -- `tuple(str(reason) for reason in decision.get("reasons", ()))`.
  unfoldable pub reasons_of : Dict Value → Outcome (List String)
  reasons_of decision = elim (get_or "reasons" (array nil) decision) [
    | array vs ↦ ok (map str (elements vs))
    | object fs ↦ ok (keys (entries fs))
    | text s ↦ ok (characters s)
    | _ ↦ err (type_error "object is not iterable")
  ]

  -- The best group in the ranking.
  unfoldable pub winning_group : List GovernanceInput → Option Group
  winning_group inputs = elim (sort_by ranks_before (group_inputs inputs [])) [
    | [] ↦ none
    | g ∷ gs ↦ some g
  ]

  abbrev pub preflight_unsigned : String → PreflightDecision → Value
  preflight_unsigned request_digest d = dict (
      ("request_digest", text request_digest)
      ∷ ("allow", boolean d.allow)
      ∷ ("status", text (status_text d.status))
      ∷ ("selected_digest", optional_text d.selected_digest)
      ∷ ("selected_source_ids", texts d.selected_source_ids)
      ∷ ("input_digests", dict (map_values text (sorted_items d.input_digests)))
      ∷ ("conflicts", array (items d.conflicts))
      ∷ ("reasons", texts d.reasons)
      ∷ ("replay_frame_ref", optional_text d.replay_frame_ref)
      ∷ [])

  -- The digest covers the decision with the frame reference that the caller gave.
  abbrev pub seal : String → PreflightDecision → PreflightDecision
  seal request_digest d = record d {
    digest = p.sha256 (canonical_json (preflight_unsigned request_digest d));
  }

  -- The decision on checked inputs, `i` and those after it.
  unfoldable pub aggregate :
      GovernanceInput → List GovernanceInput → String → Option String → Outcome PreflightDecision
  unfolding winning_group reasons_of
  aggregate i is request_digest replay_frame_ref =
      let inputs = i ∷ is in
      let top = top_inputs inputs in
      let found = conflicts_among (top_priority i.priority is) (by_source top) (by_source top) in
      let digests =
        map (λ (item : GovernanceInput). (item.source_id, input_digest item)) (by_source inputs) in
      if unresolved top
      then ok (
          seal request_digest (record {
            allow = false;
            status = conflicted;
            selected_digest = none;
            selected_source_ids = [];
            input_digests = digests;
            conflicts = found;
            reasons = "highest-priority governance sources provide conflicting decisions" ∷ [];
            digest = "";
            replay_frame_ref = replay_frame_ref;
          }))
      else elim (winning_group inputs) [
        | none ↦ err (value_error "list index out of range")
        | some (d, []) ↦ err (value_error "list index out of range")
        | some (d, w ∷ ws) ↦ do
          let allow = truthy (get "allow" w.decision)
          reasons ← reasons_of w.decision
          ok (
              seal request_digest (record {
                allow = allow;
                status = if allow then allowed else denied;
                selected_digest = some d;
                selected_source_ids =
                    sorted (map (λ (item : GovernanceInput). item.source_id) (w ∷ ws));
                input_digests = digests;
                conflicts = found;
                reasons = reasons;
                digest = "";
                replay_frame_ref = replay_frame_ref;
              }))
      ]

  abbrev pub preflight_event : String → PreflightDecision → Dict Value
  preflight_event request_digest d =
      ("type", text "governance_preflight")
      ∷ ("request_digest", text request_digest)
      ∷ ("decision_digest", text d.digest)
      ∷ ("decision", preflight_unsigned request_digest d)
      ∷ []

  -- `frame_ref or f"mesh-{decision_digest}"`.
  abbrev pub frame_ref : PreflightDecision → String
  frame_ref d = elim d.replay_frame_ref [
    | none ↦ "mesh-" ⧺ d.digest
    | some ref ↦ if is_blank ref then "mesh-" ⧺ d.digest else ref
  ]

  -- The frame of the decision, where the mesh records.
  unfoldable pub record_decision :
      Mesh → String → PreflightDecision → ReplayLog → PreflightDecision × ReplayLog
  record_decision m request_digest d log =
      if m.records
      then (
        record d { replay_frame_ref = some (frame_ref d) },
        append (frame_ref d) (preflight_event request_digest d) log,
      )
      else (d, log)

  -- What is checked before anything is aggregated or recorded.
  unfoldable pub check_inputs : Mesh → List GovernanceInput → String → Outcome (Unit {0})
  unfolding attested distinct
  check_inputs m inputs request_digest = do
    raise_if (is_blank request_digest) (mesh_error "request_digest must be a non-empty string")
    raise_if (is_empty inputs) (mesh_error "at least one governance input is required")
    raise_if (not (all (attested m) inputs)) (mesh_error "governance source attestation is invalid")
    raise_if (not (distinct (map (λ (i : GovernanceInput). i.source_id) inputs)))
        (mesh_error "source IDs must be unique per preflight")

  unfoldable pub aggregate_all :
      List GovernanceInput → String → Option String → Outcome PreflightDecision
  unfolding aggregate
  aggregate_all [] request_digest ref = err (mesh_error "at least one governance input is required")
  aggregate_all (i ∷ is) request_digest ref = aggregate i is request_digest ref

  unfoldable pub preflight :
      Mesh
      → List GovernanceInput
      → String
      → Option String
      → ReplayLog
      → Outcome (PreflightDecision × ReplayLog)
  unfolding check_inputs aggregate_all record_decision
  preflight m inputs request_digest replay_frame_ref log = do
    check_inputs m inputs request_digest
    decision ← aggregate_all inputs request_digest replay_frame_ref
    ok (record_decision m request_digest decision log)
