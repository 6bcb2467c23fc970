-- ===== src/Issuer/Accepted.antt =====
-- An artifact that was just issued passes the barrier.
use governed_autonomy_substr.Base.{
  Bool, Decision, Dict, List, Option, String, String-discrete, [], any, arith, contains, eq_text,
  eq_text_self, false, find, inl, inr, lookup, map, none, ok, refl, some, true, ◌++◌, ◌∷◌, ◌≡◌, ◌⊎◌,
}
use governed_autonomy_substr.Base.Int.{leb_ℤ, ℤ, ◌+ℤ◌, ◌<ℤ◌}
use governed_autonomy_substr.Engine.{
  ExecutionBoundary, check_action, check_frame, check_policy, check_registered, check_signature,
  digest_differs, evidence_keys, is_member, issuer_key, validate, validate_mesh_evidence,
}
use governed_autonomy_substr.Issuer.Authorize.{
  AuthorizationIssuer, authorization_id, authorize, issued_event, unsigned_artifact,
}
use governed_autonomy_substr.Issuer.Granted.{authorize-Grant}
use governed_autonomy_substr.Issuer.Request.{ApprovalArgument}
use governed_autonomy_substr.Models.{Artifact, artifact_payload}
use governed_autonomy_substr.Platform.{Platform, PublicKey, Signs, verify_signature}
use governed_autonomy_substr.Policy.{
  Arbiter, Policy, PolicyRegistry, decide, get_policy, is_allowed, policy_digest,
}
use governed_autonomy_substr.Policy.Verdict.{decide-Permits}
use governed_autonomy_substr.Replay.{
  ReplayFrame, ReplayLog, append, create_frame, get_frame, head_hash, no_entry, nonce_used,
}
use governed_autonomy_substr.Value.{
  Value, array, boolean, elements, eq_value, float, get, integer, items, null, object, text, texts,
}

-- The barrier's registry, if it has one, holds the policy of the authorization.
abbrev pub Registers : ExecutionBoundary → Policy → Type 0
Registers b policy =
    (b.policy_registry ≡ none)
    ⊎ ((r : PolicyRegistry) × (b.policy_registry ≡ some r)
        × (get_policy policy.policy_id r ≡ some policy))

eq_value_self : (s : String) → eq_value (text s) (text s) ≡ true
unfolding eq_value
eq_value_self s = eq_text_self s

eq_text_sym : (s t : String) → eq_text s t ≡ eq_text t s
eq_text_sym s t = ground arith

is_member-texts :
    (v : Value) (actions : List String)
    → is_allowed v actions ≡ true
    → is_member v (elements (items (map text actions))) ≡ true
unfolding is_allowed eq_value
is_member-texts (text s) [] h = absurd (ground arith)
is_member-texts (text s) (a ∷ rest) h =
    ground (arith, is_member-texts (text s) rest, eq_text_sym a s)
is_member-texts null actions h = absurd (ground arith)
is_member-texts (boolean b) actions h = absurd (ground arith)
is_member-texts (integer n) actions h = absurd (ground arith)
is_member-texts (float x) actions h = absurd (ground arith)
is_member-texts (array vs) actions h = absurd (ground arith)
is_member-texts (object fs) actions h = absurd (ground arith)

find-absent :
    {A : Type 0} (f : A → Bool) (xs : List A) (x : A)
    → find f xs ≡ none
    → f x ≡ true
    → find f (xs ++ x ∷ []) ≡ some x
find-absent f [] x h hx = ground arith
find-absent f (y ∷ ys) x h hx = ground (arith, find-absent f ys x)

module _ ⦃p : Platform⦄ where
  get_frame-append :
      (frame_id : String) (event : Dict Value) (log : ReplayLog)
      → get_frame frame_id log ≡ none
      → get_frame frame_id (append frame_id event log)
        ≡ some (create_frame frame_id (head_hash log) event)
  unfolding get_frame append create_frame
  get_frame-append frame_id event log h =
      find-absent (λ (f : ReplayFrame). eq_text f.frame_id frame_id) log.frames
        (create_frame frame_id (head_hash log) event) h (eq_text_self frame_id)

  -- The entries of a decision that was made.
  decide-fields :
      (arbiter : Arbiter) (request : Dict Value) (policy : Policy) (d : Decision)
      → decide arbiter request policy ≡ ok d
      → (d.policy ≡ policy.policy_id)
        × (d.policy_digest ≡ policy_digest policy)
        × (d.allowed_actions ≡ policy.allowed_actions)
        × (d.mesh_preflight_digest ≡ none)
  unfolding decide
  decide-fields arbiter request policy d e =
      (ground arith, ground arith, ground arith, ground arith)

  module _ (issuer : AuthorizationIssuer) (b : ExecutionBoundary) (policy : Policy)
      (request : Dict Value) (decision : Decision) (expires_at : ℤ) (nonce signature : String)
      (decided : decide issuer.arbiter request policy ≡ ok decision)
      (allowing : decision.allow ≡ true) where
    abbrev unsigned : Artifact
    unsigned = unsigned_artifact issuer request decision expires_at nonce

    abbrev signed : Artifact
    signed = record unsigned { signature = signature }

    abbrev event : Dict Value
    event = issued_event nonce (artifact_payload unsigned) decision []

    check_signature-issued :
        (key : PublicKey)
        → issuer_key issuer.signer.key_id b ≡ some key
        → verify_signature key (artifact_payload unsigned) signature ≡ true
        → check_signature b signed ≡ true
    unfolding check_signature
    check_signature-issued key known valid = rw (known, check_signature) valid

    event-entries :
        (get "type" event ≡ text "authorization")
        × (get "nonce" event ≡ text nonce)
        × (get "artifact_payload" event ≡ text (artifact_payload unsigned))
        × (any (λ (k : String). contains k event) evidence_keys ≡ false)
    unfolding lookup String-discrete
    event-entries = (refl, refl, refl, refl)

    decision-entries :
        (get "allow" signed.decision ≡ boolean decision.allow)
        × (get "allowed_actions" signed.decision ≡ texts decision.allowed_actions)
        × (get "policy" signed.decision ≡ text decision.policy)
        × (get "policy_digest" signed.decision ≡ text decision.policy_digest)
        × (decision.mesh_preflight_digest ≡ none
            → get "mesh_preflight_digest" signed.decision ≡ null)
    unfolding lookup String-discrete
    decision-entries = (refl, refl, refl, refl, (λ absent. rw absent refl))

    check_frame-issued :
        (log : ReplayLog)
        → get_frame (authorization_id nonce) log ≡ none
        → check_frame signed (append (authorization_id nonce) event log)
          ≡ ok (create_frame (authorization_id nonce) (head_hash log) event)
    unfolding check_frame create_frame
    check_frame-issued log absent =
        let (type_eq, nonce_eq, payload_eq, no_evidence) = event-entries in
        rw
          (
            get_frame-append (authorization_id nonce) event log absent,
            check_frame,
            type_eq,
            nonce_eq,
            payload_eq,
            eq_value_self "authorization",
            eq_value_self nonce,
            eq_value_self (artifact_payload unsigned),
          )
          refl

    mesh-issued :
        (log : ReplayLog)
        → validate_mesh_evidence signed
            (create_frame (authorization_id nonce) (head_hash log) event)
          ≡ ok tt
    unfolding validate_mesh_evidence create_frame
    mesh-issued log =
        let (_, _, _, no_evidence) = event-entries in
        let (_, _, _, no_digest) = decide-fields issuer.arbiter request policy decision decided in
        let (_, _, _, _, no_entry) = decision-entries in
        rw (no_entry no_digest, validate_mesh_evidence, no_evidence) refl

    check_policy-issued :
        b.arbiter ≡ issuer.arbiter → Registers b policy → check_policy b signed ≡ ok tt
    unfolding check_policy check_registered digest_differs
    check_policy-issued arbiters (inl no_registry) = rw (no_registry, check_policy) refl
    check_policy-issued arbiters (inr (r, has_registry, found)) =
        let (id_eq, digest_eq, _, _) =
          decide-fields issuer.arbiter request policy decision decided in
        let (_, _, policy_entry, digest_entry, _) = decision-entries in
        rw
          (
            has_registry,
            check_policy,
            check_registered,
            policy_entry,
            digest_entry,
            id_eq,
            digest_eq,
            found,
            digest_differs,
            eq_value_self (policy_digest policy),
            arbiters,
            decided,
            allowing,
          )
          refl

    check_action-issued : check_action signed ≡ ok tt
    unfolding check_action
    check_action-issued =
        let (_, _, actions_eq, _) = decide-fields issuer.arbiter request policy decision decided in
        let (_, actions_entry, _, _, _) = decision-entries in
        let permitted =
          (decide-Permits issuer.arbiter request policy decision decided).0.0 allowing in
        rw
          (
            actions_entry,
            check_action,
            actions_eq,
            is_member-texts (get "action" request) policy.allowed_actions permitted.action_allowed,
          )
          refl

    -- Every check of the barrier passes.
    validate-issued :
        (key : PublicKey) (now : ℤ) (log : ReplayLog)
        → issuer_key issuer.signer.key_id b ≡ some key
        → verify_signature key (artifact_payload unsigned) signature ≡ true
        → now <ℤ expires_at
        → nonce_used nonce log ≡ false
        → get_frame (authorization_id nonce) log ≡ none
        → b.arbiter ≡ issuer.arbiter
        → Registers b policy
        → validate b now signed (append (authorization_id nonce) event log) ≡ ok tt
    unfolding validate nonce_used append lookup String-discrete
    validate-issued key now log known valid early fresh absent arbiters registry =
        let (allow_entry, _, _, _, _) = decision-entries in
        let not_late : leb_ℤ expires_at now ≡ false = ground arith in
        rw
          (
            check_signature-issued key known valid,
            not_late,
            fresh,
            check_frame-issued log absent,
            mesh-issued log,
            allow_entry,
            allowing,
            check_policy-issued arbiters registry,
            validate,
          )
          check_action-issued

  -- What `authorize` returns without mesh inputs, the barrier accepts: if the boundary knows the issuer's
  -- key, the key is the signer's, the artifact has not expired, the nonce and its frame id were not in the
  -- log, and the boundary has the issuer's arbiter and either no registry or one that holds the policy, then
  -- `validate` passes.
  pub authorize-validate :
      (issuer : AuthorizationIssuer) (b : ExecutionBoundary) (key : PublicKey)
      (request : Dict Value) (policy : Policy) (ttl_seconds : ℤ)
      (approvals : Option (List ApprovalArgument)) (issued_at now : ℤ) (nonce : String)
      (log log' : ReplayLog) (a : Artifact)
      → authorize issuer request policy ttl_seconds approvals [] issued_at nonce log ≡ (ok a, log')
      → Signs issuer.signer key
      → issuer_key issuer.signer.key_id b ≡ some key
      → now <ℤ issued_at +ℤ ttl_seconds
      → nonce_used nonce log ≡ false
      → get_frame (authorization_id nonce) log ≡ none
      → b.arbiter ≡ issuer.arbiter
      → Registers b policy
      → validate b now a log' ≡ ok tt
  authorize-validate issuer b key request policy ttl_seconds approvals issued_at now nonce log log'
        a e signs known early fresh absent arbiters registry =
      let (_, _, effective, _, g) =
        authorize-Grant issuer request policy ttl_seconds approvals issued_at nonce log log' a e in
      rw (g.artifact_eq, g.log_eq)
        (validate-issued issuer b policy effective g.decision (issued_at +ℤ ttl_seconds) nonce
          g.signature g.decided g.allowed key now log known (signs _ _ g.signature_made) early fresh
          absent arbiters registry)
