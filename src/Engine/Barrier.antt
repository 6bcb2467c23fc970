-- ===== src/Engine/Barrier.antt =====
-- What the barrier guarantees of one call of `execute`.
use governed_autonomy_substr.Base.{
  >>=-eq-ok, Decision, List, Option-cases, Outcome-cases, String, ap, arith, false, inl, inr, none,
  not, ok, raise_if, refl, some, true, ◌≡◌, ◌⊎◌,
}
use governed_autonomy_substr.Base.Int.{leb_ℤ, ℤ, ◌<ℤ◌}
use governed_autonomy_substr.Engine.Evidence.{validate_mesh_evidence}
use governed_autonomy_substr.Engine.Validate.{
  ExecutionBoundary, check_action, check_frame, check_policy, check_registered, check_signature,
  digest_differs, is_member, issuer_key, registered, validate,
}
use governed_autonomy_substr.Models.{Artifact, artifact_payload}
use governed_autonomy_substr.Platform.{Platform, PublicKey, verify_signature}
use governed_autonomy_substr.Policy.{Policy, PolicyRegistry, decide, get_policy, policy_digest}
use governed_autonomy_substr.Replay.{ReplayFrame, ReplayLog, get_frame, nonce_used}
use governed_autonomy_substr.Value.{
  Value, array, as_list, boolean, eq_value-text, float, get, integer, is_true, null, object, text,
}

module _ ⦃p : Platform⦄ where
  -- The frame that the artifact refers to, as an authorization of exactly this artifact.
  abbrev pub IsAuthorized : Artifact → ReplayLog → Type 0
  IsAuthorized a log =
      (frame : ReplayFrame) × (get_frame a.replay_frame_ref log ≡ some frame)
      × (get "type" frame.event ≡ text "authorization")
      × (get "nonce" frame.event ≡ text a.nonce)
      × (get "artifact_payload" frame.event ≡ text (artifact_payload a))

  -- Under a registry, the decision's policy is registered with the signed digest, if the decision has
  -- one, and the arbiter allows the request under it now.
  abbrev pub PolicyHolds : ExecutionBoundary → Artifact → Type 0
  PolicyHolds b a =
      (r : PolicyRegistry)
      → b.policy_registry ≡ some r
      → (policy_id : String) × (policy : Policy) × (d : Decision) × (get "policy" a.decision
          ≡ text policy_id)
        × (get_policy policy_id r ≡ some policy)
        × ((get "policy_digest" a.decision ≡ null)
            ⊎ (get "policy_digest" a.decision ≡ text (policy_digest policy)))
        × (decide b.arbiter a.action_request policy ≡ ok d)
        × (d.allow ≡ true)

  -- What the barrier checks before the action runs, apart from the mesh evidence of the issued frame.
  pub record Admissible (b : ExecutionBoundary) (now : ℤ) (a : Artifact) (log : ReplayLog)
      : Type 0 where
    pub key : PublicKey
    pub key_known : issuer_key a.issuer_key_id b ≡ some key
    pub signature_valid : verify_signature key (artifact_payload a) a.signature ≡ true
    pub unexpired : now <ℤ a.expires_at
    pub nonce_fresh : nonce_used a.nonce log ≡ false
    pub authorized : IsAuthorized a log
    pub allowed : get "allow" a.decision ≡ boolean true
    pub policy_holds : PolicyHolds b a
    pub action_listed :
        (actions : List Value) × (as_list (get "allowed_actions" a.decision) ≡ some actions)
        × (is_member (get "action" a.action_request) actions ≡ true)

  check_signature_sound :
      (b : ExecutionBoundary) (a : Artifact)
      → check_signature b a ≡ true
      → (key : PublicKey) × (issuer_key a.issuer_key_id b ≡ some key)
        × (verify_signature key (artifact_payload a) a.signature ≡ true)
  unfolding check_signature
  check_signature_sound b a e = elim (Option-cases (issuer_key a.issuer_key_id b)) [
    | inl unknown ↦ absurd (ground arith)
    | inr (key, known) ↦ (key, known, ground arith)
  ]

  check_frame_sound :
      (a : Artifact) (log : ReplayLog) (frame : ReplayFrame)
      → check_frame a log ≡ ok frame
      → (get_frame a.replay_frame_ref log ≡ some frame)
        × (get "type" frame.event ≡ text "authorization")
        × (get "nonce" frame.event ≡ text a.nonce)
        × (get "artifact_payload" frame.event ≡ text (artifact_payload a))
  unfolding check_frame
  check_frame_sound a log frame e = elim (Option-cases (get_frame a.replay_frame_ref log)) [
    | inl missing ↦ absurd (ground arith)
    | inr (f, found) ↦ (
      ground arith,
      eq_value-text "authorization" (get "type" frame.event) (ground arith),
      eq_value-text a.nonce (get "nonce" frame.event) (ground arith),
      eq_value-text (artifact_payload a) (get "artifact_payload" frame.event) (ground arith),
    )
  ]

  is_true_sound : (v : Value) → is_true v ≡ true → v ≡ boolean true
  is_true_sound null h = cc
  is_true_sound (boolean b) h = ap boolean h
  is_true_sound (integer n) h = cc
  is_true_sound (float x) h = cc
  is_true_sound (text s) h = cc
  is_true_sound (array vs) h = cc
  is_true_sound (object fs) h = cc

  registered_sound :
      (v : Value) (r : PolicyRegistry) (policy : Policy)
      → registered v r ≡ ok (some policy)
      → (policy_id : String) × (v ≡ text policy_id) × (get_policy policy_id r ≡ some policy)
  registered_sound null r policy h = absurd (ground arith)
  registered_sound (boolean b) r policy h = absurd (ground arith)
  registered_sound (integer n) r policy h = absurd (ground arith)
  registered_sound (float x) r policy h = absurd (ground arith)
  registered_sound (text s) r policy h = (s, refl, ground arith)
  registered_sound (array vs) r policy h = absurd (ground arith)
  registered_sound (object fs) r policy h = absurd (ground arith)

  digest_differs_sound :
      (v : Value) (s : String) → digest_differs v s ≡ false → (v ≡ null) ⊎ (v ≡ text s)
  unfolding digest_differs
  digest_differs_sound null s h = inl refl
  digest_differs_sound (boolean b) s h = inr (eq_value-text s (boolean b) (ground arith))
  digest_differs_sound (integer n) s h = inr (eq_value-text s (integer n) (ground arith))
  digest_differs_sound (float x) s h = inr (eq_value-text s (float x) (ground arith))
  digest_differs_sound (text t) s h = inr (eq_value-text s (text t) (ground arith))
  digest_differs_sound (array vs) s h = inr (eq_value-text s (array vs) (ground arith))
  digest_differs_sound (object fs) s h = inr (eq_value-text s (object fs) (ground arith))

  check_registered_sound :
      (b : ExecutionBoundary) (a : Artifact) (r : PolicyRegistry) (u : Unit {0})
      → check_registered b a r ≡ ok u
      → (policy_id : String) × (policy : Policy) × (d : Decision) × (get "policy" a.decision
          ≡ text policy_id)
        × (get_policy policy_id r ≡ some policy)
        × ((get "policy_digest" a.decision ≡ null)
            ⊎ (get "policy_digest" a.decision ≡ text (policy_digest policy)))
        × (decide b.arbiter a.action_request policy ≡ ok d)
        × (d.allow ≡ true)
  unfolding check_registered
  check_registered_sound b a r u e = elim (Outcome-cases (registered (get "policy" a.decision) r)) [
    | inr (failure, raised_it) ↦ absurd (ground arith)
    | inl (none, is_found) ↦ absurd (ground arith)
    | inl (some policy, is_found) ↦
        let (policy_id, named_eq, got) =
          registered_sound (get "policy" a.decision) r policy is_found in
        elim (Outcome-cases (decide b.arbiter a.action_request policy)) [
          | inr (failure, raised_it) ↦ absurd (ground arith)
          | inl (d, decided) ↦ (
            policy_id,
            policy,
            d,
            named_eq,
            got,
            digest_differs_sound (get "policy_digest" a.decision) (policy_digest policy)
                (ground arith),
            decided,
            ground arith,
          )
        ]
  ]

  check_policy_sound :
      (b : ExecutionBoundary) (a : Artifact) (u : Unit {0})
      → check_policy b a ≡ ok u
      → PolicyHolds b a
  unfolding check_policy
  check_policy_sound b a u e r has = check_registered_sound b a r u (ground arith)

  check_action_sound :
      (a : Artifact) (u : Unit {0})
      → check_action a ≡ ok u
      → (actions : List Value) × (as_list (get "allowed_actions" a.decision) ≡ some actions)
        × (is_member (get "action" a.action_request) actions ≡ true)
  unfolding check_action
  check_action_sound a u e = elim (Option-cases (as_list (get "allowed_actions" a.decision))) [
    | inl missing ↦ absurd (ground arith)
    | inr (actions, found) ↦ (actions, found, ground arith)
  ]

  pub validate_sound :
      (b : ExecutionBoundary) (now : ℤ) (a : Artifact) (log : ReplayLog) (u : Unit {0})
      → validate b now a log ≡ ok u
      → Admissible b now a log
  unfolding validate
  validate_sound b now a log u e =
      let (u1, signature_ok, e1) = >>=-eq-ok (raise_if (not (check_signature b a)) _) _ e in
      let (u2, time_ok, e2) = >>=-eq-ok (raise_if (leb_ℤ a.expires_at now) _) _ e1 in
      let (u3, nonce_ok, e3) = >>=-eq-ok (raise_if (nonce_used a.nonce log) _) _ e2 in
      let (frame, frame_ok, e4) = >>=-eq-ok (check_frame a log) _ e3 in
      let (u4, mesh_ok, e5) = >>=-eq-ok (validate_mesh_evidence a frame) _ e4 in
      let (u5, allow_ok, e6) =
        >>=-eq-ok (raise_if (not (is_true (get "allow" a.decision))) _) _ e5 in
      let (u6, policy_ok, action_ok) = >>=-eq-ok (check_policy b a) _ e6 in
      let (key, known, valid) = check_signature_sound b a (ground arith) in
      let (found, type_eq, nonce_eq, payload_eq) = check_frame_sound a log frame frame_ok in
      record {
        key = key;
        key_known = known;
        signature_valid = valid;
        unexpired = ground arith;
        nonce_fresh = ground arith;
        authorized = (frame, found, type_eq, nonce_eq, payload_eq);
        allowed = is_true_sound (get "allow" a.decision) (ground arith);
        policy_holds = check_policy_sound b a u6 policy_ok;
        action_listed = check_action_sound a u action_ok;
      }
