-- ===== src/Engine/Validate.antt =====
-- `_validate` of engine.py.
-- A trust store, or a dict of issuer keys: the constructor takes exactly one of the two.
use governed_autonomy_substr.Base.{
  Bool, Dict, List, Option, Outcome, String, any, authorization_error, err, false, join, lookup,
  none, not, ok, or_raise, raise_if, some, type_error, ◌>>=◌, ◌>>◌, ◌⧺◌,
}
use governed_autonomy_substr.Base.Int.{leb_ℤ, ℤ}
use governed_autonomy_substr.Engine.Evidence.{refuse, validate_mesh_evidence}
use governed_autonomy_substr.Models.{Artifact, artifact_payload}
use governed_autonomy_substr.Platform.{Platform, PublicKey, verify_signature}
use governed_autonomy_substr.Policy.{
  Arbiter, Policy, PolicyRegistry, decide, get_policy, policy_digest,
}
use governed_autonomy_substr.Replay.{ReplayFrame, ReplayLog, get_frame, has_type, nonce_used}
use governed_autonomy_substr.Trust.{TrustStore, resolve}
use governed_autonomy_substr.Value.{
  Value, array, as_list, eq_value, get, is_true, null, object, text,
}

pub data IssuerKeys : Type 0 where
  issuer_keys : Dict PublicKey → IssuerKeys
  trusted : TrustStore → IssuerKeys

pub record ExecutionBoundary : Type 0 where
  pub issuers : IssuerKeys
  pub policy_registry : Option PolicyRegistry
  pub arbiter : Arbiter

unfoldable pub issuer_key : String → ExecutionBoundary → Option PublicKey
issuer_key key_id b = elim b.issuers [
  | issuer_keys known ↦ lookup key_id known
  | trusted store ↦ resolve key_id store
]

-- `value in values`, where the latter must be a list.
abbrev pub is_member : Value → List Value → Bool
is_member v ws = any (λ (w : Value). eq_value w v) ws

-- `policy_registry.get(policy_id)`.
abbrev pub registered : Value → PolicyRegistry → Outcome (Option Policy)
registered (text policy_id) r = ok (get_policy policy_id r)
registered (array vs) r = err (type_error "unhashable type")
registered (object fs) r = err (type_error "unhashable type")
registered _ r = ok none

-- `expected is not None and expected != digest`.
unfoldable pub digest_differs : Value → String → Bool
digest_differs null s = false
digest_differs v s = not (eq_value v (text s))

module _ ⦃p : Platform⦄ where
  -- The signature under the issuer's key.
  unfoldable pub check_signature : ExecutionBoundary → Artifact → Bool
  unfolding issuer_key
  check_signature b a = elim (issuer_key a.issuer_key_id b) [
    | none ↦ false
    | some key ↦ verify_signature key (artifact_payload a) a.signature
  ]

  -- The authorization frame must be there, and hold the nonce and the exact payload.
  unfoldable pub check_frame : Artifact → ReplayLog → Outcome ReplayFrame
  check_frame a log = do
    frame ←
        or_raise (get_frame a.replay_frame_ref log)
          (authorization_error "authorization replay frame is missing")
    raise_if (not (has_type "authorization" frame.event))
        (authorization_error "authorization replay frame is missing")
    raise_if (not (eq_value (get "nonce" frame.event) (text a.nonce)))
        (authorization_error "nonce does not match authorization frame")
    raise_if (not (eq_value (get "artifact_payload" frame.event) (text (artifact_payload a))))
        (authorization_error "authorization frame does not match GAA")
    ok frame

  -- The policy of the decision as it is registered now, and the arbiter's verdict under it.
  unfoldable pub check_registered :
      ExecutionBoundary → Artifact → PolicyRegistry → Outcome (Unit {0})
  check_registered b a r = do
    found ← registered (get "policy" a.decision) r
    policy ← or_raise found (authorization_error "GAA policy is not registered")
    raise_if (digest_differs (get "policy_digest" a.decision) (policy_digest policy))
        (authorization_error "GAA policy digest does not match registry")
    decision ← decide b.arbiter a.action_request policy
    raise_if (not decision.allow) (
        authorization_error (
          "action request violates policy constraints: "
          ⧺ join "; " decision.reasons
          ⧺ " ["
          ⧺ join "," decision.reason_codes
          ⧺ "]"))

  unfoldable pub check_policy : ExecutionBoundary → Artifact → Outcome (Unit {0})
  unfolding check_registered
  check_policy b a = elim b.policy_registry [ none ↦ ok tt | some r ↦ check_registered b a r ]

  unfoldable pub check_action : Artifact → Outcome (Unit {0})
  check_action a = elim (as_list (get "allowed_actions" a.decision)) [
    | none ↦ refuse "requested action is outside policy constraints"
    | some actions ↦
        raise_if (not (is_member (get "action" a.action_request) actions))
          (authorization_error "requested action is outside policy constraints")
  ]

  unfoldable pub validate : ExecutionBoundary → ℤ → Artifact → ReplayLog → Outcome (Unit {0})
  unfolding check_signature check_frame check_policy check_action
  validate b now a log = do
    raise_if (not (check_signature b a))
        (authorization_error "GAA signature is invalid or issuer is unknown")
    raise_if (leb_ℤ a.expires_at now) (authorization_error "GAA is expired")
    raise_if (nonce_used a.nonce log) (authorization_error "GAA nonce has already been used")
    frame ← check_frame a log
    validate_mesh_evidence a frame
    raise_if (not (is_true (get "allow" a.decision)))
        (authorization_error "policy decision does not allow execution")
    check_policy b a
    check_action a
