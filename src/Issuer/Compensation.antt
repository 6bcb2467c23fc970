-- ===== src/Issuer/Compensation.antt =====
-- `authorize_compensation`: what must be on record before it issues anything.
use mathlib.Core.List.{Mem, mem-cons_self, mem-cons_of_mem}
use governed_autonomy_substr.Base.{
  Bool-cases, Dict, List, String, [], any, arith, inl, inr, insert, keep, map, none, ok, true, ◌&&◌,
  ◌∷◌, ◌≡◌,
}
use governed_autonomy_substr.Base.Int.{ℤ}
use governed_autonomy_substr.Issuer.Authorize.{
  AuthorizationIssuer, authorize, authorize_compensation, is_failed_execution,
}
use governed_autonomy_substr.Models.{Artifact}
use governed_autonomy_substr.Platform.{Platform}
use governed_autonomy_substr.Policy.{Policy}
use governed_autonomy_substr.Replay.{ReplayFrame, ReplayLog, events_for_nonce, has_nonce}
use governed_autonomy_substr.Value.{Value, eq_value-text, get, text}

-- The frame of a failed execution of the nonce.
pub IsFailedExecution : String → ReplayFrame → Type 0
IsFailedExecution nonce f =
    (get "type" f.event ≡ text "execution")
    × (get "status" f.event ≡ text "failed")
    × (get "nonce" f.event ≡ text nonce)

is_failed_execution_sound :
    (nonce : String) (f : ReplayFrame)
    → has_nonce nonce f.event ≡ true
    → is_failed_execution f.event ≡ true
    → IsFailedExecution nonce f
unfolding IsFailedExecution
is_failed_execution_sound nonce f same failed_event = (
  eq_value-text "execution" (get "type" f.event) (ground arith),
  eq_value-text "failed" (get "status" f.event) (ground arith),
  eq_value-text nonce (get "nonce" f.event) same,
)

failed_frame :
    (nonce : String) (fs : List ReplayFrame)
    → any is_failed_execution (keep (has_nonce nonce) (map (λ (f : ReplayFrame). f.event) fs))
      ≡ true
    → (f : ReplayFrame) × Mem f fs × IsFailedExecution nonce f
failed_frame nonce [] h = absurd (ground arith)
failed_frame nonce (f ∷ fs) h =
    elim (Bool-cases (has_nonce nonce f.event && is_failed_execution f.event)) [
      | inl both ↦
          (f, mem-cons_self, is_failed_execution_sound nonce f (ground arith) (ground arith))
      | inr other ↦
          let (g, later, failed_g) = failed_frame nonce fs (ground arith) in
          (g, mem-cons_of_mem f later, failed_g)
    ]

module _ ⦃p : Platform⦄ where
  -- A compensation is authorized only after a failed execution is on record: if `authorize_compensation`
  -- returns an artifact, then a frame of the log is an execution event of the failed nonce with status
  -- "failed", and the artifact is what `authorize` returns for the request marked with the failed nonce.
  authorize_compensation_audited :
      (issuer : AuthorizationIssuer) (failed_nonce : String) (request : Dict Value)
      (policy : Policy) (ttl_seconds now : ℤ) (nonce : String) (log log' : ReplayLog) (a : Artifact)
      → authorize_compensation issuer failed_nonce request policy ttl_seconds now nonce log
        ≡ (ok a, log')
      → ((f : ReplayFrame) × Mem f log.frames × IsFailedExecution failed_nonce f)
        × (authorize issuer
              (insert "compensation_for" (text failed_nonce) request)
              policy
              ttl_seconds
              none
              []
              now
              nonce
              log
            ≡ (ok a, log'))
  unfolding authorize_compensation events_for_nonce
  authorize_compensation_audited issuer failed_nonce request policy ttl_seconds now nonce log log' a
        e =
      let found : any is_failed_execution
            (keep (has_nonce failed_nonce) (map (λ (f : ReplayFrame). f.event) log.frames))
          ≡ true =
        ground arith in
      (failed_frame failed_nonce log.frames found, ground arith)
