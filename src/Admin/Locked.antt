-- ===== src/Admin/Locked.antt =====
-- Histories of trust changes.
use governed_autonomy_substr.Admin.TrustChange.{
  TrustChangeManager, TrustChangeRequest, submit_add, submit_revoke, trust_change_request,
  verify_trust_change,
}
use governed_autonomy_substr.Base.{
  List, Outcome, String, String-discrete, [], arith, err, false, none, ok, refl, ◌∷◌, ◌≡◌,
}
use governed_autonomy_substr.Platform.{Platform}
use governed_autonomy_substr.Trust.{TrustStore, resolve}
use governed_autonomy_substr.Value.{Value}

pub data TrustCall : Type 0 where
  adding_key : String → String → String → String → String → TrustCall
  revoking_key : String → String → String → String → TrustCall

abbrev pub trust_after :
    TrustChangeManager → Outcome (Value × TrustChangeManager) → TrustChangeManager
trust_after m (ok r) = r.1
trust_after m (err e) = m

module _ ⦃p : Platform⦄ where
  unfoldable pub trust_step : TrustCall → TrustChangeManager → TrustChangeManager
  trust_step (adding_key key_id public_key_b64 by signature actor_id) m =
      trust_after m (submit_add key_id public_key_b64 by signature actor_id m)
  trust_step (revoking_key key_id by signature actor_id) m =
      trust_after m (submit_revoke key_id by signature actor_id m)

  unfoldable pub trust_run : List TrustCall → TrustChangeManager → TrustChangeManager
  trust_run [] m = m
  trust_run (c ∷ cs) m = trust_run cs (trust_step c m)

  verify-locked :
      (r : TrustChangeRequest) (store : TrustStore)
      → resolve r.requested_by_key_id store ≡ none
      → verify_trust_change r store ≡ false
  unfolding verify_trust_change
  verify-locked r store locked = ground arith

  trust_step-locked :
      (c : TrustCall) (m : TrustChangeManager)
      → ((key_id : String) → resolve key_id m.trust_store ≡ none)
      → trust_step c m ≡ m
  unfolding trust_step submit_add submit_revoke trust_change_request String-discrete
  trust_step-locked (adding_key key_id public_key_b64 by signature actor_id) m locked =
      let r : TrustChangeRequest = record {
        action = "add";
        key_id = key_id;
        public_key_b64 = public_key_b64;
        requested_by_key_id = by;
        signature = signature;
      } in
      let refused = verify-locked r m.trust_store (locked by) in ground arith
  trust_step-locked (revoking_key key_id by signature actor_id) m locked =
      let r : TrustChangeRequest = record {
        action = "revoke";
        key_id = key_id;
        public_key_b64 = "";
        requested_by_key_id = by;
        signature = signature;
      } in
      let refused = verify-locked r m.trust_store (locked by) in ground arith

  -- On a store where no key resolves, because none was added or all are revoked, no history of trust changes,
  -- whatever its requests and signatures are, adds or revokes a key: the manager stays as it is.
  pub trust_run-locked :
      (cs : List TrustCall) (m : TrustChangeManager)
      → ((key_id : String) → resolve key_id m.trust_store ≡ none)
      → trust_run cs m ≡ m
  unfolding trust_run
  trust_run-locked [] m locked = refl
  trust_run-locked (c ∷ cs) m locked =
      rw (trust_step-locked c m locked) (trust_run-locked cs m locked)
