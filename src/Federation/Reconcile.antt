-- ===== src/Federation/Reconcile.antt =====
-- `GovernanceReconciler`: a signed envelope of another organization against the own registry. A call that
-- raises half way keeps what it has done until then, so the state is returned beside the outcome.
use governed_autonomy_substr.Base.{
  Bool, Dict, List, Option, Outcome, String, [], all, contains, eq_text, err, false,
  federation_error, if◌then◌else◌, is_some, key_error, keys, lookup, none, not, ok, or_raise,
  raise_if, same_pair, some, sorted, type_error, ◌&&◌, ◌++◌, ◌>>=◌, ◌>>◌, ◌||◌, ◌∷◌, ◌⧺◌,
}
use governed_autonomy_substr.Base.Int.{ℤ}
use governed_autonomy_substr.Federation.{SyncEnvelope, snapshot_from_registry, verify_envelope}
use governed_autonomy_substr.Platform.{Platform}
use governed_autonomy_substr.Policy.{
  PolicyRegistry, policy_digest, register_signed, verify_manifest,
}
use governed_autonomy_substr.Policy.Wire.{manifest_from_dict, policy_from_dict}
use governed_autonomy_substr.Trust.{TrustStore}
use governed_autonomy_substr.Value.{Value, as_dict, get, text}

pub record Conflict : Type 0 where
  pub policy_id : String
  pub local_digest : String
  pub remote_digest : String

pub data SyncStatus : Type 0 where
  identical in_conflict adopted : SyncStatus

pub record ReconciliationResult : Type 0 where
  pub status : SyncStatus
  pub imported_policy_ids : List String
  pub conflicts : List Conflict
  pub metadata : Option (Dict Value)

pub record Reconciler : Type 0 where
  pub local_org : String
  pub registry : PolicyRegistry
  pub trust_store : TrustStore
  pub organization_keys : Dict String
  pub max_event_age_seconds : ℤ
  pub seen_nonces : List (String × String)

-- `replay_key in self._seen_nonces`.
abbrev pub has_seen : String → String → List (String × String) → Bool
has_seen org nonce [] = false
has_seen org nonce ((o, n) ∷ seen) = same_pair org nonce o n || has_seen org nonce seen

-- The imports and the conflicts so far, each newest last.
pub record Progress : Type 0 where
  pub imports : List String
  pub conflicts : List Conflict

-- `dict == dict` of texts.
abbrev pub same_digests : Dict String → Dict String → Bool
same_digests d d' =
    all (λ (e : String × String). elim (lookup e.0 d') [ none ↦ false | some v ↦ eq_text e.1 v ]) d
    && all (λ (k : String). contains k d) (keys d')

module _ ⦃p : Platform⦄ where
  -- An entry of an unknown policy: its manifest has to have the digest and a valid signature.
  unfoldable pub import_manifest :
      TrustStore → String → String → Value → PolicyRegistry → Outcome PolicyRegistry
  unfolding manifest_from_dict register_signed
  import_manifest store policy_id remote_digest entry r = do
    d ← or_raise (as_dict entry) (type_error "argument is not iterable")
    raise_if (not (contains "signature" d))
        (federation_error ("unknown policy " ⧺ policy_id ⧺ " is not signed"))
    m ← manifest_from_dict entry
    raise_if (not (eq_text (policy_digest m.policy) remote_digest && verify_manifest m store))
        (federation_error ("unknown policy " ⧺ policy_id ⧺ " has invalid manifest signature"))
    register_signed m (some store) r

  -- The digest of an entry's policy, which has to be the one that the snapshot states.
  unfoldable pub remote_digest_of : Dict String → String → Value → Outcome String
  unfolding policy_from_dict
  remote_digest_of stated policy_id entry = do
    remote_digest ← or_raise (lookup policy_id stated) (key_error policy_id)
    d ← or_raise (as_dict entry) (type_error "object has no attribute 'get'")
    raise_if (not (is_some (as_dict (get "policy" d))))
        (federation_error "remote policy entry is invalid")
    parsed ← policy_from_dict (get "policy" d)
    raise_if (not (eq_text (policy_digest parsed) remote_digest))
        (federation_error ("remote policy digest mismatch: " ⧺ policy_id))
    ok remote_digest

  -- The body of the loop over the snapshot's policies.
  unfoldable pub reconcile_entry :
      TrustStore
      → Dict String
      → String
      → Value
      → Progress
      → PolicyRegistry
      → Outcome (Progress × PolicyRegistry)
  unfolding import_manifest remote_digest_of
  reconcile_entry store stated policy_id entry progress r = do
    remote_digest ← remote_digest_of stated policy_id entry
    elim (lookup policy_id r.policies) [
      | some existing ↦ ok (
        if eq_text (policy_digest existing) remote_digest then progress else record progress {
          conflicts =
              progress.conflicts
              ++ record {
                policy_id = policy_id;
                local_digest = policy_digest existing;
                remote_digest = remote_digest;
              }
                ∷ [];
        },
        r,
      )
      | none ↦ do
        r' ← import_manifest store policy_id remote_digest entry r
        ok (record progress { imports = progress.imports ++ policy_id ∷ [] }, r')
    ]

  unfoldable pub reconcile_entries :
      TrustStore
      → Dict String
      → Dict Value
      → Progress
      → PolicyRegistry
      → Outcome Progress × PolicyRegistry
  unfolding reconcile_entry
  reconcile_entries store stated [] progress r = (ok progress, r)
  reconcile_entries store stated ((policy_id, entry) ∷ rest) progress r =
      elim (reconcile_entry store stated policy_id entry progress r) [
        | err e ↦ (err e, r)
        | ok next ↦ reconcile_entries store stated rest next.0 next.1
      ]

  -- The tests of `reconcile` before it takes the nonce.
  unfoldable pub check_envelope : SyncEnvelope → ℤ → Reconciler → Outcome (Unit {0})
  unfolding verify_envelope
  check_envelope envelope now g = do
    let event = envelope.event
    let unknown =
        federation_error "sync event source organization is unknown or signer is not registered"
    expected_key ← or_raise (lookup event.source_org g.organization_keys) unknown
    raise_if (not (eq_text expected_key event.signer_key_id)) unknown
    raise_if (not (eq_text event.target_org g.local_org))
        (federation_error "sync event target organization does not match local organization")
    raise_if (has_seen event.source_org event.nonce g.seen_nonces)
        (federation_error "sync event nonce has already been consumed")
    verify_envelope envelope g.trust_store now g.max_event_age_seconds
    raise_if (not (same_digests event.policy_digests envelope.snapshot.policy_digests))
        (federation_error "sync event policy digests do not match snapshot")

  abbrev pub result_of : SyncEnvelope → Progress → ReconciliationResult
  result_of envelope progress = elim (progress.conflicts) [
    | [] ↦ record {
      status = adopted;
      imported_policy_ids = sorted progress.imports;
      conflicts = [];
      metadata = some (
          ("source_org", text envelope.event.source_org)
          ∷ ("snapshot_digest", text envelope.snapshot.snapshot_digest)
          ∷ []);
    }
    | _ ↦ record {
      status = in_conflict;
      imported_policy_ids = progress.imports;
      conflicts = progress.conflicts;
      metadata = some (("source_org", text envelope.event.source_org) ∷ []);
    }
  ]

  abbrev pub finish_reconcile :
      SyncEnvelope
      → Reconciler
      → Outcome Progress × PolicyRegistry
      → Outcome ReconciliationResult × Reconciler
  finish_reconcile envelope g (err e, r) = (err e, record g { registry = r })
  finish_reconcile envelope g (ok progress, r) =
      (ok (result_of envelope progress), record g { registry = r })

  -- What `reconcile` does with an envelope that passes the tests: the nonce is taken first. A registry with
  -- a file is saved at the end.
  unfoldable pub adopt : SyncEnvelope → Reconciler → Outcome ReconciliationResult × Reconciler
  unfolding reconcile_entries snapshot_from_registry
  adopt envelope g =
      let event = envelope.event in
      let snapshot = envelope.snapshot in
      let g' : Reconciler = record g {
        seen_nonces = (event.source_org, event.nonce) ∷ g.seen_nonces;
      } in
      let own = snapshot_from_registry g.registry g.local_org snapshot.version in
      if eq_text own.snapshot_digest snapshot.snapshot_digest
      then (
        ok (record {
          status = identical;
          imported_policy_ids = [];
          conflicts = [];
          metadata = some (("snapshot_digest", text own.snapshot_digest) ∷ []);
        }),
        g',
      )
      else finish_reconcile envelope g' (
          reconcile_entries g.trust_store snapshot.policy_digests snapshot.policies
            (record { imports = []; conflicts = [] }) g.registry)

  unfoldable pub reconcile :
      SyncEnvelope → ℤ → Reconciler → Outcome ReconciliationResult × Reconciler
  unfolding check_envelope adopt
  reconcile envelope now g = elim (check_envelope envelope now g) [
    | err e ↦ (err e, g)
    | ok checked_envelope ↦ adopt envelope g
  ]
