-- ===== src/Federation/Accepted.antt =====
-- What an envelope has to be for the reconciler to act on it, and that it acts on each nonce once.
use governed_autonomy_substr.Base.{
  Error, List, Option-cases, Outcome, Outcome-cases, String, [], ap, arith, eq_text, err, false,
  if_intro, inl, inr, lookup, ok, refl, some, sym, true, ◌∙◌, ◌∷◌, ◌≡◌, ◌⊎◌,
}
use governed_autonomy_substr.Base.Int.{ltb_ℤ, pos, ℤ, ◌+ℤ◌}
use governed_autonomy_substr.Federation.{
  SyncEnvelope, SyncEvent, envelope_payload, event_unsigned, key_verifies, snapshot_from_registry,
  verify_envelope, verify_event,
}
use governed_autonomy_substr.Federation.Imports.{Imports, Imports-same, reconcile_entries-Imports}
use governed_autonomy_substr.Federation.Reconcile.{
  Progress, Reconciler, ReconciliationResult, adopt, check_envelope, finish_reconcile, has_seen,
  reconcile, reconcile_entries,
}
use governed_autonomy_substr.Platform.{Platform, canonical_json}
use governed_autonomy_substr.Policy.{PolicyRegistry}
use governed_autonomy_substr.Trust.{TrustStore}
use governed_autonomy_substr.Value.{dict}

-- What `reconcile` has checked of an envelope that it acts on.
pub record Accepts ⦃p : Platform⦄ (envelope : SyncEnvelope) (now : ℤ) (g : Reconciler)
    : Type 0 where
  pub signer_known :
      lookup envelope.event.source_org g.organization_keys ≡ some (envelope.event.signer_key_id)
  pub for_us : envelope.event.target_org ≡ g.local_org
  pub unseen : has_seen envelope.event.source_org envelope.event.nonce g.seen_nonces ≡ false
  pub not_from_later : ltb_ℤ (now +ℤ pos 30) envelope.event.issued_at ≡ false
  pub not_stale : ltb_ℤ (envelope.event.issued_at +ℤ g.max_event_age_seconds) now ≡ false
  pub event_signed :
      key_verifies envelope.event.signer_key_id
        (canonical_json (dict (event_unsigned envelope.event)))
        envelope.event.signature
        g.trust_store
      ≡ true
  pub envelope_signed :
      key_verifies envelope.event.signer_key_id
        (envelope_payload envelope.event envelope.snapshot)
        envelope.signature
        g.trust_store
      ≡ true
  pub of_source : envelope.event.source_org ≡ envelope.snapshot.source_org
  pub of_digest : envelope.event.snapshot_digest ≡ envelope.snapshot.snapshot_digest

module _ ⦃p : Platform⦄ where
  verify_event-ok :
      (e : SyncEvent) (store : TrustStore) (now age : ℤ)
      → verify_event e store now age ≡ ok tt
      → (ltb_ℤ (now +ℤ pos 30) e.issued_at ≡ false)
        × (ltb_ℤ (e.issued_at +ℤ age) now ≡ false)
        × (key_verifies e.signer_key_id (canonical_json (dict (event_unsigned e))) e.signature store
            ≡ true)
  unfolding verify_event
  verify_event-ok e store now age passed_it = (ground arith, ground arith, ground arith)

  check_envelope-Accepts :
      (envelope : SyncEnvelope) (now : ℤ) (g : Reconciler)
      → check_envelope envelope now g ≡ ok tt
      → Accepts envelope now g
  unfolding check_envelope verify_envelope
  check_envelope-Accepts envelope now g passed_it =
      elim (Option-cases (lookup envelope.event.source_org g.organization_keys)) [
        | inl unknown ↦ absurd (ground arith)
        | inr (expected_key, known) ↦
            elim (Outcome-cases
              (verify_event envelope.event g.trust_store now g.max_event_age_seconds)) [
                | inr (failure, unverified) ↦ absurd (ground arith)
                | inl (u, verified) ↦
                    let (in_time, fresh, signed_event) =
                      verify_event-ok envelope.event g.trust_store now g.max_event_age_seconds
                        verified in
                    record {
                      signer_known = ground arith;
                      for_us = ground arith;
                      unseen = ground arith;
                      not_from_later = in_time;
                      not_stale = fresh;
                      event_signed = signed_event;
                      envelope_signed = ground arith;
                      of_source = ground arith;
                      of_digest = ground arith;
                    }
              ]
      ]

  -- What a call that acts on an envelope does.
  abbrev pub Acts : SyncEnvelope → Reconciler → Reconciler → Type 0
  Acts envelope g g' =
      (g'.seen_nonces ≡ (envelope.event.source_org, envelope.event.nonce) ∷ g.seen_nonces)
      × Imports g.trust_store g.registry g'.registry

  finish_reconcile-state :
      (envelope : SyncEnvelope) (g : Reconciler) (o : Outcome Progress × PolicyRegistry)
      → ((finish_reconcile envelope g o).1.seen_nonces ≡ g.seen_nonces)
        × ((finish_reconcile envelope g o).1.registry ≡ o.1)
  finish_reconcile-state envelope g (err e, r) = (refl, refl)
  finish_reconcile-state envelope g (ok progress, r) = (refl, refl)

  adopt-Acts : (envelope : SyncEnvelope) (g : Reconciler) → Acts envelope g (adopt envelope g).1
  unfolding adopt
  adopt-Acts envelope g =
      let snapshot = envelope.snapshot in
      let own = snapshot_from_registry g.registry g.local_org snapshot.version in
      let g' : Reconciler = record g {
        seen_nonces = (envelope.event.source_org, envelope.event.nonce) ∷ g.seen_nonces;
      } in
      let done =
        reconcile_entries g.trust_store snapshot.policy_digests snapshot.policies
          (record { imports = []; conflicts = [] }) g.registry in
      let (seen_eq, registry_eq) = finish_reconcile-state envelope g' done in
      if_intro (λ (o : Outcome ReconciliationResult × Reconciler). Acts envelope g (o.1))
        (eq_text own.snapshot_digest snapshot.snapshot_digest)
        (refl, Imports-same g.trust_store g.registry)
        (
          seen_eq,
          rw registry_eq (
              reconcile_entries-Imports g.trust_store snapshot.policy_digests snapshot.policies
                (record { imports = []; conflicts = [] }) g.registry),
        )

  -- A call of the reconciler either raises and changes nothing, or the envelope is accepted: its source
  -- organization is registered with the key that has signed both the event and the envelope, it is meant for
  -- this organization, it is in time, it binds the snapshot, and its nonce is new. Then, also where the call
  -- raises half way, the nonce is taken, every policy keeps its content, and the content under an id that had
  -- none is that of a manifest whose signature verifies under the trust store.
  pub reconcile-Accepts :
      (envelope : SyncEnvelope) (now : ℤ) (g : Reconciler)
      → ((e : Error) × (reconcile envelope now g ≡ (err e, g)))
        ⊎ (Accepts envelope now g × Acts envelope g (reconcile envelope now g).1)
  unfolding reconcile
  reconcile-Accepts envelope now g = elim (Outcome-cases (check_envelope envelope now g)) [
    | inr (failure, stopped) ↦ inl (failure, rw (stopped, reconcile) refl)
    | inl (u, passed) ↦ inr (
      check_envelope-Accepts envelope now g (ground arith),
      rw (passed, reconcile) (adopt-Acts envelope g),
    )
  ]

  unfoldable pub reconcile_all : List (SyncEnvelope × ℤ) → Reconciler → Reconciler
  unfolding reconcile
  reconcile_all [] g = g
  reconcile_all ((envelope, now) ∷ rest) g = reconcile_all rest (reconcile envelope now g).1

  seen_after :
      (org nonce : String) (envelope : SyncEnvelope) (now : ℤ) (g : Reconciler)
      → has_seen org nonce g.seen_nonces ≡ true
      → has_seen org nonce (reconcile envelope now g).1.seen_nonces ≡ true
  seen_after org nonce envelope now g seen = elim (reconcile-Accepts envelope now g) [
    | inl (e, same) ↦ rw same seen
    | inr (accepted, acts) ↦ let taken = acts.0 in rw taken (ground arith)
  ]

  seen_after_all :
      (org nonce : String) (calls_made : List (SyncEnvelope × ℤ)) (g : Reconciler)
      → has_seen org nonce g.seen_nonces ≡ true
      → has_seen org nonce (reconcile_all calls_made g).seen_nonces ≡ true
  unfolding reconcile_all
  seen_after_all org nonce [] g seen = seen
  seen_after_all org nonce ((envelope, now) ∷ rest) g seen =
      seen_after_all org nonce rest (reconcile envelope now g).1
        (seen_after org nonce envelope now g seen)

  -- An envelope that the reconciler has acted on, which a result shows, is not acted on again: after any
  -- further calls, an envelope with its source organization and nonce raises and changes nothing.
  pub reconcile_once :
      (envelope again : SyncEnvelope) (now later : ℤ) (g g' : Reconciler)
      (result : ReconciliationResult) (between : List (SyncEnvelope × ℤ))
      → reconcile envelope now g ≡ (ok result, g')
      → again.event.source_org ≡ envelope.event.source_org
      → again.event.nonce ≡ envelope.event.nonce
      → (e : Error) × (reconcile again later (reconcile_all between g')
          ≡ (err e, reconcile_all between g'))
  reconcile_once envelope again now later g g' result between passed_it same_org same_nonce =
      elim (reconcile-Accepts envelope now g) [
        | inl (e, raised_it) ↦ absurd (ground arith)
        | inr (accepted, acts) ↦
            let org = envelope.event.source_org in
            let nonce = envelope.event.nonce in
            let taken : g'.seen_nonces ≡ (org, nonce) ∷ g.seen_nonces =
              ap (λ (o : Outcome ReconciliationResult × Reconciler). o.1.seen_nonces)
                (sym passed_it)
              ∙ acts.0 in
            let first : has_seen org nonce g'.seen_nonces ≡ true = rw taken (ground arith) in
            let seen = seen_after_all org nonce between g' first in
            elim (reconcile-Accepts again later (reconcile_all between g')) [
              | inl stopped ↦ stopped
              | inr (accepted', acts') ↦ let fresh = accepted'.unseen in absurd (ground arith)
            ]
      ]
