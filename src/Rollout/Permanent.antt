-- ===== src/Rollout/Permanent.antt =====
-- A published record stays as it is, and a revoked version stays revoked.
use governed_autonomy_substr.Base.{
  List, Option, String, ap, arith, lookup_pair-insert_pair, none, ok, refl, some, true, ◌∙◌, ◌≡◌,
  ◌≢◌,
}
use governed_autonomy_substr.Platform.{Platform, Signer}
use governed_autonomy_substr.Rollout.{ActivationEvent, PolicyTools, StoredPolicy}
use governed_autonomy_substr.Rollout.Calls.{
  RegistryCall, Respects, registry_run, registry_run-respects,
}
use governed_autonomy_substr.Rollout.Content.{digest_matches, verification}
use governed_autonomy_substr.Rollout.Effects.{publish-ok}
use governed_autonomy_substr.Rollout.Registry.{
  VersionedRegistry, get_version, publish, put, select, stored_at, verify_version,
}
use governed_autonomy_substr.Value.{Value}

module _ ⦃p : Platform⦄ ⦃t : PolicyTools⦄ where
  -- The records and the verifier are kept.
  abbrev KeepsRecords : VersionedRegistry → VersionedRegistry → Type 0
  KeepsRecords r r' =
      ((i v : String) (s : StoredPolicy) → stored_at i v r ≡ some s → stored_at i v r' ≡ some s)
      × (r'.verifier ≡ r.verifier)

  put-KeepsRecords :
      (s : StoredPolicy) (r : VersionedRegistry)
      → stored_at s.id s.version r ≡ none
      → KeepsRecords r (put s r)
  put-KeepsRecords s r absent = (
    λ i v old known.
        let stored' = lookup_pair-insert_pair s.id s.version i v s r.storage in ground arith,
    refl,
  )

  select-KeepsRecords :
      (event : ActivationEvent) (r : VersionedRegistry) → KeepsRecords r (select event r)
  unfolding select
  select-KeepsRecords event r = (λ i v s known. known, refl)

  KeepsRecords-Respects : Respects KeepsRecords
  KeepsRecords-Respects = record {
    stays = λ r. (λ i v s known. known, refl);
    puts = λ s r r' placed. rw (placed.1) (put-KeepsRecords s r placed.0);
    activates = λ i v expected event r r' done. rw (done.selects) (select-KeepsRecords event r);
    deprecates = λ i v r idle kept. (λ j w s known. known, refl);
    revokes = λ i v r r' same_storage same_verifier marked taken_out.
        (λ j w s known. rw same_storage known, same_verifier);
  }

  registry_run-KeepsRecords :
      (cs : List RegistryCall) (r : VersionedRegistry) → KeepsRecords r (registry_run cs r)
  registry_run-KeepsRecords =
      registry_run-respects KeepsRecords KeepsRecords-Respects
        (λ a b c f g. (λ i v s known. g.0 i v s (f.0 i v s known), g.1 ∙ f.1))

  get_version-stored :
      (policy_id version : String) (r : VersionedRegistry) (s : StoredPolicy)
      → stored_at policy_id version r ≡ some s
      → digest_matches s ≡ true
      → get_version policy_id version r ≡ ok s
  unfolding get_version verification
  get_version-stored policy_id version r s known matches = ground arith

  -- A policy that is published is returned by `get` with the same content, and verifies, after any further
  -- calls on the registry, and a second publication of its id and version, of whatever content, raises.
  pub publish-get_version :
      (policy : Value) (signer : Signer) (signed_at : Option String) (now : String)
      (r r' : VersionedRegistry) (s : StoredPolicy) (cs : List RegistryCall)
      → publish policy signer signed_at now r ≡ ok (s, r')
      → (get_version s.id s.version (registry_run cs r') ≡ ok s)
        × (verify_version s.id s.version (registry_run cs r') ≡ ok (verification r.verifier s))
        × ((verification r.verifier s).valid ≡ true)
        × ((policy' : Value) (signer' : Signer) (signed_at' : Option String) (now' : String)
              (q : StoredPolicy) (r'' : VersionedRegistry)
            → publish policy' signer' signed_at' now' (registry_run cs r') ≡ ok (q, r'')
            → (q.id ≡ s.id)
            → (q.version ≢ s.version))
  unfolding verify_version verification
  publish-get_version policy signer signed_at now r r' s cs e =
      let (placed, verifies) = publish-ok policy signer signed_at now r r' s e in
      let kept = registry_run-KeepsRecords cs r' in
      let stored' = lookup_pair-insert_pair s.id s.version s.id s.version s r.storage in
      let at_first : stored_at s.id s.version r' ≡ some s = rw (placed.1) (ground arith) in
      let known : stored_at s.id s.version (registry_run cs r') ≡ some s =
        kept.0 s.id s.version s at_first in
      let same_verifier : (registry_run cs r').verifier ≡ r.verifier =
        kept.1 ∙ ap (λ (x : VersionedRegistry). x.verifier) placed.1 in
      (
        get_version-stored s.id s.version (registry_run cs r') s known (ground arith),
        rw (known, same_verifier) refl,
        verifies,
        λ policy' signer' signed_at' now' q r'' e' same_id same_version.
            let (placed', verifies') =
              publish-ok policy' signer' signed_at' now' (registry_run cs r') r'' q e' in
            ground arith,
      )
