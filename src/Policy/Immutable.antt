-- ===== src/Policy/Immutable.antt =====
-- The registry: policies are immutable by id, versions never fall, and signed manifests are verified.
use governed_autonomy_substr.Base.{
  Bool-cases, Option, Option-cases, Outcome-cases, String, String-discrete, arith, eq_text, get_or,
  inl, inr, insert, is_some, lookup, lookup-insert_ne, lookup-insert_self, none, ok, refl,
  set_default, some, subst, sym, true, ◌≡◌, ◌≢◌,
}
use governed_autonomy_substr.Base.Int.{leb_ℤ, pos, ℤ, ◌≤ℤ◌}
use governed_autonomy_substr.Platform.{Platform}
use governed_autonomy_substr.Policy.Registry.{
  Manifest, PolicyRegistry, chosen_store, install_manifest, register_policy, register_signed,
  verify_manifest,
}
use governed_autonomy_substr.Policy.Rules.{Policy, policy_digest}
use governed_autonomy_substr.Trust.{TrustStore}

module _ ⦃p : Platform⦄ where
  abbrev pub version_of : String → PolicyRegistry → ℤ
  version_of policy_id r = get_or policy_id (pos 0) r.versions

  -- The registered content under an id, as its digest.
  abbrev pub content_of : String → PolicyRegistry → Option String
  content_of policy_id r = elim (lookup policy_id r.policies) [
    | none ↦ none
    | some policy ↦ some (policy_digest policy)
  ]

  -- What a successful `register` has done.
  pub register_policy-ok :
      (policy : Policy) (r r' : PolicyRegistry)
      → register_policy policy r ≡ ok r'
      → (elim (lookup policy.policy_id r.policies) [
        | none ↦ true
        | some existing ↦ eq_text (policy_digest existing) (policy_digest policy)
      ]
          ≡ true)
        × (r'.policies ≡ insert policy.policy_id policy r.policies)
        × (r'.versions ≡ set_default policy.policy_id (pos 1) r.versions)
        × (r'.signed_manifests ≡ r.signed_manifests)
        × (r'.trust_store ≡ r.trust_store)
  unfolding register_policy
  register_policy-ok policy r r' e =
      (ground arith, ground arith, ground arith, ground arith, ground arith)

  -- Registering a policy keeps the digest of every id that was registered before, and afterwards its own id
  -- has its digest: another content under a known id raises.
  pub register_policy-content :
      (policy : Policy) (r r' : PolicyRegistry) (policy_id content : String)
      → register_policy policy r ≡ ok r'
      → (content_of policy.policy_id r' ≡ some (policy_digest policy))
        × (content_of policy_id r ≡ some content → content_of policy_id r' ≡ some content)
  register_policy-content policy r r' policy_id content e =
      let (agreed, policies_eq, versions_kept, manifests_kept, store_kept) =
        register_policy-ok policy r r' e in
      (
        rw policies_eq (ground (arith, lookup-insert_self policy.policy_id policy r.policies)),
        (λ before. rw policies_eq (elim (String-discrete policy_id policy.policy_id) [
          | no other ↦
              ground (arith, lookup-insert_ne policy.policy_id policy_id policy r.policies other)
          | yes same ↦ ground (arith, lookup-insert_self policy.policy_id policy r.policies)
        ])),
      )

  -- What a successful installation has done.
  pub install_manifest-ok :
      (m : Manifest) (r r' : PolicyRegistry)
      → install_manifest m r ≡ ok r'
      → (middle : PolicyRegistry) × (register_policy m.policy r ≡ ok middle)
        × (r'.policies ≡ middle.policies)
        × (r'.versions ≡ insert m.policy.policy_id m.version middle.versions)
  unfolding install_manifest
  install_manifest-ok m r r' e = elim (Outcome-cases (register_policy m.policy r)) [
    | inr (failure, raised_it) ↦ absurd (ground arith)
    | inl (middle, done) ↦ (middle, done, ground arith, ground arith)
  ]

  -- What is claimed of an accepted manifest, apart from its signature.
  abbrev pub Installed : Manifest → PolicyRegistry → PolicyRegistry → Type 0
  Installed m r r' =
      (content_of m.policy.policy_id r' ≡ some (policy_digest m.policy))
      × (version_of m.policy.policy_id r' ≡ m.version)
      × ((policy_id content : String)
          → content_of policy_id r ≡ some content
          → content_of policy_id r' ≡ some content)
      × ((policy_id : String)
          → policy_id ≢ m.policy.policy_id
          → version_of policy_id r' ≡ version_of policy_id r)

  install_manifest-Installed :
      (m : Manifest) (r r' : PolicyRegistry) → install_manifest m r ≡ ok r' → Installed m r r'
  install_manifest-Installed m r r' e =
      let own = m.policy.policy_id in
      let (middle, done, policies_eq, versions_eq) = install_manifest-ok m r r' e in
      let (agreed, middle_policies, middle_versions, manifests_kept, store_kept) =
        register_policy-ok m.policy r middle done in
      (
        rw policies_eq (register_policy-content m.policy r middle own own done).0,
        rw versions_eq (ground (arith, lookup-insert_self own m.version middle.versions)),
        (λ policy_id content before.
            rw policies_eq
              ((register_policy-content m.policy r middle policy_id content done).1 before)),
        (λ policy_id other. ground (
          arith,
          lookup-insert_ne own policy_id m.version middle.versions other,
          lookup-insert_ne own policy_id (pos 1) r.versions other,
        )),
      )

  -- A repeated manifest.
  repeat-Installed :
      (m : Manifest) (r : PolicyRegistry) (current : Policy)
      → lookup m.policy.policy_id r.policies ≡ some current
      → version_of m.policy.policy_id r ≡ m.version
      → policy_digest current ≡ policy_digest m.policy
      → Installed m r r
  repeat-Installed m r current found same_version same_content =
      (ground arith, same_version, (λ policy_id content before. before), (λ policy_id other. refl))

  -- A signed manifest that is accepted verifies under the trust store that was given, or the registry's
  -- own. Its id then has its content, at its version, which is not below the version before. The digest of
  -- every id that was registered before, and the version of every other id, are unchanged.
  pub register_signed_sound :
      (m : Manifest) (given : Option TrustStore) (r r' : PolicyRegistry)
      → register_signed m given r ≡ ok r'
      → ((store : TrustStore) × (chosen_store given r ≡ some store)
          × (verify_manifest m store ≡ true))
        × (is_some (lookup m.policy.policy_id r.policies) ≡ true
            → version_of m.policy.policy_id r ≤ℤ m.version)
        × Installed m r r'
  unfolding register_signed
  register_signed_sound m given r r' e = elim (Option-cases (chosen_store given r)) [
    | inl missing ↦ absurd (ground arith)
    | inr (store, chosen) ↦
        let verified : verify_manifest m store ≡ true = ground arith in
        elim (Option-cases (lookup m.policy.policy_id r.policies)) [
          | inl fresh ↦
              let done : install_manifest m r ≡ ok r' = ground arith in
              (
                (store, chosen, verified),
                (λ h. ground arith),
                install_manifest-Installed m r r' done,
              )
          | inr (current, found) ↦
              elim (Bool-cases (leb_ℤ m.version (version_of m.policy.policy_id r))) [
                | inr newer ↦
                    let done : install_manifest m r ≡ ok r' = ground arith in
                    (
                      (store, chosen, verified),
                      (λ h. ground arith),
                      install_manifest-Installed m r r' done,
                    )
                | inl older ↦
                    let same : r' ≡ r = ground arith in
                    let version_eq : version_of m.policy.policy_id r ≡ m.version = ground arith in
                    let content_eq : policy_digest current ≡ policy_digest m.policy =
                      ground arith in
                    (
                      (store, chosen, verified),
                      (λ h. ground arith),
                      subst (Installed m r) (sym same)
                          (repeat-Installed m r current found version_eq content_eq),
                    )
              ]
        ]
  ]
