-- ===== src/Federation/Imports.antt =====
-- What the reconciler does to the registry: it keeps the content it has, and takes over signed content only.
use governed_autonomy_substr.Base.{
  Bool-cases, Dict, Option, Option-cases, Outcome-cases, String, String-discrete, [], arith, inl,
  inr, insert, lookup, lookup-insert, ok, some, sym, true, ◌∙◌, ◌∷◌, ◌≡◌, ◌⊎◌,
}
use governed_autonomy_substr.Base.Int.{leb_ℤ}
use governed_autonomy_substr.Engine.{registered}
use governed_autonomy_substr.Federation.Reconcile.{
  Progress, import_manifest, reconcile_entries, reconcile_entry, remote_digest_of,
}
use governed_autonomy_substr.Platform.{Platform}
use governed_autonomy_substr.Policy.{
  Manifest, PolicyRegistry, chosen_store, install_manifest, policy_digest, register_signed,
  verify_manifest,
}
use governed_autonomy_substr.Policy.Immutable.{
  content_of, install_manifest-ok, register_policy-ok, register_signed_sound, version_of,
}
use governed_autonomy_substr.Policy.Wire.{manifest_from_dict}
use governed_autonomy_substr.Trust.{TrustStore}
use governed_autonomy_substr.Value.{Value, as_dict}

module _ ⦃p : Platform⦄ where
  -- What a signed registration does to the policies.
  register_signed-policies :
      (m : Manifest) (given : Option TrustStore) (r r' : PolicyRegistry)
      → register_signed m given r ≡ ok r'
      → (r'.policies ≡ insert m.policy.policy_id m.policy r.policies) ⊎ (r' ≡ r)
  unfolding register_signed
  register_signed-policies m given r r' e = elim (Option-cases (chosen_store given r)) [
    | inl missing ↦ absurd (ground arith)
    | inr (store, chosen) ↦ elim (Outcome-cases (install_manifest m r)) [
      | inl (next, done) ↦
          let (middle, registered, policies_eq, versions_eq) = install_manifest-ok m r next done in
          let (agreed, middle_policies, mv, mm, ms) =
            register_policy-ok m.policy r middle registered in
          let placed : next.policies ≡ insert m.policy.policy_id m.policy r.policies =
            policies_eq ∙ middle_policies in
          elim (Option-cases (lookup m.policy.policy_id r.policies)) [
            | inl fresh ↦ inl (ground arith)
            | inr (current, found) ↦
                elim (Bool-cases (leb_ℤ m.version (version_of m.policy.policy_id r))) [
                  | inr newer ↦ inl (ground arith)
                  | inl older ↦ inr (ground arith)
                ]
          ]
      | inr (failure, conflict_raised) ↦
          elim (Option-cases (lookup m.policy.policy_id r.policies)) [
            | inl fresh ↦ absurd (ground arith)
            | inr (current, found) ↦
                elim (Bool-cases (leb_ℤ m.version (version_of m.policy.policy_id r))) [
                  | inr newer ↦ absurd (ground arith)
                  | inl older ↦ inr (ground arith)
                ]
          ]
    ]
  ]

  -- A manifest that verifies under the store and has this content for the id.
  abbrev pub IsSigned : TrustStore → String → String → Type 0
  IsSigned store policy_id content =
      (m : Manifest) × (verify_manifest m store ≡ true)
      × (m.policy.policy_id ≡ policy_id)
      × (policy_digest m.policy ≡ content)

  -- Known content stays, and content that is new is signed.
  abbrev pub Imports : TrustStore → PolicyRegistry → PolicyRegistry → Type 0
  Imports store r r' =
      (policy_id content : String)
      → (content_of policy_id r ≡ some content → content_of policy_id r' ≡ some content)
        × (content_of policy_id r' ≡ some content
            → (content_of policy_id r ≡ some content) ⊎ IsSigned store policy_id content)

  pub Imports-same : (store : TrustStore) (r : PolicyRegistry) → Imports store r r
  Imports-same store r i c = (λ h. h, λ h. inl h)

  pub Imports-trans :
      (store : TrustStore) (r r' r'' : PolicyRegistry)
      → Imports store r r'
      → Imports store r' r''
      → Imports store r r''
  Imports-trans store r r' r'' f g i c = (
    λ h. (g i c).0 ((f i c).0 h),
    λ h. elim ((g i c).1 h) [ inl before_it ↦ (f i c).1 before_it | inr made ↦ inr made ],
  )

  register_signed-Imports :
      (m : Manifest) (store : TrustStore) (r r' : PolicyRegistry)
      → verify_manifest m store ≡ true
      → register_signed m (some store) r ≡ ok r'
      → Imports store r r'
  register_signed-Imports m store r r' verifies e i c =
      let (checked_store, version_grows, installed) = register_signed_sound m (some store) r r' e in
      (
        installed.2 i c,
        elim (register_signed-policies m (some store) r r' e) [
          | inr same ↦ λ h. inl (rw (sym same) h)
          | inl placed ↦ λ h.
              let inserted = lookup-insert m.policy.policy_id i m.policy r.policies in
              elim (String-discrete i m.policy.policy_id) [
                | no other ↦ inl (ground arith)
                | yes same ↦ inr (m, verifies, sym same, ground arith)
              ]
        ],
      )

  import_manifest-Imports :
      (store : TrustStore) (policy_id remote_digest : String) (entry : Value)
      (r r' : PolicyRegistry)
      → import_manifest store policy_id remote_digest entry r ≡ ok r'
      → Imports store r r'
  unfolding import_manifest
  import_manifest-Imports store policy_id remote_digest entry r r' e =
      elim (Option-cases (as_dict entry)) [
        | inl absent ↦ absurd (ground arith)
        | inr (d, read) ↦ elim (Outcome-cases (manifest_from_dict entry)) [
          | inr (failure, unread) ↦ absurd (ground arith)
          | inl (m, parsed) ↦ register_signed-Imports m store r r' (ground arith) (ground arith)
        ]
      ]

  reconcile_entry-Imports :
      (store : TrustStore) (stated : Dict String) (policy_id : String) (entry : Value)
      (progress : Progress) (r : PolicyRegistry) (next : Progress × PolicyRegistry)
      → reconcile_entry store stated policy_id entry progress r ≡ ok next
      → Imports store r next.1
  unfolding reconcile_entry
  reconcile_entry-Imports store stated policy_id entry progress r next e =
      elim (Outcome-cases (remote_digest_of stated policy_id entry)) [
        | inr (failure, refused_entry) ↦ absurd (ground arith)
        | inl (remote_digest, known) ↦ elim (Option-cases (lookup policy_id r.policies)) [
          | inr (existing, found) ↦
              let same : next.1 ≡ r = ground arith in rw same (Imports-same store r)
          | inl fresh ↦
              elim (Outcome-cases (import_manifest store policy_id remote_digest entry r)) [
                | inr (failure, refused_entry) ↦ absurd (ground arith)
                | inl (r', imported) ↦
                    let same : next.1 ≡ r' = ground arith in
                    rw same
                      (import_manifest-Imports store policy_id remote_digest entry r r' imported)
              ]
        ]
      ]

  pub reconcile_entries-Imports :
      (store : TrustStore) (stated : Dict String) (policies : Dict Value) (progress : Progress)
      (r : PolicyRegistry)
      → Imports store r (reconcile_entries store stated policies progress r).1
  unfolding reconcile_entries
  reconcile_entries-Imports store stated [] progress r = Imports-same store r
  reconcile_entries-Imports store stated ((policy_id, entry) ∷ rest) progress r =
      elim (Outcome-cases (reconcile_entry store stated policy_id entry progress r)) [
        | inr (failure, stopped) ↦ rw (stopped, reconcile_entries) (Imports-same store r)
        | inl (next, done) ↦
            rw (done, reconcile_entries)
              (Imports-trans store r next.1 (reconcile_entries store stated rest next.0 next.1).1
                (reconcile_entry-Imports store stated policy_id entry progress r next done)
                (reconcile_entries-Imports store stated rest next.0 next.1))
      ]
