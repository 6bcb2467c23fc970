-- ===== src/Policy/Loaded.antt =====
-- A registry that is loaded under a trust store holds verified manifests only.
use governed_autonomy_substr.Base.{
  >>=-eq-ok, All, Bool-cases, Dict, List, Option-cases, Outcome-cases, String, String-discrete, [],
  ap, arith, contains, inl, inr, insert, lookup, lookup-insert, ok, refl, some, sym, true, ◌∙◌, ◌∷◌,
  ◌≡◌,
}
use governed_autonomy_substr.Platform.{Platform}
use governed_autonomy_substr.Policy.Registry.{
  Manifest, PolicyRegistry, empty_registry, verify_manifest,
}
use governed_autonomy_substr.Policy.Wire.{
  load_entries, load_entry, load_plain, load_registry, load_signed, manifest_from_dict,
  policy_from_dict,
}
use governed_autonomy_substr.Trust.{TrustStore}
use governed_autonomy_substr.Value.{Value, as_dict, as_int, as_list, get}

module _ ⦃p : Platform⦄ where
  module _ (store : TrustStore) where
    -- Every signed manifest verifies under the trust store, which is the registry's own.
    abbrev IsVerified : PolicyRegistry → Type 0
    IsVerified r =
        (r.trust_store ≡ some store)
        × ((i : String) (m : Manifest)
            → lookup i r.signed_manifests ≡ some m
            → (verify_manifest m store ≡ true) × (m.policy.policy_id ≡ i))

    load_signed-IsVerified :
        (entry : Value) (r r' : PolicyRegistry)
        → IsVerified r
        → load_signed entry r ≡ ok r'
        → IsVerified r'
    unfolding load_signed
    load_signed-IsVerified entry r r' h e = elim (Outcome-cases (manifest_from_dict entry)) [
      | inr (failure, unread) ↦ absurd (ground arith)
      | inl (m, parsed) ↦
          let same_store = h.0 in
          let verifies : verify_manifest m store ≡ true = ground arith in
          let manifests' : r'.signed_manifests ≡ insert m.policy.policy_id m r.signed_manifests =
            ground arith in
          (
            ground arith,
            λ i q found.
                let inserted = lookup-insert m.policy.policy_id i m r.signed_manifests in
                let found' : lookup i (insert m.policy.policy_id m r.signed_manifests) ≡ some q =
                  ap (lookup i) (sym manifests') ∙ found in
                elim (String-discrete i m.policy.policy_id) [
                  | no other ↦ h.1 i q (ground arith)
                  | yes same ↦ let m_is : m ≡ q = ground arith in (ground arith, ground arith)
                ],
          )
    ]

    load_plain-IsVerified :
        (d : Dict Value) (r r' : PolicyRegistry)
        → IsVerified r
        → load_plain d r ≡ ok r'
        → IsVerified r'
    unfolding load_plain
    load_plain-IsVerified d r r' h e = elim (Outcome-cases (policy_from_dict (get "policy" d))) [
      | inr (failure, unread) ↦ absurd (ground arith)
      | inl (policy, parsed) ↦ elim (Option-cases (as_int (get "version" d))) [
        | inl absent ↦ absurd (ground arith)
        | inr (version, found_version) ↦
            let same_manifests : r'.signed_manifests ≡ r.signed_manifests = ground arith in
            let same_store : r'.trust_store ≡ r.trust_store = ground arith in
            (same_store ∙ h.0, λ i m found. h.1 i m (ap (lookup i) (sym same_manifests) ∙ found))
      ]
    ]

    load_entry-IsVerified :
        (entry : Value) (r r' : PolicyRegistry)
        → IsVerified r
        → load_entry entry r ≡ ok r'
        → IsVerified r'
    unfolding load_entry
    load_entry-IsVerified entry r r' h e = elim (Option-cases (as_dict entry)) [
      | inl absent ↦ absurd (ground arith)
      | inr (d, read) ↦ elim (Bool-cases (contains "signature" d)) [
        | inl has_signature ↦ load_signed-IsVerified entry r r' h (ground arith)
        | inr plain ↦ load_plain-IsVerified d r r' h (ground arith)
      ]
    ]

    load_entries-IsVerified :
        (listed : List Value) (r r' : PolicyRegistry)
        → IsVerified r
        → load_entries listed r ≡ ok r'
        → IsVerified r'
    unfolding load_entries
    load_entries-IsVerified [] r r' h e = let same : r' ≡ r = ground arith in rw same h
    load_entries-IsVerified (entry ∷ rest) r r' h e =
        let (next, loaded, others) = >>=-eq-ok (load_entry entry r) _ e in
        load_entries-IsVerified rest next r' (load_entry-IsVerified entry r next h loaded) others

    -- An entry that has a signature is a manifest that verifies.
    abbrev pub EntryVerifies : Value → Type 0
    EntryVerifies entry =
        (d : Dict Value)
        → as_dict entry ≡ some d
        → contains "signature" d ≡ true
        → (m : Manifest) × (manifest_from_dict entry ≡ ok m) × (verify_manifest m store ≡ true)

    load_signed-verified :
        (entry : Value) (r r' : PolicyRegistry)
        → r.trust_store ≡ some store
        → load_signed entry r ≡ ok r'
        → (m : Manifest) × (manifest_from_dict entry ≡ ok m) × (verify_manifest m store ≡ true)
    unfolding load_signed
    load_signed-verified entry r r' h e = elim (Outcome-cases (manifest_from_dict entry)) [
      | inr (failure, unread) ↦ absurd (ground arith)
      | inl (m, parsed) ↦ (m, parsed, ground arith)
    ]

    load_entry-verified :
        (entry : Value) (r r' : PolicyRegistry)
        → r.trust_store ≡ some store
        → load_entry entry r ≡ ok r'
        → EntryVerifies entry
    unfolding load_entry
    load_entry-verified entry r r' h e d read signed_one =
        load_signed-verified entry r r' h (ground arith)

    load_entries-verified :
        (listed : List Value) (r r' : PolicyRegistry)
        → IsVerified r
        → load_entries listed r ≡ ok r'
        → All EntryVerifies listed
    unfolding load_entries
    load_entries-verified [] r r' h e = tt
    load_entries-verified (entry ∷ rest) r r' h e =
        let (next, loaded, others) = >>=-eq-ok (load_entry entry r) _ e in
        (
          load_entry-verified entry r next h.0 loaded,
          load_entries-verified rest next r' (load_entry-IsVerified entry r next h loaded) others,
        )

    -- If a load of a text under a trust store returns, then every entry of the text's list that has a
    -- signature is a manifest that verifies under that store: one that does not makes the load raise. Every
    -- signed manifest of the registry verifies under the store and is kept under the id of its policy.
    pub load_registry_sound :
        (written : String) (r : PolicyRegistry)
        → load_registry written (some store) ≡ ok r
        → (payload : Value) × (d : Dict Value) × (listed : List Value) × (p.json_loads written
            ≡ some payload)
          × (as_dict payload ≡ some d)
          × (as_list (get "policies" d) ≡ some listed)
          × All EntryVerifies listed
          × (r.trust_store ≡ some store)
          × ((i : String) (m : Manifest)
              → lookup i r.signed_manifests ≡ some m
              → (verify_manifest m store ≡ true) × (m.policy.policy_id ≡ i))
    unfolding load_registry empty_registry lookup
    load_registry_sound written r e = elim (Option-cases (p.json_loads written)) [
      | inl absent ↦ absurd (ground arith)
      | inr (payload, read) ↦ elim (Option-cases (as_dict payload)) [
        | inl no_dict ↦ absurd (ground arith)
        | inr (d, is_object) ↦ elim (Option-cases (as_list (get "policies" d))) [
          | inl no_list ↦ absurd (ground arith)
          | inr (listed, is_array) ↦
              let first = empty_registry (some store) in
              let start : IsVerified first = (refl, λ i m found. absurd (ground arith)) in
              let run : load_entries listed first ≡ ok r = ground arith in
              (
                payload,
                d,
                listed,
                read,
                is_object,
                is_array,
                load_entries-verified listed first r start run,
                (load_entries-IsVerified listed first r start run).0,
                (load_entries-IsVerified listed first r start run).1,
              )
        ]
      ]
    ]
