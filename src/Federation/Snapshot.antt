-- ===== src/Federation/Snapshot.antt =====
-- A snapshot of a registry does not survive its own dict: its digest leaves out the organization, and the
-- reader's includes it.
use governed_autonomy_substr.Base.{
  Bool-cases, Dict, String, String-discrete, [], eq_text, eq_text-true, err, false,
  federation_error, inl, inr, lookup, ok, refl, sorted_items, ◌∷◌, ◌≡◌, ◌⊎◌,
}
use governed_autonomy_substr.Base.Int.{ℤ}
use governed_autonomy_substr.Federation.{
  RegistrySnapshot, read_text, snapshot_content, snapshot_from_dict, snapshot_from_registry,
  snapshot_to_dict, snapshot_unsigned,
}
use governed_autonomy_substr.Platform.{Platform, digest}
use governed_autonomy_substr.Policy.{PolicyRegistry, map_values}
use governed_autonomy_substr.Policy.Wire.{read_values}
use governed_autonomy_substr.Value.{dict, entries-fields, text}

read_values-texts :
    (message : String) (d : Dict String)
    → read_values (read_text message) (map_values text d) ≡ ok d
unfolding read_values
read_values-texts message [] = refl
read_values-texts message ((k, v) ∷ d) = rw (read_values-texts message d, read_values) refl

-- The snapshot as its dict holds it, sorted.
abbrev pub in_order : RegistrySnapshot → RegistrySnapshot
in_order s = record s {
  policies = sorted_items s.policies;
  policy_digests = sorted_items s.policy_digests;
}

module _ ⦃p : Platform⦄ where
  -- The reader comes to the comparison of the digests.
  snapshot_from_dict-mismatch :
      (s : RegistrySnapshot)
      → eq_text (digest (dict (snapshot_unsigned (in_order s)))) s.snapshot_digest ≡ false
      → snapshot_from_dict (snapshot_to_dict s)
        ≡ err (federation_error "registry snapshot digest does not match contents")
  unfolding snapshot_from_dict snapshot_to_dict lookup String-discrete
  snapshot_from_dict-mismatch s differs =
      let policies_eq = entries-fields (sorted_items s.policies) in
      let digests_eq = entries-fields (map_values text (sorted_items s.policy_digests)) in
      let read_eq =
        read_values-texts "registry snapshot has an invalid schema"
          (sorted_items s.policy_digests) in
      rw (policies_eq, digests_eq, read_eq, differs) refl

  -- A snapshot that `from_registry` takes of any registry is refused when it is read back from its own dict,
  -- unless SHA-256 gives the content with the organization and the content without it the same digest.
  pub snapshot_refused :
      (r : PolicyRegistry) (source_org : String) (version : ℤ)
      → let s = snapshot_from_registry r source_org version in
        (snapshot_from_dict (snapshot_to_dict s)
          ≡ err (federation_error "registry snapshot digest does not match contents"))
        ⊎ (digest (dict (snapshot_unsigned (in_order s))) ≡ digest (dict (snapshot_content s)))
  unfolding snapshot_from_registry
  snapshot_refused r source_org version =
      let s = snapshot_from_registry r source_org version in
      let read_digest = digest (dict (snapshot_unsigned (in_order s))) in
      elim (Bool-cases (eq_text read_digest s.snapshot_digest)) [
        | inr differs ↦ inl (snapshot_from_dict-mismatch s differs)
        | inl same ↦ inr (eq_text-true read_digest s.snapshot_digest same)
      ]
