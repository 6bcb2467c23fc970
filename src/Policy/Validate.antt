-- ===== src/Policy/Validate.antt =====
-- `Policy.__post_init__`. The types of the fields are those of the record, so what is left are the
-- checks of their values.
use governed_autonomy_substr.Base.{
  Bool, Dict, List, Outcome, String, [], all, eq_text, false, is_blank, keys, not, ok, raise_if,
  sorted, true, value_error, values, ◌&&◌, ◌>>◌, ◌∷◌,
}
use governed_autonomy_substr.Base.Int.{leb_ℤ, pos, ℤ}
use governed_autonomy_substr.Policy.Rules.{NumericLimit, Policy, limit_float}
use governed_autonomy_substr.Value.{is_finite}

abbrev pub no_blank : List String → Bool
no_blank = all (λ (s : String). not (is_blank s))

-- `tuple(sorted(xs)) == xs`.
abbrev pub same_texts : List String → List String → Bool
same_texts [] [] = true
same_texts (x ∷ xs) (y ∷ ys) = eq_text x y && same_texts xs ys
same_texts _ _ = false

abbrev pub is_sorted : List String → Bool
is_sorted xs = same_texts (sorted xs) xs

abbrev pub named {ℓ} : {A : Type ℓ} → Dict A → Bool
named d = no_blank (keys d)

abbrev pub non_negative : Dict ℤ → Bool
non_negative d = all (λ (n : ℤ). leb_ℤ (pos 0) n) (values d)

abbrev pub finite_limits : Dict NumericLimit → Bool
finite_limits limits =
    named limits && all (λ (l : NumericLimit). is_finite (limit_float l)) (values limits)

unfoldable pub validate_policy : Policy → Outcome Policy
validate_policy r = do
  raise_if (is_blank r.policy_id) (value_error "policy_id must not be empty")
  raise_if (leb_ℤ r.max_request_bytes (pos 0)) (value_error "max_request_bytes must be positive")
  raise_if (leb_ℤ r.max_ttl_seconds (pos 0)) (value_error "max_ttl_seconds must be positive")
  raise_if (not (no_blank r.allowed_actions))
      (value_error "allowed_actions must contain non-empty strings")
  raise_if (not (is_sorted r.allowed_actions))
      (value_error "allowed_actions must be sorted for deterministic output")
  raise_if (not (is_sorted r.required_context))
      (value_error "required_context must be sorted for deterministic output")
  raise_if (not (no_blank r.required_context))
      (value_error "required_context must contain non-empty strings")
  raise_if (not (named r.required_fields))
      (value_error "required_fields action names must be non-empty strings")
  raise_if (not (all no_blank (values r.required_fields)))
      (value_error "required_fields must contain non-empty strings")
  raise_if (not (named r.exact_fields))
      (value_error "exact_fields action names must be non-empty strings")
  raise_if (not (named r.required_approvals))
      (value_error "required_approvals action names must be non-empty strings")
  raise_if (not (non_negative r.required_approvals))
      (value_error "required_approvals must use non-negative integers")
  raise_if (not (named r.max_numeric_fields))
      (value_error "max_numeric_fields must map action names to field limits")
  raise_if (not (all finite_limits (values r.max_numeric_fields)))
      (value_error "numeric field limits must use finite numbers")
  raise_if (not (named r.required_mesh_inputs))
      (value_error "required_mesh_inputs action names must be non-empty strings")
  raise_if (not (non_negative r.required_mesh_inputs))
      (value_error "required_mesh_inputs must use non-negative integers")
  raise_if (not (named r.required_mesh_sources))
      (value_error "required_mesh_sources action names must be non-empty strings")
  raise_if (not (all no_blank (values r.required_mesh_sources)))
      (value_error "required_mesh_sources must contain only non-empty source IDs")
  raise_if (not (no_blank r.mesh_required_actions))
      (value_error "mesh_required_actions must contain non-empty strings")
  raise_if (not (is_sorted r.mesh_required_actions))
      (value_error "mesh_required_actions must be sorted for deterministic output")
  raise_if (not (no_blank r.mesh_required_environments))
      (value_error "mesh_required_environments must contain non-empty strings")
  raise_if (not (is_sorted r.mesh_required_environments))
      (value_error "mesh_required_environments must be sorted for deterministic output")
  ok r
