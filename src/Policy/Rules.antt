-- ===== src/Policy/Rules.antt =====
-- `Policy` of policy.py, with its dict and its digest.
use governed_autonomy_substr.Base.{Dict, List, String, [], sorted_items, ◌++◌, ◌∷◌}
use governed_autonomy_substr.Base.Int.{ℤ}
use governed_autonomy_substr.Platform.{Platform, digest}
use governed_autonomy_substr.Value.{Float, Value, dict, finite, float, integer, text, texts}

-- A limit is stored as the int or the float that it was given as.
pub data NumericLimit : Type 0 where
  int_limit : ℤ → NumericLimit
  float_limit : Float → NumericLimit

pub record Policy : Type 0 where
  pub policy_id : String
  pub allowed_actions : List String
  pub required_fields : Dict (List String)
  pub exact_fields : Dict (Dict Value)
  pub required_context : List String
  pub exact_context : Dict Value
  pub max_request_bytes : ℤ
  pub max_ttl_seconds : ℤ
  pub required_approvals : Dict ℤ
  pub max_numeric_fields : Dict (Dict NumericLimit)
  pub required_mesh_inputs : Dict ℤ
  pub required_mesh_sources : Dict (List String)
  pub mesh_required_actions : List String
  pub mesh_required_environments : List String

abbrev pub limit_value : NumericLimit → Value
limit_value (int_limit n) = integer n
limit_value (float_limit x) = float x

-- The number that values are compared with.
abbrev pub limit_float : NumericLimit → Float
limit_float (int_limit n) = finite n 0
limit_float (float_limit x) = x

abbrev pub map_values {ℓ κ} : {A : Type ℓ} {B : Type κ} → (A → B) → Dict A → Dict B
map_values f [] = []
map_values f ((k, v) ∷ d) = (k, f v) ∷ map_values f d

-- `if values: result[key] = ...`.
abbrev pub unless_empty {ℓ} : {A : Type ℓ} → List A → String → Value → Dict Value
unless_empty [] key v = []
unless_empty (x ∷ xs) key v = (key, v) ∷ []

abbrev pub sorted_dict {ℓ} : {A : Type ℓ} → (A → Value) → Dict A → Value
sorted_dict f d = dict (map_values f (sorted_items d))

abbrev pub limits_value : Dict NumericLimit → Value
limits_value limits = sorted_dict limit_value limits

unfoldable pub policy_to_dict : Policy → Dict Value
policy_to_dict r =
    ("policy_id", text r.policy_id)
    ∷ ("allowed_actions", texts r.allowed_actions)
    ∷ ("required_fields", sorted_dict texts r.required_fields)
    ∷ ("exact_fields", sorted_dict dict r.exact_fields)
    ∷ ("required_context", texts r.required_context)
    ∷ ("exact_context", dict r.exact_context)
    ∷ ("max_request_bytes", integer r.max_request_bytes)
    ∷ ("max_ttl_seconds", integer r.max_ttl_seconds)
    ∷ ("required_approvals", sorted_dict integer r.required_approvals)
    ∷ (unless_empty r.max_numeric_fields "max_numeric_fields"
          (sorted_dict limits_value r.max_numeric_fields)
        ++ (unless_empty r.required_mesh_inputs "required_mesh_inputs"
              (sorted_dict integer r.required_mesh_inputs)
            ++ (unless_empty r.required_mesh_sources "required_mesh_sources"
                  (sorted_dict texts r.required_mesh_sources)
                ++ (unless_empty r.mesh_required_actions "mesh_required_actions"
                      (texts r.mesh_required_actions)
                    ++ unless_empty r.mesh_required_environments "mesh_required_environments"
                        (texts r.mesh_required_environments)))))

module _ ⦃p : Platform⦄ where
  unfoldable pub policy_digest : Policy → String
  policy_digest r = digest (dict (policy_to_dict r))
