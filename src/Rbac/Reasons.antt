-- ===== src/Rbac/Reasons.antt =====
-- Why an item of the claims grants a role.
use governed_autonomy_substr.Base.{
  Among, Any, Bool-cases, Dict, List, Option-cases, String, String-discrete, [], ap, arith, eq_text,
  eq_text-true, if◌then◌else◌, inl, inr, lookup, refl, some, sym, true, ◌∙◌, ◌∷◌, ◌≡◌, ◌⊎◌,
}
use governed_autonomy_substr.Rbac.{
  ClaimsMapper, Role, Unicode, all_roles, approver_role, as_texts, auditor, eq_role, has_role,
  named_role, operator, platform_admin, policy_admin, role_name, role_of, role_value, roles_of,
  service_principal_role,
}
use governed_autonomy_substr.Value.{Value, get}

-- Why an item of the claims grants a role: the mapping has it, the normalized mapping has its normalized form,
-- or that is the normalized form of the role's own value or name.
abbrev pub Grants : ⦃u : Unicode⦄ → ClaimsMapper → String → Role → Type 0
Grants ⦃u⦄ m item r =
    (lookup item m.role_mapping ≡ some r)
    ⊎ (lookup (u.lower_alnum item) m.normalized_role_mapping ≡ some r)
    ⊎ (u.lower_alnum item ≡ u.lower_alnum (role_value r))
    ⊎ (u.lower_alnum item ≡ u.lower_alnum (role_name r))

-- An item of the claims that may grant roles.
abbrev pub Claimed : ⦃u : Unicode⦄ → Dict Value → String → Type 0
Claimed token item =
    Any (λ (key : String). Among item (as_texts (get key token)))
      ("roles" ∷ "scope" ∷ "scp" ∷ "groups" ∷ [])

abbrev role_with_value : String → Role
role_with_value v =
    if eq_text v "platform_admin"
    then platform_admin
    else (if eq_text v "policy_admin"
        then policy_admin
        else (if eq_text v "operator"
            then operator
            else (if eq_text v "auditor"
                then auditor
                else (if eq_text v "approver" then approver_role else service_principal_role))))

role_with_value-role_value : (r : Role) → role_with_value (role_value r) ≡ r
unfolding String-discrete
role_with_value-role_value platform_admin = refl
role_with_value-role_value policy_admin = refl
role_with_value-role_value operator = refl
role_with_value-role_value auditor = refl
role_with_value-role_value approver_role = refl
role_with_value-role_value service_principal_role = refl

pub eq_role-true : (r s : Role) → eq_role r s ≡ true → r ≡ s
eq_role-true r s e =
    sym (role_with_value-role_value r)
    ∙ ap role_with_value (eq_text-true (role_value r) (role_value s) e)
    ∙ role_with_value-role_value s

named_role_sound :
    ⦃u : Unicode⦄ (item : String) (rs : List Role) (r : Role)
    → named_role item rs ≡ some r
    → (item ≡ u.lower_alnum (role_value r)) ⊎ (item ≡ u.lower_alnum (role_name r))
named_role_sound item [] r e = absurd (ground arith)
named_role_sound ⦃u⦄ item (s ∷ rs) r e =
    elim (Bool-cases (eq_text item (u.lower_alnum (role_value s)))) [
      | inl by_value ↦
          let same : s ≡ r = ground arith in
          inl (eq_text-true item _ by_value ∙ ap (λ (x : Role). u.lower_alnum (role_value x)) same)
      | inr no_value ↦ elim (Bool-cases (eq_text item (u.lower_alnum (role_name s)))) [
        | inl by_name ↦
            let same : s ≡ r = ground arith in
            inr (eq_text-true item _ by_name ∙ ap (λ (x : Role). u.lower_alnum (role_name x)) same)
        | inr no_name ↦ named_role_sound item rs r (ground arith)
      ]
    ]

role_of-Grants :
    ⦃u : Unicode⦄ (m : ClaimsMapper) (item : String) (r : Role)
    → role_of m item ≡ some r
    → Grants m item r
unfolding role_of
role_of-Grants ⦃u⦄ m item r e = elim (Option-cases (lookup item m.role_mapping)) [
  | inr (s, mapped) ↦ inl (ground arith)
  | inl unmapped ↦ elim (Option-cases (lookup (u.lower_alnum item) m.normalized_role_mapping)) [
    | inr (s, mapped) ↦ inr (inl (ground arith))
    | inl unnormalized ↦
        inr (inr (named_role_sound (u.lower_alnum item) all_roles r (ground arith)))
  ]
]

-- A role of the items is granted by one of them.
pub roles_of_sound :
    ⦃u : Unicode⦄ (m : ClaimsMapper) (r : Role) (claimed : List String)
    → has_role r (roles_of m claimed) ≡ true
    → (item : String) × Among item claimed × Grants m item r
unfolding roles_of
roles_of_sound m r [] e = absurd (ground arith)
roles_of_sound m r (c ∷ cs) e = elim (Option-cases (role_of m c)) [
  | inl grants_none ↦
      let (item, among, why) = roles_of_sound m r cs (ground arith) in (item, inr among, why)
  | inr (s, granted) ↦ elim (Bool-cases (eq_role r s)) [
    | inl same ↦
        let grants : role_of m c ≡ some r = granted ∙ ap some (sym (eq_role-true r s same)) in
        (c, inl refl, role_of-Grants m c r grants)
    | inr other ↦
        let (item, among, why) = roles_of_sound m r cs (ground arith) in (item, inr among, why)
  ]
]

-- A mapped item grants its role.
pub roles_of_complete :
    ⦃u : Unicode⦄ (m : ClaimsMapper) (r : Role) (item : String) (claimed : List String)
    → Among item claimed
    → lookup item m.role_mapping ≡ some r
    → has_role r (roles_of m claimed) ≡ true
unfolding roles_of role_of
roles_of_complete m r item [] among e = elim among [ ]
roles_of_complete m r item (c ∷ cs) (inl same) e =
    let mapped : lookup c m.role_mapping ≡ some r =
      ap (λ (x : String). lookup x m.role_mapping) (sym same) ∙ e in
    ground arith
roles_of_complete m r item (c ∷ cs) (inr later) e = elim (Option-cases (role_of m c)) [
  | inl grants_none ↦ ground (arith, roles_of_complete m r item cs later e)
  | inr (s, granted) ↦ ground (arith, roles_of_complete m r item cs later e)
]
