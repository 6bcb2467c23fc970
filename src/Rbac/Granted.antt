-- ===== src/Rbac/Granted.antt =====
-- The roles of an identity are those that its claims stand for.
use governed_autonomy_substr.Base.{
  Among, Bool-cases, Dict, List, Option-cases, String, [], ap, arith, eq_text, eq_text-true, false,
  inl, inr, is_blank, lookup, ok, some, sym, true, ◌++◌, ◌↔◌, ◌∙◌, ◌∷◌, ◌≡◌, ◌⊎◌,
}
use governed_autonomy_substr.Engine.Execution.{claimed}
use governed_autonomy_substr.Rbac.{
  ClaimsIdentity, ClaimsMapper, Role, Unicode, as_texts, candidates, eq_role, has_role,
  identity_for, is_app, map_to_identity, or_else, roles_of, service_principal_role,
}
use governed_autonomy_substr.Rbac.Reasons.{
  Claimed, Grants, eq_role-true, roles_of_complete, roles_of_sound,
}
use governed_autonomy_substr.Value.{Value, as_text, get}

Among-++ : (x : String) (xs ys : List String) → Among x (xs ++ ys) ↔ (Among x xs ⊎ Among x ys)
Among-++ x [] ys =
    ((λ h. inr h), (λ h. elim h [ inl none_there ↦ elim none_there [ ] | inr k ↦ k ]))
Among-++ x (z ∷ zs) ys =
    let (there, back) = Among-++ x zs ys in
    (
      (λ h. elim h [
        | inl same ↦ inl (inl same)
        | inr later ↦ elim (there later) [ inl k ↦ inl (inr k) | inr k ↦ inr k ]
      ]),
      (λ h. elim h [
        | inl k ↦ elim k [ inl same ↦ inl same | inr later ↦ inr (back (inl later)) ]
        | inr k ↦ inr (back (inr k))
      ]),
    )

candidates-Claimed :
    ⦃u : Unicode⦄ (token : Dict Value) (item : String)
    → Among item (candidates token) ↔ Claimed token item
unfolding candidates
candidates-Claimed token item =
    let a = as_texts (get "roles" token) in
    let b = as_texts (get "scope" token) in
    let c = as_texts (get "scp" token) in
    let d = as_texts (get "groups" token) in
    let (there, back) = Among-++ item a (b ++ (c ++ d)) in
    let (there', back') = Among-++ item b (c ++ d) in
    let (there'', back'') = Among-++ item c d in
    (
      (λ h. elim (there h) [
        | inl k ↦ inl k
        | inr k ↦ elim (there' k) [
          | inl k' ↦ inr (inl k')
          | inr k' ↦ elim (there'' k') [
            | inl k'' ↦ inr (inr (inl k''))
            | inr k'' ↦ inr (inr (inr (inl k'')))
          ]
        ]
      ]),
      (λ h. elim h [
        | inl k ↦ back (inl k)
        | inr k ↦ elim k [
          | inl k' ↦ back (inr (back' (inl k')))
          | inr k' ↦ elim k' [
            | inl k'' ↦ back (inr (back' (inr (back'' (inl k'')))))
            | inr k'' ↦ elim k'' [
              | inl last ↦ back (inr (back' (inr (back'' (inr last)))))
              | inr no_more ↦ elim no_more [ ]
            ]
          ]
        ]
      ]),
    )

map_to_identity-ok :
    ⦃u : Unicode⦄ (m : ClaimsMapper) (token : Dict Value) (caller : ClaimsIdentity)
    → map_to_identity m token ≡ ok caller
    → (is_blank caller.subject ≡ false) × (caller ≡ identity_for m token caller.subject)
unfolding map_to_identity identity_for
map_to_identity-ok m token caller e =
    elim (Option-cases (as_text (or_else (get "oid" token) (get "sub" token)))) [
      | inl absent ↦ absurd (ground arith)
      | inr (found, known) ↦ elim (Bool-cases (is_blank found)) [
        | inl blank ↦ absurd (ground arith)
        | inr filled_in ↦ ground arith
      ]
    ]

identity_for_sound :
    ⦃u : Unicode⦄ (m : ClaimsMapper) (token : Dict Value) (found : String) (r : Role)
    → has_role r (identity_for m token found).roles ≡ true
    → ((as_text (get "idtyp" token) ≡ some "app") × (r ≡ service_principal_role))
      ⊎ ((item : String) × Claimed token item × Grants m item r)
unfolding identity_for
identity_for_sound m token found r e =
    let granted : has_role r (roles_of m (candidates token)) ≡ true
        → (item : String) × Claimed token item × Grants m item r =
      λ held.
        let (item, among, why) = roles_of_sound m r (candidates token) held in
        (item, (candidates-Claimed token item).0 among, why) in
    elim (Option-cases (as_text (get "idtyp" token))) [
      | inl absent ↦ inr (granted (ground arith))
      | inr (s, kind) ↦ elim (Bool-cases (eq_text s "app")) [
        | inr person ↦ inr (granted (ground arith))
        | inl app ↦ elim (Bool-cases (eq_role r service_principal_role)) [
          | inl same ↦ inl (
            kind ∙ ap some (eq_text-true s "app" app),
            eq_role-true r service_principal_role same,
          )
          | inr other ↦ inr (granted (ground arith))
        ]
      ]
    ]

identity_for_complete :
    ⦃u : Unicode⦄ (m : ClaimsMapper) (token : Dict Value) (found item : String) (r : Role)
    → Claimed token item
    → lookup item m.role_mapping ≡ some r
    → has_role r (identity_for m token found).roles ≡ true
unfolding identity_for
identity_for_complete m token found item r claimed mapped =
    let held =
      roles_of_complete m r item (candidates token) ((candidates-Claimed token item).1 claimed)
        mapped in
    elim (Bool-cases (is_app token)) [ inl app ↦ ground arith | inr person ↦ ground arith ]

-- An identity that the mapper returns has a subject that is not empty. It holds a role only if the claims are
-- of an app and the role is that of a service principal, or an item of the roles, scopes or groups of the
-- claims grants it, by the mapping, by the normalized mapping, or by the role's own value or name; and it
-- holds the role of every such item that the mapping has.
pub map_to_identity-roles :
    ⦃u : Unicode⦄ (m : ClaimsMapper) (token : Dict Value) (caller : ClaimsIdentity)
    → map_to_identity m token ≡ ok caller
    → (is_blank caller.subject ≡ false)
      × ((r : Role)
          → has_role r caller.roles ≡ true
          → ((as_text (get "idtyp" token) ≡ some "app") × (r ≡ service_principal_role))
            ⊎ ((item : String) × Claimed token item × Grants m item r))
      × ((item : String) (r : Role)
          → Claimed token item
          → lookup item m.role_mapping ≡ some r
          → has_role r caller.roles ≡ true)
map_to_identity-roles m token caller e =
    let (filled_in, same) = map_to_identity-ok m token caller e in
    let roles_eq = ap (λ (c : ClaimsIdentity). c.roles) same in
    (
      filled_in,
      λ r held. identity_for_sound m token caller.subject r (ap (has_role r) (sym roles_eq) ∙ held),
      λ item r claimed mapped.
          ap (has_role r) roles_eq
          ∙ identity_for_complete m token caller.subject item r claimed mapped,
    )
